-- ===== src/Redis/Calls.antt =====
-- The methods of adapters/redis/store.go, on a server that may fail.
use Prim.Native.String.{String, ◌++◌}
use go_memoize.Base.{true, false, Bool-cases, Option, none, some, ◌≡◌, ◌⊎◌, inl, inr, refl, ap}
use go_memoize.Base.Result.{Result, ok, err, >>=-eq-ok}
use go_memoize.Stored.{Stored}
use go_memoize.Store.{Ctx, Found, Error, zero_stored}
use go_memoize.Store.Laws.{found}
use go_memoize.Redis.{Go, Envelope, RedisStore, storage_ttl}
use go_memoize.Redis.Methods.{
  encoder, key_of, envelope, from_value, from_envelope, from_reply, get, encoded_entry, send, set,
  delete, clear, prefixed,
}
use go_memoize.Redis.Keys.{stem, prefixed-stem}
use go_memoize.Redis.Scans.{del_all-Shrunk, gone-stays, del_all-gone}
use go_memoize.Redis.Server.{is_plain, Untouched, Apart, ServerLaws, CodecLaws}

module _ {K V C Bytes : Type 0} {go : Go K V Bytes} {s : RedisStore K V C Bytes}
    {at : C → String → Option Bytes} (server : ServerLaws go s at) (codec : CodecLaws go s at) where
  -- the entry of a reply
  abbrev seen : Found (Stored V) → Option (Stored V)
  seen (e, true, x) = some e
  seen (e, false, x) = none

  abbrev value_entry : Option Bytes → Option (Stored V)
  value_entry none = none
  value_entry (some bytes) = seen (from_envelope go s (go.json_unmarshal bytes))

  -- The entry that the server holds for a key: the one its value decodes to.
  abbrev pub held : C → K → Option (Stored V)
  held c k = value_entry (at c (key_of go s k))

  -- Every value under a key of the store decodes.
  abbrev pub Readable : C → Type 0
  Readable c = (k : K) → (at c (key_of go s k) ≡ none) ⊎ ((e : Stored V) × (held c k ≡ some e))

  -- a decoded value is an entry, or an error
  value-cases :
      (env : Envelope Bytes) (r : Result Error V)
      → ((e : Stored V) × (from_value go env r ≡ (e, true, none)))
        ⊎ ((x : Error) × (from_value go env r ≡ (zero_stored go.zero, false, some x)))
  unfolding from_value
  value-cases env (ok v) = inl (_, refl)
  value-cases env (err x) = inr (x, refl)

  pub envelope-cases :
      (r : Result Error (Envelope Bytes))
      → ((e : Stored V) × (from_envelope go s r ≡ (e, true, none)))
        ⊎ ((x : Error) × (from_envelope go s r ≡ (zero_stored go.zero, false, some x)))
  unfolding from_envelope
  envelope-cases (ok env) = value-cases env (s.serializer.unmarshal env.value)
  envelope-cases (err x) = inr (x, refl)

  decode-encoded :
      (v : Stored V) (bytes : Bytes)
      → encoded_entry go s v ≡ ok bytes
      → from_envelope go s (go.json_unmarshal bytes) ≡ (v, true, none)
  unfolding encoded_entry from_envelope from_value envelope
  decode-encoded v bytes h =
      let (value, marshalled, rest) =
        >>=-eq-ok (s.serializer.marshal v.value) (λ b. go.json_marshal (envelope v b)) h in
      let env = codec.json_unmarshal-json_marshal (envelope v value) bytes rest in
      let back = codec.unmarshal-marshal v.value value marshalled in rw (env, back) refl

  -- What `Get` answers: the entry, or an error.
  reply_sound :
      (ctx : Ctx) (k : K) (c : C) (r : Result Error Bytes)
      → (s.client.get ctx (key_of go s k) c).0 ≡ r
      → (from_reply go s r ≡ found go.zero (held c k))
        ⊎ ((x : Error) × (from_reply go s r ≡ (zero_stored go.zero, false, some x)))
  unfolding from_reply
  reply_sound ctx k c (ok bytes) e =
      let value = server.get-value ctx (key_of go s k) c bytes e in
      elim (envelope-cases (go.json_unmarshal bytes)) [
        | inl (v, read) ↦ inl (rw (value, read) refl)
        | inr failed ↦ inr failed
      ]
  reply_sound ctx k c (err x) e = elim (Bool-cases (s.client.is_nil x)) [
    | inl nil ↦ inl (rw (nil, server.get-nil ctx (key_of go s k) c x e nil) refl)
    | inr other ↦ inr (x, rw other refl)
  ]

  -- What a `Set` of `v` does.
  abbrev pub SetSound : K → Stored V → C → Option Error × C → Type 0
  SetSound key v c r =
      (r.0 ≡ none → held r.1 key ≡ some v)
      × ((held r.1 key ≡ some v) ⊎ (held r.1 key ≡ held c key))
      × Apart at (key_of go s key) c r.1

  set_sound :
      (ctx : Ctx) (key : K) (v : Stored V) (c : C) (r : Result Error Bytes)
      → encoded_entry go s v ≡ r
      → SetSound key v c (send go s ctx key v r c)
  unfolding send
  set_sound ctx key v c (err x) e = (λ h. absurd (cc), inr refl, λ j n. refl)
  set_sound ctx key v c (ok bytes) e =
      let k = key_of go s key in
      let ttl = storage_ttl v (s.client.now c) in
      let back = decode-encoded v bytes e in
      (
        λ done. rw (server.set-value ctx k bytes ttl c done, back) refl,
        elim (server.set-failed ctx k bytes ttl c) [
          | inl new ↦ inl (rw (new, back) refl)
          | inr old ↦ inr (ap value_entry old)
        ],
        server.set-Apart ctx k bytes ttl c,
      )

  abbrev pub Deleted : K → C → Option Error × C → Type 0
  Deleted key c r =
      (r.0 ≡ none → held r.1 key ≡ none)
      × ((held r.1 key ≡ none) ⊎ (held r.1 key ≡ held c key))
      × Apart at (key_of go s key) c r.1

  delete-Deleted : (ctx : Ctx) (key : K) (c : C) → Deleted key c (delete go s ctx key c)
  unfolding delete
  delete-Deleted ctx key c =
      let k = key_of go s key in
      (
        λ done. ap value_entry (server.del-gone ctx k c done),
        elim (server.del-Shrunk ctx k c) [
          | inl gone ↦ inl (ap value_entry gone)
          | inr same ↦ inr (ap value_entry same)
        ],
        server.del-Apart ctx k c,
      )

  -- What `Clear` does, which finds the keys of the store by a pattern.
  abbrev pub Cleared : C → Option Error × C → Type 0
  Cleared c r =
      (is_plain (stem go s) ≡ true → r.0 ≡ none → (k : K) → held r.1 k ≡ none)
      × ((k : K) → (held r.1 k ≡ none) ⊎ (held r.1 k ≡ held c k))

  cleared-gone :
      (ctx : Ctx) (c : C) (k : K)
      → is_plain (stem go s) ≡ true
      → (clear go s ctx c).0 ≡ none
      → at (clear go s ctx c).1 (key_of go s k) ≡ none
  unfolding clear key_of
  cleared-gone ctx c k plain =
      let start = stem go s in
      let rest = encoder go s.key_encoder k in
      let r = s.client.scan ctx 0 (start ++ "*") 100 c in
      rw (prefixed-stem go s "*", prefixed-stem go s rest)
        (λ done.
          let all = del_all-gone server ctx r.0 r.1 (start ++ rest) c done in
          elim (server.scan-lists ctx c start rest plain all.0) [
            | inl gone ↦ gone-stays server ctx r.0 r.1 (start ++ rest) c gone
            | inr listed ↦ all.1 listed
          ])

  pub clear-Cleared : (ctx : Ctx) (c : C) → Cleared c (clear go s ctx c)
  unfolding clear
  clear-Cleared ctx c =
      let r = s.client.scan ctx 0 (prefixed go s "*") 100 c in
      (
        λ plain done k. ap value_entry (cleared-gone ctx c k plain done),
        λ k. elim (del_all-Shrunk server ctx r.0 r.1 (key_of go s k) c) [
          | inl gone ↦ inl (ap value_entry gone)
          | inr same ↦ inr (ap value_entry same)
        ],
      )

  -- Whatever fails, on a server that meets the laws of Server: `Get` answers with the entry that
  -- the server holds for its key, or with an error, and changes no value. `Set` and `Delete`
  -- change no other key. Without an error a lookup finds the new entry, or none; with one it may
  -- also find the old entry. `Clear` changes no entry that it does not drop. If the prefix, as it
  -- stands in the names, has none of the characters `*`, `?`, `[` and `\`, it has dropped those of
  -- all keys when it returns no error.
  pub requests_sound :
      (ctx : Ctx) (key : K) (v : Stored V) (c : C)
      → (((get go s ctx key c).0 ≡ found go.zero (held c key))
          ⊎ ((x : Error) × ((get go s ctx key c).0 ≡ (zero_stored go.zero, false, some x))))
        × Untouched at c (get go s ctx key c).1
        × SetSound key v c (set go s ctx key v c)
        × Deleted key c (delete go s ctx key c)
        × Cleared c (clear go s ctx c)
  unfolding get set
  requests_sound ctx key v c = (
    reply_sound ctx key c _ refl,
    server.get-Untouched ctx _ c,
    set_sound ctx key v c _ refl,
    delete-Deleted ctx key c,
    clear-Cleared ctx c,
  )
