-- ===== src/Redis/Laws.antt =====
-- adapters/redis/store.go meets the contract of a store on a server that does not fail.
use Prim.Native.String.{String}
use go_memoize.Base.{true, List, [], ◌∷◌, Option, none, ◌≡◌, ◌≢◌, ◌⊎◌, inl, inr, refl}
use go_memoize.Base.Result.{Result, ok, err}
use go_memoize.Base.Strings.{string_discrete}
use go_memoize.Stored.{Stored}
use go_memoize.Store.{Ctx, Error}
use go_memoize.Store.Laws.{StoreLaws, MapLaws, found}
use go_memoize.Redis.{Go, RedisStore}
use go_memoize.Redis.Methods.{
  prefixed, key_of, envelope, from_reply, get, encoded_entry, send, set, delete, unless_error,
  del_all, clear, redis_store,
}
use go_memoize.Redis.Server.{is_plain, Untouched, ServerLaws, CodecLaws, Reliable}
use go_memoize.Redis.Keys.{stem}
use go_memoize.Redis.Scans.{del_all-Shrunk}
use go_memoize.Redis.Calls.{held, Readable, envelope-cases, clear-Cleared, requests_sound}

module _ {K V C Bytes : Type 0} {go : Go K V Bytes} {s : RedisStore K V C Bytes}
    {at : C → String → Option Bytes} (server : ServerLaws go s at) (codec : CodecLaws go s at)
    (reliable : Reliable go s at) (distinct : (k j : K) → key_of go s k ≡ key_of go s j → k ≡ j)
    (plain : is_plain (stem go s) ≡ true) where
  abbrev pub entry : C → K → Option (Stored V)
  entry = held server codec

  abbrev pub Valid : C → Type 0
  Valid = Readable server codec

  reply-law :
      (ctx : Ctx) (k : K) (c : C) (r : Result Error Bytes)
      → (s.client.get ctx (key_of go s k) c).0 ≡ r
      → Valid c
      → from_reply go s r ≡ found go.zero (entry c k)
  unfolding from_reply
  reply-law ctx k c (err x) e valid =
      let nil = reliable.get-errors ctx (key_of go s k) c x e in
      rw (nil, server.get-nil ctx (key_of go s k) c x e nil) refl
  reply-law ctx k c (ok bytes) e valid =
      let value = server.get-value ctx (key_of go s k) c bytes e in
      elim (envelope-cases server codec (go.json_unmarshal bytes)) [
        | inl (v, read) ↦ rw (value, read) refl
        | inr (x, failed) ↦
            let nothing : entry c k ≡ none = rw (value, failed) refl in
            elim (valid k) [
              | inl gone ↦ absurd (cc (gone, value))
              | inr (v, found) ↦ absurd (cc (nothing, found))
            ]
      ]

  set-error : (ctx : Ctx) (k : K) (v : Stored V) (c : C) → (set go s ctx k v c).0 ≡ none
  unfolding set encoded_entry send
  set-error ctx k v c =
      let value = reliable.marshal-ok v.value in
      let bytes = reliable.json_marshal-ok (envelope v value.0) in
      rw (value.1, bytes.1) (reliable.set-none ctx _ _ _ c)

  del_all-error : (ctx : Ctx) (ks : List String) (c : C) → (del_all go s ctx ks none c).0 ≡ none
  unfolding del_all unless_error
  del_all-error ctx [] c = refl
  del_all-error ctx (k ∷ ks) c =
      rw (reliable.del-none ctx k c) (del_all-error ctx ks (s.client.del ctx k c).1)

  clear-error : (ctx : Ctx) (c : C) → (clear go s ctx c).0 ≡ none
  unfolding clear
  clear-error ctx c = rw (reliable.scan-none ctx c) (del_all-error ctx _ c)

  Untouched-Valid : (c d : C) → Untouched at c d → Valid c → Valid d
  Untouched-Valid c d same valid k = rw (same (key_of go s k)) (valid k)

  Shrunk-Valid :
      (c d : C) → ((q : String) → (at d q ≡ none) ⊎ (at d q ≡ at c q)) → Valid c → Valid d
  Shrunk-Valid c d shrunk valid k = elim (shrunk (key_of go s k)) [
    | inl gone ↦ inl gone
    | inr same ↦ rw same (valid k)
  ]

  -- the names of other keys
  key-apart : (k j : K) → j ≢ k → key_of go s j ≢ key_of go s k
  key-apart k j n e = n (distinct j k e)

  set-Valid : (ctx : Ctx) (k : K) (v : Stored V) (c : C) → Valid c → Valid (set go s ctx k v c).1
  set-Valid ctx k v c valid j =
      let sound = (requests_sound server codec ctx k v c).2 in
      let own = sound.0 (set-error ctx k v c) in
      elim (string_discrete (key_of go s j) (key_of go s k)) [
        | yes e ↦ inr (v, rw (distinct j k e) own)
        | no other ↦ rw (sound.2 (key_of go s j) other) (valid j)
      ]

  del-Valid : (ctx : Ctx) (k : K) (c : C) → Valid c → Valid (delete go s ctx k c).1
  unfolding delete
  del-Valid ctx k c = Shrunk-Valid c _ (λ q. elim (string_discrete q (key_of go s k)) [
    | yes e ↦ inl (rw e (server.del-gone ctx _ c (reliable.del-none ctx _ c)))
    | no other ↦ inr (server.del-Apart ctx _ c q other)
  ])

  clear-Valid : (ctx : Ctx) (c : C) → Valid c → Valid (clear go s ctx c).1
  unfolding clear
  clear-Valid ctx c =
      let r = s.client.scan ctx 0 (prefixed go s "*") 100 c in
      Shrunk-Valid c _ (λ q. del_all-Shrunk server ctx r.0 r.1 q c)

  -- the laws without what `Set` does to other keys
  redis_store-StoreLaws : StoreLaws go.zero (redis_store go s) Valid entry
  unfolding redis_store get delete
  redis_store-StoreLaws = record {
    get-view = λ ctx k c valid.
        let still = server.get-Untouched ctx (key_of go s k) c in
        (
          reply-law ctx k c _ refl valid,
          record {
            valid = Untouched-Valid c _ still valid;
            same = λ j. rw (still (key_of go s j)) refl;
          },
        );
    peek-view = λ peek ctx k c e valid. absurd (cc);
    peek_fresh_value-view = λ ask ctx k now c e valid. absurd (cc);
    set-view = λ ctx k v c valid.
        let sound = (requests_sound server codec ctx k v c).2 in
        (
          set-error ctx k v c,
          set-Valid ctx k v c valid,
          sound.0 (set-error ctx k v c),
          λ j n. inr (rw (sound.2 (key_of go s j) (key-apart k j n)) refl),
        );
    delete-view = λ ctx k c valid.
        let name = key_of go s k in
        (
          reliable.del-none ctx name c,
          del-Valid ctx k c valid,
          rw (server.del-gone ctx name c (reliable.del-none ctx name c)) refl,
          λ j n. rw (server.del-Apart ctx name c (key_of go s j) (key-apart k j n)) refl,
        );
    clear-view = λ ctx c valid. (
      clear-error ctx c,
      clear-Valid ctx c valid,
      (clear-Cleared server codec ctx c).0 plain (clear-error ctx c),
    );
  }

  -- On a server whose values under the store's keys decode, where calls do not fail and no two keys
  -- share a name, and with a prefix that, as it stands in the names, has none of the characters `*`,
  -- `?`, `[` and `\`, the store implements the interface of a store: a lookup answers with the entry last set and changes
  -- nothing, `Set` and `Delete` change their key and no other, `Clear` drops all keys, no call
  -- returns an error, and the values go on to decode.
  pub redis_store-MapLaws : MapLaws go.zero (redis_store go s) Valid entry
  unfolding redis_store
  redis_store-MapLaws = (
    redis_store-StoreLaws,
    λ ctx k v c valid j n.
        rw ((requests_sound server codec ctx k v c).2.2 (key_of go s j) (key-apart k j n)) refl,
  )
