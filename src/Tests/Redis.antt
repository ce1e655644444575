-- ===== src/Tests/Redis.antt =====
-- The Redis adapter on a concrete server: a log of what was set and deleted, the latest first.
use Prim.Native.String.{String, ◌++◌}
use go_memoize.Base.Strings.{string_discrete}
use go_memoize.Base.{
  ℕ, ◌<◌, ◌≤◌, ◌==◌, Bool, true, false, Option, none, some, List, [], ◌∷◌, ite, ◌≡◌, ◌≢◌, ◌⊎◌, inl,
  inr, refl, ap, sym, arith, if_pos, if_neg, ◌∙◌,
}
use go_memoize.Base.Int.{pos}
use go_memoize.Base.Result.{Result, ok, err}
use go_memoize.Time.{Time, add}
use go_memoize.Stored.{Stored, state, expired, fresh}
use go_memoize.Store.{Error, background, external, zero_stored}
use go_memoize.Store.Laws.{MapLaws, found}
use go_memoize.Redis.{Go, Client, Envelope, RedisStore, text, storage_ttl}
use go_memoize.Redis.Methods.{
  default_key_encoder, encode_dynamic, encoder, key_of, get, set, delete, clear, redis_store,
}
use go_memoize.Redis.Server.{is_plain, Listed, ServerLaws, CodecLaws, Reliable, Untouched}
use go_memoize.Redis.Keys.{stem, key_of-injective}
use go_memoize.Redis.Deadline.{storage_ttl-state}
use go_memoize.Redis.Calls.{held, SetSound, Deleted, Cleared, requests_sound}
use go_memoize.Redis.Laws.{Valid, entry, redis_store-MapLaws}

-- encoded values and envelopes
data Bytes : Type 0 where
  plain : ℕ → Bytes
  boxed : Bytes → Time → Time → Time → Bool → String → List String → Bytes

abbrev Log : Type 0
Log = List (String × Option Bytes)

abbrev look : Log → String → Option Bytes
look [] p = none
look ((q, b) ∷ c) p = ite (string_discrete q p) b (look c p)

abbrev keys : Log → List String
keys [] = []
keys ((q, b) ∷ c) = q ∷ keys c

abbrev nil : Error
nil = external 1

abbrev is_nil : Error → Bool
is_nil (external n) = n == 1
is_nil e = false

abbrev reply : Option Bytes → Result Error Bytes
reply none = err nil
reply (some b) = ok b

abbrev client : Client Log Bytes
client = record {
  get = λ ctx k c. (reply (look c k), c);
  set = λ ctx k bytes ttl c. (none, (k, some bytes) ∷ c);
  del = λ ctx k c. (none, (k, none) ∷ c);
  scan = λ ctx cursor pattern count c. (keys c, none);
  is_nil = is_nil;
  now = λ c. 5;
}

abbrev pack : Envelope Bytes → Result Error Bytes
pack env = ok (
    boxed env.value env.created_at env.fresh_until env.stale_until env.no_expire env.version
      env.tags)

abbrev unpack : Bytes → Result Error (Envelope Bytes)
unpack (plain n) = err (external 3)
unpack (boxed value created until until_stale no_expire version tags) = ok (record {
  value = value;
  created_at = created;
  fresh_until = until;
  stale_until = until_stale;
  no_expire = no_expire;
  version = version;
  tags = tags;
})

abbrev number : Bytes → Result Error ℕ
number (plain n) = ok n
number (boxed _ _ _ _ _ _ _) = err (external 4)

abbrev go : Go String ℕ Bytes
go = record {
  zero = 0;
  dynamic = text;
  format_uint = λ n. "";
  format_int = λ n. "";
  sprint = λ k. k;
  trim_right = λ s cut. s;
  json_marshal = pack;
  json_unmarshal = unpack;
}

abbrev plain_of : ℕ → Result Error Bytes
plain_of n = ok (plain n)

abbrev users : RedisStore String ℕ Log Bytes
users = record {
  client = client;
  prefix = "users";
  serializer = record { marshal = plain_of; unmarshal = number };
  key_encoder = none;
}

look_self : (c : Log) (p : String) (b : Option Bytes) → look ((p, b) ∷ c) p ≡ b
look_self c p b = if_pos (string_discrete p p) refl b (look c p)

look_ne : (c : Log) (p q : String) (b : Option Bytes) → q ≢ p → look ((p, b) ∷ c) q ≡ look c q
look_ne c p q b n = if_neg (string_discrete p q) (λ e. n (sym e)) b (look c q)

reply_value : (o : Option Bytes) (b : Bytes) → reply o ≡ ok b → o ≡ some b
reply_value none b e = absurd (cc)
reply_value (some a) b e = cc

reply_nil : (o : Option Bytes) (x : Error) → reply o ≡ err x → (o ≡ none) × (is_nil x ≡ true)
reply_nil none x e = let same : nil ≡ x = cc in rw (sym same) (refl, refl)
reply_nil (some a) x e = absurd (cc)

keys-list : (c : Log) (p : String) → (look c p ≡ none) ⊎ Listed p (keys c)
keys-list [] p = inl refl
keys-list ((q, b) ∷ c) p = elim (string_discrete q p) [
  | yes e ↦ inr (inl e)
  | no other ↦ elim (keys-list c p) [
    | inl gone ↦ inl (if_neg (string_discrete q p) other b (look c p) ∙ gone)
    | inr listed ↦ inr (inr listed)
  ]
]

server : ServerLaws go users look
server = record {
  get-value = λ ctx k c b e. reply_value (look c k) b e;
  get-nil = λ ctx k c x e h. (reply_nil (look c k) x e).0;
  get-Untouched = λ ctx k c j. refl;
  set-value = λ ctx k b ttl c e. look_self c k (some b);
  set-Apart = λ ctx k b ttl c j n. look_ne c k j (some b) n;
  set-failed = λ ctx k b ttl c. inl (look_self c k (some b));
  del-gone = λ ctx k c e. look_self c k none;
  del-Apart = λ ctx k c j n. look_ne c k j none n;
  del-Shrunk = λ ctx k c. inl (look_self c k none);
  scan-lists = λ ctx c start rest plain e. keys-list c _;
}

plain_back : (v : ℕ) (b : Bytes) → plain_of v ≡ ok b → number b ≡ ok v
plain_back v b e = let same : plain v ≡ b = cc in rw (sym same) refl

unpack-pack : (env : Envelope Bytes) (b : Bytes) → pack env ≡ ok b → unpack b ≡ ok env
unpack-pack env b e =
    let same : boxed env.value env.created_at env.fresh_until env.stale_until env.no_expire
          env.version env.tags
        ≡ b =
      cc in
    rw (sym same) refl

codec : CodecLaws go users look
codec = record { unmarshal-marshal = plain_back; json_unmarshal-json_marshal = unpack-pack }

reliable : Reliable go users look
reliable = record {
  get-errors = λ ctx k c x e. (reply_nil (look c k) x e).1;
  set-none = λ ctx k b ttl c. refl;
  del-none = λ ctx k c. refl;
  scan-none = λ ctx c. refl;
  marshal-ok = λ v. (plain v, refl);
  json_marshal-ok = λ env. (_, refl);
}

encoder-injective :
    (k j : String) → encoder go users.key_encoder k ≡ encoder go users.key_encoder j → k ≡ j
unfolding encoder default_key_encoder encode_dynamic
encoder-injective k j e = e

distinct : (k j : String) → key_of go users k ≡ key_of go users j → k ≡ j
distinct = key_of-injective go users encoder-injective

users-plain : is_plain (stem go users) ≡ true
users-plain =
    ap is_plain (if_neg (string_discrete "users" "") (λ e. absurd (cc)) "" ("users" ++ ":"))

abbrev seven : Stored ℕ
seven = record (zero_stored 0) { value = 7; fresh_until = 20; stale_until = 30 }

redis_store-MapLaws_example :
    MapLaws 0
      (redis_store go users)
      (Valid server codec reliable distinct users-plain)
      (entry server codec reliable distinct users-plain)
redis_store-MapLaws_example = redis_store-MapLaws server codec reliable distinct users-plain

requests_sound_example :
    (((get go users background "u1" []).0 ≡ found 0 (held server codec [] "u1"))
      ⊎ ((x : Error) × ((get go users background "u1" []).0 ≡ (zero_stored 0, false, some x))))
    × Untouched look [] (get go users background "u1" []).1
    × SetSound server codec "u1" seven [] (set go users background "u1" seven [])
    × Deleted server codec "u1" [] (delete go users background "u1" [])
    × Cleared server codec [] (clear go users background [])
requests_sound_example = requests_sound server codec background "u1" seven []

storage_ttl-state_example :
    (state seven 25 ≢ expired
      → (storage_ttl seven 10 ≡ pos 0) ⊎ (25 ≤ add 10 (storage_ttl seven 10)))
    × (storage_ttl seven 10 ≢ pos 0 → add 10 (storage_ttl seven 10) < 25 → state seven 25 ≡ expired)
    × (storage_ttl seven 10 ≡ pos 0
        → (state seven 25 ≡ fresh) ⊎ ((seven.fresh_until ≡ 0) × (seven.stale_until ≡ 0)))
storage_ttl-state_example = storage_ttl-state seven 10 25 (omega arith)
