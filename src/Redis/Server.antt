-- ===== src/Redis/Server.antt =====
-- What adapters/redis/store.go relies on of the server and of the encodings, as laws over the values
-- under the keys of the server. No key expires during a call: that is a step of its own.
use Prim.Native.Char.{code}
use Prim.Native.String.{String, [], ◌∷◌, ◌++◌}
use mathlib.Core.List.{[], ◌∷◌}
use go_memoize.Base.{Bool, true, not, ◌&&◌, ◌||◌, ◌==◌, Option, none, some, List, ◌≡◌, ◌≢◌, ◌⊎◌}
use go_memoize.Base.Result.{ok, err}
use go_memoize.Time.{Duration}
use go_memoize.Store.{Ctx, Error}
use go_memoize.Redis.{Go, Envelope, RedisStore}
use go_memoize.Redis.Methods.{prefixed}

-- No character is one of `*`, `?`, `[` and `\` of the patterns of redis.
abbrev pub is_plain : String → Bool
is_plain [] = true
is_plain (c ∷ s) =
    not (code c == 42 || (code c == 63 || (code c == 91 || code c == 92))) && is_plain s

abbrev pub Listed : String → List String → Type 0
Listed k [] = ⊥
Listed k (j ∷ ks) = (j ≡ k) ⊎ Listed k ks

-- A call leaves the values of all keys, or of all but one.
abbrev pub Untouched : {C Bytes : Type 0} → (C → String → Option Bytes) → C → C → Type 0
Untouched at c c' = (j : String) → at c' j ≡ at c j

abbrev pub Apart : {C Bytes : Type 0} → (C → String → Option Bytes) → String → C → C → Type 0
Apart at k c c' = (j : String) → j ≢ k → at c' j ≡ at c j

module _ {K V C Bytes : Type 0} (go : Go K V Bytes) (s : RedisStore K V C Bytes)
    (at : C → String → Option Bytes) where
  pub record ServerLaws : Type 0 where
    pub get-value :
        (ctx : Ctx) (k : String) (c : C) (bytes : Bytes)
        → (s.client.get ctx k c).0 ≡ ok bytes
        → at c k ≡ some bytes
    pub get-nil :
        (ctx : Ctx) (k : String) (c : C) (e : Error)
        → (s.client.get ctx k c).0 ≡ err e
        → s.client.is_nil e ≡ true
        → at c k ≡ none
    pub get-Untouched : (ctx : Ctx) (k : String) (c : C) → Untouched at c (s.client.get ctx k c).1
    -- an error may hide that the value was set, or deleted
    pub set-value :
        (ctx : Ctx) (k : String) (bytes : Bytes) (ttl : Duration) (c : C)
        → (s.client.set ctx k bytes ttl c).0 ≡ none
        → at (s.client.set ctx k bytes ttl c).1 k ≡ some bytes
    pub set-Apart :
        (ctx : Ctx) (k : String) (bytes : Bytes) (ttl : Duration) (c : C)
        → Apart at k c (s.client.set ctx k bytes ttl c).1
    pub set-failed :
        (ctx : Ctx) (k : String) (bytes : Bytes) (ttl : Duration) (c : C)
        → (at (s.client.set ctx k bytes ttl c).1 k ≡ some bytes)
          ⊎ (at (s.client.set ctx k bytes ttl c).1 k ≡ at c k)
    pub del-gone :
        (ctx : Ctx) (k : String) (c : C)
        → (s.client.del ctx k c).0 ≡ none
        → at (s.client.del ctx k c).1 k ≡ none
    pub del-Apart : (ctx : Ctx) (k : String) (c : C) → Apart at k c (s.client.del ctx k c).1
    pub del-Shrunk :
        (ctx : Ctx) (k : String) (c : C)
        → (at (s.client.del ctx k c).1 k ≡ none) ⊎ (at (s.client.del ctx k c).1 k ≡ at c k)
    -- a scan for the names that start with a text has met each of them when it ends well, if no
    -- character of the text has a meaning of its own in a pattern
    pub scan-lists :
        (ctx : Ctx) (c : C) (start rest : String)
        → is_plain start ≡ true
        → (s.client.scan ctx 0 (start ++ "*") 100 c).1 ≡ none
        → (at c (start ++ rest) ≡ none)
          ⊎ Listed (start ++ rest) (s.client.scan ctx 0 (start ++ "*") 100 c).0

  -- Decoding gives back what was encoded.
  pub record CodecLaws : Type 0 where
    pub unmarshal-marshal :
        (v : V) (bytes : Bytes)
        → s.serializer.marshal v ≡ ok bytes
        → s.serializer.unmarshal bytes ≡ ok v
    pub json_unmarshal-json_marshal :
        (env : Envelope Bytes) (bytes : Bytes)
        → go.json_marshal env ≡ ok bytes
        → go.json_unmarshal bytes ≡ ok env

  -- The only error is that a key has no value.
  pub record Reliable : Type 0 where
    pub get-errors :
        (ctx : Ctx) (k : String) (c : C) (e : Error)
        → (s.client.get ctx k c).0 ≡ err e
        → s.client.is_nil e ≡ true
    pub set-none :
        (ctx : Ctx) (k : String) (bytes : Bytes) (ttl : Duration) (c : C)
        → (s.client.set ctx k bytes ttl c).0 ≡ none
    pub del-none : (ctx : Ctx) (k : String) (c : C) → (s.client.del ctx k c).0 ≡ none
    pub scan-none : (ctx : Ctx) (c : C) → (s.client.scan ctx 0 (prefixed go s "*") 100 c).1 ≡ none
    pub marshal-ok : (v : V) → (bytes : Bytes) × (s.serializer.marshal v ≡ ok bytes)
    pub json_marshal-ok :
        (env : Envelope Bytes) → (bytes : Bytes) × (go.json_marshal env ≡ ok bytes)
