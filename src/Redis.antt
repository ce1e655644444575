-- ===== src/Redis.antt =====
-- adapters/redis/store.go: the store over a Redis server. The client, the encodings, the clock and
-- Go's formatting functions are parameters, as the source imports them.
pub mod Methods
pub mod Keys
pub mod Deadline
pub mod Server
pub mod Scans
pub mod Calls
pub mod Laws
use Prim.Native.String.{String, ◌++◌}
use go_memoize.Base.{ℕ, Bool, true, false, Option, none, some, List, [], ◌∷◌, if◌then◌else◌}
use go_memoize.Base.Strings.{string_discrete}
use go_memoize.Base.Int.{ℤ, pos, is_nonpos}
use go_memoize.Base.Result.{Result, ok, err, ◌>>=◌}
use go_memoize.Time.{Time, Duration, after, is_zero, sub}
use go_memoize.Stored.{Stored}
use go_memoize.Store.{Store, Ctx, Found, Error, zero_stored}

-- The errors of the adapter.
pub data SetupError : Type 0 where
  missing_client missing_serializer : SetupError

-- The calls of `redis.UniversalClient`, on a server `C`, and `time.Now` there. `scan` gives the keys
-- over which the iterator of a scan runs, and the error with which it ends.
pub record Client (C Bytes : Type 0) : Type 0 where
  pub get : Ctx → String → C → Result Error Bytes × C
  pub set : Ctx → String → Bytes → Duration → C → Option Error × C
  pub del : Ctx → String → C → Option Error × C
  pub scan : Ctx → ℕ → String → ℕ → C → List String × Option Error
  pub is_nil : Error → Bool
  pub now : C → Time

-- `Serializer[V]`
pub record Serializer (V Bytes : Type 0) : Type 0 where
  pub marshal : V → Result Error Bytes
  pub unmarshal : Bytes → Result Error V

pub record Envelope (Bytes : Type 0) : Type 0 where
  pub value : Bytes
  pub created_at : Time
  pub fresh_until : Time
  pub stale_until : Time
  pub no_expire : Bool
  pub version : String
  pub tags : List String

-- A key by its dynamic type, as the type switch of `defaultKeyEncoder` tells them apart.
pub data AnyKey (K : Type 0) : Type 0 where
  text : String → AnyKey K
  uint64 uint uint32 uint16 uint8 : ℕ → AnyKey K
  int int64 int32 int16 int8 : ℤ → AnyKey K
  other : K → AnyKey K

-- The functions of Go's packages that the adapter calls.
pub record Go (K V Bytes : Type 0) : Type 0 where
  pub zero : V
  pub dynamic : K → AnyKey K
  pub format_uint : ℕ → String
  pub format_int : ℤ → String
  pub sprint : K → String
  pub trim_right : String → String → String
  pub json_marshal : Envelope Bytes → Result Error Bytes
  pub json_unmarshal : Bytes → Result Error (Envelope Bytes)

-- The fields of a `Store` while its options are applied: a client, a serializer and an encoder may
-- be nil.
pub record Fields (K V C Bytes : Type 0) : Type 0 where
  pub client : Option (Client C Bytes)
  pub prefix : String
  pub serializer : Option (Serializer V Bytes)
  pub key_encoder : Option (K → String)

-- The `Store` that `New` returns, with its client and its serializer.
pub record RedisStore (K V C Bytes : Type 0) : Type 0 where
  pub client : Client C Bytes
  pub prefix : String
  pub serializer : Serializer V Bytes
  pub key_encoder : Option (K → String)

-- `storageTTL`
unfoldable pub storage_ttl : {V : Type 0} → Stored V → Time → Duration
storage_ttl entry now =
    if entry.no_expire
    then pos 0
    else (let deadline =
          if after entry.stale_until entry.fresh_until
          then entry.stale_until
          else entry.fresh_until in
        if is_zero deadline
        then pos 0
        else (let ttl = sub deadline now in if is_nonpos ttl then pos 1000000 else ttl))

module _ {K V C Bytes : Type 0} where
  unfoldable pub with_client : Option (Client C Bytes) → Fields K V C Bytes → Fields K V C Bytes
  with_client client s = record s { client = client }

  unfoldable pub with_prefix : String → Fields K V C Bytes → Fields K V C Bytes
  with_prefix prefix s = record s { prefix = prefix }

  unfoldable pub with_serializer :
      Option (Serializer V Bytes) → Fields K V C Bytes → Fields K V C Bytes
  with_serializer serializer s = record s { serializer = serializer }

  unfoldable pub with_key_encoder : Option (K → String) → Fields K V C Bytes → Fields K V C Bytes
  with_key_encoder encode s = record s { key_encoder = encode }

  -- the loop of `New` over its options
  unfoldable pub apply_each :
      List (Fields K V C Bytes → Fields K V C Bytes) → Fields K V C Bytes → Fields K V C Bytes
  apply_each [] s = s
  apply_each (opt ∷ opts) s = apply_each opts (opt s)

  -- the two checks of `New`
  unfoldable pub checked_fields :
      String
      → Option (K → String)
      → Option (Client C Bytes)
      → Option (Serializer V Bytes)
      → Result SetupError (RedisStore K V C Bytes)
  checked_fields prefix encode none serializer = err missing_client
  checked_fields prefix encode (some client) none = err missing_serializer
  checked_fields prefix encode (some client) (some serializer) =
      ok
        (record { client = client; prefix = prefix; serializer = serializer; key_encoder = encode })
