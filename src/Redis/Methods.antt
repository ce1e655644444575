-- ===== src/Redis/Methods.antt =====
-- The keys and the methods of adapters/redis/store.go.
use Prim.Native.String.{String, ◌++◌}
use go_memoize.Base.{true, false, Option, none, some, List, [], ◌∷◌, ite, if◌then◌else◌}
use go_memoize.Base.Strings.{string_discrete}
use go_memoize.Base.Result.{Result, ok, err, ◌>>=◌}
use go_memoize.Stored.{Stored}
use go_memoize.Store.{Store, Ctx, Found, Error, zero_stored}
use go_memoize.Redis.{
  Go, AnyKey, text, uint64, uint, uint32, uint16, uint8, int, int64, int32, int16, int8, other,
  Envelope, SetupError, Fields, RedisStore, apply_each, checked_fields, storage_ttl,
}

-- the envelope of an entry, given its encoded value
unfoldable pub envelope : {V Bytes : Type 0} → Stored V → Bytes → Envelope Bytes
envelope value encoded = record {
  value = encoded;
  created_at = value.created_at;
  fresh_until = value.fresh_until;
  stale_until = value.stale_until;
  no_expire = value.no_expire;
  version = value.version;
  tags = value.tags;
}

-- `if err != nil { return err }`, and what follows
unfoldable pub unless_error :
    {C : Type 0} → Option Error × C → (C → Option Error × C) → Option Error × C
unless_error (some e, c) rest = (some e, c)
unless_error (none, c) rest = rest c

module _ {K V Bytes : Type 0} (go : Go K V Bytes) where
  unfoldable pub encode_dynamic : AnyKey K → String
  encode_dynamic (text k) = k
  encode_dynamic (uint64 k) = go.format_uint k
  encode_dynamic (uint k) = go.format_uint k
  encode_dynamic (uint32 k) = go.format_uint k
  encode_dynamic (uint16 k) = go.format_uint k
  encode_dynamic (uint8 k) = go.format_uint k
  encode_dynamic (int k) = go.format_int k
  encode_dynamic (int64 k) = go.format_int k
  encode_dynamic (int32 k) = go.format_int k
  encode_dynamic (int16 k) = go.format_int k
  encode_dynamic (int8 k) = go.format_int k
  encode_dynamic (other k) = go.sprint k

  unfoldable pub default_key_encoder : K → String
  default_key_encoder key = encode_dynamic (go.dynamic key)

  -- the encoder that `key` uses
  unfoldable pub encoder : Option (K → String) → K → String
  encoder none = default_key_encoder
  encoder (some encode) = encode

  abbrev failed : Error → Found (Stored V)
  failed e = (zero_stored go.zero, false, some e)

  -- `Get` from the envelope and its value on
  unfoldable pub from_value : Envelope Bytes → Result Error V → Found (Stored V)
  from_value env (err e) = failed e
  from_value env (ok value) =
      let entry : Stored V = record {
        value = value;
        created_at = env.created_at;
        fresh_until = env.fresh_until;
        stale_until = env.stale_until;
        no_expire = env.no_expire;
        version = env.version;
        tags = env.tags;
      } in
      (entry, true, none)

  module _ {C : Type 0} where
    unfoldable pub new_redis :
        List (Fields K V C Bytes → Fields K V C Bytes) → Result SetupError (RedisStore K V C Bytes)
    new_redis opts =
        let start : Fields K V C Bytes = record {
          client = none;
          prefix = "";
          serializer = none;
          key_encoder = some default_key_encoder;
        } in
        let s = apply_each opts start in checked_fields s.prefix s.key_encoder s.client s.serializer

    -- `prefixed`
    unfoldable pub prefixed : RedisStore K V C Bytes → String → String
    prefixed s encoded =
        ite (string_discrete s.prefix "") encoded ((go.trim_right s.prefix ":" ++ ":") ++ encoded)

    -- `key`
    unfoldable pub key_of : RedisStore K V C Bytes → K → String
    key_of s key = prefixed s (encoder s.key_encoder key)

    unfoldable pub from_envelope :
        RedisStore K V C Bytes → Result Error (Envelope Bytes) → Found (Stored V)
    from_envelope s (err e) = failed e
    from_envelope s (ok env) = from_value env (s.serializer.unmarshal env.value)

    -- what `Get` makes of the reply of the server
    unfoldable pub from_reply : RedisStore K V C Bytes → Result Error Bytes → Found (Stored V)
    from_reply s (ok bytes) = from_envelope s (go.json_unmarshal bytes)
    from_reply s (err e) =
        if s.client.is_nil e then (zero_stored go.zero, false, none) else failed e

    unfoldable pub get : RedisStore K V C Bytes → Ctx → K → C → Found (Stored V) × C
    get s ctx key c = let r = s.client.get ctx (key_of s key) c in (from_reply s r.0, r.1)

    -- the two encodings of `Set`
    unfoldable pub encoded_entry : RedisStore K V C Bytes → Stored V → Result Error Bytes
    encoded_entry s value = do
      encoded ← s.serializer.marshal value.value
      go.json_marshal (envelope value encoded)

    -- `Set` once it has the bytes of the envelope, or the error of an encoding
    unfoldable pub send :
        RedisStore K V C Bytes → Ctx → K → Stored V → Result Error Bytes → C → Option Error × C
    send s ctx key value (err e) c = (some e, c)
    send s ctx key value (ok bytes) c =
        s.client.set ctx (key_of s key) bytes (storage_ttl value (s.client.now c)) c

    unfoldable pub set : RedisStore K V C Bytes → Ctx → K → Stored V → C → Option Error × C
    set s ctx key value c = send s ctx key value (encoded_entry s value) c

    unfoldable pub delete : RedisStore K V C Bytes → Ctx → K → C → Option Error × C
    delete s ctx key c = s.client.del ctx (key_of s key) c

    -- the loop of `Clear`
    unfoldable pub del_all :
        RedisStore K V C Bytes → Ctx → List String → Option Error → C → Option Error × C
    del_all s ctx [] last c = (last, c)
    del_all s ctx (k ∷ ks) last c = unless_error (s.client.del ctx k c) (del_all s ctx ks last)

    unfoldable pub clear : RedisStore K V C Bytes → Ctx → C → Option Error × C
    clear s ctx c = let r = s.client.scan ctx 0 (prefixed s "*") 100 c in del_all s ctx r.0 r.1 c

    -- a `Store` of the adapter as a `memoize.Store[K, V]`, on the server
    unfoldable pub redis_store : RedisStore K V C Bytes → Store K V C
    redis_store s = record {
      get = get s;
      set = set s;
      delete = delete s;
      clear = clear s;
      peek = none;
      peek_fresh_value = none;
    }
