-- ===== src/Redis/Keys.antt =====
-- The names of keys in adapters/redis/store.go.
use Prim.Native.String.append
use Prim.Native.String.{String, ◌++◌}
use text.Mathlib.TextLemmas.{append_cancel_left}
use go_memoize.Base.{◌≡◌, sym, ap, ite, ◌∙◌, if_pos, if_neg}
use go_memoize.Base.Strings.{string_discrete}
use go_memoize.Redis.{Go, RedisStore}
use go_memoize.Redis.Methods.{prefixed, encoder, key_of}

module _ {K V C Bytes : Type 0} (go : Go K V Bytes) (s : RedisStore K V C Bytes) where
  -- what the names of all keys of the store start with
  abbrev pub stem : String
  stem = ite (string_discrete s.prefix "") "" (go.trim_right s.prefix ":" ++ ":")

  pub prefixed-stem : (x : String) → prefixed go s x ≡ stem ++ x
  unfolding prefixed
  prefixed-stem x =
      let named = go.trim_right s.prefix ":" ++ ":" in
      elim (string_discrete s.prefix "") [
        | yes e ↦
            if_pos (string_discrete s.prefix "") e x (named ++ x)
            ∙ sym (append.nil x)
            ∙ sym (ap (λ p. p ++ x) (if_pos (string_discrete s.prefix "") e "" named))
        | no set ↦
            if_neg (string_discrete s.prefix "") set x (named ++ x)
            ∙ sym (ap (λ p. p ++ x) (if_neg (string_discrete s.prefix "") set "" named))
      ]

  prefixed-injective : (a b : String) → prefixed go s a ≡ prefixed go s b → a ≡ b
  prefixed-injective a b h =
      append_cancel_left stem a b (sym (prefixed-stem a) ∙ h ∙ prefixed-stem b)

  -- Keys that the encoder of the store tells apart have different names on the server.
  pub key_of-injective :
      ((k j : K) → encoder go s.key_encoder k ≡ encoder go s.key_encoder j → k ≡ j)
      → (k j : K) → key_of go s k ≡ key_of go s j
      → k ≡ j
  unfolding key_of
  key_of-injective encodes k j e = encodes k j (prefixed-injective _ _ e)
