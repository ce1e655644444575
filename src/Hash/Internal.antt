-- ===== src/Hash/Internal.antt =====
-- internal/hash/hash.go, the copy of the hash that the sharded store uses.
use go_memoize.Base.{
  ℕ, ◌*◌, ◌%◌, bit_xor, Bool, true, false, Option, none, some, List, [], ◌∷◌, ◌≡◌, ◌≢◌, refl,
}
use go_memoize.Hash.{
  u64_mod, prime64, Key, to_u64, hash_uint, hash_int, hash_float, hash_rest, hash_string, hash,
}
use go_memoize.Hash.Key.{
  string, int, int8, int16, int32, int64, uint, uint8, uint16, uint32, uint64, uintptr, float32,
  float64, bool, other,
}

-- `Uint`
unfoldable pub uint_hash : ℕ → ℕ → ℕ
uint_hash h key = bit_xor h key * prime64 % u64_mod

-- the second loop of `String`
string_rest : ℕ → List ℕ → ℕ
string_rest h [] = h
string_rest h (c ∷ cs) = string_rest (bit_xor h c * prime64 % u64_mod) cs

-- `String`
unfoldable pub string_hash : ℕ → List ℕ → ℕ
unfolding string_rest
string_hash h (a ∷ b ∷ c ∷ d ∷ rest) =
    let h₁ = bit_xor h a * prime64 % u64_mod in
    let h₂ = bit_xor h₁ b * prime64 % u64_mod in
    let h₃ = bit_xor h₂ c * prime64 % u64_mod in string_hash (bit_xor h₃ d * prime64 % u64_mod) rest
string_hash h rest = string_rest h rest

-- `Bool`
unfoldable pub bool_hash : ℕ → Bool → ℕ
bool_hash h true = bit_xor h 1 * prime64 % u64_mod
bool_hash h false = h * prime64 % u64_mod

-- `Comparable`; `none` is the panic on an unsupported type.
unfoldable pub comparable : ℕ → Key → Option ℕ
comparable h (string v) = some (string_hash h v)
comparable h (int v) = some (uint_hash h (to_u64 v))
comparable h (int8 v) = some (uint_hash h (to_u64 v))
comparable h (int16 v) = some (uint_hash h (to_u64 v))
comparable h (int32 v) = some (uint_hash h (to_u64 v))
comparable h (int64 v) = some (uint_hash h (to_u64 v))
comparable h (uint v) = some (uint_hash h v)
comparable h (uint8 v) = some (uint_hash h v)
comparable h (uint16 v) = some (uint_hash h v)
comparable h (uint32 v) = some (uint_hash h v)
comparable h (uint64 v) = some (uint_hash h v)
comparable h (uintptr v) = some (uint_hash h v)
comparable h (float32 v) = some (uint_hash h v)
comparable h (float64 v) = some (uint_hash h v)
comparable h (bool v) = some (bool_hash h v)
comparable h other = none

string_rest-hash_rest : (h : ℕ) (cs : List ℕ) → string_rest h cs ≡ hash_rest h cs
unfolding string_rest hash_rest
string_rest-hash_rest h [] = refl
string_rest-hash_rest h (c ∷ cs) = string_rest-hash_rest (bit_xor h c * prime64 % u64_mod) cs

string_hash-hash_string : (h : ℕ) (cs : List ℕ) → string_hash h cs ≡ hash_string h cs
unfolding string_hash hash_string
string_hash-hash_string h (a ∷ b ∷ c ∷ d ∷ rest) =
    let h₁ = bit_xor h a * prime64 % u64_mod in
    let h₂ = bit_xor h₁ b * prime64 % u64_mod in
    let h₃ = bit_xor h₂ c * prime64 % u64_mod in
    string_hash-hash_string (bit_xor h₃ d * prime64 % u64_mod) rest
string_hash-hash_string h rest = string_rest-hash_rest h rest

-- The two copies of the hash agree, panics included, on every key that is not a boolean.
comparable-hash : (h : ℕ) (k : Key) → ((b : Bool) → k ≢ bool b) → comparable h k ≡ hash h k
unfolding comparable hash uint_hash hash_uint hash_int hash_float
comparable-hash h (string v) n = rw string_hash-hash_string
comparable-hash h (bool b) n = absurd (n b refl)
comparable-hash h k n = refl
