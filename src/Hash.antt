-- ===== src/Hash.antt =====
-- The key hashing of hashing.go: FNV-1a over 64-bit words, one word or one byte a round.
-- Its children prove what the hashes tell apart, and model internal/hash/hash.go.
pub mod Xor
pub mod Strings
pub mod Injective
pub mod Keys
pub mod Internal
use go_memoize.Base.{
  ℕ, ◌-◌, ◌*◌, ◌%◌, ◌≤◌, ◌<◌, bit_xor, Bool, true, false, Option, none, some, List, [], ◌∷◌,
}
use go_memoize.Base.Int.{ℤ, pos, negsuc}

-- 2 ^ 64
abbrev pub u64_mod : ℕ
u64_mod = 18446744073709551616

abbrev pub offset64 : ℕ
offset64 = 14695981039346656037

abbrev pub prime64 : ℕ
prime64 = 1099511628211

-- A key behind Go's `comparable`, by its dynamic type. A string is its bytes, a float is what
-- `math.Float64bits` gives for it, and `other` is any type that the switch does not list.
pub data Key : Type 0 where
  string : List ℕ → Key
  int int8 int16 int32 int64 : ℤ → Key
  uint uint8 uint16 uint32 uint64 uintptr : ℕ → Key
  float32 float64 : ℕ → Key
  bool : Bool → Key
  other : Key

-- `uint64(v)` of a signed integer: two's complement
unfoldable pub to_u64 : ℤ → ℕ
to_u64 (pos n) = n % u64_mod
to_u64 (negsuc n) = u64_mod - 1 - n % u64_mod

-- `(hash ^ key) * prime64`
unfoldable pub hash_uint : ℕ → ℕ → ℕ
hash_uint h key = bit_xor h key * prime64 % u64_mod

unfoldable pub hash_int : ℕ → ℕ → ℕ
hash_int h key = bit_xor h key * prime64 % u64_mod

unfoldable pub hash_float : ℕ → ℕ → ℕ
hash_float h key = bit_xor h key * prime64 % u64_mod

abbrev pub true_hash : ℕ
true_hash = bit_xor offset64 prime64

abbrev pub false_hash : ℕ
false_hash = bit_xor offset64 0

unfoldable pub hash_bool : Bool → ℕ
hash_bool true = true_hash
hash_bool false = false_hash

-- the loop over the bytes that are left
unfoldable pub hash_rest : ℕ → List ℕ → ℕ
hash_rest h [] = h
hash_rest h (c ∷ cs) = hash_rest (bit_xor h c * prime64 % u64_mod) cs

-- the unrolled loop, four bytes a round
unfoldable pub hash_string : ℕ → List ℕ → ℕ
unfolding hash_rest
hash_string h (a ∷ b ∷ c ∷ d ∷ rest) =
    let h₁ = bit_xor h a * prime64 % u64_mod in
    let h₂ = bit_xor h₁ b * prime64 % u64_mod in
    let h₃ = bit_xor h₂ c * prime64 % u64_mod in hash_string (bit_xor h₃ d * prime64 % u64_mod) rest
hash_string h rest = hash_rest h rest

-- `none` is the panic on an unsupported type.
unfoldable pub hash : ℕ → Key → Option ℕ
hash h (string v) = some (hash_string h v)
hash h (int v) = some (hash_int h (to_u64 v))
hash h (int8 v) = some (hash_int h (to_u64 v))
hash h (int16 v) = some (hash_int h (to_u64 v))
hash h (int32 v) = some (hash_int h (to_u64 v))
hash h (int64 v) = some (hash_int h (to_u64 v))
hash h (uint v) = some (hash_uint h v)
hash h (uint8 v) = some (hash_uint h v)
hash h (uint16 v) = some (hash_uint h v)
hash h (uint32 v) = some (hash_uint h v)
hash h (uint64 v) = some (hash_uint h v)
hash h (uintptr v) = some (hash_uint h v)
hash h (float32 v) = some (hash_float h v)
hash h (float64 v) = some (hash_float h v)
hash h (bool v) = some (hash_bool v)
hash h other = none

infixl 5 ◌>>=◌
abbrev ◌>>=◌ : Option ℕ → (ℕ → Option ℕ) → Option ℕ
none >>= f = none
some h >>= f = f h

unfoldable pub hash1 : Key → Option ℕ
hash1 a = hash offset64 a

unfoldable pub hash2 : Key → Key → Option ℕ
hash2 a b = do h ← hash offset64 a; hash h b

unfoldable pub hash3 : Key → Key → Key → Option ℕ
hash3 a b c = do h ← hash offset64 a; h ← hash h b; hash h c

unfoldable pub hash4 : Key → Key → Key → Key → Option ℕ
hash4 a b c d = do h ← hash offset64 a; h ← hash h b; h ← hash h c; hash h d

unfoldable pub hash5 : Key → Key → Key → Key → Key → Option ℕ
hash5 a b c d e = do h ← hash offset64 a; h ← hash h b; h ← hash h c; h ← hash h d; hash h e

unfoldable pub hash6 : Key → Key → Key → Key → Key → Key → Option ℕ
hash6 a b c d e f = do
  h ← hash offset64 a
  h ← hash h b
  h ← hash h c
  h ← hash h d
  h ← hash h e
  hash h f

unfoldable pub hash7 : Key → Key → Key → Key → Key → Key → Key → Option ℕ
hash7 a b c d e f g = do
  h ← hash offset64 a
  h ← hash h b
  h ← hash h c
  h ← hash h d
  h ← hash h e
  h ← hash h f
  hash h g

-- The words and bytes that Go's types hold.
abbrev pub IsWord : ℕ → Type 0
IsWord x = x < u64_mod
