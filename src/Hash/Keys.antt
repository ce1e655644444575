-- ===== src/Hash/Keys.antt =====
-- What `hash` keeps apart, and what it does not: keys by their machine word, and booleans.
use go_memoize.Base.{ℕ, ◌≤◌, ◌<◌, Bool, Option, none, some, ◌≡◌, ◌≢◌, ◌↔◌, refl, arith}
use go_memoize.Base.Int.{ℤ, pos, negsuc, pos_part, neg_part}
use go_memoize.Hash.{
  offset64, IsWord, Key, to_u64, hash_uint, hash_int, hash_float, hash, hash1, hash2,
}
use go_memoize.Hash.Key.{
  string, int, int8, int16, int32, int64, uint, uint8, uint16, uint32, uint64, uintptr, float32,
  float64, bool, other,
}
use go_memoize.Hash.Injective.{hash_uint_injective}

-- The word that the switch hands to one round, for the types that are one word.
unfoldable pub word : Key → Option ℕ
word (string v) = none
word (int v) = some (to_u64 v)
word (int8 v) = some (to_u64 v)
word (int16 v) = some (to_u64 v)
word (int32 v) = some (to_u64 v)
word (int64 v) = some (to_u64 v)
word (uint v) = some v
word (uint8 v) = some v
word (uint16 v) = some v
word (uint32 v) = some v
word (uint64 v) = some v
word (uintptr v) = some v
word (float32 v) = some v
word (float64 v) = some v
word (bool v) = none
word other = none

hash-word : (h : ℕ) (k : Key) {x : ℕ} → word k ≡ some x → hash h k ≡ some (hash_uint h x)
unfolding word hash hash_uint hash_int hash_float
hash-word h k e = ground arith

-- Two keys of one word each, both 64 bits wide, have the same hash from the same 64-bit start
-- exactly when their words are the same.
hash-eq_iff_word :
    (h : ℕ) (k j : Key) {x y : ℕ}
    → IsWord h
    → word k ≡ some x
    → word j ≡ some y
    → IsWord x
    → IsWord y
    → (hash h k ≡ hash h j) ↔ (x ≡ y)
hash-eq_iff_word h k j {x} {y} hh ek ej hx hy =
    rw (hash-word h k ek, hash-word h j ej)
      ((λ e. hash_uint_injective h x y hh hx hy (cc)), (λ e. rw e))

-- The range of a signed 64-bit integer.
abbrev pub IsInt64 : ℤ → Type 0
IsInt64 v = (pos_part v < 9223372036854775808) × (neg_part v ≤ 9223372036854775808)

to_u64-IsWord : (v : ℤ) → IsWord (to_u64 v)
unfolding to_u64
to_u64-IsWord (pos n) = omega arith
to_u64-IsWord (negsuc n) = omega arith

to_u64_injective : (v w : ℤ) → IsInt64 v → IsInt64 w → to_u64 v ≡ to_u64 w → v ≡ w
unfolding to_u64
to_u64_injective v w hv hw e = ground arith

pub hash1-int_injective : (v w : ℤ) → IsInt64 v → IsInt64 w → hash1 (int v) ≡ hash1 (int w) → v ≡ w
unfolding hash1 word
hash1-int_injective v w hv hw e = to_u64_injective v w hv hw (
    (hash-eq_iff_word offset64 (int v) (int w) (omega arith) refl refl (to_u64-IsWord v)
        (to_u64-IsWord w)).0
      e)

-- Two distinct signed 64-bit integers, as the only key, have distinct hashes.
pub hash1-int_distinct : (v w : ℤ) → IsInt64 v → IsInt64 w → v ≢ w → hash1 (int v) ≢ hash1 (int w)
hash1-int_distinct v w hv hw apart e = apart (hash1-int_injective v w hv hw e)

-- The hash of a boolean forgets what was hashed before it: with a boolean as the second of two
-- keys, the first makes no difference, as long as its type is supported.
pub hash2-bool :
    (a a' : Key) (b : Bool) {h h' : ℕ}
    → hash1 a ≡ some h
    → hash1 a' ≡ some h'
    → hash2 a (bool b) ≡ hash2 a' (bool b)
unfolding hash1 hash2 hash
hash2-bool a a' b e e' = rw (e, e')
