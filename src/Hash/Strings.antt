-- ===== src/Hash/Strings.antt =====
-- The unrolled loop of `hashString` is the byte by byte FNV-1a of its definition.
use mathlib.Core.List.{foldl}
use go_memoize.Base.{ℕ, ◌*◌, ◌%◌, bit_xor, List, [], ◌∷◌, ◌≡◌, refl}
use go_memoize.Hash.{u64_mod, prime64, hash_rest, hash_string}

-- The reference definition: one round for each byte.
abbrev pub fnv1a : ℕ → List ℕ → ℕ
fnv1a = foldl (λ h c. bit_xor h c * prime64 % u64_mod)

hash_rest-fnv1a : (h : ℕ) (cs : List ℕ) → hash_rest h cs ≡ fnv1a h cs
unfolding hash_rest
hash_rest-fnv1a h [] = refl
hash_rest-fnv1a h (c ∷ cs) = hash_rest-fnv1a (bit_xor h c * prime64 % u64_mod) cs

-- For every start value and every string, the loop that takes four bytes a round and then the
-- rest computes the FNV-1a fold over the bytes in order.
pub hash_string-fnv1a : (h : ℕ) (cs : List ℕ) → hash_string h cs ≡ fnv1a h cs
unfolding hash_string
hash_string-fnv1a h (a ∷ b ∷ c ∷ d ∷ rest) =
    let h₁ = bit_xor h a * prime64 % u64_mod in
    let h₂ = bit_xor h₁ b * prime64 % u64_mod in
    let h₃ = bit_xor h₂ c * prime64 % u64_mod in
    hash_string-fnv1a (bit_xor h₃ d * prime64 % u64_mod) rest
hash_string-fnv1a h rest = hash_rest-fnv1a h rest
