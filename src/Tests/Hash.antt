-- ===== src/Tests/Hash.antt =====
-- Hashes of concrete keys and states of a concrete entry.
use go_memoize.Base.{[], ◌∷◌, ◌≡◌}
use go_memoize.Hash.{offset64, hash_string}
use go_memoize.Hash.Strings.{fnv1a, hash_string-fnv1a}

-- five bytes: one round of the unrolled loop and a rest
hash_string-fnv1a_example :
    hash_string offset64 (104 ∷ 101 ∷ 108 ∷ 108 ∷ 111 ∷ [])
    ≡ fnv1a offset64 (104 ∷ 101 ∷ 108 ∷ 108 ∷ 111 ∷ [])
hash_string-fnv1a_example = hash_string-fnv1a offset64 (104 ∷ 101 ∷ 108 ∷ 108 ∷ 111 ∷ [])
