-- ===== src/Stores/Sharded/Mask.antt =====
-- Masks: `h & mask` does not exceed the mask.
use Prim.Native.Nat.{digits, min, bit_and-bitwise}
use go_memoize.Base.{ℕ, zero, suc, ◌/◌, ◌≤◌, bit_and, ◌≡◌, arith}

-- The digits that are left never make more than the mask that is left.
masked-le : (left h mask : ℕ) → digits (λ m. 0) min left h mask ≤ mask
masked-le zero h mask = omega arith
masked-le (suc left) zero mask = omega arith
masked-le (suc left) (suc h) mask = omega (arith, masked-le left (suc h / 2) (mask / 2))

pub bit_and-le : (h mask : ℕ) → bit_and h mask ≤ mask
bit_and-le h mask =
    let by_digits : bit_and h mask ≡ digits (λ m. 0) min h h mask = bit_and-bitwise h mask in
    omega (arith, by_digits, masked-le h h mask)
