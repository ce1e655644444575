-- ===== src/Stores/Sharded/Shares.antt =====
-- How `NewSharded` counts its shards and shares out what there is among them.
use native.Mathlib.Nat.{div-add-mod, mod-lt}
use go_memoize.Base.{
  ℕ, zero, suc, ◌+◌, ◌-◌, ◌*◌, ◌/◌, ◌≤◌, ◌<◌, ltb, if◌then◌else◌, ◌≡◌, arith, ℕ_discrete,
}
use go_memoize.Stores.Memory.{MemoryStore}
use go_memoize.Stores.Sharded.{ShardedStore, halve_to, fit_count, shard_cap}
use go_memoize.Stores.Sharded.Methods.{sum_shards}

-- The halving ends at a count that is no more than the capacity, and not zero.
pub halve_to-fits :
    (fuel count capacity : ℕ)
    → count ≤ fuel
    → 0 < count
    → 0 < capacity
    → (halve_to fuel count capacity ≤ capacity) × (0 < halve_to fuel count capacity)
unfolding halve_to
halve_to-fits zero count capacity le pos_count pos_cap = absurd (omega arith)
halve_to-fits (suc fuel) zero capacity le pos_count pos_cap = elim pos_count [ ]
halve_to-fits (suc fuel) (suc zero) capacity le pos_count pos_cap = (ground arith, ground arith)
halve_to-fits (suc fuel) (suc (suc n)) capacity le pos_count pos_cap =
    let (below, above) =
      halve_to-fits fuel (suc (suc n) / 2) capacity (omega arith) (omega arith) pos_cap in
    (ground (arith, below), ground (arith, above))

pub halve_to-le : (fuel count capacity : ℕ) → halve_to fuel count capacity ≤ count
unfolding halve_to
halve_to-le zero count capacity = omega arith
halve_to-le (suc fuel) count capacity = ground (arith, halve_to-le fuel (count / 2) capacity)

pub fit_count-fits :
    (n capacity : ℕ)
    → 0 < n
    → 0 < capacity
    → (fit_count n capacity ≤ capacity) × (0 < fit_count n capacity) × (fit_count n capacity ≤ n)
unfolding fit_count
fit_count-fits n capacity some_shards some_room =
    let (fits, more) = halve_to-fits n n capacity (omega arith) some_shards some_room in
    (ground (arith, fits), ground (arith, more), ground (arith, halve_to-le n n capacity))

zero_share : (d : ℕ) → 0 * d ≡ 0
zero_share d = grind arith

suc_share : (n d : ℕ) → suc n * d ≡ d + n * d
suc_share n d = grind arith

pub share-le : (n d : ℕ) → 0 < n → d ≤ n * d
share-le zero d p = elim p [ ]
share-le (suc n) d p = omega (arith, suc_share n d)

module _ {K V : Type 0} (s : ShardedStore K V) (f : MemoryStore K V → ℕ) (d r : ℕ) where
  -- Shares that differ by at most one add up.
  pub sum_shards-shares :
      (rounds i : ℕ)
      → ((q : ℕ) → i ≤ q → q < i + rounds → f (s.shards q) ≡ d + (if ltb q r then 1 else 0))
      → sum_shards f rounds i s ≡ rounds * d + (r - i - (r - (i + rounds)))
  unfolding sum_shards
  sum_shards-shares zero i share = ground (arith, zero_share d)
  sum_shards-shares (suc rounds) i share =
      let rest =
        sum_shards-shares rounds (i + 1) (λ q le lt. share q (omega arith) (omega arith)) in
      let first = share i (omega arith) (omega arith) in
      ground (arith, rest, first, suc_share rounds d)

-- A shard has some room, and no more than there is.
pub shard_cap-bounds :
    (capacity count i : ℕ)
    → 0 < count
    → count ≤ capacity
    → (0 < shard_cap capacity count i) × (shard_cap capacity count i ≤ capacity)
unfolding shard_cap
shard_cap-bounds capacity count i some_shards fits =
    let whole = div-add-mod capacity count in
    let d = capacity / count in
    let at_least = share-le count d some_shards in
    let left = mod-lt capacity some_shards in
    let some_room : 0 < d = elim (ℕ_discrete d 0) [
      | yes e ↦ absurd (omega (arith, rw e at whole, left))
      | no n ↦ omega arith
    ] in
    (ground (arith, some_room), ground (arith, whole, at_least))
