-- ===== src/Stores/Sharded.antt =====
-- stores/memory/sharded.go: memory stores side by side, each for the keys that hash to it, and
-- stores/memory/options.go: the options of the memory stores.
pub mod Methods
pub mod Shares
pub mod Build
pub mod Mask
pub mod Shards
pub mod Laws
use go_memoize.Base.{
  ℕ, zero, suc, ◌+◌, ◌-◌, ◌*◌, ◌/◌, ◌%◌, Bool, true, false, ◌||◌, not, Option, none, some, List, [],
  ◌∷◌, ◌==◌, ltb, leb, if◌then◌else◌, update, ℕ_discrete, bit_and, bit_or,
}
use go_memoize.Base.Int.{ℤ, pos, negsuc}
use go_memoize.Hash.{Key, offset64, to_u64}
use go_memoize.Hash.Key.{
  string, int, int8, int16, int32, int64, uint, uint8, uint16, uint32, uint64, uintptr, bool,
}
use go_memoize.Hash.Internal.{string_hash, uint_hash, bool_hash}
use go_memoize.Stores.Sizes.{Sizes}
use go_memoize.Stores.Memory.{MemoryStore, M}
use go_memoize.Stores.Memory.Methods.{new_memory}

-- `options`
pub record MemoryOptions : Type 0 where
  pub get_recency_sample : ℕ
  pub shards : ℤ
  pub max_bytes : ℕ

unfoldable pub with_max_bytes : ℤ → MemoryOptions → MemoryOptions
with_max_bytes (pos n) o = if ltb 0 n then record o { max_bytes = n } else o
with_max_bytes (negsuc n) o = o

unfoldable pub with_get_recency_sample : ℕ → MemoryOptions → MemoryOptions
with_get_recency_sample n o = record o { get_recency_sample = n }

unfoldable pub with_shards : ℤ → MemoryOptions → MemoryOptions
with_shards n o = record o { shards = n }

unfoldable pub apply : List (MemoryOptions → MemoryOptions) → MemoryOptions → MemoryOptions
apply [] o = o
apply (opt ∷ opts) o = apply opts (opt o)

-- `options{}`
abbrev pub zero_options : MemoryOptions
zero_options = record { get_recency_sample = 0; shards = pos 0; max_bytes = 0 }

-- `ShardedStore[K, V]`: `count` is the length of its slice of shards.
pub record ShardedStore (K V : Type 0) : Type 0 where
  pub shards : ℕ → MemoryStore K V
  pub count : ℕ
  pub mask : ℕ

-- `shardHash`; `none` is the panic on an unsupported type.
unfoldable pub shard_hash : Key → Option ℕ
shard_hash (string v) = some (string_hash offset64 v)
shard_hash (int v) = some (uint_hash offset64 (to_u64 v))
shard_hash (int8 v) = some (uint_hash offset64 (to_u64 v))
shard_hash (int16 v) = some (uint_hash offset64 (to_u64 v))
shard_hash (int32 v) = some (uint_hash offset64 (to_u64 v))
shard_hash (int64 v) = some (uint_hash offset64 (to_u64 v))
shard_hash (uint v) = some (uint_hash offset64 v)
shard_hash (uint8 v) = some (uint_hash offset64 v)
shard_hash (uint16 v) = some (uint_hash offset64 v)
shard_hash (uint32 v) = some (uint_hash offset64 v)
shard_hash (uint64 v) = some (uint_hash offset64 v)
shard_hash (uintptr v) = some (uint_hash offset64 v)
shard_hash (bool v) = some (bool_hash offset64 v)
shard_hash k = none

-- `nextPowerOfTwoInt`, where an `int` has 64 bits
unfoldable pub next_power_of_two_int : ℕ → ℕ
next_power_of_two_int n =
    if leb n 1
    then 1
    else (let n₀ = n - 1 in
        let n₁ = bit_or n₀ (n₀ / 2) in
        let n₂ = bit_or n₁ (n₁ / 4) in
        let n₃ = bit_or n₂ (n₂ / 16) in
        let n₄ = bit_or n₃ (n₃ / 256) in
        let n₅ = bit_or n₄ (n₄ / 65536) in let n₆ = bit_or n₅ (n₅ / 4294967296) in n₆ + 1)

-- `for shardCount > capacity { shardCount >>= 1 }`, on fuel: as much as the count is enough, since
-- every round makes it smaller.
unfoldable pub halve_to : ℕ → ℕ → ℕ → ℕ
halve_to zero count capacity = count
halve_to (suc fuel) count capacity =
    let rest = halve_to fuel (count / 2) capacity in if ltb capacity count then rest else count

-- the count of shards that a capacity leaves
unfoldable pub fit_count : ℕ → ℕ → ℕ
fit_count shards capacity =
    let halved = halve_to shards shards capacity in if halved == 0 then 1 else halved

-- the capacity of a shard, and its bound on bytes
unfoldable pub shard_cap : ℕ → ℕ → ℕ → ℕ
shard_cap capacity count i = capacity / count + (if ltb i (capacity % count) then 1 else 0)

unfoldable pub shard_bytes : ℕ → ℕ → ℕ → ℕ
shard_bytes max_bytes count i =
    if ltb 0 max_bytes
    then max_bytes / count + (if ltb i (max_bytes % count) then 1 else 0)
    else max_bytes

module _ {K V : Type 0} (go : Sizes K V) where
  unfoldable pub new_shard : ℕ → MemoryOptions → ℕ → ℕ → Option (MemoryStore K V)
  new_shard capacity o count i =
      new_memory go (shard_cap capacity count i) o.get_recency_sample
        (shard_bytes o.max_bytes count i)

  -- the loop over the shards, by the rounds that are left
  unfoldable pub make_shards :
      ℕ → ℕ → ℕ → MemoryOptions → ℕ → (ℕ → MemoryStore K V) → Option (ℕ → MemoryStore K V)
  make_shards zero i capacity o count shards = some shards
  make_shards (suc rounds) i capacity o count shards = elim (new_shard capacity o count i) [
    | none ↦ none
    | some s ↦ make_shards rounds (i + 1) capacity o count (update ℕ_discrete shards i s)
  ]

  -- `NewSharded` from its slice of shards on; `empty` is an element of a fresh slice.
  unfoldable pub build : MemoryStore K V → ℕ → MemoryOptions → ℕ → Option (ShardedStore K V)
  build empty capacity o count = elim (make_shards count 0 capacity o count (λ _. empty)) [
    | none ↦ none
    | some stores ↦ some (record { shards = stores; count = count; mask = count - 1 })
  ]

  -- `NewSharded`, with `GOMAXPROCS`. A capacity that is not positive stands as 0; `none` is a panic.
  unfoldable pub new_sharded :
      MemoryStore K V → ℕ → ℕ → List (MemoryOptions → MemoryOptions) → Option (ShardedStore K V)
  new_sharded empty procs capacity opts =
      let o = apply opts zero_options in
      if capacity == 0 then none else elim o.shards [
        | negsuc n ↦ none
        | pos n ↦
            let shards = if n == 0 then next_power_of_two_int (procs * 16) else n in
            if shards == 0 || not (bit_and shards (shards - 1) == 0)
            then none
            else build empty capacity o (fit_count shards capacity)
      ]
