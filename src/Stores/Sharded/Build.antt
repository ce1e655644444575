-- ===== src/Stores/Sharded/Build.antt =====
-- What `NewSharded` builds: valid shards, whose capacities and bounds on bytes add up.
use native.Mathlib.Nat.{div-add-mod, mod-lt, mod-eq_of_lt}
use go_memoize.Base.{
  ℕ, zero, suc, ◌+◌, ◌-◌, ◌/◌, ◌%◌, ◌≤◌, ◌<◌, Option, some, List, ◌≡◌, ◌∙◌, refl, sym, ap, arith,
  bit_and, update, update_self, update_ne, ℕ_discrete,
}
use go_memoize.Base.Int.{pos}
use go_memoize.Stores.Sizes.{Sizes}
use go_memoize.Stores.Memory.{u32_mod, MemoryStore}
use go_memoize.Stores.Memory.Laws.{IsHeld}
use go_memoize.Stores.Memory.Reached.{new_memory-Safe}
use go_memoize.Stores.Sharded.{
  zero_options, MemoryOptions, apply, ShardedStore, fit_count, shard_cap, shard_bytes, new_shard,
  make_shards, build, new_sharded,
}
use go_memoize.Stores.Sharded.Methods.{sum_shards}
use go_memoize.Stores.Sharded.Shards.{IsSharded}
use go_memoize.Stores.Sharded.Shares.{fit_count-fits, share-le, sum_shards-shares, shard_cap-bounds}

module _ {K V : Type 0} (go : Sizes K V) where
  -- What `NewSharded` makes of the shard at an index.
  pub record Good (capacity max_bytes count i : ℕ) (t : MemoryStore K V) : Type 0 where
    pub held : IsHeld go t
    pub cap : t.cap ≡ shard_cap capacity count i
    pub max_bytes_of : t.max_bytes ≡ shard_bytes max_bytes count i

  new_shard-Good :
      (capacity : ℕ) (o : MemoryOptions) (count i : ℕ)
      → 0 < count
      → count ≤ capacity
      → capacity < u32_mod
      → (t : MemoryStore K V) × (new_shard go capacity o count i ≡ some t)
        × Good capacity o.max_bytes count i t
  unfolding new_shard
  new_shard-Good capacity o count i some_shards fits small =
      let (room, le) = shard_cap-bounds capacity count i some_shards fits in
      let c = shard_cap capacity count i in
      let whole : c % u32_mod ≡ c = omega arith in
      let (t, made, safe) =
        new_memory-Safe go c o.get_recency_sample (shard_bytes o.max_bytes count i) (omega arith) in
      (
        t,
        made,
        record {
          held = (safe.stamp, safe.now, safe.valid);
          cap = safe.caps ∙ whole;
          max_bytes_of = safe.maxs;
        },
      )

  module _ (capacity : ℕ) (o : MemoryOptions) (count : ℕ) (some_shards : 0 < count)
      (fits : count ≤ capacity) (small : capacity < u32_mod) where
    make_shards-more :
        (rounds i : ℕ) (shards : ℕ → MemoryStore K V) (t : MemoryStore K V)
        {r : Option (ℕ → MemoryStore K V)}
        → new_shard go capacity o count i ≡ some t
        → make_shards go rounds (i + 1) capacity o count (update ℕ_discrete shards i t) ≡ r
        → make_shards go (suc rounds) i capacity o count shards ≡ r
    unfolding make_shards
    make_shards-more rounds i shards t made rest = rw (make_shards, made) rest

    make_shards-Good :
        (rounds i : ℕ) (shards : ℕ → MemoryStore K V)
        → (all : ℕ → MemoryStore K V) × (make_shards go rounds i capacity o count shards ≡ some all)
          × ((q : ℕ) → q < i → all q ≡ shards q)
          × ((q : ℕ) → i ≤ q → q < i + rounds → Good capacity o.max_bytes count q (all q))
    unfolding make_shards
    make_shards-Good zero i shards = (shards, refl, (λ q lt. refl), λ q le lt. absurd (omega arith))
    make_shards-Good (suc rounds) i shards =
        let (t, made, good) = new_shard-Good capacity o count i some_shards fits small in
        let (all, rest, before, after) =
          make_shards-Good rounds (i + 1) (update ℕ_discrete shards i t) in
        (
          all,
          make_shards-more rounds i shards t made rest,
          (λ q lt. before q (omega arith) ∙ update_ne ℕ_discrete shards i q t (omega arith)),
          λ q le lt. elim (ℕ_discrete i q) [
            | yes e ↦ rw (sym e, before i (omega arith), update_self ℕ_discrete shards i t) good
            | no n ↦ after q (omega arith) (omega arith)
          ],
        )

    build-ok :
        (empty : MemoryStore K V)
        → (s : ShardedStore K V) × (build go empty capacity o count ≡ some s)
          × (s.count ≡ count)
          × IsSharded go s
          × ((q : ℕ) → q < count → Good capacity o.max_bytes count q (s.shards q))
    unfolding build
    build-ok empty =
        let (all, run, before, good) = make_shards-Good count 0 (λ _. empty) in
        let each = λ (q : ℕ) (lt : q < count). good q (omega arith) (omega arith) in
        (
          record { shards = all; count = count; mask = count - 1 },
          rw (build, run) refl,
          refl,
          record { masked = omega arith; held = λ q lt. (each q lt).held },
          each,
        )

    -- The shares add up, of the capacity and of a bound on the bytes. But a shard whose share of
    -- the bytes is nothing has no bound.
    module _ (s : ShardedStore K V) (counted : s.count ≡ count)
        (good : (q : ℕ) → q < count → Good capacity o.max_bytes count q (s.shards q)) where
      caps-sum : sum_shards (λ t. t.cap) s.count 0 s ≡ capacity
      unfolding shard_cap
      caps-sum =
          let total =
            sum_shards-shares s (λ t. t.cap) (capacity / count) (capacity % count) count 0
              (λ q le lt. (good q (omega arith)).cap) in
          omega (
            arith,
            ap (λ n. sum_shards (λ t. t.cap) n 0 s) counted,
            total,
            div-add-mod capacity count,
            mod-lt capacity some_shards,
          )

      bytes-sum : 0 < o.max_bytes → sum_shards (λ t. t.max_bytes) s.count 0 s ≡ o.max_bytes
      unfolding shard_bytes
      bytes-sum bounded =
          let total =
            sum_shards-shares s (λ t. t.max_bytes) (o.max_bytes / count) (o.max_bytes % count) count
              0 (λ q le lt. ground (arith, (good q (omega arith)).max_bytes_of)) in
          omega (
            arith,
            ap (λ n. sum_shards (λ t. t.max_bytes) n 0 s) counted,
            total,
            div-add-mod o.max_bytes count,
            mod-lt o.max_bytes some_shards,
          )

      bytes-none : (q : ℕ) → q < count → o.max_bytes ≤ q → (s.shards q).max_bytes ≡ 0
      unfolding shard_bytes
      bytes-none q lt le =
          let whole = div-add-mod o.max_bytes count in
          let all = mod-eq_of_lt {n = o.max_bytes} {m = count} (omega arith) in
          let share = share-le count (o.max_bytes / count) some_shards in
          let nothing : o.max_bytes / count ≡ 0 = omega (arith, whole, all, share) in
          ground (arith, (good q lt).max_bytes_of, nothing, all)

module _ {K V : Type 0} (go : Sizes K V) (empty : MemoryStore K V) (procs capacity n : ℕ)
    (opts : List (MemoryOptions → MemoryOptions)) where
  -- the bytes that the options bound the store to
  abbrev pub asked_bytes : ℕ
  asked_bytes = (apply opts zero_options).max_bytes

  new_sharded-build :
      (r : Option (ShardedStore K V))
      → (apply opts zero_options).shards ≡ pos n
      → 0 < n
      → bit_and n (n - 1) ≡ 0
      → 0 < capacity
      → build go empty capacity (apply opts zero_options) (fit_count n capacity) ≡ r
      → new_sharded go empty procs capacity opts ≡ r
  unfolding new_sharded
  new_sharded-build r asked some_shards power some_room built =
      rw (new_sharded, asked) (ground (arith, power, built))

  -- `NewSharded` with a count of shards that is a power of two, and a capacity that is positive
  -- and below 2 ^ 32, makes a valid store of at most that many shards. Their capacities add up to
  -- the capacity asked for, and so do their bounds on bytes if there is one. But each shard whose
  -- index is not below that bound gets the bound 0, which stands for none.
  pub new_sharded-IsSharded :
      (apply opts zero_options).shards ≡ pos n
      → 0 < n
      → bit_and n (n - 1) ≡ 0
      → 0 < capacity
      → capacity < u32_mod
      → (s : ShardedStore K V) × (new_sharded go empty procs capacity opts ≡ some s)
        × IsSharded go s
        × (s.count ≤ n)
        × (sum_shards (λ t. t.cap) s.count 0 s ≡ capacity)
        × (0 < asked_bytes → sum_shards (λ t. t.max_bytes) s.count 0 s ≡ asked_bytes)
        × ((q : ℕ) → q < s.count → asked_bytes ≤ q → (s.shards q).max_bytes ≡ 0)
  new_sharded-IsSharded asked some_shards power some_room small =
      let o = apply opts zero_options in
      let count = fit_count n capacity in
      let (fits, more, le) = fit_count-fits n capacity some_shards some_room in
      let (s, built, counted, valid, good) = build-ok go capacity o count more fits small empty in
      (
        s,
        new_sharded-build (some s) asked some_shards power some_room built,
        valid,
        omega (arith, counted),
        caps-sum go capacity o count more fits small s counted good,
        bytes-sum go capacity o count more fits small s counted good,
        λ q lt below.
            bytes-none go capacity o count more fits small s counted good q (omega (arith, counted))
              below,
      )
