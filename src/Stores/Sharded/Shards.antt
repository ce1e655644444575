-- ===== src/Stores/Sharded/Shards.antt =====
-- Steps of the sharded store: on the shard of a key, and on each shard in turn.
use go_memoize.Base.{
  ℕ, zero, suc, ◌+◌, ◌/◌, ◌≤◌, ◌<◌, Option, none, some, ◌≡◌, ◌≢◌, ◌⊎◌, inl, inr, ◌∙◌, refl, sym, ap,
  arith, update, update_self, update_ne, ℕ_discrete, bit_and,
}
use go_memoize.Hash.{Key}
use go_memoize.Stored.{Stored}
use go_memoize.Store.{Error}
use go_memoize.Stores.Sizes.{Sizes}
use go_memoize.Stores.Memory.{MemoryStore, M}
use go_memoize.Stores.Memory.Evict.{entries}
use go_memoize.Stores.Memory.Laws.{IsHeld}
use go_memoize.Stores.Sharded.{ShardedStore, shard_hash}
use go_memoize.Stores.Sharded.Mask.{bit_and-le}
use go_memoize.Stores.Sharded.Methods.{on_index, each_shard, shard, on_shard}

-- The mask reaches every shard, and each shard is valid.
pub record IsSharded {K V : Type 0} (go : Sizes K V) (s : ShardedStore K V) : Type 0 where
  pub masked : s.count ≡ suc s.mask
  pub held : (i : ℕ) → i < s.count → IsHeld go (s.shards i)

abbrev pub replaced : {K V : Type 0} → ℕ → MemoryStore K V → ShardedStore K V → ShardedStore K V
replaced i t s = record s { shards = update ℕ_discrete s.shards i t }

-- Every key is of a type that the hash supports.
abbrev pub Supported : {K : Type 0} → (K → Key) → Type 0
Supported {K} key_of = (k : K) → (h : ℕ) × (shard_hash (key_of k) ≡ some h)

module _ {K V : Type 0} (go : Sizes K V) where
  pub IsSharded-replaced :
      (s : ShardedStore K V) (i : ℕ) (t : MemoryStore K V)
      → IsSharded go s
      → IsHeld go t
      → IsSharded go (replaced i t s)
  IsSharded-replaced s i t v h = record {
    masked = v.masked;
    held = λ q lt. elim (ℕ_discrete i q) [
      | yes e ↦ rw (sym e, update_self ℕ_discrete s.shards i t) h
      | no n ↦ rw (update_ne ℕ_discrete s.shards i q t n) (v.held q lt)
    ];
  }

  on_index-ok :
      {A : Type 0} (s : ShardedStore K V) (i : ℕ) (m : M K V A) (a : A) (t : MemoryStore K V)
      → i < s.count
      → m (s.shards i) ≡ some (a, t)
      → on_index i m s ≡ some (a, replaced i t s)
  unfolding on_index
  on_index-ok s i m a t lt run = ground (arith, run)

  module _ (key_of : K → Key) (supported : Supported key_of) where
    -- the index of the shard of a key
    abbrev pub slot : ShardedStore K V → K → ℕ
    slot s k = bit_and ((supported k).0 / 65536) s.mask

    -- What the store holds under a key: what its shard holds.
    abbrev pub entries_in : ShardedStore K V → K → Option (Stored V)
    entries_in s k = entries (s.shards (slot s k)) k

    pub slot-lt : (s : ShardedStore K V) (k : K) → IsSharded go s → slot s k < s.count
    slot-lt s k v = omega (arith, v.masked, bit_and-le ((supported k).0 / 65536) s.mask)

    shard-slot : (s : ShardedStore K V) (k : K) → shard go key_of k s ≡ some (slot s k)
    unfolding shard
    shard-slot s k = rw (shard, (supported k).1) refl

    pub on_shard-ok :
        {A : Type 0} (s : ShardedStore K V) (k : K) (m : M K V A) (a : A) (t : MemoryStore K V)
        → IsSharded go s
        → m (s.shards (slot s k)) ≡ some (a, t)
        → on_shard go key_of k m s ≡ some (a, replaced (slot s k) t s)
    unfolding on_shard
    on_shard-ok s k m a t v run =
        rw (on_shard, shard-slot s k) (on_index-ok s (slot s k) m a t (slot-lt s k v) run)

    pub entries_in-replaced :
        (s : ShardedStore K V) (i : ℕ) (t : MemoryStore K V) (j : K)
        → ((slot s j ≡ i) × (entries_in (replaced i t s) j ≡ entries t j))
          ⊎ ((slot s j ≢ i) × (entries_in (replaced i t s) j ≡ entries_in s j))
    entries_in-replaced s i t j = elim (ℕ_discrete i (slot s j)) [
      | yes e ↦ inl (
        sym e,
        ap (λ x. entries x j)
            (ap (update ℕ_discrete s.shards i t) (sym e) ∙ update_self ℕ_discrete s.shards i t),
      )
      | no n ↦
          inr (
            (λ c. n (sym c)),
            ap (λ x. entries x j) (update_ne ℕ_discrete s.shards i (slot s j) t n),
          )
    ]

  -- A loop over the shards, with a method that relates each shard before and after.
  module _ (m : M K V (Option Error)) (R : MemoryStore K V → MemoryStore K V → Type 0)
      (ok : (s : MemoryStore K V)
        → IsHeld go s
        → (t : MemoryStore K V) × (m s ≡ some (none, t)) × IsHeld go t × R s t) where
    abbrev Passed : ℕ → ShardedStore K V → ShardedStore K V → Type 0
    Passed i s u =
        IsSharded go u
        × (u.mask ≡ s.mask)
        × ((q : ℕ) → q < i → u.shards q ≡ s.shards q)
        × ((q : ℕ) → i ≤ q → q < s.count → R (s.shards q) (u.shards q))

    each_shard-more :
        (s t u : ShardedStore K V) (rounds i : ℕ)
        → on_index i m s ≡ some (none, t)
        → each_shard m rounds (i + 1) t ≡ some (none, u)
        → each_shard m (suc rounds) i s ≡ some (none, u)
    unfolding each_shard
    each_shard-more s t u rounds i first rest = rw (each_shard, first) rest

    pub each_shard-ok :
        (rounds i : ℕ) (s : ShardedStore K V)
        → IsSharded go s
        → i + rounds ≡ s.count
        → (u : ShardedStore K V) × (each_shard m rounds i s ≡ some (none, u)) × Passed i s u
    unfolding each_shard
    each_shard-ok zero i s v full =
        (s, refl, (v, refl, (λ q lt. refl), λ q le lt. absurd (omega arith)))
    each_shard-ok (suc rounds) i s v full =
        let (t, run, h, r) = ok (s.shards i) (v.held i (omega arith)) in
        let s' = replaced i t s in
        let (u, rest, (v', mask, before, after)) =
          each_shard-ok rounds (i + 1) s' (IsSharded-replaced s i t v h) (omega arith) in
        let first = on_index-ok s i m none t (omega arith) run in
        (
          u,
          each_shard-more s s' u rounds i first rest,
          (
            v',
            mask,
            (λ q lt. before q (omega arith) ∙ update_ne ℕ_discrete s.shards i q t (omega arith)),
            λ q le lt. elim (ℕ_discrete i q) [
              | yes e ↦ rw (sym e, before i (omega arith), update_self ℕ_discrete s.shards i t) r
              | no n ↦ rw (update_ne ℕ_discrete s.shards i q t n) at (after q (omega arith) lt)
            ],
          ),
        )
