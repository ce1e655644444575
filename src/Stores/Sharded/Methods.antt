-- ===== src/Stores/Sharded/Methods.antt =====
-- The methods of the sharded store.
use Prim.Native.String.{String}
use go_memoize.Base.{
  ℕ, zero, suc, ◌+◌, ◌/◌, false, Option, none, some, ltb, if◌then◌else◌, update, ℕ_discrete,
  bit_and,
}
use go_memoize.Time.{Time}
use go_memoize.Stored.{Stored}
use go_memoize.Hash.{Key}
use go_memoize.Store.{Store, Found, Error, external, zero_stored}
use go_memoize.Stores.Sizes.{Sizes}
use go_memoize.Stores.Memory.{MemoryStore, M}
use go_memoize.Stores.Memory.Methods.{written}
use go_memoize.Stores.Memory.Methods as one
use go_memoize.Stores.Sharded.{ShardedStore, shard_hash}

-- A run on a sharded store; `none` is a panic.
abbrev pub S : Type 0 → Type 0 → Type 0 → Type 0
S K V A = ShardedStore K V → Option (A × ShardedStore K V)

module _ {K V : Type 0} where
  abbrev pub put :
      {A : Type 0}
      → ℕ
      → ShardedStore K V
      → Option (A × MemoryStore K V)
      → Option (A × ShardedStore K V)
  put i s none = none
  put i s (some (a, t)) = some (a, record s { shards = update ℕ_discrete s.shards i t })

  -- a method of `s.shards[i]`
  unfoldable pub on_index : {A : Type 0} → ℕ → M K V A → S K V A
  on_index i m s = if ltb i s.count then put i s (m (s.shards i)) else none

  -- a loop over the shards that ends at the first error, by the rounds that are left
  unfoldable pub each_shard : M K V (Option Error) → ℕ → ℕ → S K V (Option Error)
  each_shard m zero i s = some (none, s)
  each_shard m (suc rounds) i s = elim (on_index i m s) [
    | none ↦ none
    | some (some err, t) ↦ some (some err, t)
    | some (none, t) ↦ each_shard m rounds (i + 1) t
  ]

  -- the sums of `Len` and `UsedBytes`
  unfoldable pub sum_shards : (MemoryStore K V → ℕ) → ℕ → ℕ → ShardedStore K V → ℕ
  sum_shards f zero i s = 0
  sum_shards f (suc rounds) i s = f (s.shards i) + sum_shards f rounds (i + 1) s

  unfoldable pub len_sharded : ShardedStore K V → ℕ
  len_sharded s = sum_shards (λ t. t.len) s.count 0 s

  unfoldable pub used_bytes_sharded : ShardedStore K V → ℕ
  used_bytes_sharded s = sum_shards (λ t. t.used_bytes) s.count 0 s

module _ {K V : Type 0} (go : Sizes K V) (key_of : K → Key) where
  -- `shard`: the index of the shard of a key
  unfoldable pub shard : K → ShardedStore K V → Option ℕ
  shard key s = elim (shard_hash (key_of key)) [
    | none ↦ none
    | some h ↦ some (bit_and (h / 65536) s.mask)
  ]

  unfoldable pub on_shard : {A : Type 0} → K → M K V A → S K V A
  on_shard key m s = elim (shard key s) [ none ↦ none | some i ↦ on_index i m s ]

  abbrev pub get : K → S K V (Found (Stored V))
  get key = on_shard key (one.get go key)

  abbrev pub peek : K → S K V (Found (Stored V))
  peek key = on_shard key (one.peek go key)

  abbrev pub peek_fresh_value : K → Time → S K V (Found V)
  peek_fresh_value key now = on_shard key (one.peek_fresh_value go key now)

  abbrev pub set : K → Stored V → S K V (Option Error)
  set key value = on_shard key (written go (one.set go key value))

  abbrev pub delete : K → S K V (Option Error)
  delete key = on_shard key (written go (one.delete go key))

  unfoldable pub clear : S K V (Option Error)
  clear s = each_shard (written go (one.clear go)) s.count 0 s

  unfoldable pub delete_by_tag : String → S K V (Option Error)
  delete_by_tag tag s = each_shard (written go (one.delete_by_tag go tag)) s.count 0 s

  -- A method as a function of the store. A panic, which the theorems exclude for valid stores and
  -- keys of a supported type, shows as an error and leaves the store.
  abbrev pub settled : {A : Type 0} → A → S K V A → ShardedStore K V → A × ShardedStore K V
  settled fault m s = elim (m s) [ some r ↦ r | none ↦ (fault, s) ]

  -- a `*memory.ShardedStore` as a `Store`, with both optional methods
  unfoldable pub sharded_store : Store K V (ShardedStore K V)
  sharded_store =
      let panic : Error = external 0 in
      record {
        get = λ ctx key. settled (zero_stored go.zero, false, some panic) (get key);
        set = λ ctx key value. settled (some panic) (set key value);
        delete = λ ctx key. settled (some panic) (delete key);
        clear = λ ctx. settled (some panic) clear;
        peek = some (λ ctx key. settled (zero_stored go.zero, false, some panic) (peek key));
        peek_fresh_value =
            some (λ ctx key now. settled (go.zero, false, some panic) (peek_fresh_value key now));
      }
