-- ===== src/Tests/Sharded.antt =====
-- The sharded store at concrete keys and options.
use go_memoize.Base.{ℕ, ◌<◌, ◌≤◌, some, none, List, [], ◌∷◌, ◌≡◌, refl, arith, ℕ_discrete}
use go_memoize.Base.Int.{pos}
use go_memoize.Hash.{Key, offset64}
use go_memoize.Hash.Key.{uint64}
use go_memoize.Hash.Internal.{uint_hash}
use go_memoize.Store.Laws.{StoreLaws}
use go_memoize.Stores.Sizes.{Sizes}
use go_memoize.Stores.Memory.{MemoryStore, zero_element}
use go_memoize.Stores.Sharded.{
  MemoryOptions, apply, ShardedStore, shard_hash, with_shards, with_max_bytes, new_sharded,
}
use go_memoize.Stores.Sharded.Methods.{sum_shards, sharded_store}
use go_memoize.Stores.Sharded.Shards.{IsSharded, Supported, entries_in}
use go_memoize.Stores.Sharded.Laws.{sharded_store-StoreLaws}
use go_memoize.Stores.Sharded.Build.{new_sharded-IsSharded}

abbrev go : Sizes ℕ ℕ
go = record { key_eq = ℕ_discrete; zero_key = 0; zero = 0; key_size = 8; stored_size = 120 }

abbrev word : ℕ → Key
word k = uint64 k

word-Supported : Supported word
unfolding shard_hash
word-Supported k = (uint_hash offset64 k, refl)

sharded_store-StoreLaws_example :
    StoreLaws {V = ℕ} 0 (sharded_store go word) (IsSharded go) (entries_in go word word-Supported)
sharded_store-StoreLaws_example = sharded_store-StoreLaws go word word-Supported

abbrev empty : MemoryStore ℕ ℕ
empty = record {
  index = λ _. none;
  elements = λ _. zero_element go;
  head = 0;
  len = 0;
  cap = 0;
  used_bytes = 0;
  get_hits = 0;
  get_recency_sample = 0;
  max_bytes = 0;
}

-- four shards for ten entries, and three bytes
abbrev four : List (MemoryOptions → MemoryOptions)
four = with_shards (pos 4) ∷ with_max_bytes (pos 3) ∷ []

new_sharded-IsSharded_example :
    (s : ShardedStore ℕ ℕ) × (new_sharded go empty 8 10 four ≡ some s)
    × IsSharded go s
    × (s.count ≤ 4)
    × (sum_shards (λ t. t.cap) s.count 0 s ≡ 10)
    × (0 < 3 → sum_shards (λ t. t.max_bytes) s.count 0 s ≡ 3)
    × ((q : ℕ) → q < s.count → 3 ≤ q → (s.shards q).max_bytes ≡ 0)
unfolding with_shards with_max_bytes apply
new_sharded-IsSharded_example =
    new_sharded-IsSharded go empty 8 10 4 four refl (omega arith) refl (omega arith) (omega arith)
