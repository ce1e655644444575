-- ===== src/Stores/Sizes.antt =====
-- What Go knows of the types of a memory store.
use go_memoize.Base.{ℕ}

-- Equality of keys, the zero values, and `unsafe.Sizeof` of a key and of a `Stored[V]`, which
-- depends on their types alone.
pub record Sizes (K V : Type 0) : Type 0 where
  pub key_eq : Discrete K
  pub zero_key : K
  pub zero : V
  pub key_size : ℕ
  pub stored_size : ℕ
