-- ===== src/Memoize/Plain.antt =====
-- The `Memoize` functions of memoize.go for functions with no error.
use go_memoize.Base.{ℕ, ◌⊎◌, some}
use go_memoize.Base.Result.{Result, ok, ◌>>=◌}
use go_memoize.Hash.{Key, hash1, hash2, hash3, hash4, hash5, hash6, hash7}
use go_memoize.Store.{Store, Error, background}
use go_memoize.Options.{Options}
use go_memoize.Cache.{new_direct_cache}
use go_memoize.World.{World, M, GoTypes}
use go_memoize.Memoize.Shared.{plain, call_cached}

module _ {V S : Type 0} (go : GoTypes ℕ V) (direct : Store ℕ V S) where
  unfoldable pub memoize : (ℕ → V ⊎ ℕ) → Options ℕ V S → Result Error (M (World ℕ V S) V)
  memoize fn opts = do
    c ← new_direct_cache direct opts
    ok (call_cached go c background (some 0) (plain fn))

  unfoldable pub memoize1 :
      (Key → ℕ → V ⊎ ℕ) → Options ℕ V S → Result Error (Key → M (World ℕ V S) V)
  memoize1 fn opts = do
    c ← new_direct_cache direct opts
    ok (λ k1. call_cached go c background (hash1 k1) (plain (fn k1)))

  unfoldable pub memoize2 :
      (Key → Key → ℕ → V ⊎ ℕ) → Options ℕ V S → Result Error (Key → Key → M (World ℕ V S) V)
  memoize2 fn opts = do
    c ← new_direct_cache direct opts
    ok (λ k1 k2. call_cached go c background (hash2 k1 k2) (plain (fn k1 k2)))

  unfoldable pub memoize3 :
      (Key → Key → Key → ℕ → V ⊎ ℕ)
      → Options ℕ V S
      → Result Error (Key → Key → Key → M (World ℕ V S) V)
  memoize3 fn opts = do
    c ← new_direct_cache direct opts
    ok (λ k1 k2 k3. call_cached go c background (hash3 k1 k2 k3) (plain (fn k1 k2 k3)))

  unfoldable pub memoize4 :
      (Key → Key → Key → Key → ℕ → V ⊎ ℕ)
      → Options ℕ V S
      → Result Error (Key → Key → Key → Key → M (World ℕ V S) V)
  memoize4 fn opts = do
    c ← new_direct_cache direct opts
    ok (λ k1 k2 k3 k4. call_cached go c background (hash4 k1 k2 k3 k4) (plain (fn k1 k2 k3 k4)))

  unfoldable pub memoize5 :
      (Key → Key → Key → Key → Key → ℕ → V ⊎ ℕ)
      → Options ℕ V S
      → Result Error (Key → Key → Key → Key → Key → M (World ℕ V S) V)
  memoize5 fn opts = do
    c ← new_direct_cache direct opts
    ok (λ k1 k2 k3 k4 k5.
        call_cached go c background (hash5 k1 k2 k3 k4 k5) (plain (fn k1 k2 k3 k4 k5)))

  unfoldable pub memoize6 :
      (Key → Key → Key → Key → Key → Key → ℕ → V ⊎ ℕ)
      → Options ℕ V S
      → Result Error (Key → Key → Key → Key → Key → Key → M (World ℕ V S) V)
  memoize6 fn opts = do
    c ← new_direct_cache direct opts
    ok (λ k1 k2 k3 k4 k5 k6.
        call_cached go c background (hash6 k1 k2 k3 k4 k5 k6) (plain (fn k1 k2 k3 k4 k5 k6)))

  unfoldable pub memoize7 :
      (Key → Key → Key → Key → Key → Key → Key → ℕ → V ⊎ ℕ)
      → Options ℕ V S
      → Result Error (Key → Key → Key → Key → Key → Key → Key → M (World ℕ V S) V)
  memoize7 fn opts = do
    c ← new_direct_cache direct opts
    ok (λ k1 k2 k3 k4 k5 k6 k7.
        call_cached go c background (hash7 k1 k2 k3 k4 k5 k6 k7) (plain (fn k1 k2 k3 k4 k5 k6 k7)))
