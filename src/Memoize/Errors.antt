-- ===== src/Memoize/Errors.antt =====
-- The `Memoize` functions of memoize.go for functions with an error.
use go_memoize.Base.{ℕ, Option, some}
use go_memoize.Base.Result.{Result, ok, ◌>>=◌}
use go_memoize.Hash.{Key, hash1, hash2, hash3, hash4, hash5, hash6, hash7}
use go_memoize.Store.{Store, Error, background}
use go_memoize.Options.{Options}
use go_memoize.Cache.{new_direct_cache}
use go_memoize.World.{World, M, Ran, GoTypes}
use go_memoize.Memoize.Shared.{get_set_direct}

module _ {V S : Type 0} (go : GoTypes ℕ V) (direct : Store ℕ V S) where
  unfoldable pub memoize_e :
      (ℕ → Ran V) → Options ℕ V S → Result Error (M (World ℕ V S) (V × Option Error))
  memoize_e fn opts = do
    c ← new_direct_cache direct opts
    ok (get_set_direct go c background (some 0) fn)

  unfoldable pub memoize1_e :
      (Key → ℕ → Ran V) → Options ℕ V S → Result Error (Key → M (World ℕ V S) (V × Option Error))
  memoize1_e fn opts = do
    c ← new_direct_cache direct opts
    ok (λ k1. get_set_direct go c background (hash1 k1) (fn k1))

  unfoldable pub memoize2_e :
      (Key → Key → ℕ → Ran V)
      → Options ℕ V S
      → Result Error (Key → Key → M (World ℕ V S) (V × Option Error))
  memoize2_e fn opts = do
    c ← new_direct_cache direct opts
    ok (λ k1 k2. get_set_direct go c background (hash2 k1 k2) (fn k1 k2))

  unfoldable pub memoize3_e :
      (Key → Key → Key → ℕ → Ran V)
      → Options ℕ V S
      → Result Error (Key → Key → Key → M (World ℕ V S) (V × Option Error))
  memoize3_e fn opts = do
    c ← new_direct_cache direct opts
    ok (λ k1 k2 k3. get_set_direct go c background (hash3 k1 k2 k3) (fn k1 k2 k3))

  unfoldable pub memoize4_e :
      (Key → Key → Key → Key → ℕ → Ran V)
      → Options ℕ V S
      → Result Error (Key → Key → Key → Key → M (World ℕ V S) (V × Option Error))
  memoize4_e fn opts = do
    c ← new_direct_cache direct opts
    ok (λ k1 k2 k3 k4. get_set_direct go c background (hash4 k1 k2 k3 k4) (fn k1 k2 k3 k4))

  unfoldable pub memoize5_e :
      (Key → Key → Key → Key → Key → ℕ → Ran V)
      → Options ℕ V S
      → Result Error (Key → Key → Key → Key → Key → M (World ℕ V S) (V × Option Error))
  memoize5_e fn opts = do
    c ← new_direct_cache direct opts
    ok (λ k1 k2 k3 k4 k5. get_set_direct go c background (hash5 k1 k2 k3 k4 k5) (fn k1 k2 k3 k4 k5))

  unfoldable pub memoize6_e :
      (Key → Key → Key → Key → Key → Key → ℕ → Ran V)
      → Options ℕ V S
      → Result Error (Key → Key → Key → Key → Key → Key → M (World ℕ V S) (V × Option Error))
  memoize6_e fn opts = do
    c ← new_direct_cache direct opts
    ok (λ k1 k2 k3 k4 k5 k6.
        get_set_direct go c background (hash6 k1 k2 k3 k4 k5 k6) (fn k1 k2 k3 k4 k5 k6))

  unfoldable pub memoize7_e :
      (Key → Key → Key → Key → Key → Key → Key → ℕ → Ran V)
      → Options ℕ V S
      → Result Error (Key → Key → Key → Key → Key → Key → Key → M (World ℕ V S) (V × Option Error))
  memoize7_e fn opts = do
    c ← new_direct_cache direct opts
    ok (λ k1 k2 k3 k4 k5 k6 k7.
        get_set_direct go c background (hash7 k1 k2 k3 k4 k5 k6 k7) (fn k1 k2 k3 k4 k5 k6 k7))
