-- ===== src/Memoize/Contexts.antt =====
-- The `MemoizeCtx` functions of memoize_ctx.go for functions with no error.
use go_memoize.Base.{ℕ, ◌⊎◌, some}
use go_memoize.Base.Result.{Result, ok, ◌>>=◌}
use go_memoize.Hash.{Key, hash1, hash2, hash3, hash4, hash5, hash6, hash7}
use go_memoize.Store.{Store, Ctx, Error}
use go_memoize.Options.{Options}
use go_memoize.Cache.{new_direct_cache}
use go_memoize.World.{World, M, GoTypes}
use go_memoize.Memoize.Shared.{plain, call_cached}

module _ {V S : Type 0} (go : GoTypes ℕ V) (direct : Store ℕ V S) where
  unfoldable pub memoize_ctx :
      (Ctx → ℕ → V ⊎ ℕ) → Options ℕ V S → Result Error (Ctx → M (World ℕ V S) V)
  memoize_ctx fn opts = do
    c ← new_direct_cache direct opts
    ok (λ ctx. call_cached go c ctx (some 0) (plain (fn ctx)))

  unfoldable pub memoize_ctx1 :
      (Ctx → Key → ℕ → V ⊎ ℕ) → Options ℕ V S → Result Error (Ctx → Key → M (World ℕ V S) V)
  memoize_ctx1 fn opts = do
    c ← new_direct_cache direct opts
    ok (λ ctx k1. call_cached go c ctx (hash1 k1) (plain (fn ctx k1)))

  unfoldable pub memoize_ctx2 :
      (Ctx → Key → Key → ℕ → V ⊎ ℕ)
      → Options ℕ V S
      → Result Error (Ctx → Key → Key → M (World ℕ V S) V)
  memoize_ctx2 fn opts = do
    c ← new_direct_cache direct opts
    ok (λ ctx k1 k2. call_cached go c ctx (hash2 k1 k2) (plain (fn ctx k1 k2)))

  unfoldable pub memoize_ctx3 :
      (Ctx → Key → Key → Key → ℕ → V ⊎ ℕ)
      → Options ℕ V S
      → Result Error (Ctx → Key → Key → Key → M (World ℕ V S) V)
  memoize_ctx3 fn opts = do
    c ← new_direct_cache direct opts
    ok (λ ctx k1 k2 k3. call_cached go c ctx (hash3 k1 k2 k3) (plain (fn ctx k1 k2 k3)))

  unfoldable pub memoize_ctx4 :
      (Ctx → Key → Key → Key → Key → ℕ → V ⊎ ℕ)
      → Options ℕ V S
      → Result Error (Ctx → Key → Key → Key → Key → M (World ℕ V S) V)
  memoize_ctx4 fn opts = do
    c ← new_direct_cache direct opts
    ok (λ ctx k1 k2 k3 k4. call_cached go c ctx (hash4 k1 k2 k3 k4) (plain (fn ctx k1 k2 k3 k4)))

  unfoldable pub memoize_ctx5 :
      (Ctx → Key → Key → Key → Key → Key → ℕ → V ⊎ ℕ)
      → Options ℕ V S
      → Result Error (Ctx → Key → Key → Key → Key → Key → M (World ℕ V S) V)
  memoize_ctx5 fn opts = do
    c ← new_direct_cache direct opts
    ok (λ ctx k1 k2 k3 k4 k5.
        call_cached go c ctx (hash5 k1 k2 k3 k4 k5) (plain (fn ctx k1 k2 k3 k4 k5)))

  unfoldable pub memoize_ctx6 :
      (Ctx → Key → Key → Key → Key → Key → Key → ℕ → V ⊎ ℕ)
      → Options ℕ V S
      → Result Error (Ctx → Key → Key → Key → Key → Key → Key → M (World ℕ V S) V)
  memoize_ctx6 fn opts = do
    c ← new_direct_cache direct opts
    ok (λ ctx k1 k2 k3 k4 k5 k6.
        call_cached go c ctx (hash6 k1 k2 k3 k4 k5 k6) (plain (fn ctx k1 k2 k3 k4 k5 k6)))

  unfoldable pub memoize_ctx7 :
      (Ctx → Key → Key → Key → Key → Key → Key → Key → ℕ → V ⊎ ℕ)
      → Options ℕ V S
      → Result Error (Ctx → Key → Key → Key → Key → Key → Key → Key → M (World ℕ V S) V)
  memoize_ctx7 fn opts = do
    c ← new_direct_cache direct opts
    ok (λ ctx k1 k2 k3 k4 k5 k6 k7.
        call_cached go c ctx (hash7 k1 k2 k3 k4 k5 k6 k7) (plain (fn ctx k1 k2 k3 k4 k5 k6 k7)))
