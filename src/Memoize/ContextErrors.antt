-- ===== src/Memoize/ContextErrors.antt =====
-- The `MemoizeCtx` functions of memoize_ctx.go for functions with an error.
use go_memoize.Base.{ℕ, Option, some}
use go_memoize.Base.Result.{Result, ok, ◌>>=◌}
use go_memoize.Hash.{Key, hash1, hash2, hash3, hash4, hash5, hash6, hash7}
use go_memoize.Store.{Store, Ctx, Error}
use go_memoize.Options.{Options}
use go_memoize.Cache.{new_direct_cache}
use go_memoize.World.{World, M, Ran, GoTypes}
use go_memoize.Memoize.Shared.{get_set_direct}

module _ {V S : Type 0} (go : GoTypes ℕ V) (direct : Store ℕ V S) where
  unfoldable pub memoize_ctx_e :
      (Ctx → ℕ → Ran V) → Options ℕ V S → Result Error (Ctx → M (World ℕ V S) (V × Option Error))
  memoize_ctx_e fn opts = do
    c ← new_direct_cache direct opts
    ok (λ ctx. get_set_direct go c ctx (some 0) (fn ctx))

  unfoldable pub memoize_ctx1_e :
      (Ctx → Key → ℕ → Ran V)
      → Options ℕ V S
      → Result Error (Ctx → Key → M (World ℕ V S) (V × Option Error))
  memoize_ctx1_e fn opts = do
    c ← new_direct_cache direct opts
    ok (λ ctx k1. get_set_direct go c ctx (hash1 k1) (fn ctx k1))

  unfoldable pub memoize_ctx2_e :
      (Ctx → Key → Key → ℕ → Ran V)
      → Options ℕ V S
      → Result Error (Ctx → Key → Key → M (World ℕ V S) (V × Option Error))
  memoize_ctx2_e fn opts = do
    c ← new_direct_cache direct opts
    ok (λ ctx k1 k2. get_set_direct go c ctx (hash2 k1 k2) (fn ctx k1 k2))

  unfoldable pub memoize_ctx3_e :
      (Ctx → Key → Key → Key → ℕ → Ran V)
      → Options ℕ V S
      → Result Error (Ctx → Key → Key → Key → M (World ℕ V S) (V × Option Error))
  memoize_ctx3_e fn opts = do
    c ← new_direct_cache direct opts
    ok (λ ctx k1 k2 k3. get_set_direct go c ctx (hash3 k1 k2 k3) (fn ctx k1 k2 k3))

  unfoldable pub memoize_ctx4_e :
      (Ctx → Key → Key → Key → Key → ℕ → Ran V)
      → Options ℕ V S
      → Result Error (Ctx → Key → Key → Key → Key → M (World ℕ V S) (V × Option Error))
  memoize_ctx4_e fn opts = do
    c ← new_direct_cache direct opts
    ok (λ ctx k1 k2 k3 k4. get_set_direct go c ctx (hash4 k1 k2 k3 k4) (fn ctx k1 k2 k3 k4))

  unfoldable pub memoize_ctx5_e :
      (Ctx → Key → Key → Key → Key → Key → ℕ → Ran V)
      → Options ℕ V S
      → Result Error (Ctx → Key → Key → Key → Key → Key → M (World ℕ V S) (V × Option Error))
  memoize_ctx5_e fn opts = do
    c ← new_direct_cache direct opts
    ok (λ ctx k1 k2 k3 k4 k5.
        get_set_direct go c ctx (hash5 k1 k2 k3 k4 k5) (fn ctx k1 k2 k3 k4 k5))

  unfoldable pub memoize_ctx6_e :
      (Ctx → Key → Key → Key → Key → Key → Key → ℕ → Ran V)
      → Options ℕ V S
      → Result Error (Ctx → Key → Key → Key → Key → Key → Key → M (World ℕ V S) (V × Option Error))
  memoize_ctx6_e fn opts = do
    c ← new_direct_cache direct opts
    ok (λ ctx k1 k2 k3 k4 k5 k6.
        get_set_direct go c ctx (hash6 k1 k2 k3 k4 k5 k6) (fn ctx k1 k2 k3 k4 k5 k6))

  unfoldable pub memoize_ctx7_e :
      (Ctx → Key → Key → Key → Key → Key → Key → Key → ℕ → Ran V)
      → Options ℕ V S
      → Result Error
          (Ctx → Key → Key → Key → Key → Key → Key → Key → M (World ℕ V S) (V × Option Error))
  memoize_ctx7_e fn opts = do
    c ← new_direct_cache direct opts
    ok (λ ctx k1 k2 k3 k4 k5 k6 k7.
        get_set_direct go c ctx (hash7 k1 k2 k3 k4 k5 k6 k7) (fn ctx k1 k2 k3 k4 k5 k6 k7))
