-- ===== src/Memoize/Shared.antt =====
-- What the closures of memoize.go and memoize_ctx.go have in common.
use go_memoize.Base.{ℕ, ◌⊎◌, inl, inr, Option, none, some, is_some, if◌then◌else◌}
use go_memoize.Store.{Ctx, Error}
use go_memoize.Cache.{Cache}
use go_memoize.World.{World, M, Compute, Ran, gives, throws, panics, GoTypes, pure, ◌>>=◌}
use go_memoize.Engine.{get_or_compute}

-- A function with no error, which may panic, as a compute function.
abbrev pub plain : {V : Type 0} → (ℕ → V ⊎ ℕ) → Compute V
plain fn ctx n = elim (fn n) [ inl v ↦ gives v none | inr p ↦ throws p ]

-- the value of the panic on a key of an unsupported type
abbrev pub unsupported : ℕ
unsupported = 0

-- The key is hashed before the cache is asked; the hash panics on an unsupported type.
abbrev pub hashed : {W A : Type 0} → Option ℕ → (ℕ → M W A) → M W A
hashed none call w = (panics unsupported, w)
hashed (some key) call w = call key w

module _ {V S : Type 0} (go : GoTypes ℕ V) where
  -- the closure of the functions with no error: an error of the cache becomes the zero value
  unfoldable pub call_cached : Cache ℕ V S → Ctx → Option ℕ → Compute V → M (World ℕ V S) V
  call_cached c ctx h compute = hashed h λ key. do
    (value, err) ← get_or_compute go c ctx key compute
    if is_some err then pure go.zero else pure value

  -- `getSetDirect`: the compute function does not get the context that the cache hands it
  unfoldable pub get_set_direct :
      Cache ℕ V S → Ctx → Option ℕ → (ℕ → Ran V) → M (World ℕ V S) (V × Option Error)
  get_set_direct c ctx h compute = hashed h λ key. get_or_compute go c ctx key (λ _. compute)
