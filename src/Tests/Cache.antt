-- ===== src/Tests/Cache.antt =====
-- Caches that `New` makes from concrete options.
use go_memoize.Base.{ℕ, true, some, [], ◌∷◌, ◌≡◌, inl, refl, arith}
use go_memoize.Base.Int.{pos}
use go_memoize.Base.Result.{ok}
use go_memoize.Options.{Options, given}
use go_memoize.Cache.{Cache, initial, apply_all, start_clock, new}
use go_memoize.Cache.New.{IsReady, new-IsReady, new_complete}
use go_memoize.Direct.Laws.{AnyState, entries, direct_store-MapLaws}
use go_memoize.Store.Laws.{MapLaws}
use go_memoize.Direct.{direct_store}
use go_memoize.Tests.Setting.{DirectState, direct, settings, cache}

abbrev given_settings : Options ℕ ℕ DirectState
given_settings = record settings { has_store = true; store = given direct }

-- `cache` before its clock is started
abbrev applied : Cache ℕ ℕ DirectState
applied = record initial { store = some direct; peeker = direct.peek; ttl_set = true; ttl = pos 10 }

new-cache : new (given_settings ∷ []) ≡ ok cache
unfolding new
new-cache = refl

new-IsReady_example : IsReady cache
new-IsReady_example = new-IsReady (given_settings ∷ []) cache new-cache

new_complete_example : new (given_settings ∷ []) ≡ ok (start_clock applied)
unfolding apply_all initial
new_complete_example = new_complete (given_settings ∷ []) applied refl (record {
  policy = inl (omega arith);
  ttl_valid = λ e. omega arith;
  stale_valid = refl;
  stale_behind = λ h. omega arith;
  stored = inl refl;
})

direct_store-MapLaws_example : MapLaws {V = ℕ} 0 (direct_store 0) AnyState entries
direct_store-MapLaws_example = direct_store-MapLaws {V = ℕ} 0
