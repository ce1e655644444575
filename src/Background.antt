-- ===== src/Background.antt =====
-- background/background.go, value.go, options.go: a value that a goroutine keeps up to date.
pub mod Kept
pub mod Mirrored
use Prim.Native.String.{String}
use go_memoize.Base.{
  ℕ, Bool, true, false, Option, none, some, List, [], ◌∷◌, if◌then◌else◌, ◌⊎◌, inl, inr,
}
use go_memoize.Time.{Duration}
use go_memoize.Stored.{Stored}
use go_memoize.Store.{Store, Ctx, Found, Error, zero_stored}
use go_memoize.RefreshLoop.{Signal, Load, Hooks, and_then, run_loop}

-- `options[V]`: what is written through goes to a store, under a key; and whether the callbacks of
-- `OnRefresh` and `OnError` are functions, as they are at first, and not nil.
pub record KeepOptions (V S : Type 0) : Type 0 where
  pub write_through : Option (String × Store String V S)
  pub on_refresh : Bool
  pub on_error : Bool

-- The state: the value behind the atomic pointer of a `Value[V]`, the values handed to the
-- callback of `OnRefresh` and the errors handed to the one of `OnError`, the latest first, and the
-- state of the store that is written through.
pub record KeepState (V S : Type 0) : Type 0 where
  pub current : Option V
  pub refreshed : List V
  pub failed : List Error
  pub store : S

-- What `remote.Get` replied, as the result of a load; `absent` is the error for a missing key.
abbrev pub result_of : {V : Type 0} → V → Error → Found (Stored V) → V × Option Error
result_of nothing absent (e, ok, some err) = (nothing, some err)
result_of nothing absent (e, false, none) = (nothing, some absent)
result_of nothing absent (e, true, none) = (e.value, none)

-- The load function of `Mirror`, by the replies; `missed` is `errMirrorRefreshMiss`.
unfoldable pub mirror_load : {V : Type 0} → V → Error → (ℕ → Found (Stored V)) → Load V
mirror_load nothing missed replies i = result_of nothing missed (replies i)

module _ {V S : Type 0} (nothing : V) where
  -- `Value.Get`
  unfoldable pub get : KeepState V S → V
  get s = elim s.current [ none ↦ nothing | some v ↦ v ]

  -- `val.store` and `o.onRefresh`, whose call panics on nil
  unfoldable pub refresh_value : KeepOptions V S → V → KeepState V S → Option (KeepState V S)
  refresh_value o v s =
      if o.on_refresh
      then some (record s { current = some v; refreshed = v ∷ s.refreshed })
      else none

  -- the write through, whose error is dropped
  unfoldable pub write : Ctx → KeepOptions V S → V → KeepState V S → KeepState V S
  write ctx o v s = elim o.write_through [
    | none ↦ s
    | some (key, store) ↦ record s {
      store =
          (store.set ctx key (record (zero_stored nothing) { value = v; no_expire = true })
            s.store).1;
    }
  ]

  unfoldable pub fail : Error → KeepState V S → KeepState V S
  fail err s = record s { failed = err ∷ s.failed }

  -- what the loop of `Keep` does with a result
  abbrev pub keep_hooks : Ctx → KeepOptions V S → Hooks V (KeepState V S)
  keep_hooks ctx o = record {
    on_value = some (λ v s. and_then (refresh_value o v s) (λ s. some (write ctx o v s)));
    on_error = if o.on_error then some (λ err s. some (fail err s)) else none;
  }

  -- `Keep` after its first load: the error of that, or the state after the signals
  unfoldable pub keep_from :
      Ctx
      → Load V
      → Duration
      → KeepOptions V S
      → List Signal
      → KeepState V S
      → V × Option Error
      → Error ⊎ Option (KeepState V S)
  keep_from ctx fn interval o signals s (v, some err) = inl err
  keep_from ctx fn interval o signals s (v, none) = inr (
      and_then (refresh_value o v s)
        (λ s. run_loop interval fn (keep_hooks ctx o) 1 signals (write ctx o v s)))

  -- `Keep`
  unfoldable pub keep :
      Ctx
      → Load V
      → Duration
      → KeepOptions V S
      → List Signal
      → KeepState V S
      → Error ⊎ Option (KeepState V S)
  keep ctx fn interval o signals s = keep_from ctx fn interval o signals s (fn 0)

  -- `not_found` is the error for a key that is missing at first, `is_miss` is `errors.Is`.
  module _ (missed not_found : Error) (is_miss : Error → Bool) where
    -- what the loop of `Mirror` does with a result: a key that is missing is no failure, and the
    -- call of `o.onError` panics on nil.
    abbrev pub mirror_hooks : KeepOptions V S → Hooks V (KeepState V S)
    mirror_hooks o = record {
      on_value = some (refresh_value o);
      on_error =
          some (λ err s.
            if is_miss err then some s else if o.on_error then some (fail err s) else none);
    }

    -- `Mirror` after its first read
    unfoldable pub mirror_from :
        KeepOptions V S
        → (ℕ → Found (Stored V))
        → Duration
        → List Signal
        → KeepState V S
        → V × Option Error
        → Error ⊎ Option (KeepState V S)
    mirror_from o replies interval signals s (v, some err) = inl err
    mirror_from o replies interval signals s (v, none) = inr (
        and_then (refresh_value o v s)
          (run_loop interval (mirror_load nothing missed replies) (mirror_hooks o) 1 signals))

    -- `Mirror`
    unfoldable pub mirror :
        KeepOptions V S
        → (ℕ → Found (Stored V))
        → Duration
        → List Signal
        → KeepState V S
        → Error ⊎ Option (KeepState V S)
    mirror o replies interval signals s =
        mirror_from o replies interval signals s (result_of nothing not_found (replies 0))
