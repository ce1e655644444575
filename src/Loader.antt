-- ===== src/Loader.antt =====
-- loader/loader.go: a value that a goroutine loads on an interval.
pub mod Latest
pub mod Stopping
use go_memoize.Base.{ℕ, Bool, true, false, Option, none, some, List, [], ◌∷◌, if◌then◌else◌, ◌≡◌}
use go_memoize.Time.{Duration}
use go_memoize.Store.{Error}
use go_memoize.RefreshLoop.{Signal, Load, Hooks, and_then, run_loop}

-- The state of a `Loader[V]`. `ready` says that its channel is closed; `reported` are the errors
-- handed to the callback of `WithOnError`, the latest first, and `reports` that there is one.
pub record Loader (V : Type 0) : Type 0 where
  pub value : V
  pub err : Option Error
  pub has_val : Bool
  pub ready : Bool
  pub reports : Bool
  pub reported : List Error

module _ {V : Type 0} where
  -- what `New` makes before its goroutine runs
  unfoldable pub new_loader : V → Bool → Loader V
  new_loader zero reports = record {
    value = zero;
    err = none;
    has_val = false;
    ready = false;
    reports = reports;
    reported = [];
  }

  -- `close(l.ready)`, which panics on a closed channel
  unfoldable pub close_ready : Loader V → Option (Loader V)
  close_ready l = if l.ready then none else some (record l { ready = true })

  unfoldable pub store : V → Loader V → Option (Loader V)
  store v l =
      let stored = record l { value = v; err = none } in
      if l.has_val then some stored else close_ready (record stored { has_val = true })

  unfoldable pub store_error : Error → Loader V → Option (Loader V)
  store_error err l =
      let kept = if l.has_val then l else record l { err = some err } in
      some (if l.reports then record kept { reported = err ∷ kept.reported } else kept)

  -- `load`
  unfoldable pub load_once : V × Option Error → Loader V → Option (Loader V)
  load_once (v, some err) l = store_error err l
  load_once (v, none) l = store v l

  -- `run`: a load, and then the loop. `Stop` ends it by a signal.
  unfoldable pub run : Load V → Duration → List Signal → Loader V → Option (Loader V)
  run fn interval signals l = and_then (load_once (fn 0) l) (
      run_loop interval fn (record { on_value = some store; on_error = some store_error }) 1
        signals)

-- What `Value` can return, with the error of its context once that is done. It waits while there
-- is neither.
pub data ValueOf {V : Type 0} (zero : V) (l : Loader V) (ctx_err : Option Error)
    : V → Option Error → Type 0 where
  loaded : l.ready ≡ true → ValueOf zero l ctx_err l.value l.err
  cancelled : (e : Error) → ctx_err ≡ some e → ValueOf zero l ctx_err zero (some e)
