-- ===== src/Loader/Latest.antt =====
-- The loader has the latest value that was loaded.
use mathlib.Core.Path.{subst}
use mathlib.Core.Option.{some-injective}
use go_memoize.Base.{
  ℕ, zero, suc, ◌+◌, Bool, true, Bool-cases, Option, none, some, List, [], ◌∷◌, if◌then◌else◌,
  is_some, ◌≡◌, inl, inr, refl, sym, ap, arith,
}
use go_memoize.Base.Int.{is_nonpos}
use go_memoize.Time.{Duration}
use go_memoize.Store.{Error}
use go_memoize.RefreshLoop.{Signal, tick, done, Load, hand_on, run_from, run_loop, ticks}
use go_memoize.Loader.{
  Loader, new_loader, close_ready, store, store_error, load_once, run, ValueOf, loaded, cancelled,
}

-- the loads that a loader makes: one at first, and one for each tick if its interval is positive
abbrev pub loads : Duration → List Signal → ℕ
loads interval signals = if is_nonpos interval then 1 else suc (ticks signals)

module _ {V : Type 0} where
  -- one more result: the latest value, and the errors so far
  abbrev pub latest_after : V × Option Error → Option V → Option V
  latest_after (v, none) last = some v
  latest_after (v, some err) last = last

  abbrev pub errors_after : V × Option Error → List Error → List Error
  errors_after (v, none) errs = errs
  errors_after (v, some err) errs = err ∷ errs

  module _ (fn : Load V) where
    -- the value of the latest of the first loads that succeeded, and the errors of those that failed
    abbrev pub latest_value : ℕ → Option V
    latest_value zero = none
    latest_value (suc n) = latest_after (fn n) (latest_value n)

    abbrev pub errors : ℕ → List Error
    errors zero = []
    errors (suc n) = errors_after (fn n) (errors n)

  -- A loader shows a latest value and the errors.
  pub record Shows (latest : Option V) (errs : List Error) (l : Loader V) : Type 0 where
    pub ready : l.ready ≡ is_some latest
    pub has_val : l.has_val ≡ is_some latest
    pub value : (v : V) → latest ≡ some v → (l.value ≡ v) × (l.err ≡ none)
    pub reported : l.reports ≡ true → l.reported ≡ errs

  load_once-Shows :
      (r : V × Option Error) (last : Option V) (errs : List Error) (l : Loader V)
      → Shows last errs l
      → (t : Loader V) × (load_once r l ≡ some t)
        × Shows (latest_after r last) (errors_after r errs) t
  unfolding load_once store store_error close_ready
  load_once-Shows (v, none) none errs l h = (
    record l { value = v; err = none; has_val = true; ready = true },
    ground (arith, h.ready, h.has_val),
    record {
      ready = refl;
      has_val = refl;
      value = λ w e. (some-injective _ _ e, refl);
      reported = h.reported;
    },
  )
  load_once-Shows (v, none) (some w) errs l h = (
    record l { value = v; err = none },
    ground (arith, h.ready, h.has_val),
    record {
      ready = h.ready;
      has_val = h.has_val;
      value = λ w e. (some-injective _ _ e, refl);
      reported = h.reported;
    },
  )
  load_once-Shows (v, some err) none errs l h = elim (Bool-cases l.reports) [
    | inl on ↦ (
      record (record l { err = some err }) { reported = err ∷ l.reported },
      ground (arith, h.has_val, on),
      record {
        ready = h.ready;
        has_val = h.has_val;
        value = λ w e. absurd (cc e);
        reported = λ _. ap (λ errs. err ∷ errs) (h.reported on);
      },
    )
    | inr off ↦ (
      (record l { err = some err }),
      ground (arith, h.has_val, off),
      record {
        ready = h.ready;
        has_val = h.has_val;
        value = λ w e. absurd (cc e);
        reported = λ on. absurd (cc (on, off));
      },
    )
  ]
  load_once-Shows (v, some err) (some w) errs l h = elim (Bool-cases l.reports) [
    | inl on ↦ (
      record l { reported = err ∷ l.reported },
      ground (arith, h.has_val, on),
      record {
        ready = h.ready;
        has_val = h.has_val;
        value = h.value;
        reported = λ _. ap (λ errs. err ∷ errs) (h.reported on);
      },
    )
    | inr off ↦ (
      l,
      ground (arith, h.has_val, off),
      record {
        ready = h.ready;
        has_val = h.has_val;
        value = h.value;
        reported = λ on. absurd (cc (on, off));
      },
    )
  ]

  module _ (fn : Load V) where
    abbrev Current : ℕ → Loader V → Type 0
    Current n l = Shows (latest_value fn n) (errors fn n) l

    hand_on-load_once :
        (r : V × Option Error) (l : Loader V)
        → hand_on (record { on_value = some store; on_error = some store_error }) r l
          ≡ load_once r l
    unfolding hand_on load_once
    hand_on-load_once (v, none) l = refl
    hand_on-load_once (v, some err) l = refl

    run_from-Shows :
        (i : ℕ) (signals : List Signal) (l : Loader V)
        → Current i l
        → (t : Loader V) × (run_from fn
              (record { on_value = some store; on_error = some store_error })
              i
              signals
              l
            ≡ some t)
          × Current (ticks signals + i) t
    unfolding run_from
    run_from-Shows i [] l h = (l, refl, subst (λ n. Current n l) (omega arith) h)
    run_from-Shows i (done ∷ signals) l h = (l, refl, subst (λ n. Current n l) (omega arith) h)
    run_from-Shows i (tick ∷ signals) l h =
        let (u, one, shown) = load_once-Shows (fn i) (latest_value fn i) (errors fn i) l h in
        let (t, rest, final) = run_from-Shows (suc i) signals u shown in
        (
          t,
          rw (run_from, hand_on-load_once, one) rest,
          subst (λ n. Current n t) (omega arith) final,
        )

  new_loader-Shows : (unset : V) (reports : Bool) → Shows none [] (new_loader unset reports)
  unfolding new_loader
  new_loader-Shows unset reports = record {
    ready = refl;
    has_val = refl;
    value = λ v e. absurd (cc e);
    reported = λ _. refl;
  }

  -- What `Value` returns while its context is not done.
  ValueOf-latest :
      (last : Option V) (errs : List Error) (l : Loader V) (unset v : V) (e : Option Error)
      → Shows last errs l
      → ValueOf unset l none v e
      → (last ≡ some v) × (e ≡ none)
  ValueOf-latest none errs l unset v e h (loaded closed) = absurd (cc (closed, h.ready))
  ValueOf-latest (some w) errs l unset v e h (loaded closed) =
      let (same, clean) = h.value w refl in (ap some (sym same), clean)
  ValueOf-latest last errs l unset v e h (cancelled err over) = absurd (cc over)

  -- Whatever a loader loads, and whenever it is stopped: its goroutine closes no channel twice. It
  -- loads once and then at every tick before the end, if its interval is positive. Then it is ready
  -- exactly if a load has succeeded, has the latest value that was loaded and no error with it,
  -- and has handed every error to its callback, if it has one. So while its context is not done,
  -- `Value` returns nothing but the latest value that was loaded, with no error.
  pub run-Shows :
      (fn : Load V) (interval : Duration) (signals : List Signal) (unset : V) (reports : Bool)
      → (l : Loader V) × (run fn interval signals (new_loader unset reports) ≡ some l)
        × Shows (latest_value fn (loads interval signals)) (errors fn (loads interval signals)) l
        × ((v : V) (e : Option Error)
            → ValueOf unset l none v e
            → (latest_value fn (loads interval signals) ≡ some v) × (e ≡ none))
  unfolding run run_loop
  run-Shows fn interval signals unset reports =
      let (u, one, shown) =
        load_once-Shows (fn 0) none [] (new_loader unset reports)
          (new_loader-Shows unset reports) in
      elim (Bool-cases (is_nonpos interval)) [
        | inl off ↦
            let once : 1 ≡ loads interval signals = rw (loads, off) refl in
            let now = subst (λ n. Current fn n u) once shown in
            (u, rw (one, off) refl, now, λ v e. ValueOf-latest _ _ u unset v e now)
        | inr on ↦
            let every : ticks signals + 1 ≡ loads interval signals = rw (loads, on) (omega arith) in
            let (t, rest, final) = run_from-Shows fn 1 signals u shown in
            let now = subst (λ n. Current fn n t) every final in
            (t, rw (one, on) rest, now, λ v e. ValueOf-latest _ _ t unset v e now)
      ]
