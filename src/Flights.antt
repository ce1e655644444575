-- ===== src/Flights.antt =====
-- The flights of cache.go: at most one computation for a key is in the air, and the others wait.
pub mod Laws
use go_memoize.Base.{
  ℕ, suc, ◌+◌, Bool, true, false, not, ◌&&◌, ◌||◌, Option, none, some, is_some, List, [], ◌∷◌, ◌==◌,
  if◌then◌else◌, update, ℕ_discrete,
}
use go_memoize.Base.Int.{pos, is_pos}
use go_memoize.Time.{Time, Duration, add, sub}
use go_memoize.Stored.{Stored, EntryState, expired, fresh, stale, state}
use go_memoize.Store.{
  Store, Ctx, background, with_timeout, Found, Error, missing_store, zero_stored,
}
use go_memoize.Cache.{Cache, is_zero_duration}
use go_memoize.World.{
  MetricEventKind, hit, miss, stale_hit, refresh_start, refresh_success, refresh_error, set_event,
  delete_event, MetricEvent, Flight, Ran, gives, throws, Compute, Task, World, Outcome, returned,
  panics, waits, GoTypes, M, pure, ◌>>=◌, ◌>>◌, when, ask, clock_now, run_compute,
}

abbrev pub new_flight : {V : Type 0} → V → Flight V
new_flight zero = record {
  done = false;
  value = zero;
  error = none;
  panic_value = 0;
  panicked = false;
}

module _ {K V S : Type 0} (go : GoTypes K V) where
  open go use {key_eq, zero}

  -- `f.wait()`
  unfoldable pub wait : ℕ → M (World K V S) (V × Option Error)
  wait f w =
      let flight = w.heap f in
      if not flight.done
      then (waits f, w)
      else if flight.panicked
      then (panics flight.panic_value, w)
      else (returned (flight.value, flight.error), w)

  unfoldable pub wait_for_flight : K → M (World K V S) (V × Bool × Option Error)
  wait_for_flight key w = elim (w.flights key) [
    | none ↦ (returned (zero, false, none), w)
    | some existing ↦ (do (value, err) ← wait existing; pure (value, true, err)) w
  ]

  unfoldable pub start_flight : K → M (World K V S) (ℕ × Bool)
  start_flight key w = elim (w.flights key) [
    | some existing ↦ (returned (existing, false), w)
    | none ↦
        let f = w.fresh_pointer in
        (
          returned (f, true),
          record w {
            flights = update key_eq w.flights key (some f);
            heap = update ℕ_discrete w.heap f (new_flight zero);
            fresh_pointer = suc f;
          },
        )
  ]

  -- the delete from `c.flights` and the release of the wait group
  abbrev pub land : K → ℕ → Flight V → World K V S → World K V S
  land key f flight w = record w {
    flights = update key_eq w.flights key none;
    heap = update ℕ_discrete w.heap f (record flight { done = true });
  }

  unfoldable pub finish_flight : K → ℕ → V → Option Error → M (World K V S) (Unit {0})
  finish_flight key f value err w =
      (returned tt, land key f (record (w.heap f) { value = value; error = err }) w)

  unfoldable pub finish_panicked_flight : K → ℕ → ℕ → M (World K V S) (Unit {0})
  finish_panicked_flight key f p w =
      (returned tt, land key f (record (w.heap f) { panic_value = p; panicked = true }) w)

  -- the deferred function of `do`: it lands the flight of a panic and panics again
  unfoldable pub recovered :
      {A : Type 0} → K → ℕ → Outcome A × World K V S → Outcome A × World K V S
  recovered key f (returned a, w) = (returned a, w)
  recovered key f (panics p, w) = (finish_panicked_flight key f p >> λ w'. (panics p, w')) w
  recovered key f (waits g, w) = (waits g, w)

  -- `c.do`
  unfoldable pub do_flight :
      K → M (World K V S) (V × Option Error) → M (World K V S) (V × Option Error)
  do_flight key fn = do
    (f, leader) ← start_flight key
    if leader
        then (λ w.
            recovered key f
              ((do (value, err) ← fn; finish_flight key f value err; pure (value, err)) w))
        else wait f
