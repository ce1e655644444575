-- ===== src/Flights/Laws.antt =====
-- One flight for a key at a time: who leads it, who waits, and how it lands.
use go_memoize.Base.{ℕ, suc, true, false, Option, none, some, ◌≡◌, update, ℕ_discrete}
use go_memoize.Store.{Error}
use go_memoize.World.{World, M, returned, panics, GoTypes}
use go_memoize.Flights.{
  new_flight, land, start_flight, finish_flight, finish_panicked_flight, recovered, wait, do_flight,
}

module _ {K V S : Type 0} (go : GoTypes K V) (k : K) where
  -- the world in which `k` has a new flight
  abbrev pub flown : World K V S → World K V S
  flown w = record w {
    flights = update go.key_eq w.flights k (some w.fresh_pointer);
    heap = update ℕ_discrete w.heap w.fresh_pointer (new_flight go.zero);
    fresh_pointer = suc w.fresh_pointer;
  }

  pub start_flight-free :
      (w : World K V S)
      → w.flights k ≡ none
      → start_flight go k w ≡ (returned (w.fresh_pointer, true), flown w)
  unfolding start_flight
  start_flight-free w free = rw (free, start_flight)

  pub start_flight-taken :
      (w : World K V S) {f : ℕ}
      → w.flights k ≡ some f
      → start_flight go k w ≡ (returned (f, false), w)
  unfolding start_flight
  start_flight-taken w taken = rw (taken, start_flight)

  pub do_flight-taken :
      (fn : M (World K V S) (V × Option Error)) (w : World K V S) {f : ℕ}
      → w.flights k ≡ some f
      → do_flight go k fn w ≡ wait go f w
  unfolding do_flight
  do_flight-taken fn w taken = rw (start_flight-taken w taken)

  -- the world after flight `f` has landed with a result, or with a panic
  abbrev pub landed : ℕ → V → Option Error → World K V S → World K V S
  landed f value err w = land go k f (record (w.heap f) { value = value; error = err }) w

  abbrev pub crashed : ℕ → ℕ → World K V S → World K V S
  crashed f p w = land go k f (record (w.heap f) { panic_value = p; panicked = true }) w

  pub do_flight-returned :
      (fn : M (World K V S) (V × Option Error)) (w : World K V S) {v : V} {e : Option Error}
      {w' : World K V S}
      → w.flights k ≡ none
      → fn (flown w) ≡ (returned (v, e), w')
      → do_flight go k fn w ≡ (returned (v, e), landed w.fresh_pointer v e w')
  unfolding do_flight finish_flight recovered
  do_flight-returned fn w free ran = rw (start_flight-free w free, ran, recovered)

  pub do_flight-panics :
      (fn : M (World K V S) (V × Option Error)) (w : World K V S) {p : ℕ} {w' : World K V S}
      → w.flights k ≡ none
      → fn (flown w) ≡ (panics p, w')
      → do_flight go k fn w ≡ (panics p, crashed w.fresh_pointer p w')
  unfolding do_flight finish_panicked_flight recovered
  do_flight-panics fn w free ran = rw (start_flight-free w free, ran, recovered)
