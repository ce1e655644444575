-- ===== src/Engine/Computes.antt =====
-- `GetOrCompute` on a miss, from its first clock reading to the landing of its flight.
use go_memoize.Base.{
  ℕ, ◌+◌, ◌≤◌, Bool, true, false, Option, none, some, List, ◌≡◌, ◌∙◌, refl, sym, arith, inl, inr,
  Bool-cases, ◌&&◌, update, update_self, if◌then◌else◌,
}
use go_memoize.Time.{Time}
use go_memoize.Stored.{Stored, expired, state}
use go_memoize.Stored.Windows.{state_monotone}
use go_memoize.Store.{Store, Ctx, Error}
use go_memoize.Store.Laws.{StoreLaws, Keeps, Keeps-trans, Shrinks, Keeps-Shrinks, found}
use go_memoize.Cache.{Cache}
use go_memoize.World.{
  World, MetricEvent, miss, set_event, refresh_error, Compute, returned, panics, gives, throws,
  GoTypes,
}
use go_memoize.Events.{event}
use go_memoize.Events.Noted.{noted, noted_event, emit_miss-noted, emit_refresh_error-noted}
use go_memoize.Flights.{do_flight}
use go_memoize.Flights.Laws.{flown, landed, crashed, do_flight-returned, do_flight-panics}
use go_memoize.Engine.{
  entry_at, compute_store, compute_and_set, compute_miss, use_entry, get_or_compute,
}
use go_memoize.Engine.Reads.{Uses, get_entry-found}
use go_memoize.Engine.Entry.{get_or_compute-active, get_or_compute-entry, NotFresh}
use go_memoize.Engine.Misses.{
  compute_and_set-runs, compute_store-gives, compute_store-fails, compute_store-throws,
}

-- No entry, or one past all its deadlines.
abbrev pub IsUnusable : {V : Type 0} → Option (Stored V) → Time → Type 0
IsUnusable none now = Unit {0}
IsUnusable (some e) now = state e now ≡ expired

pub unusable-NotFresh :
    {V : Type 0} (o : Option (Stored V)) (now : Time) → IsUnusable o now → NotFresh o now
unusable-NotFresh none now u e held = absurd (cc)
unusable-NotFresh (some d) now u e held = λ f. ground arith

-- What is past all its deadlines stays so.
pub IsUnusable-later :
    {V : Type 0} (o : Option (Stored V)) (now later : Time)
    → now ≤ later
    → IsUnusable o now
    → IsUnusable o later
IsUnusable-later none now later h u = tt
IsUnusable-later (some e) now later h u = ground (arith, state_monotone e now later h)

-- What comes back in place of an error: the old entry, if the cache keeps it and has one.
abbrev pub fallback :
    {K V S : Type 0} → Cache K V S → Option (Stored V) → V → Error → V × Option Error
fallback c none v x = (v, some x)
fallback c (some e) v x = if c.keep_stale_on_error then (e.value, none) else (v, some x)

pub fallback-strict :
    {K V S : Type 0} (c : Cache K V S) (o : Option (Stored V)) (v : V) (x : Error)
    → c.keep_stale_on_error ≡ false
    → fallback c o v x ≡ (v, some x)
fallback-strict c none v x strict = refl
fallback-strict c (some e) v x strict = ground arith

fallback-found :
    {K V S : Type 0} (c : Cache K V S) (zero : V) (o : Option (Stored V)) (v : V) (x : Error)
    → (if (found zero o).1 && c.keep_stale_on_error
        then ((found zero o).0.value, none)
        else (v, some x))
      ≡ fallback c o v x
fallback-found c zero none v x = refl
fallback-found c zero (some e) v x = refl

module _ {K V S : Type 0} (go : GoTypes K V) {Valid : S → Type 0} {view : S → K → Option (Stored V)}
    (c : Cache K V S) (store : Store K V S) (laws : StoreLaws go.zero store Valid view)
    (uses : Uses c store) (ctx : Ctx) (k : K) (compute : Compute V) where
  pub use_entry-misses :
      (now : Time) (w : World K V S) (o : Option (Stored V))
      → Valid w.store
      → view w.store k ≡ o
      → IsUnusable o now
      → (s : S) × (use_entry go c store ctx k compute now w
          ≡ compute_miss go c store ctx k compute
              (found go.zero o).0
              (found go.zero o).1
              (record w { store = s }))
        × Keeps Valid view w.store s
  unfolding use_entry
  use_entry-misses now w none v held u =
      let (s, entry, keeps) = get_entry-found go c store laws ctx k w none uses.peeker v held in
      (s, rw entry, keeps)
  use_entry-misses now w (some e) v held u =
      let (s, entry, keeps) = get_entry-found go c store laws ctx k w (some e) uses.peeker v held in
      (s, rw (entry, u), keeps)

  -- A free key with no usable entry takes `GetOrCompute` to its miss.
  get_or_compute-misses :
      (w : World K V S)
      → Valid w.store
      → IsUnusable (view w.store k) (w.readings w.tick)
      → w.flights k ≡ none
      → (s : S) × (get_or_compute go c ctx k compute w
          ≡ compute_miss go c store ctx k compute
              (found go.zero (view w.store k)).0
              (found go.zero (view w.store k)).1
              (record w { store = s; tick = w.tick + 1 }))
        × Keeps Valid view w.store s
  get_or_compute-misses w v u free =
      let o = view w.store k in
      let now = w.readings w.tick in
      let (s, reached, keeps) =
        get_or_compute-entry go c store laws ctx k compute w v (inr (unusable-NotFresh o now u))
          (inr (inl free)) in
      let (s', missed, keeps') =
        use_entry-misses now (record w { store = s; tick = w.tick + 1 }) o keeps.valid
          (keeps.same k) u in
      (s', rw (get_or_compute-active go c store uses) (reached ∙ missed), Keeps-trans keeps keeps')

  -- the world in which the flight starts, and the one in which its leader computes
  abbrev begun : World K V S → S → World K V S
  begun w s = record w { store = s; tick = w.tick + 1; events = noted go c miss k w.events }

  abbrev leading : World K V S → S → World K V S
  leading w s = record (flown go k (begun w s)) { tick = w.tick + 1 + 1 }

  -- The flight of a miss runs the computation, in a world that keeps the entries.
  leads :
      (w : World K V S) (s : S)
      → Keeps Valid view w.store s
      → NotFresh (view w.store k) (w.readings (w.tick + 1))
      → (s' : S) × (compute_and_set go c store ctx k compute (flown go k (begun w s))
          ≡ compute_store go c ctx k compute (leading w s'))
        × Keeps Valid view w.store s'
  leads w s keeps unfresh =
      let (s', looked, keeps') =
        compute_and_set-runs go c store laws uses ctx k compute (flown go k (begun w s)) keeps.valid
          (λ e p. unfresh e (sym (keeps.same k) ∙ p)) in
      (s', looked, Keeps-trans keeps keeps')

  -- What a flight leaves behind in the world after a miss: the key is free again, its flight has
  -- landed, the clock was read `reads` times, one computation ran, and no goroutine was started.
  pub record Landed (w w' : World K V S) (reads : ℕ) : Type 0 where
    pub flights : (j : K) → w'.flights j ≡ w.flights j
    pub done : (w'.heap w.fresh_pointer).done ≡ true
    pub tick : w'.tick ≡ w.tick + reads
    pub calls : w'.calls ≡ w.calls + 1
    pub tasks : w'.tasks ≡ w.tasks
    pub readings : w'.readings ≡ w.readings

  -- the key of a flight that has landed is as free as it was before
  freed :
      (w : World K V S) (f : ℕ)
      → w.flights k ≡ none
      → (j : K) → update go.key_eq (update go.key_eq w.flights k (some f)) k none j ≡ w.flights j
  unfolding update
  freed w f free j = ground arith

  -- the world after a flight of `w` has landed that ran in a world with store `t`
  abbrev ended : World K V S → S → ℕ → List MetricEvent → V → Option Error → World K V S
  ended w t tick events v e =
      let ran = record (leading w t) { tick = tick; calls = w.calls + 1; events = events } in
      landed go k w.fresh_pointer v e ran

  ended-Landed :
      (w : World K V S) (t : S) (tick reads : ℕ) (events : List MetricEvent) (v : V)
      (e : Option Error)
      → tick ≡ w.tick + reads
      → w.flights k ≡ none
      → Landed w (ended w t tick events v e) reads
  ended-Landed w t tick reads events v e read free = record {
    flights = freed w w.fresh_pointer free;
    done = rw update_self;
    tick = read;
    calls = refl;
    tasks = refl;
    readings = refl;
  }

  -- On a valid store, a free key and an entry that is unusable at the first clock reading and not
  -- fresh at the second: a computation that gives a value runs once, its value is returned and
  -- stored with the deadlines that count from the third reading, other entries stay or are
  -- dropped, the flight lands and frees the key, and a miss and a set are noted.
  pub get_or_compute-gives :
      (w : World K V S) {v : V}
      → Valid w.store
      → IsUnusable (view w.store k) (w.readings w.tick)
      → NotFresh (view w.store k) (w.readings (w.tick + 1))
      → w.flights k ≡ none
      → compute ctx w.calls ≡ gives v none
      → (w' : World K V S) × (get_or_compute go c ctx k compute w ≡ (returned (v, none), w'))
        × (view w'.store k ≡ some (entry_at go c v (w.readings (w.tick + 1 + 1))))
        × Valid w'.store
        × Shrinks view k w.store w'.store
        × Landed w w' 3
        × (w'.events ≡ noted go c set_event k (noted go c miss k w.events))
  unfolding compute_miss
  get_or_compute-gives w {v} valid u unfresh free ran =
      let (s, missed, keeps) = get_or_compute-misses w valid u free in
      let (s', looked, keeps') = leads w s keeps unfresh in
      let (stored, seen, valid', others) =
        compute_store-gives go c store laws uses ctx k compute (leading w s') keeps'.valid ran in
      let fn = compute_and_set go c store ctx k compute in
      let flight = do_flight-returned go k fn (begun w s) free (looked ∙ stored) in
      let events = noted go c set_event k (noted go c miss k w.events) in
      let t = (store.set ctx k (entry_at go c v (w.readings (w.tick + 1 + 1))) s').1 in
      (
        ended w t (w.tick + 1 + 1 + 1) events v none,
        rw (missed, emit_miss-noted go c k, flight),
        seen,
        valid',
        Keeps-Shrinks keeps' others,
        ended-Landed w t _ 3 events v none (omega arith) free,
        refl,
      )

  -- The error of a flight, where `GetOrCompute` sees it.
  compute_miss-fails :
      (e : Stored V) (ok : Bool) (w w₁ : World K V S) {v : V} {x : Error}
      → do_flight go k
          (compute_and_set go c store ctx k compute)
          (record w { events = noted go c miss k w.events })
        ≡ (returned (v, some x), w₁)
      → (events : List MetricEvent) × (compute_miss go c store ctx k compute e ok w ≡ (
        returned (if ok && c.keep_stale_on_error then (e.value, none) else (v, some x)),
        record w₁ { events = events },
      ))
  unfolding compute_miss
  compute_miss-fails e ok w w₁ {v} {x} flight = elim (Bool-cases (ok && c.keep_stale_on_error)) [
    | inl kept ↦
        let e : MetricEvent = record (event go refresh_error k) { error = some x } in
        (
          noted_event go c e w₁.events,
          rw (emit_miss-noted go c k, flight, kept, emit_refresh_error-noted go c k w₁ x),
        )
    | inr handed ↦ (w₁.events, rw (emit_miss-noted go c k, flight, handed))
  ]

  -- On a valid store, a free key and an entry that is unusable at the first clock reading and not
  -- fresh at the second: a computation that fails runs once, the entries of the store stay, the
  -- flight lands and frees the key, and its value and error are returned, or in their place the
  -- old entry's value, if there is an entry and the cache keeps it for errors.
  pub get_or_compute-fails :
      (w : World K V S) {v : V} {x : Error}
      → Valid w.store
      → IsUnusable (view w.store k) (w.readings w.tick)
      → NotFresh (view w.store k) (w.readings (w.tick + 1))
      → w.flights k ≡ none
      → compute ctx w.calls ≡ gives v (some x)
      → (w' : World K V S) × (get_or_compute go c ctx k compute w
          ≡ (returned (fallback c (view w.store k) v x), w'))
        × Keeps Valid view w.store w'.store
        × Landed w w' 2
  unfolding compute_miss
  get_or_compute-fails w {v} {x} valid u unfresh free ran =
      let (s, missed, keeps) = get_or_compute-misses w valid u free in
      let (s', looked, keeps') = leads w s keeps unfresh in
      let failed = compute_store-fails go c store laws uses ctx k compute (leading w s') ran in
      let fn = compute_and_set go c store ctx k compute in
      let flight = do_flight-returned go k fn (begun w s) free (looked ∙ failed) in
      let o = view w.store k in
      let w₁ : World K V S = record w { store = s; tick = w.tick + 1 } in
      let (events, handed) =
        compute_miss-fails (found go.zero o).0 (found go.zero o).1 w₁ _ flight in
      (
        ended w s' (w.tick + 1 + 1) events v (some x),
        rw (missed, handed, fallback-found c go.zero o v x),
        keeps',
        ended-Landed w s' _ 2 events v (some x) (omega arith) free,
      )

  -- On a valid store, a free key and an entry that is unusable at the first clock reading and not
  -- fresh at the second: a computation that panics leaves the entries of the store, lands its
  -- flight with the panic for those who wait, frees the key, and `GetOrCompute` panics alike.
  pub get_or_compute-throws :
      (w : World K V S) {p : ℕ}
      → Valid w.store
      → IsUnusable (view w.store k) (w.readings w.tick)
      → NotFresh (view w.store k) (w.readings (w.tick + 1))
      → w.flights k ≡ none
      → compute ctx w.calls ≡ throws p
      → (w' : World K V S) × (get_or_compute go c ctx k compute w ≡ (panics p, w'))
        × Keeps Valid view w.store w'.store
        × Landed w w' 2
        × ((w'.heap w.fresh_pointer).panic_value ≡ p)
        × ((w'.heap w.fresh_pointer).panicked ≡ true)
  unfolding compute_miss
  get_or_compute-throws w {p} valid u unfresh free ran =
      let (s, missed, keeps) = get_or_compute-misses w valid u free in
      let (s', looked, keeps') = leads w s keeps unfresh in
      let thrown = compute_store-throws go c store laws uses ctx k compute (leading w s') ran in
      let fn = compute_and_set go c store ctx k compute in
      let flight = do_flight-panics go k fn (begun w s) free (looked ∙ thrown) in
      (
        crashed go k w.fresh_pointer p (record (leading w s') { calls = w.calls + 1 }),
        rw (missed, emit_miss-noted go c k, flight),
        keeps',
        record {
          flights = freed w w.fresh_pointer free;
          done = rw update_self;
          tick = omega arith;
          calls = refl;
          tasks = refl;
          readings = refl;
        },
        rw update_self,
        rw update_self,
      )
