-- ===== src/Engine/Refresh.antt =====
-- Stale entries: the old value at once, and at most one goroutine that replaces it.
use go_memoize.Base.{
  ◌+◌, true, Option, none, some, ◌∷◌, ◌≡◌, ◌∙◌, refl, ap, arith, inl, inr, Option-cases,
  update_self, ℕ_discrete,
}
use go_memoize.Time.{Time, sub}
use go_memoize.Stored.{Stored, stale, state}
use go_memoize.Store.{Store, Ctx, Error, with_timeout}
use go_memoize.Store.Laws.{StoreLaws, Keeps, Keeps-trans, Shrinks}
use go_memoize.Cache.{Cache}
use go_memoize.World.{
  World, MetricEvent, Task, stale_hit, refresh_start, refresh_success, refresh_error, set_event,
  Compute, returned, gives, GoTypes, clock_now, run_compute,
}
use go_memoize.Events.{event}
use go_memoize.Events.Noted.{
  noted, noted_event, emit_stale_hit-noted, emit_refresh_start-noted, emit_refresh_error-noted,
  emit_refresh_success-noted,
}
use go_memoize.Flights.{finish_flight}
use go_memoize.Flights.Laws.{flown, landed, start_flight-free, start_flight-taken}
use go_memoize.Engine.{entry_at, refresh, run_refresh, use_entry, get_or_compute}
use go_memoize.Engine.Reads.{Uses, get_entry-found}
use go_memoize.Engine.Entry.{get_or_compute-active, get_or_compute-entry, NotFresh, NotJoined}
use go_memoize.Engine.Misses.{set-stored}

stale-NotFresh :
    {V : Type 0} {o : Option (Stored V)} {e : Stored V} (now : Time)
    → o ≡ some e
    → state e now ≡ stale
    → NotFresh o now
stale-NotFresh now held isstale d p f = ground arith

module _ {K V S : Type 0} (go : GoTypes K V) (k : K) (compute : Compute V) where
  -- The world after `refresh`: a free key gets a flight and a goroutine for it, a taken one
  -- nothing.
  unfoldable pub launched : World K V S → World K V S
  launched w = elim (w.flights k) [
    | some _ ↦ w
    | none ↦
        let task : Task K V = record { key = k; flight = w.fresh_pointer; compute = compute } in
        record (flown go k w) { tasks = task ∷ w.tasks }
  ]

  pub refresh-launched : (w : World K V S) → refresh go k compute w ≡ (returned tt, launched w)
  unfolding refresh launched
  refresh-launched w = elim (Option-cases (w.flights k)) [
    | inl free ↦ rw (start_flight-free go k w free, free, launched)
    | inr (f, taken) ↦ rw (start_flight-taken go k w taken, taken, launched)
  ]

module _ {K V S : Type 0} (go : GoTypes K V) {Valid : S → Type 0} {view : S → K → Option (Stored V)}
    (c : Cache K V S) (store : Store K V S) (laws : StoreLaws go.zero store Valid view)
    (uses : Uses c store) where
  -- On a valid store, a stale entry answers `GetOrCompute` with its old value, if the key is free
  -- or the cache is not one that waits first: nothing is computed before it returns, one stale hit
  -- is noted, and a goroutine is started to replace the entry, unless the key is in flight.
  pub get_or_compute-stale :
      (ctx : Ctx) (k : K) (compute : Compute V) (w : World K V S) (e : Stored V)
      → Valid w.store
      → view w.store k ≡ some e
      → state e (w.readings w.tick) ≡ stale
      → NotJoined c store k w
      → (s : S) × (get_or_compute go c ctx k compute w ≡ (
        returned (e.value, none),
        launched go k compute
            (record w { store = s; tick = w.tick + 1; events = noted go c stale_hit k w.events }),
      ))
        × Keeps Valid view w.store s
  unfolding use_entry
  get_or_compute-stale ctx k compute w e v held isstale unjoined =
      let (s, reached, keeps) =
        get_or_compute-entry go c store laws ctx k compute w v
          (inr (stale-NotFresh (w.readings w.tick) held isstale)) unjoined in
      let w₁ : World K V S = record w { store = s; tick = w.tick + 1 } in
      let (s', entry, keeps') =
        get_entry-found go c store laws ctx k w₁ (some e) uses.peeker keeps.valid
          (keeps.same k ∙ held) in
      (
        s',
        rw (
          get_or_compute-active go c store uses,
          reached,
          entry,
          isstale,
          emit_stale_hit-noted go c k,
          refresh-launched go k compute,
        ),
        Keeps-trans keeps keeps',
      )

  module _ (t : Task K V) (w : World K V S) where
    abbrev ctx : Ctx
    ctx = with_timeout c.refresh_timeout

    abbrev started : World K V S
    started = record w {
      tick = w.tick + 1;
      calls = w.calls + 1;
      events = noted go c refresh_start t.key w.events;
    }

    -- What a goroutine leaves behind: its key is free, its flight has landed with the result, and
    -- one computation ran.
    pub record Replaced (w' : World K V S) (v : V) (e : Option Error) : Type 0 where
      pub freed : w'.flights t.key ≡ none
      pub done : (w'.heap t.flight).done ≡ true
      pub value : (w'.heap t.flight).value ≡ v
      pub error : (w'.heap t.flight).error ≡ e
      pub calls : w'.calls ≡ w.calls + 1

    landed-Replaced :
        (w₁ : World K V S) (v : V) (e : Option Error)
        → w₁.calls ≡ w.calls + 1
        → Replaced (landed go t.key t.flight v e w₁) v e
    landed-Replaced w₁ v e called =
        let flight = record (w₁.heap t.flight) { value = v; error = e; done = true } in
        let seen = update_self ℕ_discrete w₁.heap t.flight flight in
        record {
          freed = update_self go.key_eq w₁.flights t.key none;
          done = ap (λ f. f.done) seen;
          value = ap (λ f. f.value) seen;
          error = ap (λ f. f.error) seen;
          calls = called;
        }

    -- On a valid store, a goroutine whose computation gives a value stores it with the deadlines
    -- that count from the second reading of the clock, lets other entries stay or be dropped,
    -- frees its key and lands its flight with the value.
    pub run_refresh-gives :
        {v : V}
        → Valid w.store
        → t.compute ctx w.calls ≡ gives v none
        → (w' : World K V S) × (run_refresh go c t w ≡ (returned tt, w'))
          × (view w'.store t.key ≡ some (entry_at go c v (w.readings (w.tick + 1))))
          × Valid w'.store
          × Shrinks view t.key w.store w'.store
          × Replaced w' v none
    unfolding run_refresh clock_now run_compute finish_flight
    run_refresh-gives {v} valid ran =
        let (stored, seen, valid', others) =
          set-stored go c store laws uses ctx t.key v started valid in
        let duration = sub (w.readings (w.tick + 1 + 1)) (w.readings w.tick) in
        let success : MetricEvent = record (event go refresh_success t.key) {
          duration = duration;
        } in
        let w₁ : World K V S = record started {
          store = (store.set ctx t.key (entry_at go c v (w.readings (w.tick + 1))) w.store).1;
          tick = w.tick + 1 + 1 + 1;
          events = noted_event go c success (noted go c set_event t.key started.events);
        } in
        (
          landed go t.key t.flight v none w₁,
          rw (
            emit_refresh_start-noted go c t.key,
            ran,
            run_compute,
            stored,
            emit_refresh_success-noted go c t.key,
          ),
          seen,
          valid',
          others,
          landed-Replaced w₁ v none refl,
        )

    -- A goroutine whose computation fails leaves the store as it is, frees its key and lands its
    -- flight with the error.
    pub run_refresh-fails :
        {v : V} {x : Error}
        → t.compute ctx w.calls ≡ gives v (some x)
        → (w' : World K V S) × (run_refresh go c t w ≡ (returned tt, w'))
          × (w'.store ≡ w.store)
          × Replaced w' v (some x)
    unfolding run_refresh clock_now run_compute finish_flight
    run_refresh-fails {v} {x} ran =
        let failure : MetricEvent = record (event go refresh_error t.key) { error = some x } in
        let w₁ : World K V S = record started {
          events = noted_event go c failure started.events;
        } in
        (
          landed go t.key t.flight v (some x) w₁,
          rw (
            emit_refresh_start-noted go c t.key,
            ran,
            run_compute,
            emit_refresh_error-noted go c t.key,
          ),
          refl,
          landed-Replaced w₁ v (some x) refl,
        )
