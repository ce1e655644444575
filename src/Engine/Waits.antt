-- ===== src/Engine/Waits.antt =====
-- A key in flight: nobody computes a second time, and everybody gets the leader's result.
use go_memoize.Base.{
  ℕ, ◌+◌, true, false, Bool-cases, not, ◌&&◌, Option, some, none, ◌≡◌, ◌≢◌, ◌⊎◌, refl, sym, inl,
  inr, Option-cases, update_self, update_ne, ℕ_discrete,
}
use go_memoize.Time.{Time}
use go_memoize.Stored.{Stored}
use go_memoize.Store.{Store, Ctx, Found, Error}
use go_memoize.Store.Laws.{StoreLaws, Keeps, Keeps-trans}
use go_memoize.Cache.{Cache, is_zero_duration}
use go_memoize.World.{World, miss, Compute, Outcome, returned, panics, waits, GoTypes, clock_now}
use go_memoize.Events.Noted.{noted, emit_miss-noted}
use go_memoize.Flights.{wait, wait_for_flight, finish_flight, finish_panicked_flight}
use go_memoize.Flights.Laws.{do_flight-taken}
use go_memoize.Engine.{get_or_compute, get_or_compute_in, compute_and_set, compute_miss}
use go_memoize.Engine.Reads.{Uses, get_fresh_value-found}
use go_memoize.Engine.Entry.{
  get_or_compute-active, get_or_compute-entry, NotJoined, fresh_found-NotFresh,
}
use go_memoize.Engine.Computes.{IsUnusable, unusable-NotFresh, use_entry-misses}

module _ {K V S : Type 0} (go : GoTypes K V) (w : World K V S) (f : ℕ) where
  pub wait-blocks : (w.heap f).done ≡ false → wait go f w ≡ (waits f, w)
  unfolding wait
  wait-blocks air = rw air

  -- A flight under a key has ended with an outcome, and nothing has become of the other flights.
  abbrev pub Finished : K → World K V S → Outcome (V × Option Error) → Type 0
  Finished k after outcome =
      ((wait go f after).0 ≡ outcome)
      × ((wait_for_flight go k after).0 ≡ returned (go.zero, false, none))
      × ((j : K) → j ≢ k → after.flights j ≡ w.flights j)
      × ((g : ℕ) → g ≢ f → after.heap g ≡ w.heap g)

  pub wait_for_flight-blocks :
      (k : K)
      → w.flights k ≡ some f
      → (w.heap f).done ≡ false
      → wait_for_flight go k w ≡ (waits f, w)
  unfolding wait_for_flight
  wait_for_flight-blocks k taken air = rw (taken, wait_for_flight, wait-blocks air)

  wait_for_flight-free :
      (k : K) (u : World K V S)
      → u.flights k ≡ none
      → (wait_for_flight go k u).0 ≡ returned (go.zero, false, none)
  unfolding wait_for_flight
  wait_for_flight-free k u free = rw (free, wait_for_flight)

  -- Whoever waits for a flight gets what `finishFlight` and `finishPanickedFlight` land it with:
  -- from a flight that has not panicked before, the value and the error, or the panic. Either frees
  -- the key of the flight, leaves the flights of other keys and all other flights as they are, and
  -- lets a later caller find no flight to wait for.
  pub wait-finish_flight :
      (k : K) (v : V) (e : Option Error) (p : ℕ)
      → (w.heap f).panicked ≡ false
      → Finished k (finish_flight go k f v e w).1 (returned (v, e))
        × Finished k (finish_panicked_flight go k f p w).1 (panics p)
  unfolding wait finish_flight finish_panicked_flight
  wait-finish_flight k v e p calm =
      let flight = record (w.heap f) { value = v; error = e; done = true } in
      let crash = record (w.heap f) { panic_value = p; panicked = true; done = true } in
      (
        (
          rw (update_self ℕ_discrete w.heap f flight, calm),
          wait_for_flight-free k _ (update_self go.key_eq w.flights k none),
          λ j n. update_ne go.key_eq w.flights k j none (λ q. n (sym q)),
          λ g n. update_ne ℕ_discrete w.heap f g flight (λ q. n (sym q)),
        ),
        (
          rw (update_self ℕ_discrete w.heap f crash),
          wait_for_flight-free k _ (update_self go.key_eq w.flights k none),
          λ j n. update_ne go.key_eq w.flights k j none (λ q. n (sym q)),
          λ g n. update_ne ℕ_discrete w.heap f g crash (λ q. n (sym q)),
        ),
      )

NotJoined-cases :
    {K V S : Type 0} (c : Cache K V S) (store : Store K V S) (k : K) (w : World K V S)
    → NotJoined c store k w
      ⊎ ((ask : Ctx → K → Time → S → Found V × S) × (store.peek_fresh_value ≡ some ask)
          × (is_zero_duration c.stale_ttl && not c.keep_stale_on_error ≡ true))
NotJoined-cases c store k w = elim (Option-cases store.peek_fresh_value) [
  | inl unset ↦ inl (inl unset)
  | inr (ask, set) ↦ elim (Bool-cases (is_zero_duration c.stale_ttl && not c.keep_stale_on_error)) [
    | inl joins ↦ inr (ask, set, joins)
    | inr alone ↦ inl (inr (inr alone))
  ]
]

module _ {K V S : Type 0} (go : GoTypes K V) {Valid : S → Type 0} {view : S → K → Option (Stored V)}
    (c : Cache K V S) (store : Store K V S) (laws : StoreLaws go.zero store Valid view)
    (uses : Uses c store) (ctx : Ctx) (k : K) (compute : Compute V) (w : World K V S) where
  -- On a valid store, while a key is in a flight that has not landed and has no usable entry,
  -- `GetOrCompute` waits for that flight: it computes nothing, starts no other flight and no
  -- goroutine, and keeps the entries.
  pub get_or_compute-waits :
      {f : ℕ}
      → Valid w.store
      → IsUnusable (view w.store k) (w.readings w.tick)
      → w.flights k ≡ some f
      → (w.heap f).done ≡ false
      → (w' : World K V S) × (get_or_compute go c ctx k compute w ≡ (waits f, w'))
        × Keeps Valid view w.store w'.store
        × (w'.calls ≡ w.calls)
        × (w'.flights ≡ w.flights)
        × (w'.tasks ≡ w.tasks)
  unfolding get_or_compute_in compute_miss clock_now
  get_or_compute-waits {f} v u taken air = elim (NotJoined-cases c store k w) [
    | inl unjoined ↦
        let (s, reached, keeps) =
          get_or_compute-entry go c store laws ctx k compute w v (inr (unusable-NotFresh o now u))
            unjoined in
        let (s', missed, keeps') =
          use_entry-misses go c store laws uses ctx k compute now (record w₁ { store = s }) o
            keeps.valid (keeps.same k) u in
        let w₂ : World K V S = record w₁ { store = s'; events = noted go c miss k w.events } in
        let joined = do_flight-taken go k (compute_and_set go c store ctx k compute) w₂ taken in
        (
          w₂,
          rw (
            get_or_compute-active go c store uses,
            reached,
            missed,
            emit_miss-noted go c k,
            joined,
            wait-blocks go w₂ f air,
          ),
          Keeps-trans keeps keeps',
          refl,
          refl,
          refl,
        )
    | inr (ask, set, joins) ↦
        let (s, answer, keeps) =
          get_fresh_value-found go c store laws ctx k now w₁ set v
            (fresh_found-NotFresh go.zero o now (unusable-NotFresh o now u)) in
        let w₂ : World K V S = record w₁ { store = s } in
        (
          w₂,
          rw (
            get_or_compute-active go c store uses,
            answer,
            joins,
            wait_for_flight-blocks go w₂ f k taken air,
          ),
          keeps,
          refl,
          refl,
          refl,
        )
  ]
    where
      o : Option (Stored V)
      o = view w.store k

      now : Time
      now = w.readings w.tick

      w₁ : World K V S
      w₁ = record w { tick = w.tick + 1 }
