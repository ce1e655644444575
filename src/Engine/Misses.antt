-- ===== src/Engine/Misses.antt =====
-- What the cache does when it holds no usable entry: one flight, one computation, and a result
-- that is stored, handed on as an error, or replaced by an old entry.
use go_memoize.Base.{ℕ, ◌+◌, false, Option, none, some, ◌≡◌, refl, arith, Option-cases, inl, inr}
use go_memoize.Time.{Time}
use go_memoize.Stored.{Stored, state, is_fresh}
use go_memoize.Store.{Store, Ctx, Error}
use go_memoize.Store.Laws.{StoreLaws, Keeps, Keeps-trans, Shrinks}
use go_memoize.Cache.{Cache}
use go_memoize.World.{
  World, set_event, Compute, returned, panics, gives, throws, GoTypes, clock_now, run_compute,
}
use go_memoize.Events.Noted.{noted, emit_set-noted}
use go_memoize.Engine.{entry_at, set_in, set, compute_store, check_entry, compute_and_set}
use go_memoize.Engine.Reads.{Uses, get_entry-found, get_fresh_value-found, get_fresh_value-missing}
use go_memoize.Engine.Entry.{NotFresh, fresh_found-NotFresh}

module _ {K V S : Type 0} (go : GoTypes K V) {Valid : S → Type 0} {view : S → K → Option (Stored V)}
    (c : Cache K V S) (store : Store K V S) (laws : StoreLaws go.zero store Valid view)
    (uses : Uses c store) (ctx : Ctx) (k : K) where
  set-active : (v : V) → set go c ctx k v ≡ set_in go c store ctx k v
  unfolding set
  set-active v = simp (uses.active, uses.stored)

  -- `Set` stores the value with the deadlines counted from its reading of the clock.
  pub set-stored :
      (v : V) (w : World K V S)
      → Valid w.store
      → let e = entry_at go c v (w.readings w.tick) in
        (set go c ctx k v w ≡ (
          returned none,
          record w {
            store = (store.set ctx k e w.store).1;
            tick = w.tick + 1;
            events = noted go c set_event k w.events;
          },
        ))
        × (view (store.set ctx k e w.store).1 k ≡ some e)
        × Valid (store.set ctx k e w.store).1
        × Shrinks view k w.store (store.set ctx k e w.store).1
  unfolding set_in clock_now
  set-stored v w valid =
      let law = laws.set-view ctx k (entry_at go c v (w.readings w.tick)) w.store valid in
      (rw (set-active v, law.0, emit_set-noted go c k), law.2, law.1, law.3)

  check_entry-runs :
      (compute : Compute V) (now : Time) (w : World K V S) (o : Option (Stored V))
      → Valid w.store
      → view w.store k ≡ o
      → NotFresh o now
      → (s : S) × (check_entry go c store ctx k compute now w
          ≡ compute_store go c ctx k compute (record w { store = s }))
        × Keeps Valid view w.store s
  unfolding check_entry
  check_entry-runs compute now w none v held unfresh =
      let (s, entry, keeps) = get_entry-found go c store laws ctx k w none uses.peeker v held in
      (s, rw entry, keeps)
  check_entry-runs compute now w (some e) v held unfresh =
      let (s, entry, keeps) = get_entry-found go c store laws ctx k w (some e) uses.peeker v held in
      let old : is_fresh (state e now) ≡ false = ground (arith, unfresh e refl) in
      (s, rw (entry, old), keeps)

  -- The second look, by the leader of a flight, ends in a computation if nothing is fresh.
  pub compute_and_set-runs :
      (compute : Compute V) (w : World K V S)
      → Valid w.store
      → NotFresh (view w.store k) (w.readings w.tick)
      → (s : S) × (compute_and_set go c store ctx k compute w
          ≡ compute_store go c ctx k compute (record w { store = s; tick = w.tick + 1 }))
        × Keeps Valid view w.store s
  unfolding compute_and_set clock_now
  compute_and_set-runs compute w v unfresh = elim (Option-cases store.peek_fresh_value) [
    | inl unset ↦
        let (s, checked, keeps) = check_entry-runs compute now w₁ (view w.store k) v refl unfresh in
        (s, rw (get_fresh_value-missing go c store laws ctx k now w₁ unset, checked), keeps)
    | inr (ask, set) ↦
        let (s, answer, keeps) =
          get_fresh_value-found go c store laws ctx k now w₁ set v
            (fresh_found-NotFresh go.zero (view w.store k) now unfresh) in
        let (s', checked, keeps') =
          check_entry-runs compute now (record w₁ { store = s }) (view w.store k) keeps.valid
            (keeps.same k) unfresh in
        (s', rw (answer, checked), Keeps-trans keeps keeps')
  ]
    where
      now : Time
      now = w.readings w.tick

      w₁ : World K V S
      w₁ = record w { tick = w.tick + 1 }

  -- A computation that succeeds is stored, and its value returned.
  pub compute_store-gives :
      (compute : Compute V) (w : World K V S) {v : V}
      → Valid w.store
      → compute ctx w.calls ≡ gives v none
      → let e = entry_at go c v (w.readings w.tick) in
        (compute_store go c ctx k compute w ≡ (
          returned (v, none),
          record w {
            store = (store.set ctx k e w.store).1;
            tick = w.tick + 1;
            calls = w.calls + 1;
            events = noted go c set_event k w.events;
          },
        ))
        × (view (store.set ctx k e w.store).1 k ≡ some e)
        × Valid (store.set ctx k e w.store).1
        × Shrinks view k w.store (store.set ctx k e w.store).1
  unfolding compute_store run_compute
  compute_store-gives compute w {v} valid ran =
      let (stored, seen, valid', others) = set-stored v (record w { calls = w.calls + 1 }) valid in
      (rw (ran, run_compute, stored), seen, valid', others)

  -- One that fails is not.
  pub compute_store-fails :
      (compute : Compute V) (w : World K V S) {v : V} {x : Error}
      → compute ctx w.calls ≡ gives v (some x)
      → compute_store go c ctx k compute w
        ≡ (returned (v, some x), record w { calls = w.calls + 1 })
  unfolding compute_store run_compute
  compute_store-fails compute w ran = rw (ran, run_compute)

  pub compute_store-throws :
      (compute : Compute V) (w : World K V S) {p : ℕ}
      → compute ctx w.calls ≡ throws p
      → compute_store go c ctx k compute w ≡ (panics p, record w { calls = w.calls + 1 })
  unfolding compute_store run_compute
  compute_store-throws compute w ran = rw (ran, run_compute)
