-- ===== src/Engine/Hits.antt =====
-- What the cache does with an entry that it holds: a fresh one answers, and is all that is read.
use go_memoize.Base.{◌+◌, true, Option, none, some, ◌≡◌, ◌∙◌, Option-cases, inl, inr}
use go_memoize.Time.{Time}
use go_memoize.Stored.{Stored, fresh, state}
use go_memoize.Store.{Store, Ctx}
use go_memoize.Store.Laws.{StoreLaws, Keeps, Keeps-trans, fresh_found}
use go_memoize.Cache.{Cache}
use go_memoize.World.{World, MetricEventKind, hit, Compute, returned, GoTypes, clock_now}
use go_memoize.Events.Noted.{noted, emit_hit-noted}
use go_memoize.Engine.{get_or_compute, get_or_compute_in, use_entry}
use go_memoize.Engine.Entry.{get_or_compute-active, get_or_compute-entry}
use go_memoize.Engine.Reads.{Uses, get_entry-found, get_fresh_value-found}

-- The world after a read that took the time once and noted `kind`.
abbrev pub after_read :
    {K V S : Type 0}
    → GoTypes K V
    → Cache K V S
    → MetricEventKind
    → K
    → World K V S
    → S
    → World K V S
after_read go c kind k w s = record w {
  store = s;
  tick = w.tick + 1;
  events = noted go c kind k w.events;
}

module _ {K V S : Type 0} (go : GoTypes K V) {Valid : S → Type 0} {view : S → K → Option (Stored V)}
    (c : Cache K V S) (store : Store K V S) (laws : StoreLaws go.zero store Valid view)
    (uses : Uses c store) where
  use_entry-fresh :
      (ctx : Ctx) (k : K) (compute : Compute V) (now : Time) (w : World K V S) (e : Stored V)
      → Valid w.store
      → view w.store k ≡ some e
      → state e now ≡ fresh
      → (s : S) × (use_entry go c store ctx k compute now w
          ≡ (returned (e.value, none), record w { store = s; events = noted go c hit k w.events }))
        × Keeps Valid view w.store s
  unfolding use_entry
  use_entry-fresh ctx k compute now w e v held isfresh =
      let (s, entry, keeps) = get_entry-found go c store laws ctx k w (some e) uses.peeker v held in
      (s, rw (entry, isfresh, emit_hit-noted go c k), keeps)

  -- On a valid store, an entry that is fresh at the clock reading answers `GetOrCompute` with its
  -- value: nothing is computed, no flight is started, one hit is noted, the clock is read once,
  -- and the entries of the store stay.
  pub get_or_compute-fresh :
      (ctx : Ctx) (k : K) (compute : Compute V) (w : World K V S) (e : Stored V)
      → Valid w.store
      → view w.store k ≡ some e
      → state e (w.readings w.tick) ≡ fresh
      → (s : S) × (get_or_compute go c ctx k compute w
          ≡ (returned (e.value, none), after_read go c hit k w s))
        × Keeps Valid view w.store s
  unfolding get_or_compute_in clock_now
  get_or_compute-fresh ctx k compute w e v held isfresh =
      rw (get_or_compute-active go c store uses) (elim (Option-cases store.peek_fresh_value) [
        | inr (ask, set) ↦
            let (s, answer, keeps) =
              get_fresh_value-found go c store laws ctx k (w.readings w.tick)
                (record w { tick = w.tick + 1 }) {a = (e.value, true, none)} set v
                (rw (held, isfresh, fresh_found)) in
            (s, rw (answer, emit_hit-noted go c k), keeps)
        | inl unset ↦
            let (s, reached, keeps) =
              get_or_compute-entry go c store laws ctx k compute w v (inl unset) (inl unset) in
            let (s', used, keeps') =
              use_entry-fresh ctx k compute (w.readings w.tick)
                (record w { store = s; tick = w.tick + 1 }) e keeps.valid (keeps.same k ∙ held)
                isfresh in
            (s', reached ∙ used, Keeps-trans keeps keeps')
      ])
