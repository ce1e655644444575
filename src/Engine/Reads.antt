-- ===== src/Engine/Reads.antt =====
-- Reads of the store through the engine: what they answer, and that they touch nothing else.
use go_memoize.Base.{true, false, Option, none, some, ◌≡◌, arith, Option-cases, inl, inr}
use go_memoize.Time.{Time}
use go_memoize.Stored.{Stored}
use go_memoize.Store.{Store, Ctx, Found}
use go_memoize.Store.Laws.{StoreLaws, Keeps, found, fresh_found}
use go_memoize.Cache.{Cache}
use go_memoize.World.{World, returned, GoTypes}
use go_memoize.Engine.{get_entry, get_fresh_value}

-- A cache that works on a store, as `New` sets it up.
pub record Uses {K V S : Type 0} (c : Cache K V S) (store : Store K V S) : Type 0 where
  pub active : c.bypass ≡ false
  pub stored : c.store ≡ some store
  pub peeker : c.peeker ≡ store.peek

module _ {K V S : Type 0} (go : GoTypes K V) {Valid : S → Type 0} {view : S → K → Option (Stored V)}
    (c : Cache K V S) (store : Store K V S) (laws : StoreLaws go.zero store Valid view) where
  -- A read of an entry answers with the view, and changes only what the view does not show.
  pub get_entry-found :
      (ctx : Ctx) (k : K) (w : World K V S) (o : Option (Stored V))
      → c.peeker ≡ store.peek
      → Valid w.store
      → view w.store k ≡ o
      → (s : S) × (get_entry go c store ctx k w
          ≡ (returned (found go.zero o), record w { store = s }))
        × Keeps Valid view w.store s
  unfolding get_entry
  get_entry-found ctx k w o peeks v held = elim (Option-cases store.peek) [
    | inl unset ↦
        let law = laws.get-view ctx k w.store v in
        ((store.get ctx k w.store).1, ground arith, law.1)
    | inr (peek, set) ↦
        let law = laws.peek-view peek ctx k w.store set v in
        ((peek ctx k w.store).1, ground arith, law.1)
  ]

  -- A store that can tell whether it holds a fresh value answers by the state of its entry.
  pub get_fresh_value-found :
      {ask : Ctx → K → Time → S → Found V × S} (ctx : Ctx) (k : K) (now : Time) (w : World K V S)
      {a : Found V}
      → store.peek_fresh_value ≡ some ask
      → Valid w.store
      → fresh_found go.zero (view w.store k) now ≡ a
      → (s : S) × (get_fresh_value go store ctx k now w
          ≡ (returned (a.0, a.1, true, a.2), record w { store = s }))
        × Keeps Valid view w.store s
  unfolding get_fresh_value
  get_fresh_value-found {ask} ctx k now w {a} set v answer =
      let law = laws.peek_fresh_value-view ask ctx k now w.store set v in
      ((ask ctx k now w.store).1, ground arith, law.1)

  pub get_fresh_value-missing :
      (ctx : Ctx) (k : K) (now : Time) (w : World K V S)
      → store.peek_fresh_value ≡ none
      → get_fresh_value go store ctx k now w ≡ (returned (go.zero, false, false, none), w)
  unfolding get_fresh_value
  get_fresh_value-missing ctx k now w unset = ground arith
