-- ===== src/Engine/Entry.antt =====
-- The way of `GetOrCompute` to the stored entry: what comes before it changes nothing but the
-- recency of the store and the number of clock readings.
use go_memoize.Base.{
  ◌+◌, Bool, true, false, not, ◌&&◌, Option, none, some, ◌≡◌, ◌≢◌, ◌⊎◌, refl, arith, Option-cases,
  inl, inr, if◌then◌else◌,
}
use go_memoize.Time.{Time}
use go_memoize.Stored.{Stored, fresh, state}
use go_memoize.Store.{Store, Ctx}
use go_memoize.Store.Laws.{StoreLaws, Keeps, fresh_found}
use go_memoize.Cache.{Cache, is_zero_duration}
use go_memoize.World.{World, Compute, returned, GoTypes, clock_now, pure}
use go_memoize.Flights.{wait_for_flight}
use go_memoize.Engine.{get_or_compute, get_or_compute_in, use_entry}
use go_memoize.Engine.Reads.{Uses, get_fresh_value-found, get_fresh_value-missing}

module _ {K V S : Type 0} (go : GoTypes K V) (c : Cache K V S) (store : Store K V S)
    (uses : Uses c store) where
  pub get_or_compute-active :
      (ctx : Ctx) (k : K) (compute : Compute V)
      → get_or_compute go c ctx k compute ≡ get_or_compute_in go c store ctx k compute
  unfolding get_or_compute
  get_or_compute-active ctx k compute = simp (uses.active, uses.stored)

-- The entry, if there is one, is not fresh.
abbrev pub NotFresh : {V : Type 0} → Option (Stored V) → Time → Type 0
NotFresh {V} o now = (e : Stored V) → o ≡ some e → state e now ≢ fresh

pub fresh_found-NotFresh :
    {V : Type 0} (zero : V) (o : Option (Stored V)) (now : Time)
    → NotFresh o now
    → fresh_found zero o now ≡ (zero, false, none)
fresh_found-NotFresh zero none now n = refl
fresh_found-NotFresh zero (some e) now n = ground (arith, n e refl)

-- `GetOrCompute` does not stop to wait for a flight before it looks at the entry.
abbrev pub NotJoined : {K V S : Type 0} → Cache K V S → Store K V S → K → World K V S → Type 0
NotJoined c store k w =
    (store.peek_fresh_value ≡ none)
    ⊎ ((w.flights k ≡ none) ⊎ (is_zero_duration c.stale_ttl && not c.keep_stale_on_error ≡ false))

join_none :
    {K V S : Type 0} (go : GoTypes K V) (k : K) (b : Bool) (w : World K V S)
    → (w.flights k ≡ none) ⊎ (b ≡ false)
    → (if b then wait_for_flight go k else pure (go.zero, false, none)) w
      ≡ (returned (go.zero, false, none), w)
unfolding wait_for_flight
join_none go k false w h = refl
join_none go k true w (inl free) = rw (free, wait_for_flight)
join_none go k true w (inr e) = cc

module _ {K V S : Type 0} (go : GoTypes K V) {Valid : S → Type 0} {view : S → K → Option (Stored V)}
    (c : Cache K V S) (store : Store K V S) (laws : StoreLaws go.zero store Valid view) (ctx : Ctx)
    (k : K) (compute : Compute V) (w : World K V S) where
  -- When no fresh value is found and no flight is joined, the entry decides.
  pub get_or_compute-entry :
      Valid w.store
      → (store.peek_fresh_value ≡ none) ⊎ NotFresh (view w.store k) (w.readings w.tick)
      → NotJoined c store k w
      → (s : S) × (get_or_compute_in go c store ctx k compute w
          ≡ use_entry go c store ctx k compute
              (w.readings w.tick)
              (record w { store = s; tick = w.tick + 1 }))
        × Keeps Valid view w.store s
  unfolding get_or_compute_in clock_now
  get_or_compute-entry v unfresh unjoined = elim (Option-cases store.peek_fresh_value) [
    | inl unset ↦ (
      w.store,
      rw (get_fresh_value-missing go c store laws ctx k now w₁ unset),
      record { valid = v; same = λ j. refl },
    )
    | inr (ask, set) ↦
        let (s, answer, keeps) = get_fresh_value-found go c store laws ctx k now w₁ set v (
          fresh_found-NotFresh go.zero (view w.store k) now
            (elim unfresh [ inl unset ↦ absurd (cc) | inr n ↦ n ])) in
        (
          s,
          rw (
            answer,
            join_none go k (is_zero_duration c.stale_ttl && not c.keep_stale_on_error)
                (record w₁ { store = s }) (elim unjoined [ inl unset ↦ absurd (cc) | inr u ↦ u ]),
          ),
          keeps,
        )
  ]
    where
      now : Time
      now = w.readings w.tick

      w₁ : World K V S
      w₁ = record w { tick = w.tick + 1 }
