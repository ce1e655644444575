-- ===== src/Memoize/Calls.antt =====
-- What the memoized functions compute, and how often.
use go_memoize.Base.{
  ℕ, ◌+◌, ◌≤◌, false, Option, none, some, ◌≡◌, ◌≢◌, ◌⊎◌, ◌∙◌, inl, inr, refl, sym, arith,
}
use go_memoize.Base.Result.{ok}
use go_memoize.Stored.{Stored}
use go_memoize.Store.{Store, Ctx, Error}
use go_memoize.Store.Laws.{StoreLaws, Keeps}
use go_memoize.Options.{Options, given, with_store}
use go_memoize.Cache.{Cache, new_direct_cache}
use go_memoize.Cache.New.{new-store}
use go_memoize.World.{hit, World, Compute, returned, Ran, gives, GoTypes}
use go_memoize.Engine.Reads.{Uses}
use go_memoize.Engine.Entry.{NotFresh}
use go_memoize.Engine.Hits.{after_read, get_or_compute-fresh}
use go_memoize.Engine.Computes.{
  IsUnusable, IsUnusable-later, unusable-NotFresh, fallback-strict, get_or_compute-gives,
  get_or_compute-fails,
}
use go_memoize.Engine.Deadlines.{WithinTtl, entry_at-value, entry_at-fresh}
use go_memoize.Memoize.Shared.{call_cached, get_set_direct}

-- Without a store among the options and without a bypass, a memoized function works on the direct
-- store.
pub new_direct_cache-Uses :
    {V S : Type 0} (direct : Store ℕ V S) (opts : Options ℕ V S) {c : Cache ℕ V S}
    → opts.has_store ≡ false
    → opts.bypass ≡ false
    → new_direct_cache direct opts ≡ ok c
    → Uses c direct
unfolding new_direct_cache with_store
new_direct_cache-Uses direct opts own active made =
    let (b, s, p) = new-store (with_store (given direct) opts) direct refl refl (rw own at made) in
    record { active = b ∙ active; stored = s; peeker = p }

-- Nothing usable is stored or in flight under a hash, and the clock does not run backwards.
pub record IsOpen {V S : Type 0} (Valid : S → Type 0) (view : S → ℕ → Option (Stored V)) (h : ℕ)
    (w : World ℕ V S) : Type 0 where
  pub valid : Valid w.store
  pub unusable : IsUnusable (view w.store h) (w.readings w.tick)
  pub free : w.flights h ≡ none
  pub clock : (i j : ℕ) → i ≤ j → w.readings i ≤ w.readings j

-- The clock readings of a first call and of the one after it lie within one ttl.
abbrev pub InTime : {V S : Type 0} → Cache ℕ V S → World ℕ V S → Type 0
InTime c w = WithinTtl c (w.readings (w.tick + 1 + 1)) (w.readings (w.tick + 3))

module _ {V S : Type 0} (go : GoTypes ℕ V) {Valid : S → Type 0} {view : S → ℕ → Option (Stored V)}
    (c : Cache ℕ V S) (direct : Store ℕ V S) (laws : StoreLaws go.zero direct Valid view)
    (uses : Uses c direct) where
  module _ {h : ℕ} {w : World ℕ V S} (o : IsOpen Valid view h w) where
    IsUnusable-at : (i : ℕ) → w.tick ≤ i → IsUnusable (view w.store h) (w.readings i)
    IsUnusable-at i le =
        IsUnusable-later (view w.store h) (w.readings w.tick) (w.readings i) (o.clock w.tick i le)
          o.unusable

    unfresh : NotFresh (view w.store h) (w.readings (w.tick + 1))
    unfresh =
        unusable-NotFresh (view w.store h) (w.readings (w.tick + 1))
          (IsUnusable-at (w.tick + 1) (omega arith))

    -- Another key's flight leaves the world open, whether the store keeps the entry or drops it.
    IsOpen-other :
        (w' : World ℕ V S)
        → Valid w'.store
        → (view w'.store h ≡ none) ⊎ (view w'.store h ≡ view w.store h)
        → w'.flights h ≡ w.flights h
        → w'.tick ≡ w.tick + 3
        → w'.readings ≡ w.readings
        → IsOpen Valid view h w'
    IsOpen-other w' valid entry flights tick readings = record {
      valid = valid;
      unusable = elim entry [
        | inl gone ↦ rw gone tt
        | inr kept ↦ rw (kept, readings, tick) (IsUnusable-at (w.tick + 3) (omega arith))
      ];
      free = flights ∙ o.free;
      clock = rw readings o.clock;
    }

    -- A world that later has the same entries and flights is as open.
    IsOpen-later :
        (w' : World ℕ V S) (reads : ℕ)
        → Keeps Valid view w.store w'.store
        → w'.flights h ≡ w.flights h
        → w'.tick ≡ w.tick + reads
        → w'.readings ≡ w.readings
        → IsOpen Valid view h w'
    IsOpen-later w' reads keeps flights tick readings = record {
      valid = keeps.valid;
      unusable = rw (keeps.same h, readings, tick) (IsUnusable-at (w.tick + reads) (omega arith));
      free = flights ∙ o.free;
      clock = rw readings o.clock;
    }

  -- Of two calls under one hash, with nothing usable stored or in flight at first, the clock not
  -- running backwards and both within one ttl, the first computes its value and the second
  -- returns it, without a computation of its own.
  pub call_cached_twice :
      (h : ℕ) (ctx ctx' : Ctx) (compute compute' : Compute V) (w : World ℕ V S) {v : V}
      → IsOpen Valid view h w
      → InTime c w
      → compute ctx w.calls ≡ gives v none
      → (w' w'' : World ℕ V S) × (call_cached go c ctx (some h) compute w ≡ (returned v, w'))
        × (call_cached go c ctx' (some h) compute' w' ≡ (returned v, w''))
        × (w''.calls ≡ w.calls + 1)
  unfolding call_cached
  call_cached_twice h ctx ctx' compute compute' w {v} o intime ran =
      let (w', first, seen, valid, others, landed, noted) =
        get_or_compute-gives go c direct laws uses ctx h compute w o.valid o.unusable (unfresh o)
          o.free ran in
      let later : w'.readings w'.tick ≡ w.readings (w.tick + 3) =
        cc (landed.readings, landed.tick) in
      let (s, second, keeps) =
        get_or_compute-fresh go c direct laws uses ctx' h compute' w' _ valid seen
          (rw later (entry_at-fresh go c v _ _ intime)) in
      (
        w',
        after_read go c hit h w' s,
        rw first,
        rw (second, entry_at-value go c v (w.readings (w.tick + 1 + 1))),
        landed.calls,
      )

  -- Calls under two hashes do not meddle: after the first call, the first hash answers from the
  -- store, and the second computes its own value.
  pub call_cached_other :
      (h i : ℕ) (ctx ctx' : Ctx) (compute compute' : Compute V) (w : World ℕ V S) {u v : V}
      → IsOpen Valid view h w
      → IsOpen Valid view i w
      → InTime c w
      → h ≢ i
      → compute ctx w.calls ≡ gives u none
      → compute' ctx' (w.calls + 1) ≡ gives v none
      → (w' same other : World ℕ V S) × (call_cached go c ctx (some h) compute w ≡ (returned u, w'))
        × (call_cached go c ctx (some h) compute w' ≡ (returned u, same))
        × (same.calls ≡ w.calls + 1)
        × (call_cached go c ctx' (some i) compute' w' ≡ (returned v, other))
        × (other.calls ≡ w.calls + 2)
  unfolding call_cached
  call_cached_other h i ctx ctx' compute compute' w {u} {v} oh oi intime apart ranu ranv =
      let (w', first, seen, valid, others, landed, noted) =
        get_or_compute-gives go c direct laws uses ctx h compute w oh.valid oh.unusable (unfresh oh)
          oh.free ranu in
      let later : w'.readings w'.tick ≡ w.readings (w.tick + 3) =
        cc (landed.readings, landed.tick) in
      let (s, second, keeps) =
        get_or_compute-fresh go c direct laws uses ctx h compute w' _ valid seen
          (rw later (entry_at-fresh go c u _ _ intime)) in
      let o =
        IsOpen-other oi w' valid (others i (λ p. apart (sym p))) (landed.flights i) landed.tick
          landed.readings in
      let (w'', third, seen', valid', others', landed', noted') =
        get_or_compute-gives go c direct laws uses ctx' i compute' w' {v = v} o.valid o.unusable
          (unfresh o) o.free (rw landed.calls ranv) in
      (
        w',
        after_read go c hit h w' s,
        w'',
        rw first,
        rw (second, entry_at-value go c u (w.readings (w.tick + 1 + 1))),
        landed.calls,
        rw third,
        omega (arith, landed.calls, landed'.calls),
      )

  -- A failed computation is not remembered, if the cache keeps no old entries for errors: with
  -- nothing usable stored or in flight at first and the clock not running backwards, its error
  -- comes back, and the next call under the same hash computes anew and returns its own value.
  pub get_set_direct-again :
      (h : ℕ) (ctx : Ctx) (fn fn' : ℕ → Ran V) (w : World ℕ V S) {u v : V} {x : Error}
      → c.keep_stale_on_error ≡ false
      → IsOpen Valid view h w
      → fn w.calls ≡ gives u (some x)
      → fn' (w.calls + 1) ≡ gives v none
      → (w' w'' : World ℕ V S) × (get_set_direct go c ctx (some h) fn w
          ≡ (returned (u, some x), w'))
        × (get_set_direct go c ctx (some h) fn' w' ≡ (returned (v, none), w''))
        × (w''.calls ≡ w.calls + 2)
  unfolding get_set_direct
  get_set_direct-again h ctx fn fn' w {u} {v} {x} strict o failed ran =
      let (w', first, keeps, landed) =
        get_or_compute-fails go c direct laws uses ctx h (λ _. fn) w o.valid o.unusable (unfresh o)
          o.free failed in
      let o' = IsOpen-later o w' 2 keeps (landed.flights h) landed.tick landed.readings in
      let (w'', second, seen, valid, others, landed', noted) =
        get_or_compute-gives go c direct laws uses ctx h (λ _. fn') w' o'.valid o'.unusable
          (unfresh o') o'.free (rw landed.calls ran) in
      (
        w',
        w'',
        rw (first, fallback-strict c (view w.store h) u x strict),
        second,
        omega (arith, landed.calls, landed'.calls),
      )
