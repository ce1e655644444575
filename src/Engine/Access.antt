-- ===== src/Engine/Access.antt =====
-- `Get`, `Set` and `Delete` by themselves and one after the other.
use go_memoize.Base.{
  ◌+◌, true, false, Option, none, some, ◌≡◌, ◌≢◌, refl, ap, arith, Option-cases, inl, inr, ◌⊎◌,
  is_some, not, ◌||◌, if◌then◌else◌,
}
use go_memoize.Time.{Time}
use go_memoize.Stored.{Stored, expired, fresh, stale, state}
use go_memoize.Store.{Store, Ctx, Found, Error, missing_store}
use go_memoize.Store.Laws.{StoreLaws, Keeps, Keeps-trans, Shrinks, found, fresh_found}
use go_memoize.Cache.{Cache}
use go_memoize.World.{
  World, hit, set_event, delete_event, returned, GoTypes, M, pure, ◌>>=◌, ◌>>◌, ask, clock_now,
}
use go_memoize.Events.{emit_hit, emit_delete}
use go_memoize.Events.Noted.{noted, emit_hit-noted, emit_delete-noted}
use go_memoize.Engine.{entry_at, set, delete, get_in, get}
use go_memoize.Engine.Reads.{Uses, get_entry-found, get_fresh_value-found, get_fresh_value-missing}
use go_memoize.Engine.Entry.{NotFresh, fresh_found-NotFresh}
use go_memoize.Engine.Hits.{after_read}
use go_memoize.Engine.Misses.{set-stored}
use go_memoize.Engine.Deadlines.{WithinTtl, entry_at-value, entry_at-fresh}

unfresh_cases :
    {V : Type 0} (e : Stored V) (now : Time)
    → state e now ≢ fresh
    → (state e now ≡ stale) ⊎ (state e now ≡ expired)
unfresh_cases e now n = ground arith

-- what `Get` returns for an entry
abbrev judged :
    {K V S : Type 0}
    → GoTypes K V
    → Cache K V S
    → K
    → Found (Stored V)
    → Time
    → M (World K V S) (Found V)
judged go c key (entry, ok, err) now =
    if is_some err || not ok then pure (go.zero, false, err) else elim (state entry now) [
      | fresh ↦ emit_hit go c key >> pure (entry.value, true, none)
      | _ ↦ pure (go.zero, false, none)
    ]

module _ {K V S : Type 0} (go : GoTypes K V) {Valid : S → Type 0} {view : S → K → Option (Stored V)}
    (c : Cache K V S) (store : Store K V S) (laws : StoreLaws go.zero store Valid view)
    (uses : Uses c store) (ctx : Ctx) (k : K) where
  passes :
      (o : Option (Stored V)) (now : Time)
      → NotFresh o now
      → (w : World K V S)
      → judged go c k (found go.zero o) now w ≡ (returned (go.zero, false, none), w)
  passes none now n w = refl
  passes (some e) now n w = elim (unfresh_cases e now (n e refl)) [
    | inl isstale ↦ rw isstale refl
    | inr isexpired ↦ rw isexpired refl
  ]

  get-active : get go c ctx k ≡ get_in go c store ctx k
  unfolding get
  get-active = simp (uses.active, uses.stored)

  abbrev deletion : Store K V S → M (World K V S) (Option Error)
  deletion t = do
    err ← ask (t.delete ctx k)
    if is_some err then pure err else emit_delete go c k >> pure none

  delete-active : delete go c ctx k ≡ deletion store
  unfolding delete
  delete-active =
      ap
        (λ o. elim o as (λ _. M (World K V S) (Option Error)) [
          | none ↦ pure (some missing_store)
          | some t ↦ deletion t
        ])
        uses.stored

  get-fresh :
      (w : World K V S) (e : Stored V)
      → Valid w.store
      → view w.store k ≡ some e
      → state e (w.readings w.tick) ≡ fresh
      → (s : S) × (get go c ctx k w ≡ (returned (e.value, true, none), after_read go c hit k w s))
        × Keeps Valid view w.store s
  unfolding get_in clock_now
  get-fresh w e v held isfresh =
      let w₁ : World K V S = record w { tick = w.tick + 1 } in
      rw get-active (elim (Option-cases store.peek_fresh_value) [
        | inr (ask, set) ↦
            let (s, answer, keeps) =
              get_fresh_value-found go c store laws ctx k (w.readings w.tick) w₁
                {a = (e.value, true, none)} set v (rw (held, isfresh, fresh_found)) in
            (s, rw (answer, emit_hit-noted go c k), keeps)
        | inl unset ↦
            let missing =
              get_fresh_value-missing go c store laws ctx k (w.readings w.tick) w₁ unset in
            let (s, entry, keeps) =
              get_entry-found go c store laws ctx k w₁ (some e) uses.peeker v held in
            (s, rw (missing, entry, isfresh, emit_hit-noted go c k), keeps)
      ])

  -- the entry that is looked up when no fresh value is found
  get-looks :
      (w : World K V S)
      → Valid w.store
      → NotFresh (view w.store k) (w.readings w.tick)
      → (s : S) × (get go c ctx k w
          ≡ (returned (go.zero, false, none), record w { store = s; tick = w.tick + 1 }))
        × Keeps Valid view w.store s
  unfolding get_in clock_now
  get-looks w v n =
      let now = w.readings w.tick in
      let o = view w.store k in
      let w₁ : World K V S = record w { tick = w.tick + 1 } in
      rw get-active (elim (Option-cases store.peek_fresh_value) [
        | inr (ask, set) ↦
            let (s, answer, keeps) =
              get_fresh_value-found go c store laws ctx k now w₁ set v
                (fresh_found-NotFresh go.zero o now n) in
            let (s', entry, keeps') =
              get_entry-found go c store laws ctx k (record w₁ { store = s }) o uses.peeker
                keeps.valid (keeps.same k) in
            (
              s',
              rw (answer, entry) (passes o now n (record w₁ { store = s' })),
              Keeps-trans keeps keeps',
            )
        | inl unset ↦
            let missing = get_fresh_value-missing go c store laws ctx k now w₁ unset in
            let (s, entry, keeps) = get_entry-found go c store laws ctx k w₁ o uses.peeker v refl in
            (s, rw (missing, entry) (passes o now n (record w₁ { store = s })), keeps)
      ])

  -- On a valid store, what `Set` stores is what `Get` finds while the reading of the clock is
  -- within the ttl: a set and a hit are noted, and other entries stay or are dropped.
  pub get-set :
      (v : V) (w : World K V S)
      → Valid w.store
      → WithinTtl c (w.readings w.tick) (w.readings (w.tick + 1))
      → (w' w'' : World K V S) × (set go c ctx k v w ≡ (returned none, w'))
        × (get go c ctx k w' ≡ (returned (v, true, none), w''))
        × (w''.events ≡ noted go c hit k (noted go c set_event k w.events))
        × Shrinks view k w.store w'.store
        × Keeps Valid view w'.store w''.store
  get-set v w valid intime =
      let now = w.readings w.tick in
      let (stored, seen, valid', others) = set-stored go c store laws uses ctx k v w valid in
      let w' : World K V S = record w {
        store = (store.set ctx k (entry_at go c v now) w.store).1;
        tick = w.tick + 1;
        events = noted go c set_event k w.events;
      } in
      let (s, read, keeps) =
        get-fresh w' (entry_at go c v now) valid' seen
          (entry_at-fresh go c v now (w.readings (w.tick + 1)) intime) in
      (
        w',
        after_read go c hit k w' s,
        stored,
        rw read (rw (entry_at-value go c v now) refl),
        refl,
        others,
        keeps,
      )

  -- On a valid store, `Delete` of a key notes a delete, keeps the entries of the other keys, and
  -- makes the next `Get` of the key find nothing, with no error.
  get-delete :
      (w : World K V S)
      → Valid w.store
      → (w' w'' : World K V S) × (delete go c ctx k w ≡ (returned none, w'))
        × (get go c ctx k w' ≡ (returned (go.zero, false, none), w''))
        × (w''.events ≡ noted go c delete_event k w.events)
        × ((j : K) → j ≢ k → view w'.store j ≡ view w.store j)
        × Keeps Valid view w'.store w''.store
  get-delete w valid =
      let law = laws.delete-view ctx k w.store valid in
      let w' : World K V S = record w {
        store = (store.delete ctx k w.store).1;
        events = noted go c delete_event k w.events;
      } in
      let (s, read, keeps) = get-looks w' law.1 (λ e p f. absurd (cc (law.2, p))) in
      (
        w',
        record w' { store = s; tick = w.tick + 1 },
        rw (delete-active, law.0, emit_delete-noted go c k),
        read,
        refl,
        law.3,
        keeps,
      )
