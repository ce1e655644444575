-- ===== src/Stores/Memory/Writes.antt =====
-- `Set`, `Delete` and `Clear` of the memory store.
use go_memoize.Base.{
  ℕ, zero, suc, ◌+◌, ◌-◌, ◌≤◌, none, some, Option-cases, ◌≡◌, ◌≢◌, inl, inr, ◌∙◌, refl, sym, arith,
  update, ℕ_discrete,
}
use go_memoize.Stored.{Stored}
use go_memoize.Stores.Sizes.{Sizes}
use go_memoize.Stores.Memory.{
  empty_index, Element, MemoryStore, entry_bytes, modify, link_front, make_room, zero_element,
}
use go_memoize.Stores.Memory.Ring.{IsRing-empty}
use go_memoize.Stores.Memory.Linked.{SameEntries}
use go_memoize.Stores.Memory.Valid.{IsValid, stamped}
use go_memoize.Stores.Memory.Removes.{remove_at-ok}
use go_memoize.Stores.Memory.Evict.{
  entries, Shrunk, Evicted, entries-removed_self, entries-removed_other,
}
use go_memoize.Stores.Memory.Loops.{HasRoom, make_room-ok}
use go_memoize.Stores.Memory.Moves.{SameView-entries}
use go_memoize.Stores.Memory.Replaces.{Written, replace-ok}
use go_memoize.Stores.Memory.Inserts.{
  appended, appended_self, appended_other, linked, appended-len, counted, counted-IsValid,
}
use go_memoize.Stores.Memory.Methods.{insert, set, delete, wipe, clear}

module _ {K V : Type 0} (go : Sizes K V) {stamp : K → ℕ} {now : ℕ} (s : MemoryStore K V)
    (v : IsValid go stamp now s) (k : K) (e : Stored V) where
  module _ (absent : s.index k ≡ none) (u : MemoryStore K V) (valid : IsValid go stamp now u)
      (evicted : Evicted stamp s u) (room : HasRoom (entry_bytes go k e) u) where
    still_absent : u.index k ≡ none
    still_absent = elim (Option-cases (u.index k)) [
      | inl gone ↦ gone
      | inr (q, found) ↦
          let old : entries s k ≡ none = rw (entries, absent) refl in
          let new : entries u k ≡ some (u.elements q).value = rw (entries, found) refl in
          absurd (elim (evicted.entry k) [
            | inl kept ↦ cc (kept, old, new)
            | inr (gone, _) ↦ cc (gone, new)
          ])
    ]

    abbrev fresh : MemoryStore K V
    fresh = appended go u valid k e still_absent room.0

    insert-run :
        (t : MemoryStore K V)
        → make_room go (suc s.len) (entry_bytes go k e) s ≡ some (tt, u)
        → link_front u.len fresh ≡ some (tt, t)
        → insert go k e s ≡ some (tt, counted go u valid k e still_absent room.0 t)
    unfolding insert modify
    insert-run t made links = ground (arith, room.0)

    inserted-Written :
        (t : MemoryStore K V)
        → SameEntries fresh t
        → Written stamp k e s (counted go u valid k e still_absent room.0 t)
    inserted-Written t same =
        let view = SameView-entries same in
        record {
          cap = view.cap ∙ evicted.cap;
          max_bytes = view.max_bytes ∙ evicted.max_bytes;
          bounded = ground (
            arith,
            view.len,
            appended-len go u valid k e still_absent room.0,
            view.max_bytes,
            same.rest.3,
            room.1,
          );
          written = view.entry k ∙ appended_self go u valid k e still_absent room.0;
          entry = λ j n.
              let old = view.entry j ∙ appended_other go u valid k e still_absent room.0 j n in
              elim (evicted.entry j) [
                | inl kept ↦ inl (old ∙ kept)
                | inr (gone, older) ↦ inr (
                  old ∙ gone,
                  λ i f m found. older i f (
                      sym (view.entry i ∙ appended_other go u valid k e still_absent room.0 i m)
                      ∙ found),
                )
              ];
        }

  insert-ok :
      s.index k ≡ none
      → (t : MemoryStore K V) × (insert go k e s ≡ some (tt, t))
        × IsValid go (stamped go stamp now k) (suc now) t
        × Written stamp k e s t
  insert-ok absent =
      let (u, made, valid, evicted, room) =
        make_room-ok go (suc s.len) (entry_bytes go k e) s v (omega arith) in
      let gone = still_absent absent u valid evicted room in
      let (t, links, same, head, ring) = linked go u valid k e gone room.0 in
      (
        counted go u valid k e gone room.0 t,
        insert-run absent u valid evicted room t made links,
        counted-IsValid go u valid k e gone room.0 t same head ring,
        inserted-Written absent u valid evicted room t same,
      )

  -- `Set` on a valid store ends without a panic, and leaves a valid store in which the key was used
  -- last and has the new entry. If the bytes have a bound, they are within it or there is a single
  -- entry. Entries of other keys are kept or evicted, and each that is evicted was used before
  -- every other one that is left.
  pub set-ok :
      (t : MemoryStore K V) × (set go k e s ≡ some (tt, t))
      × IsValid go (stamped go stamp now k) (suc now) t
      × Written stamp k e s t
  unfolding set
  set-ok = elim (Option-cases (s.index k)) [
    | inl absent ↦
        let (t, run, valid, done) = insert-ok absent in (t, rw (set, absent) run, valid, done)
    | inr (p, held) ↦
        let (t, run, valid, done) = replace-ok go s v k e p held in
        (t, rw (set, held) run, valid, done)
  ]

module _ {K V : Type 0} (go : Sizes K V) {stamp : K → ℕ} {now : ℕ} (s : MemoryStore K V)
    (v : IsValid go stamp now s) where
  pub delete-ok :
      (k : K)
      → (t : MemoryStore K V) × (delete go k s ≡ some (tt, t))
        × IsValid go stamp now t
        × Shrunk s t
        × (entries t k ≡ none)
        × ((j : K) → j ≢ k → entries t j ≡ entries s j)
  unfolding delete
  delete-ok k = elim (Option-cases (s.index k)) [
    | inl absent ↦ (
      s,
      rw (delete, absent) refl,
      v,
      record { cap = refl; max_bytes = refl; len = omega arith },
      rw (entries, absent) refl,
      λ j n. refl,
    )
    | inr (p, held) ↦
        let n = s.len - 1 in
        let i = v.index_in k p held in
        let counts : s.len ≡ suc n = omega arith in
        let p_in : p ≤ n = omega arith in
        let (t, run, r, valid) = remove_at-ok go v p n counts p_in in
        let key = v.index_key k p held in
        (
          t,
          rw (delete, held) run,
          valid,
          record { cap = r.cap; max_bytes = r.max_bytes; len = omega (arith, r.len) },
          rw key at (entries-removed_self go v counts p_in r),
          λ j m. entries-removed_other go v counts p_in r j (λ c. m (c ∙ key)),
        )
  ]

wipe-ok :
    {K V : Type 0} (go : Sizes K V) (rounds i : ℕ) (s : MemoryStore K V)
    → i + rounds ≤ s.cap
    → (E : ℕ → Element K V) × (wipe go rounds i s ≡ some (tt, record s { elements = E }))
unfolding wipe modify
wipe-ok go zero i s fits = (s.elements, refl)
wipe-ok go (suc rounds) i s fits =
    let t = record s { elements = update ℕ_discrete s.elements i (zero_element go) } in
    let (E, run) = wipe-ok go rounds (i + 1) t (omega arith) in (E, ground arith)

module _ {K V : Type 0} (go : Sizes K V) {stamp : K → ℕ} {now : ℕ} (s : MemoryStore K V)
    (v : IsValid go stamp now s) where
  abbrev emptied : (ℕ → Element K V) → MemoryStore K V
  emptied E = record s {
    elements = E;
    index = λ _. none;
    head = empty_index;
    len = 0;
    used_bytes = 0;
  }

  emptied-IsValid : (E : ℕ → Element K V) → IsValid go stamp now (emptied E)
  emptied-IsValid E = record {
    cap_pos = v.cap_pos;
    cap-lt = v.cap-lt;
    len-le = omega arith;
    head_empty = λ f. refl;
    head_in = λ f. absurd (omega arith);
    ring = IsRing-empty (λ q i. absurd (omega arith));
    recent = λ q i. absurd (omega arith);
    indexed = λ q i. absurd (omega arith);
    index_in = λ k q f. absurd (cc f);
    index_key = λ k q f. absurd (cc f);
    costs = λ q i. absurd (omega arith);
    used = grind arith;
  }

  pub clear-ok :
      (t : MemoryStore K V) × (clear go s ≡ some (tt, t))
      × IsValid go stamp now t
      × Shrunk s t
      × ((k : K) → entries t k ≡ none)
  unfolding clear
  clear-ok =
      let (E, run) = wipe-ok go s.len 0 s (omega (arith, v.len-le)) in
      (
        emptied E,
        rw run refl,
        emptied-IsValid E,
        record { cap = refl; max_bytes = refl; len = omega arith },
        λ k. refl,
      )
