-- ===== src/Stores/Memory/Removes.antt =====
-- `removeAt` runs through, and leaves a valid store without the entry.
use go_memoize.Base.{
  ℕ, suc, ◌≤◌, ◌<◌, some, ◌≡◌, ◌≢◌, ◌⊎◌, ◌∙◌, refl, sym, ap, arith, update, ite, ℕ_discrete,
}
use go_memoize.Stores.Sizes.{Sizes}
use go_memoize.Stores.Memory.{empty_index, MemoryStore, unlink_lru, repoint_moved, remove_at}
use go_memoize.Stores.Memory.Ring.{
  IsRing, IsRing-empty, IsRing-relabel, IsRing-relabel_one, IsRing-same, alone,
}
use go_memoize.Stores.Memory.Links.{
  Relinked, nexts_of, prevs_of, unlink_lru-one, repoint_moved-one, repoint_moved-ok,
}
use go_memoize.Stores.Memory.Linked.{
  HasRing, ages, SameEntries, SameEntries-refl, SameEntries-head, SameEntries-trans,
  unlink_lru-ring,
}
use go_memoize.Stores.Memory.Valid.{IsValid}
use go_memoize.Stores.Memory.Removal.{
  dropped, filled, erased, charged, remove_at-last, remove_at-moves, Removed, IsValid-removed,
  Removed-last, Removed-filled, ring-filled,
}

module _ {K V : Type 0} (go : Sizes K V) {stamp : K → ℕ} {now : ℕ} {s : MemoryStore K V}
    (v : IsValid go stamp now s) (p n : ℕ) (counted : s.len ≡ suc n) (p_in : p ≤ n) where
  abbrev pub Done : Type 0
  Done =
      (t : MemoryStore K V) × (remove_at go p s ≡ some (tt, t))
      × Removed s t p n
      × IsValid go stamp now t

  p_held : p < s.len
  p_held = omega (arith, counted)

  n_held : n < s.len
  n_held = omega (arith, counted)

  held_in : (q : ℕ) → q < s.len → q < s.cap
  held_in q i = omega (arith, v.len-le)

  -- the only entry
  removes-one : nexts_of s p ≡ p → Done
  removes-one one =
      let all = alone v.ring now v.recent p p_held one in
      let last : p ≡ n = sym (all n (omega (arith, counted))) in
      let none_left : n ≡ 0 = omega (arith, all 0 (omega (arith, counted)), last) in
      let u = record (charged go p s) { head = empty_index } in
      let same = SameEntries-head (charged go p s) empty_index in
      let r = Removed-last go v p n counted p_in u same last in
      let t = erased go n (dropped go p n u) in
      let unlinked = unlink_lru-one (charged go p s) p (held_in p p_held) one in
      (
        t,
        remove_at-last go p n s u counted p_in (held_in n n_held) v.cap-lt same unlinked last,
        r,
        IsValid-removed go v counted p_in r (IsRing-empty (λ q i. omega (arith, none_left)))
            (λ e. refl) (λ e. absurd (omega (arith, none_left))),
      )

  module _ (u : MemoryStore K V) (unlinked : unlink_lru p (charged go p s) ≡ some (tt, u))
      (same : SameEntries (charged go p s) u)
      (head : u.head ≡ ite (ℕ_discrete s.head p) (prevs_of s p) s.head) (others : nexts_of s p ≢ p)
      (ring : HasRing (λ q. (q < s.len) × (q ≢ p)) stamp u) where
    head_in : (u.head < s.len) × (u.head ≢ p)
    head_in = ground (arith, v.head_in, v.ring.prev_in p p_held, v.ring.next-prev p p_held)

    -- the last entry, of several
    removes-last : p ≡ n → Done
    unfolding update
    removes-last last =
        let r = Removed-last go v p n counted p_in u same last in
        (
          erased go n (dropped go p n u),
          remove_at-last go p n s u counted p_in (held_in n n_held) v.cap-lt same unlinked last,
          r,
          IsValid-removed go v counted p_in r
              (IsRing-same ring (λ q i. (omega (arith, counted), omega (arith, last)))
                (λ q i. omega (arith, counted, last))
                (λ q i. (ground arith, ground arith, ground arith)))
              (λ e. absurd (omega (arith, head_in.0, head_in.1, counted, last)))
              (λ e. omega (arith, head_in.0, head_in.1, counted, last)),
        )

    -- another one: the last entry fills the gap, and its links are mended.
    removes-filled :
        (t : MemoryStore K V) (next prev : ℕ → ℕ) {next' prev' : ℕ → ℕ}
        → p ≢ n
        → repoint_moved n p (filled go p n u) ≡ some (tt, t)
        → Relinked (filled go p n u) t (ite (ℕ_discrete u.head n) p u.head) next' prev'
        → IsRing
            (λ q. ((q < s.len × (q ≢ p)) × (q ≢ n)) ⊎ (q ≡ p))
            (ite (ℕ_discrete u.head n) p u.head)
            next
            prev
            (update ℕ_discrete (ages stamp u) p (ages stamp u n))
        → ((q : ℕ) → q < n → (next' q ≡ next q) × (prev' q ≡ prev q))
        → Done
    removes-filled t next prev other moved rel mended links =
        let r =
          Removed-filled go v p n counted p_in u t same (SameEntries-trans (SameEntries-refl _) rel)
            other in
        let h = head_in in
        (
          erased go n t,
          remove_at-moves go p n s u counted p_in (held_in n n_held) v.cap-lt same unlinked t other
              (rel.rest.2 ∙ same.rest.2) moved,
          r,
          IsValid-removed go v counted p_in r
              (ring-filled go v p n counted p_in u t next prev other same.rest.1 rel mended links)
              (λ e. absurd (omega (arith, other))) (λ e. ground (arith, rel.heads, counted, other)),
        )

    removes-other : p ≢ n → Done
    unfolding update
    removes-other other =
        let i : (n < s.len) × (n ≢ p) = (n_held, λ e. other (sym e)) in
        let out : ¬ ((p < s.len) × (p ≢ p)) = λ j. j.1 refl in
        let f = filled go p n u in
        let cap_in : p < f.cap = rw same.rest.2 (held_in p p_held) in
        let next_p : nexts_of f p ≡ nexts_of u n = ground arith in
        let prev_p : prevs_of f p ≡ prevs_of u n = ground arith in
        elim (ℕ_discrete (nexts_of u n) n) [
          | yes one ↦
              let only = alone ring now (λ q j. rw (same.keys q) (v.recent q j.0)) n i one in
              let before : prevs_of u n ≡ n = ap (prevs_of u) (sym one) ∙ ring.prev-next n i in
              let (t, moved, rel) =
                repoint_moved-one f n p cap_in (next_p ∙ one) (prev_p ∙ before) in
              removes-filled t _ _ other moved rel (IsRing-relabel_one ring n p i out only)
                (λ q j. (ground arith, ground arith))
          | no m ↦
              let (next_in, next_ne) = ring.next_in n i in
              let (prev_in, prev_ne) = ring.prev_in n i in
              let before : prevs_of u n ≢ n =
                (λ e. m (ap (nexts_of u) (sym e) ∙ ring.next-prev n i)) in
              let (t, moved, rel) =
                repoint_moved-ok f n p cap_in (rw next_p m) (rw prev_p before) (rw next_p next_ne)
                  (rw (next_p, same.rest.2) (held_in _ next_in))
                  (rw (prev_p, same.rest.2) (held_in _ prev_in)) in
              removes-filled t _ _ other moved rel (IsRing-relabel ring n p i out m)
                (λ q j. (ground (arith, next_p, prev_p), ground (arith, next_p, prev_p)))
        ]

  -- `removeAt` of an entry that is held does not panic, and leaves a valid store without it.
  pub remove_at-ok : Done
  remove_at-ok = elim (ℕ_discrete (nexts_of s p) p) [
    | yes one ↦ removes-one one
    | no others ↦
        let (u, unlinked, same, head, ring) =
          unlink_lru-ring stamp (charged go p s) v.ring p held_in p_held others in
        elim (ℕ_discrete p n) [
          | yes last ↦ removes-last u unlinked same head others ring last
          | no other ↦ removes-other u unlinked same head others ring other
        ]
  ]
