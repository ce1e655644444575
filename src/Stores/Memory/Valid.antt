-- ===== src/Stores/Memory/Valid.antt =====
-- The invariant of the memory store, and `moveToFront` under it.
use go_memoize.Base.{
  ℕ, ◌+◌, ◌*◌, ◌≤◌, ◌<◌, some, ◌≡◌, ◌≢◌, inl, inr, ◌∙◌, refl, sym, ap, arith, update, update_self,
  update_ne, if_neg, ℕ_discrete,
}
use go_memoize.Stores.Sizes.{Sizes}
use go_memoize.Stores.Memory.{
  u32_mod, empty_index, MemoryStore, link_front, unlink_lru, move_to_front,
}
use go_memoize.Stores.Memory.Ring.{IsRing-same}
use go_memoize.Stores.Memory.Links.{nexts_of}
use go_memoize.Stores.Memory.Linked.{
  ages, HasRing, Held, SameEntries, SameEntries-refl, SameEntries-trans, HasRing-same,
  unlink_lru-ring, link_front-ring,
}

-- The array has room, its first `len` elements are linked to a ring and are what the index says,
-- the bytes in use are those of its entries, and all were used before `now`.
pub record IsValid {K V : Type 0} (go : Sizes K V) (stamp : K → ℕ) (now : ℕ) (s : MemoryStore K V)
    : Type 0 where
  pub cap_pos : 0 < s.cap
  pub cap-lt : s.cap < u32_mod
  pub len-le : s.len ≤ s.cap
  pub head_empty : s.len ≡ 0 → s.head ≡ empty_index
  pub head_in : 0 < s.len → s.head < s.len
  pub ring : HasRing (Held s) stamp s
  pub recent : (q : ℕ) → q < s.len → ages stamp s q < now
  pub indexed : (q : ℕ) → q < s.len → s.index (s.elements q).key ≡ some q
  pub index_in : (k : K) (q : ℕ) → s.index k ≡ some q → q < s.len
  pub index_key : (k : K) (q : ℕ) → s.index k ≡ some q → (s.elements q).key ≡ k
  pub costs : (q : ℕ) → q < s.len → (s.elements q).cost ≡ go.key_size + go.stored_size
  pub used : s.used_bytes ≡ s.len * (go.key_size + go.stored_size)

-- when the keys were used last, once one is used now
abbrev pub stamped : {K V : Type 0} → Sizes K V → (K → ℕ) → ℕ → K → K → ℕ
stamped go stamp now k = update go.key_eq stamp k now

module _ {K V : Type 0} (go : Sizes K V) {stamp : K → ℕ} {now : ℕ} {s : MemoryStore K V}
    (v : IsValid go stamp now s) where
  ages_other :
      (p : ℕ)
      → p < s.len
      → (q : ℕ) → q < s.len
      → q ≢ p
      → ages (stamped go stamp now (s.elements p).key) s q ≡ ages stamp s q
  ages_other p i q j n =
      update_ne go.key_eq stamp _ _ now
        (λ e. n (ground (arith, ap s.index e, v.indexed p i, v.indexed q j)))

  ages_self : (p : ℕ) → ages (stamped go stamp now (s.elements p).key) s p ≡ now
  ages_self p = update_self go.key_eq stamp _ now

  alone-head : (p : ℕ) → p < s.len → p ≢ s.head → nexts_of s p ≢ p
  alone-head p i n e = omega (arith, v.ring.older p i n, ap (ages stamp s) e)

  pub head-ne-empty : 0 < s.len → s.head ≢ empty_index
  head-ne-empty i e = omega (arith, v.head_in i, v.len-le, v.cap-lt)

  -- The head may be used again.
  IsRing-restamp :
      (p : ℕ)
      → p < s.len
      → s.head ≡ p
      → HasRing (Held s) (stamped go stamp now (s.elements p).key) s
  IsRing-restamp p i first = record {
    next_in = v.ring.next_in;
    prev_in = v.ring.prev_in;
    next-prev = v.ring.next-prev;
    prev-next = v.ring.prev-next;
    older = λ q j n.
        let other = ages_other p i q j (λ e. n (e ∙ sym first)) in
        elim (ℕ_discrete (nexts_of s q) p) [
          | yes e ↦ rw (e, ages_self p, other) (v.recent q j)
          | no m ↦
              rw (other, ages_other p i (nexts_of s q) (v.ring.next_in q j) m) (v.ring.older q j n)
        ];
  }

  move_to_front-moves :
      (p : ℕ) (u t : MemoryStore K V)
      → s.head ≢ p
      → s.head ≢ empty_index
      → unlink_lru p s ≡ some (tt, u)
      → link_front p u ≡ some (tt, t)
      → move_to_front p s ≡ some (tt, t)
  unfolding move_to_front
  move_to_front-moves p u t n m first second = ground arith

  -- `moveToFront` makes an entry the head, and its key the one used last.
  pub move_to_front-ok :
      (p : ℕ)
      → p < s.len
      → (t : MemoryStore K V) × (move_to_front p s ≡ some (tt, t))
        × SameEntries s t
        × (t.head ≡ p)
        × HasRing (Held s) (stamped go stamp now (s.elements p).key) t
  unfolding move_to_front
  move_to_front-ok p i = elim (ℕ_discrete s.head p) [
    | yes first ↦ (s, ground arith, SameEntries-refl s, first, IsRing-restamp p i first)
    | no n ↦
        let k = (s.elements p).key in
        let h = v.head_in (omega arith) in
        let bound = λ (q : ℕ) (j : q < s.len). let b : q < s.cap = omega (arith, v.len-le) in b in
        let (u, unlinked, same, headed, ring) =
          unlink_lru-ring stamp s v.ring p bound i (alone-head p i (λ e. n (sym e))) in
        let head = headed ∙ if_neg (ℕ_discrete s.head p) n _ _ in
        let aged =
          HasRing-same stamp u ring (stamped go stamp now k)
            (λ q j. rw same.keys (ages_other p i q j.0 j.1)) in
        let (t, linked, same', head', ring') =
          link_front-ring (stamped go stamp now k) u aged p (λ q j. rw (same.rest.2) (bound q j.0))
            (rw same.rest.2 (bound p i)) (λ j. j.1 refl) (rw head (h, n))
            (rw head (head-ne-empty (omega arith)))
            (λ q j.
              rw (same.keys q, same.keys p, ages_other p i q j.0 j.1, ages_self p)
                (v.recent q j.0)) in
        (
          t,
          move_to_front-moves p u t n (head-ne-empty (omega arith)) unlinked linked,
          SameEntries-trans same same',
          head',
          IsRing-same ring' (λ q j. elim (ℕ_discrete q p) [ yes e ↦ inr e | no m ↦ inl (j, m) ])
              (λ q j. elim j [ inl (a, b) ↦ a | inr e ↦ rw e i ]) (λ q j. (refl, refl, refl)),
        )
  ]
