-- ===== src/Stores/Memory/Ring.antt =====
-- Rings of indices: what unlinking, linking and moving an index does to them.
use go_memoize.Base.{
  ℕ, zero, suc, ◌+◌, sym, ap, ◌≤◌, ◌<◌, ◌≡◌, ◌≢◌, ◌⊎◌, ◌∙◌, arith, update, ite, ℕ_discrete,
}

-- The indices for which `In` holds are linked both ways. Apart from the head, each was used before
-- the one that follows it.
pub record IsRing (In : ℕ → Type 0) (head : ℕ) (next prev age : ℕ → ℕ) : Type 0 where
  pub next_in : (p : ℕ) → In p → In (next p)
  pub prev_in : (p : ℕ) → In p → In (prev p)
  pub next-prev : (p : ℕ) → In p → next (prev p) ≡ p
  pub prev-next : (p : ℕ) → In p → prev (next p) ≡ p
  pub older : (p : ℕ) → In p → p ≢ head → age p < age (next p)

pub IsRing-empty :
    {In : ℕ → Type 0} {head : ℕ} {next prev age : ℕ → ℕ}
    → ((q : ℕ) → ¬ In q)
    → IsRing In head next prev age
IsRing-empty out = record {
  next_in = λ q i. absurd (out q i);
  prev_in = λ q i. absurd (out q i);
  next-prev = λ q i. absurd (out q i);
  prev-next = λ q i. absurd (out q i);
  older = λ q i n. absurd (out q i);
}

module _ {In : ℕ → Type 0} {head : ℕ} {next prev age : ℕ → ℕ}
    (ring : IsRing In head next prev age) where
  -- What follows the head is older than everything else.
  pub oldest : (fuel q : ℕ) → In q → q ≢ next head → age q < fuel → age (next head) < age q
  oldest zero q j n le = elim le [ ]
  oldest (suc fuel) q j n le =
      let before = λ (e : prev q ≡ head). n (sym (ring.next-prev q j) ∙ ap next e) in
      let older : age (prev q) < age q =
        omega (arith, ring.older (prev q) (ring.prev_in q j) before, ap age (ring.next-prev q j)) in
      elim (ℕ_discrete (prev q) (next head)) [
        | yes e ↦ omega (arith, ap age e)
        | no m ↦ omega (arith, oldest fuel (prev q) (ring.prev_in q j) m (omega arith))
      ]

  module _ (now : ℕ) (recent : (q : ℕ) → In q → age q < now) (p : ℕ) (i : In p)
      (one : next p ≡ p) where
    -- Along any other index, ages would rise for ever.
    not_alone : (q fuel : ℕ) → In q → q ≢ p → now ≤ age q + fuel → ⊥
    not_alone q zero j n h = omega (arith, recent q j)
    not_alone q (suc fuel) j n h =
        let head_p : head ≡ p = elim (ℕ_discrete p head) [
          | yes e ↦ sym e
          | no m ↦ absurd (omega (arith, ring.older p i m, ap age one))
        ] in
        not_alone (next q) fuel (ring.next_in q j)
          (λ e. n (sym (ring.prev-next q j) ∙ ap prev (e ∙ sym one) ∙ ring.prev-next p i))
          (omega (arith, ring.older q j (λ e. n (e ∙ head_p))))

    -- An index that is its own successor is the only one.
    pub alone : (q : ℕ) → In q → q ≡ p
    alone q j = elim (ℕ_discrete q p) [
      | yes e ↦ e
      | no n ↦ absurd (not_alone q now j n (omega arith))
    ]

  module _ (p : ℕ) (i : In p) (others : next p ≢ p) where
    pub IsRing-unlink :
        IsRing
          (λ q. In q × (q ≢ p))
          (ite (ℕ_discrete head p) (prev p) head)
          (update ℕ_discrete next (prev p) (next p))
          (update ℕ_discrete prev (next p) (prev p))
          age
    unfolding update
    IsRing-unlink = record {
      next_in = λ q j.
          ground
            (arith, ring.next_in p i, ring.next_in q j.0, ring.prev-next q j.0, ring.prev-next p i);
      prev_in = λ q j.
          ground
            (arith, ring.prev_in p i, ring.prev_in q j.0, ring.next-prev q j.0, ring.next-prev p i);
      next-prev =
          λ q j. ground (arith, ring.next-prev q j.0, ring.next-prev p i, ring.prev-next p i);
      prev-next =
          λ q j. ground (arith, ring.prev-next q j.0, ring.next-prev p i, ring.prev-next p i);
      older = λ q j n.
          ground (arith, ring.older q j.0, ring.older p i, ring.next-prev p i, ring.prev-next p i);
    }

  module _ (p : ℕ) (out : ¬ In p) (h : In head) (newest : (q : ℕ) → In q → age q < age p) where
    pub IsRing-link :
        IsRing
          (λ q. In q ⊎ (q ≡ p))
          p
          (update ℕ_discrete (update ℕ_discrete next p (next head)) head p)
          (update ℕ_discrete (update ℕ_discrete prev p head) (next head) p)
          age
    unfolding update
    IsRing-link = record {
      next_in = λ q j. ground (arith, ring.next_in head h, ring.next_in q);
      prev_in = λ q j. ground (arith, ring.prev_in head h, ring.prev_in q);
      next-prev = λ q j.
          ground
            (arith, ring.next-prev q, ring.prev-next head h, ring.next_in head h, ring.prev_in q);
      prev-next = λ q j. ground (
        arith,
        ring.prev-next q,
        ring.next-prev head h,
        ring.prev-next head h,
        ring.next_in head h,
        ring.next_in q,
      );
      older = λ q j n. ground (arith, ring.older q, newest q);
    }

  module _ (old new : ℕ) (i : In old) (out : ¬ In new) where
    abbrev pub Relabelled : ℕ → Type 0
    Relabelled q = (In q × (q ≢ old)) ⊎ (q ≡ new)

    pub IsRing-relabel_one :
        ((q : ℕ) → In q → q ≡ old)
        → IsRing Relabelled
            (ite (ℕ_discrete head old) new head)
            (update ℕ_discrete next new new)
            (update ℕ_discrete prev new new)
            (update ℕ_discrete age new (age old))
    unfolding update
    IsRing-relabel_one one = record {
      next_in = λ q j. ground (arith, one q);
      prev_in = λ q j. ground (arith, one q);
      next-prev = λ q j. ground (arith, one q);
      prev-next = λ q j. ground (arith, one q);
      older = λ q j n. ground (arith, one q, ring.older old i, one (next old), ring.next_in old i);
    }

    pub IsRing-relabel :
        next old ≢ old
        → IsRing Relabelled
            (ite (ℕ_discrete head old) new head)
            (update ℕ_discrete (update ℕ_discrete next new (next old)) (prev old) new)
            (update ℕ_discrete (update ℕ_discrete prev new (prev old)) (next old) new)
            (update ℕ_discrete age new (age old))
    unfolding update
    IsRing-relabel others = record {
      next_in = λ q j.
          ground
            (arith, ring.next_in q, ring.next_in old i, ring.prev-next q, ring.next-prev old i);
      prev_in = λ q j. ground (
        arith,
        ring.prev_in q,
        ring.prev_in old i,
        ring.next-prev q,
        ring.next-prev old i,
        ring.prev-next old i,
      );
      next-prev = λ q j. ground (
        arith,
        ring.next-prev q,
        ring.next-prev old i,
        ring.prev-next old i,
        ring.prev_in q,
        ring.prev_in old i,
      );
      prev-next = λ q j. ground (
        arith,
        ring.prev-next q,
        ring.next-prev old i,
        ring.prev-next old i,
        ring.next_in q,
        ring.next_in old i,
      );
      older = λ q j n. ground (
        arith,
        ring.older q,
        ring.older old i,
        ring.next-prev old i,
        ring.next_in q,
        ring.next_in old i,
        ring.prev_in old i,
        ring.prev-next q,
      );
    }

-- A ring is what it is on its indices.
pub IsRing-same :
    {In In' : ℕ → Type 0} {head : ℕ} {next next' prev prev' age age' : ℕ → ℕ}
    → IsRing In head next prev age
    → ((q : ℕ) → In' q → In q)
    → ((q : ℕ) → In q → In' q)
    → ((q : ℕ) → In q → (next' q ≡ next q) × (prev' q ≡ prev q) × (age' q ≡ age q))
    → IsRing In' head next' prev' age'
IsRing-same ring from to same = record {
  next_in = λ p i. let j = from p i in rw ((same p j).0) (to _ (ring.next_in p j));
  prev_in = λ p i. let j = from p i in rw ((same p j).1) (to _ (ring.prev_in p j));
  next-prev = λ p i.
      let j = from p i in rw ((same p j).1) ((same _ (ring.prev_in p j)).0 ∙ ring.next-prev p j);
  prev-next = λ p i.
      let j = from p i in rw ((same p j).0) ((same _ (ring.next_in p j)).1 ∙ ring.prev-next p j);
  older = λ p i n.
      let j = from p i in
      rw ((same p j).0, (same p j).2, (same _ (ring.next_in p j)).2) (ring.older p j n);
}
