-- ===== src/Stores/Memory/Links.antt =====
-- What `linkFront`, `unlinkLRU` and `repointMoved` make of the links in the array.
use go_memoize.Base.{ℕ, ◌<◌, some, ◌≡◌, ◌≢◌, refl, arith, update, ite, ℕ_discrete}
use go_memoize.Stores.Memory.{
  empty_index, Element, MemoryStore, load, modify, link_front, unlink_lru, repoint_moved,
}

-- `t` differs from `s` in its head and its links alone.
pub record Relinked {K V : Type 0} (s t : MemoryStore K V) (head : ℕ) (next prev : ℕ → ℕ)
    : Type 0 where
  pub heads : t.head ≡ head
  pub nexts : (q : ℕ) → (t.elements q).next ≡ next q
  pub prevs : (q : ℕ) → (t.elements q).prev ≡ prev q
  pub keys : (q : ℕ) → (t.elements q).key ≡ (s.elements q).key
  pub values : (q : ℕ) → (t.elements q).value ≡ (s.elements q).value
  pub costs : (q : ℕ) → (t.elements q).cost ≡ (s.elements q).cost
  pub rest :
      (t.index ≡ s.index)
      × (t.len ≡ s.len)
      × (t.cap ≡ s.cap)
      × (t.used_bytes ≡ s.used_bytes)
      × (t.max_bytes ≡ s.max_bytes)

module _ {K V : Type 0} where
  abbrev pub nexts_of : MemoryStore K V → ℕ → ℕ
  nexts_of s q = (s.elements q).next

  abbrev pub prevs_of : MemoryStore K V → ℕ → ℕ
  prevs_of s q = (s.elements q).prev

  -- an array after a write of one link
  abbrev with_next : ℕ → ℕ → (ℕ → Element K V) → ℕ → Element K V
  with_next p n e = update ℕ_discrete e p (record (e p) { next = n })

  abbrev with_prev : ℕ → ℕ → (ℕ → Element K V) → ℕ → Element K V
  with_prev p n e = update ℕ_discrete e p (record (e p) { prev = n })

  module _ (s : MemoryStore K V) (p : ℕ) (p_in : p < s.cap) where
    pub unlink_lru-one :
        nexts_of s p ≡ p → unlink_lru p s ≡ some (tt, record s { head = empty_index })
    unfolding unlink_lru load
    unlink_lru-one one = ground arith

    pub unlink_lru-ok :
        nexts_of s p ≢ p
        → nexts_of s p < s.cap
        → prevs_of s p < s.cap
        → (t : MemoryStore K V) × (unlink_lru p s ≡ some (tt, t))
          × Relinked s t
              (ite (ℕ_discrete s.head p) (prevs_of s p) s.head)
              (update ℕ_discrete (nexts_of s) (prevs_of s p) (nexts_of s p))
              (update ℕ_discrete (prevs_of s) (nexts_of s p) (prevs_of s p))
    unfolding unlink_lru load modify update
    unlink_lru-ok others next_in prev_in = (
      record s {
        head = ite (ℕ_discrete s.head p) (prevs_of s p) s.head;
        elements =
            with_next (prevs_of s p) (nexts_of s p)
              (with_prev (nexts_of s p) (prevs_of s p) s.elements);
      },
      ground arith,
      record {
        heads = refl;
        nexts = λ q. ground arith;
        prevs = λ q. ground arith;
        keys = λ q. ground arith;
        values = λ q. ground arith;
        costs = λ q. ground arith;
        rest = (refl, refl, refl, refl, refl);
      },
    )

    pub link_front-empty :
        s.head ≡ empty_index
        → (t : MemoryStore K V) × (link_front p s ≡ some (tt, t))
          × Relinked s t p (update ℕ_discrete (nexts_of s) p p) (update ℕ_discrete (prevs_of s) p p)
    unfolding link_front load modify update
    link_front-empty empty = (
      record s { head = p; elements = with_prev p p (with_next p p s.elements) },
      ground arith,
      record {
        heads = refl;
        nexts = λ q. ground arith;
        prevs = λ q. ground arith;
        keys = λ q. ground arith;
        values = λ q. ground arith;
        costs = λ q. ground arith;
        rest = (refl, refl, refl, refl, refl);
      },
    )

    pub link_front-ok :
        s.head ≢ empty_index
        → s.head < s.cap
        → nexts_of s s.head < s.cap
        → p ≢ s.head
        → p ≢ nexts_of s s.head
        → (t : MemoryStore K V) × (link_front p s ≡ some (tt, t))
          × Relinked s t p
              (update ℕ_discrete (update ℕ_discrete (nexts_of s) p (nexts_of s s.head)) s.head p)
              (update ℕ_discrete (update ℕ_discrete (prevs_of s) p s.head) (nexts_of s s.head) p)
    unfolding link_front load modify update
    link_front-ok linked head_in tail_in n m = (
      record s {
        head = p;
        elements = with_next s.head p (
            with_prev (nexts_of s s.head) p
              (with_prev p s.head (with_next p (nexts_of s s.head) s.elements)));
      },
      ground arith,
      record {
        heads = refl;
        nexts = λ q. ground arith;
        prevs = λ q. ground arith;
        keys = λ q. ground arith;
        values = λ q. ground arith;
        costs = λ q. ground arith;
        rest = (refl, refl, refl, refl, refl);
      },
    )

  module _ (s : MemoryStore K V) (old new : ℕ) (new_in : new < s.cap) where
    pub repoint_moved-one :
        nexts_of s new ≡ old
        → prevs_of s new ≡ old
        → (t : MemoryStore K V) × (repoint_moved old new s ≡ some (tt, t))
          × Relinked s t
              (ite (ℕ_discrete s.head old) new s.head)
              (update ℕ_discrete (nexts_of s) new new)
              (update ℕ_discrete (prevs_of s) new new)
    unfolding repoint_moved load modify update
    repoint_moved-one n p = (
      record s {
        head = ite (ℕ_discrete s.head old) new s.head;
        elements = with_prev new new (with_next new new s.elements);
      },
      ground arith,
      record {
        heads = refl;
        nexts = λ q. ground arith;
        prevs = λ q. ground arith;
        keys = λ q. ground arith;
        values = λ q. ground arith;
        costs = λ q. ground arith;
        rest = (refl, refl, refl, refl, refl);
      },
    )

    pub repoint_moved-ok :
        nexts_of s new ≢ old
        → prevs_of s new ≢ old
        → nexts_of s new ≢ new
        → nexts_of s new < s.cap
        → prevs_of s new < s.cap
        → (t : MemoryStore K V) × (repoint_moved old new s ≡ some (tt, t))
          × Relinked s t
              (ite (ℕ_discrete s.head old) new s.head)
              (update ℕ_discrete (nexts_of s) (prevs_of s new) new)
              (update ℕ_discrete (prevs_of s) (nexts_of s new) new)
    unfolding repoint_moved load modify update
    repoint_moved-ok n p m next_in prev_in = (
      record s {
        head = ite (ℕ_discrete s.head old) new s.head;
        elements = with_next (prevs_of s new) new (with_prev (nexts_of s new) new s.elements);
      },
      ground arith,
      record {
        heads = refl;
        nexts = λ q. ground arith;
        prevs = λ q. ground arith;
        keys = λ q. ground arith;
        values = λ q. ground arith;
        costs = λ q. ground arith;
        rest = (refl, refl, refl, refl, refl);
      },
    )
