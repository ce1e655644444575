-- ===== src/Stores/Memory/Linked.antt =====
-- Stores that differ in their links alone, and their rings under `unlinkLRU` and `linkFront`.
use go_memoize.Base.{ℕ, ◌<◌, some, ◌≡◌, ◌≢◌, ◌⊎◌, ◌∙◌, refl, ite, ℕ_discrete}
use go_memoize.Stores.Memory.{empty_index, MemoryStore, link_front, unlink_lru}
use go_memoize.Stores.Memory.Ring.{IsRing, IsRing-unlink, IsRing-link, IsRing-same}
use go_memoize.Stores.Memory.Links.{Relinked, nexts_of, prevs_of, unlink_lru-ok, link_front-ok}

module _ {K V : Type 0} where
  -- when the keys of the entries were used last
  abbrev pub ages : (K → ℕ) → MemoryStore K V → ℕ → ℕ
  ages stamp s q = stamp (s.elements q).key

  -- the ring of a store, on some of its indices
  abbrev pub HasRing : (ℕ → Type 0) → (K → ℕ) → MemoryStore K V → Type 0
  HasRing In stamp s = IsRing In s.head (nexts_of s) (prevs_of s) (ages stamp s)

  abbrev pub Held : MemoryStore K V → ℕ → Type 0
  Held s q = q < s.len

-- `t` has the entries of `s`, linked in some way.
abbrev pub SameEntries : {K V : Type 0} → MemoryStore K V → MemoryStore K V → Type 0
SameEntries s t = Relinked s t t.head (nexts_of t) (prevs_of t)

pub SameEntries-refl : {K V : Type 0} (s : MemoryStore K V) → SameEntries s s
SameEntries-refl s = record {
  heads = refl;
  nexts = λ q. refl;
  prevs = λ q. refl;
  keys = λ q. refl;
  values = λ q. refl;
  costs = λ q. refl;
  rest = (refl, refl, refl, refl, refl);
}

pub SameEntries-head :
    {K V : Type 0} (s : MemoryStore K V) (h : ℕ) → SameEntries s (record s { head = h })
SameEntries-head s h = record {
  heads = refl;
  nexts = λ q. refl;
  prevs = λ q. refl;
  keys = λ q. refl;
  values = λ q. refl;
  costs = λ q. refl;
  rest = (refl, refl, refl, refl, refl);
}

pub SameEntries-trans :
    {K V : Type 0} {s t u : MemoryStore K V} {h h' : ℕ} {n n' p p' : ℕ → ℕ}
    → Relinked s t h n p
    → Relinked t u h' n' p'
    → SameEntries s u
SameEntries-trans r r' = record {
  heads = refl;
  nexts = λ q. refl;
  prevs = λ q. refl;
  keys = λ q. r'.keys q ∙ r.keys q;
  values = λ q. r'.values q ∙ r.values q;
  costs = λ q. r'.costs q ∙ r.costs q;
  rest = (
    r'.rest.0 ∙ r.rest.0,
    r'.rest.1 ∙ r.rest.1,
    r'.rest.2 ∙ r.rest.2,
    r'.rest.3 ∙ r.rest.3,
    r'.rest.4 ∙ r.rest.4,
  );
}

module _ {K V : Type 0} {s t : MemoryStore K V} {head : ℕ} {next prev : ℕ → ℕ}
    (r : Relinked s t head next prev) where
  -- the ring of a store whose links were rewritten
  pub HasRing-relinked :
      {In In' : ℕ → Type 0} (stamp : K → ℕ)
      → IsRing In head next prev (ages stamp s)
      → ((q : ℕ) → In' q → In q)
      → ((q : ℕ) → In q → In' q)
      → HasRing In' stamp t
  HasRing-relinked stamp ring from to =
      rw r.heads (IsRing-same ring from to (λ q i. (r.nexts q, r.prevs q, rw r.keys refl)))

module _ {K V : Type 0} {In : ℕ → Type 0} (stamp : K → ℕ) (s : MemoryStore K V)
    (ring : HasRing In stamp s) where
  -- Only the ages of the indices of a ring count.
  pub HasRing-same :
      (stamp' : K → ℕ) → ((q : ℕ) → In q → ages stamp' s q ≡ ages stamp s q) → HasRing In stamp' s
  HasRing-same stamp' same = IsRing-same ring (λ q j. j) (λ q j. j) (λ q j. (refl, refl, same q j))

  module _ (p : ℕ) (bound : (q : ℕ) → In q → q < s.cap) where
    -- `unlinkLRU` of an index that is not alone
    pub unlink_lru-ring :
        In p
        → nexts_of s p ≢ p
        → (t : MemoryStore K V) × (unlink_lru p s ≡ some (tt, t))
          × SameEntries s t
          × (t.head ≡ ite (ℕ_discrete s.head p) (prevs_of s p) s.head)
          × HasRing (λ q. In q × (q ≢ p)) stamp t
    unlink_lru-ring i others =
        let (t, unlinked, r) =
          unlink_lru-ok s p (bound p i) others (bound _ (ring.next_in p i))
            (bound _ (ring.prev_in p i)) in
        (
          t,
          unlinked,
          SameEntries-trans (SameEntries-refl s) r,
          r.heads,
          HasRing-relinked r stamp (IsRing-unlink ring p i others) (λ q j. j) (λ q j. j),
        )

    -- `linkFront` of an index, next to a ring
    pub link_front-ring :
        p < s.cap
        → ¬ In p
        → In s.head
        → s.head ≢ empty_index
        → ((q : ℕ) → In q → ages stamp s q < ages stamp s p)
        → (t : MemoryStore K V) × (link_front p s ≡ some (tt, t))
          × SameEntries s t
          × (t.head ≡ p)
          × HasRing (λ q. In q ⊎ (q ≡ p)) stamp t
    link_front-ring p_in out h linked newest =
        let tail_in = ring.next_in s.head h in
        let (t, done, r) =
          link_front-ok s p p_in linked (bound _ h) (bound _ tail_in) (λ e. out (rw e h))
            (λ e. out (rw e tail_in)) in
        (
          t,
          done,
          SameEntries-trans (SameEntries-refl s) r,
          r.heads,
          HasRing-relinked r stamp (IsRing-link ring p out h newest) (λ q j. j) (λ q j. j),
        )
