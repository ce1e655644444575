-- ===== src/Stores/Memory/Removal.antt =====
-- `removeAt`: the entry goes, and the last one of the array fills the gap.
use go_memoize.Base.{
  ℕ, suc, ◌+◌, ◌-◌, ◌*◌, ◌%◌, ◌≤◌, ◌<◌, none, some, Option-cases, ◌≡◌, ◌≢◌, ◌⊎◌, inl, inr, ◌∙◌,
  refl, ap, arith, update, ite, ℕ_discrete,
}
use go_memoize.Stores.Sizes.{Sizes}
use go_memoize.Stores.Memory.{
  u32_mod, empty_index, MemoryStore, zero_element, unlink_lru, repoint_moved, load, modify,
  remove_at,
}
use go_memoize.Stores.Memory.Ring.{IsRing, IsRing-same}
use go_memoize.Stores.Memory.Links.{Relinked}
use go_memoize.Stores.Memory.Linked.{HasRing, Held, ages, SameEntries}
use go_memoize.Stores.Memory.Valid.{IsValid}

module _ {K V : Type 0} (go : Sizes K V) where
  -- the store once the entry at `p` is unlinked, with `n` entries left
  abbrev pub dropped : ℕ → ℕ → MemoryStore K V → MemoryStore K V
  dropped p n u = record u { index = update go.key_eq u.index (u.elements p).key none; len = n }

  -- and with the last entry in its place
  abbrev pub filled : ℕ → ℕ → MemoryStore K V → MemoryStore K V
  filled p n u = record (dropped p n u) {
    index =
        update go.key_eq (update go.key_eq u.index (u.elements p).key none) (u.elements n).key
          (some p);
    elements = update ℕ_discrete u.elements p (u.elements n);
  }

  abbrev pub erased : ℕ → MemoryStore K V → MemoryStore K V
  erased n t = record t { elements = update ℕ_discrete t.elements n (zero_element go) }

  abbrev pub charged : ℕ → MemoryStore K V → MemoryStore K V
  charged p s = record s { used_bytes = s.used_bytes - (s.elements p).cost }

  module _ (p n : ℕ) (s u : MemoryStore K V) (counted : s.len ≡ suc n) (p_in : p ≤ n)
      (n_in : n < s.cap) (small : s.cap < u32_mod) (same : SameEntries (charged p s) u)
      (unlinked : unlink_lru p (charged p s) ≡ some (tt, u)) where
    last-eq : (u.len + u32_mod - 1) % u32_mod ≡ n
    last-eq = omega (arith, same.rest.1)

    pub remove_at-last : p ≡ n → remove_at go p s ≡ some (tt, erased n (dropped p n u))
    unfolding remove_at load modify
    remove_at-last e = ground (arith, last-eq, same.rest.2, same.keys p)

    pub remove_at-moves :
        (t : MemoryStore K V)
        → p ≢ n
        → t.cap ≡ s.cap
        → repoint_moved n p (filled p n u) ≡ some (tt, t)
        → remove_at go p s ≡ some (tt, erased n t)
    unfolding remove_at load modify
    remove_at-moves t m c moved = ground (arith, last-eq, same.rest.2, same.keys p)

suc_charge : (n c : ℕ) → suc n * c - c ≡ n * c
suc_charge n c = grind arith

-- `t` is `s` without the entry at `p`, and with the entry at `n`, its last one, in its place.
pub record Removed {K V : Type 0} (s t : MemoryStore K V) (p n : ℕ) : Type 0 where
  pub len : t.len ≡ n
  pub cap : t.cap ≡ s.cap
  pub max_bytes : t.max_bytes ≡ s.max_bytes
  pub used : t.used_bytes ≡ s.used_bytes - (s.elements p).cost
  pub keys : (q : ℕ) → q < n → (t.elements q).key ≡ (s.elements (ite (ℕ_discrete q p) n q)).key
  pub values :
      (q : ℕ) → q < n → (t.elements q).value ≡ (s.elements (ite (ℕ_discrete q p) n q)).value
  pub costs : (q : ℕ) → q < n → (t.elements q).cost ≡ (s.elements (ite (ℕ_discrete q p) n q)).cost
  pub gone : t.index (s.elements p).key ≡ none
  pub absent : (k : K) → s.index k ≡ none → t.index k ≡ none
  pub kept :
      (k : K) (q : ℕ) → s.index k ≡ some q → q ≢ p → t.index k ≡ some (ite (ℕ_discrete q n) p q)

module _ {K V : Type 0} (go : Sizes K V) {stamp : K → ℕ} {now : ℕ} {s t : MemoryStore K V}
    (v : IsValid go stamp now s) {p n : ℕ} (counted : s.len ≡ suc n) (p_in : p ≤ n)
    (r : Removed s t p n) where
  src-lt : (q : ℕ) → q < n → ite (ℕ_discrete q p) n q < s.len
  src-lt q i = ground (arith, counted)

  index-cases :
      (k : K) (q : ℕ)
      → t.index k ≡ some q
      → (o : ℕ) × (s.index k ≡ some o) × (o ≢ p) × (q ≡ ite (ℕ_discrete o n) p o)
  index-cases k q e = elim (Option-cases (s.index k)) [
    | inl none_there ↦ absurd (cc (r.absent k none_there))
    | inr (o, there) ↦
        let ne : o ≢ p = λ f. absurd (cc (v.index_key k o there, r.gone)) in
        (o, there, ne, cc (r.kept k o there ne))
  ]

  pub IsValid-removed :
      HasRing (Held t) stamp t
      → (n ≡ 0 → t.head ≡ empty_index)
      → (0 < n → t.head < n)
      → IsValid go stamp now t
  IsValid-removed ring empty head = record {
    cap_pos = omega (arith, v.cap_pos, r.cap);
    cap-lt = omega (arith, v.cap-lt, r.cap);
    len-le = omega (arith, v.len-le, r.cap, r.len);
    head_empty = λ e. empty (omega (arith, r.len));
    head_in = λ e. omega (arith, head (omega (arith, r.len)), r.len);
    ring = ring;
    recent =
        λ q i. let j : q < n = omega (arith, r.len) in rw (r.keys q j) (v.recent _ (src-lt q j));
    indexed = λ q i.
        let j : q < n = omega (arith, r.len) in
        let o = ite (ℕ_discrete q p) n q in
        rw (r.keys q j) (ground (arith, r.kept _ o (v.indexed o (src-lt q j))));
    index_in = λ k q e.
        let (o, there, ne, f) = index-cases k q e in
        ground (arith, r.len, v.index_in k o there, counted);
    index_key = λ k q e.
        let (o, there, ne, f) = index-cases k q e in
        ground (arith, r.len, v.index_in k o there, counted, r.keys q, v.index_key k o there);
    costs = λ q i. let j : q < n = omega (arith, r.len) in r.costs q j ∙ v.costs _ (src-lt q j);
    used = rw (r.used, v.used, counted, v.costs p (omega arith), r.len) (suc_charge n _);
  }

module _ {K V : Type 0} (go : Sizes K V) {stamp : K → ℕ} {now : ℕ} {s : MemoryStore K V}
    (v : IsValid go stamp now s) where
  module _ (p n : ℕ) (counted : s.len ≡ suc n) (p_in : p ≤ n) where
    pub n_in : n < s.cap
    n_in = omega (arith, v.len-le)

    at_p : s.index (s.elements p).key ≡ some p
    at_p = v.indexed p (omega arith)

    at_n : s.index (s.elements n).key ≡ some n
    at_n = v.indexed n (omega arith)

    -- what the removal of the last entry leaves, once it is unlinked
    pub Removed-last :
        (u : MemoryStore K V)
        → SameEntries (charged go p s) u
        → p ≡ n
        → Removed s (erased go n (dropped go p n u)) p n
    unfolding update
    Removed-last u same last = record {
      len = refl;
      cap = same.rest.2;
      max_bytes = same.rest.4;
      used = same.rest.3;
      keys = λ q i. ground (arith, same.keys q);
      values = λ q i. ground (arith, same.values q);
      costs = λ q i. ground (arith, same.costs q);
      gone = ground (arith, same.keys p);
      absent = λ k e. ground (arith, same.rest.0, same.keys p);
      kept = λ k q e m. ground (arith, same.rest.0, same.keys p, at_p);
    }

    -- the same for another one, once the last entry is in its place
    pub Removed-filled :
        (u t : MemoryStore K V)
        → SameEntries (charged go p s) u
        → SameEntries (filled go p n u) t
        → p ≢ n
        → Removed s (erased go n t) p n
    unfolding update
    Removed-filled u t same moved other = record {
      len = moved.rest.1;
      cap = moved.rest.2 ∙ same.rest.2;
      max_bytes = moved.rest.4 ∙ same.rest.4;
      used = moved.rest.3 ∙ same.rest.3;
      keys = λ q i. ground (arith, same.keys q, same.keys n, moved.keys q);
      values = λ q i. ground (arith, same.values q, same.values n, moved.values q);
      costs = λ q i. ground (arith, same.costs q, same.costs n, moved.costs q);
      gone = ground (
        arith,
        ap (λ f. f (s.elements p).key) moved.rest.0,
        same.rest.0,
        same.keys p,
        same.keys n,
        at_p,
        at_n,
      );
      absent = λ k e.
          ground
            (arith, ap (λ f. f k) moved.rest.0, same.rest.0, same.keys p, same.keys n, at_p, at_n);
      kept = λ k q e m. ground (
        arith,
        ap (λ f. f k) moved.rest.0,
        same.rest.0,
        same.keys p,
        same.keys n,
        at_p,
        at_n,
        v.index_key k q e,
      );
    }

    pub bound : (q : ℕ) → q < s.len → q < s.cap
    bound q i = omega (arith, v.len-le)

    -- The ring of the store, when the last entry has filled the gap: `f` is the state before the
    -- links were mended, and `next`, `prev` are the links of its ring.
    pub ring-filled :
        (u t : MemoryStore K V) (next prev : ℕ → ℕ) {head : ℕ} {next' prev' : ℕ → ℕ}
        → p ≢ n
        → u.len ≡ s.len
        → Relinked (filled go p n u) t head next' prev'
        → IsRing
            (λ q. ((q < s.len × (q ≢ p)) × (q ≢ n)) ⊎ (q ≡ p))
            head
            next
            prev
            (update ℕ_discrete (ages stamp u) p (ages stamp u n))
        → ((q : ℕ) → q < n → (next' q ≡ next q) × (prev' q ≡ prev q))
        → HasRing (Held (erased go n t)) stamp (erased go n t)
    unfolding update
    ring-filled u t next prev other len r ring links = rw r.heads (
        IsRing-same ring (λ q i. ground (arith, r.rest.1)) (λ q i. ground (arith, r.rest.1))
          (λ q i. ground (arith, r.rest.1, r.nexts q, r.prevs q, r.keys q, links q)))
