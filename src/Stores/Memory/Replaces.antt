-- ===== src/Stores/Memory/Replaces.antt =====
-- `Set` of a key that has an entry.
use go_memoize.Base.{
  ℕ, suc, ◌+◌, ◌-◌, ◌<◌, none, some, Option-cases, ◌≡◌, ◌≢◌, ◌⊎◌, inl, inr, ◌∙◌, refl, sym, ap,
  arith, update, update_self, update_ne, ℕ_discrete,
}
use go_memoize.Stored.{Stored}
use go_memoize.Stores.Sizes.{Sizes}
use go_memoize.Stores.Memory.{MemoryStore, entry_bytes, load, modify, move_to_front, enforce_bytes}
use go_memoize.Stores.Memory.Ring.{IsRing-same}
use go_memoize.Stores.Memory.Linked.{HasRing, Held}
use go_memoize.Stores.Memory.Valid.{IsValid, stamped}
use go_memoize.Stores.Memory.Evict.{entries, Evicted}
use go_memoize.Stores.Memory.Loops.{IsBounded, enforce_bytes-ok}
use go_memoize.Stores.Memory.Moves.{SameView, SameView-entries, moved-IsValid}
use go_memoize.Stores.Memory.Methods.{replace}

-- `t` is `s` after a `Set`: the entry of the key is the new one; of the other entries some may have
-- gone, each of them used before all that are left.
pub record Written {K V : Type 0} (stamp : K → ℕ) (k : K) (e : Stored V) (s t : MemoryStore K V)
    : Type 0 where
  pub cap : t.cap ≡ s.cap
  pub max_bytes : t.max_bytes ≡ s.max_bytes
  pub bounded : IsBounded t
  pub written : entries t k ≡ some e
  pub entry :
      (j : K)
      → j ≢ k
      → (entries t j ≡ entries s j)
        ⊎ ((entries t j ≡ none)
            × ((i : K) (f : Stored V) → i ≢ k → entries t i ≡ some f → stamp j < stamp i))

module _ {K V : Type 0} (go : Sizes K V) {stamp : K → ℕ} {now : ℕ} (s : MemoryStore K V)
    (v : IsValid go stamp now s) (e : Stored V) (p : ℕ) (p_in : p < s.len) where
  -- the store with the entry at `p` written again
  abbrev rewritten : MemoryStore K V
  rewritten = record s {
    used_bytes = s.used_bytes + entry_bytes go (s.elements p).key e - (s.elements p).cost;
    elements =
        update ℕ_discrete s.elements p
          (record (s.elements p) { value = e; cost = entry_bytes go (s.elements p).key e });
  }

  rewritten-ring : HasRing (Held s) stamp rewritten
  unfolding update
  rewritten-ring =
      IsRing-same v.ring (λ q i. i) (λ q i. i) (λ q i. (ground arith, ground arith, ground arith))

  rewritten-IsValid : IsValid go stamp now rewritten
  unfolding update
  rewritten-IsValid = record {
    cap_pos = v.cap_pos;
    cap-lt = v.cap-lt;
    len-le = v.len-le;
    head_empty = v.head_empty;
    head_in = v.head_in;
    ring = rewritten-ring;
    recent = λ q i. ground (arith, v.recent q i);
    indexed = λ q i. ground (arith, v.indexed q i);
    index_in = v.index_in;
    index_key = λ k q held. ground (arith, v.index_key k q held);
    costs = λ q i. ground (arith, v.costs q i);
    used = omega (arith, v.used, v.costs p p_in);
  }

module _ {K V : Type 0} (go : Sizes K V) {stamp : K → ℕ} {now : ℕ} (s : MemoryStore K V)
    (v : IsValid go stamp now s) (k : K) (e : Stored V) (p : ℕ) (held : s.index k ≡ some p) where
  abbrev mid : MemoryStore K V
  mid = rewritten go s v e p (v.index_in k p held)

  mid_self : entries mid k ≡ some e
  unfolding update
  mid_self = rw (entries, held) (ground arith)

  mid_other : (j : K) → j ≢ k → entries mid j ≡ entries s j
  unfolding update
  mid_other j n = elim (Option-cases (s.index j)) [
    | inl gone ↦ rw (entries, gone) refl
    | inr (q, found) ↦
        let apart : q ≢ p = λ f.
          n (sym (v.index_key j q found) ∙ ap (λ i. (s.elements i).key) f ∙ v.index_key k p held) in
        rw (entries, found) (ground arith)
  ]

  replace-run :
      (t u : MemoryStore K V)
      → move_to_front p mid ≡ some (tt, t)
      → enforce_bytes go (suc t.len) t ≡ some (tt, u)
      → replace go k e p s ≡ some (tt, u)
  unfolding replace load modify
  replace-run t u moved enforced = ground (arith, v.index_in k p held, v.len-le)

  module _ (t u : MemoryStore K V) (same : SameView mid t)
      (valid : IsValid go (stamped go stamp now k) (suc now) u) (bounded : IsBounded u)
      (evicted : Evicted (stamped go stamp now k) t u) where
    -- The entry used last is not evicted: another one would have been used since.
    replaced_self : entries u k ≡ some e
    replaced_self = elim (evicted.entry k) [
      | inl kept ↦ kept ∙ same.entry k ∙ mid_self
      | inr (gone, older) ↦
          let i = (u.elements 0).key in
          let found : entries u i ≡ some (u.elements 0).value =
            rw (entries, valid.indexed 0 bounded.0) refl in
          absurd (
            omega
              (arith, older i _ found, valid.recent 0 bounded.0, update_self go.key_eq stamp k now))
    ]

    replaced-Written : Written stamp k e s u
    replaced-Written = record {
      cap = evicted.cap ∙ same.cap;
      max_bytes = evicted.max_bytes ∙ same.max_bytes;
      bounded = bounded;
      written = replaced_self;
      entry = λ j n. elim (evicted.entry j) [
        | inl kept ↦ inl (kept ∙ same.entry j ∙ mid_other j n)
        | inr (gone, older) ↦ inr (
          gone,
          λ i f m found. omega (
            arith,
            older i f found,
            update_ne go.key_eq stamp k j now (λ c. n (sym c)),
            update_ne go.key_eq stamp k i now (λ c. m (sym c)),
          ),
        )
      ];
    }

  pub replace-ok :
      (t : MemoryStore K V) × (replace go k e p s ≡ some (tt, t))
      × IsValid go (stamped go stamp now k) (suc now) t
      × Written stamp k e s t
  unfolding update
  replace-ok =
      let i = v.index_in k p held in
      let valid = rewritten-IsValid go s v e p i in
      let (t, moved, same, valid') = moved-IsValid go mid valid p i in
      let key : (mid.elements p).key ≡ k = ground (arith, v.index_key k p held) in
      let valid'' : IsValid go (stamped go stamp now k) (suc now) t = rw key at valid' in
      let (u, enforced, done, evicted, bounded) =
        enforce_bytes-ok go (suc t.len) t valid'' (omega (arith, same.rest.1)) (omega arith) in
      (
        u,
        replace-run t u moved enforced,
        done,
        replaced-Written t u (SameView-entries same) done bounded evicted,
      )
