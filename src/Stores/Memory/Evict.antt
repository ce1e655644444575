-- ===== src/Stores/Memory/Evict.antt =====
-- The loops that make room: each round removes the entry whose use is the longest ago.
use go_memoize.Base.{
  ℕ, suc, ◌≤◌, ◌<◌, Option, none, some, Option-cases, ◌≡◌, ◌≢◌, ◌⊎◌, inl, inr, ◌∙◌, refl, sym, ap,
  arith,
}
use go_memoize.Stored.{Stored}
use go_memoize.Stores.Sizes.{Sizes}
use go_memoize.Stores.Memory.{MemoryStore, load, remove_tail}
use go_memoize.Stores.Memory.Ring.{oldest}
use go_memoize.Stores.Memory.Links.{nexts_of}
use go_memoize.Stores.Memory.Valid.{IsValid}
use go_memoize.Stores.Memory.Removal.{Removed}
use go_memoize.Stores.Memory.Removes.{remove_at-ok}

-- What the store holds under a key.
abbrev pub entries : {K V : Type 0} → MemoryStore K V → K → Option (Stored V)
entries s k = elim (s.index k) [ none ↦ none | some p ↦ some (s.elements p).value ]

module _ {K V : Type 0} (go : Sizes K V) {stamp : K → ℕ} {now : ℕ} {s t : MemoryStore K V}
    (v : IsValid go stamp now s) {p n : ℕ} (counted : s.len ≡ suc n) (p_in : p ≤ n)
    (r : Removed s t p n) where
  pub entries-removed_self : entries t (s.elements p).key ≡ none
  entries-removed_self = rw (entries, r.gone) refl

  pub entries-removed_other : (k : K) → k ≢ (s.elements p).key → entries t k ≡ entries s k
  entries-removed_other k m = elim (Option-cases (s.index k)) [
    | inl gone ↦ rw (entries, gone, r.absent k gone) refl
    | inr (q, held) ↦
        let ne = λ (e : q ≡ p). m (sym (v.index_key k q held) ∙ ap (λ i. (s.elements i).key) e) in
        ground
          (arith, r.kept k q held ne, held, v.index_in k q held, r.values q, r.values p, counted)
  ]

-- `t` has the bounds of `s` and no more entries.
pub record Shrunk {K V : Type 0} (s t : MemoryStore K V) : Type 0 where
  pub cap : t.cap ≡ s.cap
  pub max_bytes : t.max_bytes ≡ s.max_bytes
  pub len : t.len ≤ s.len

-- Of the entries of `s`, `t` has lost some; each of them was used before every one that is left.
pub record Evicted {K V : Type 0} (stamp : K → ℕ) (s t : MemoryStore K V) : Type 0 where
  pub cap : t.cap ≡ s.cap
  pub max_bytes : t.max_bytes ≡ s.max_bytes
  pub entry :
      (k : K)
      → (entries t k ≡ entries s k)
        ⊎ ((entries t k ≡ none)
            × ((j : K) (e : Stored V) → entries t j ≡ some e → stamp k < stamp j))

pub Evicted-refl : {K V : Type 0} (stamp : K → ℕ) (s : MemoryStore K V) → Evicted stamp s s
Evicted-refl stamp s = record { cap = refl; max_bytes = refl; entry = λ k. inl refl }

pub Evicted-trans :
    {K V : Type 0} {stamp : K → ℕ} {s t u : MemoryStore K V}
    → Evicted stamp s t
    → Evicted stamp t u
    → Evicted stamp s u
Evicted-trans a b = record {
  cap = b.cap ∙ a.cap;
  max_bytes = b.max_bytes ∙ a.max_bytes;
  entry = λ k. elim (b.entry k) [
    | inr gone ↦ inr gone
    | inl same ↦ elim (a.entry k) [
      | inl same' ↦ inl (same ∙ same')
      | inr (gone, older) ↦ inr (
        same ∙ gone,
        λ j e held. elim (b.entry j) [
          | inl still ↦ older j e (sym still ∙ held)
          | inr (lost, _) ↦ absurd (cc (lost, held))
        ],
      )
    ]
  ];
}

module _ {K V : Type 0} (go : Sizes K V) {stamp : K → ℕ} {now : ℕ} {s : MemoryStore K V}
    (v : IsValid go stamp now s) where
  pub entries-index : (k : K) (e : Stored V) → entries s k ≡ some e → (q : ℕ) × (s.index k ≡ some q)
  entries-index k e held = elim (Option-cases (s.index k)) [
    | inl gone ↦ absurd (cc (rw (entries, gone) at held))
    | inr found ↦ found
  ]

  module _ {t : MemoryStore K V} {n : ℕ} (counted : s.len ≡ suc n)
      (r : Removed s t (nexts_of s s.head) n) (valid : IsValid go stamp now t) where
    -- What is held after the removal of the tail was used after the tail.
    tail-older :
        (j : K) (e : Stored V)
        → entries t j ≡ some e
        → stamp (s.elements (nexts_of s s.head)).key < stamp j
    tail-older j e held =
        let tail = nexts_of s s.head in
        let tail_in = v.ring.next_in s.head (v.head_in (omega (arith, counted))) in
        let other = λ (f : j ≡ (s.elements tail).key).
          absurd
            (cc (entries-removed_self go v counted (omega (arith, counted, tail_in)) r, held, f)) in
        let (q, found) = entries-index j e (
          sym (entries-removed_other go v counted (omega (arith, counted, tail_in)) r j other)
          ∙ held) in
        let apart : q ≢ tail =
          (λ f. other (sym (v.index_key j q found) ∙ ap (λ i. (s.elements i).key) f)) in
        let h = v.index_in j q found in
        omega (arith, oldest v.ring now q h apart (v.recent q h), ap stamp (v.index_key j q found))

    tail-Evicted : Evicted stamp s t
    tail-Evicted =
        let tail_in = v.ring.next_in s.head (v.head_in (omega (arith, counted))) in
        record {
          cap = r.cap;
          max_bytes = r.max_bytes;
          entry = λ k. elim (go.key_eq k (s.elements (nexts_of s s.head)).key) [
            | no m ↦
                inl (entries-removed_other go v counted (omega (arith, counted, tail_in)) r k m)
            | yes e ↦ inr (
              rw e (entries-removed_self go v counted (omega (arith, counted, tail_in)) r),
              λ j f held. rw e (tail-older j f held),
            )
          ];
        }

  -- The entry that is removed was used before all that are left.
  pub remove_tail-ok :
      (n : ℕ)
      → s.len ≡ suc n
      → (t : MemoryStore K V) × (remove_tail go s ≡ some (tt, t))
        × Removed s t (nexts_of s s.head) n
        × IsValid go stamp now t
        × Evicted stamp s t
  unfolding remove_tail load
  remove_tail-ok n counted =
      let head_in = v.head_in (omega (arith, counted)) in
      let tail = nexts_of s s.head in
      let tail_in = v.ring.next_in s.head head_in in
      let (t, done, r, valid) = remove_at-ok go v tail n counted (omega (arith, counted)) in
      let run : remove_tail go s ≡ some (tt, t) = ground (arith, v.len-le) in
      (t, run, r, valid, tail-Evicted counted r valid)
