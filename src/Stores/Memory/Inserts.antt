-- ===== src/Stores/Memory/Inserts.antt =====
-- `Set` of a key that has no entry.
use go_memoize.Base.{
  ℕ, suc, ◌+◌, ◌*◌, ◌%◌, ◌<◌, none, some, Option-cases, ◌≡◌, ◌≢◌, ◌⊎◌, inl, inr, ◌∙◌, refl, sym, ap,
  arith, update, ℕ_discrete,
}
use go_memoize.Stored.{Stored}
use go_memoize.Stores.Sizes.{Sizes}
use go_memoize.Stores.Memory.{u32_mod, empty_index, MemoryStore, entry_bytes, link_front}
use go_memoize.Stores.Memory.Ring.{IsRing, IsRing-same}
use go_memoize.Stores.Memory.Links.{nexts_of, prevs_of, link_front-empty}
use go_memoize.Stores.Memory.Linked.{
  ages, HasRing, HasRing-relinked, SameEntries, SameEntries-refl, SameEntries-trans,
  link_front-ring,
}
use go_memoize.Stores.Memory.Valid.{IsValid, stamped, head-ne-empty}
use go_memoize.Stores.Memory.Evict.{entries}

suc_charge : (n c : ℕ) → n * c + c ≡ suc n * c
suc_charge n c = grind arith

module _ {K V : Type 0} (go : Sizes K V) {stamp : K → ℕ} {now : ℕ} (s : MemoryStore K V)
    (v : IsValid go stamp now s) (k : K) (e : Stored V) (absent : s.index k ≡ none)
    (room : s.len < s.cap) where
  -- the store with the entry appended, before it is linked
  abbrev pub appended : MemoryStore K V
  appended = record s {
    len = (s.len + 1) % u32_mod;
    elements = update ℕ_discrete s.elements s.len (record {
      key = k;
      value = e;
      cost = entry_bytes go k e;
      next = empty_index;
      prev = empty_index;
    });
    index = update go.key_eq s.index k (some s.len);
  }

  pub appended-len : appended.len ≡ suc s.len
  appended-len = omega (arith, v.cap-lt)

  key-ne : (q : ℕ) → q < s.len → (s.elements q).key ≢ k
  key-ne q i f = absurd (cc (v.indexed q i, absent, f))

  ages_old : (q : ℕ) → q < s.len → ages (stamped go stamp now k) appended q ≡ ages stamp s q
  unfolding update
  ages_old q i = ground (arith, key-ne q i)

  ages_new : ages (stamped go stamp now k) appended s.len ≡ now
  unfolding update
  ages_new = ground arith

  one-IsRing :
      s.len ≡ 0
      → IsRing
          (λ q. q ≡ s.len)
          s.len
          (update ℕ_discrete (nexts_of appended) s.len s.len)
          (update ℕ_discrete (prevs_of appended) s.len s.len)
          (ages (stamped go stamp now k) appended)
  unfolding update
  one-IsRing empty = record {
    next_in = λ q i. ground arith;
    prev_in = λ q i. ground arith;
    next-prev = λ q i. ground arith;
    prev-next = λ q i. ground arith;
    older = λ q i n. absurd (n i);
  }

  pub linked :
      (t : MemoryStore K V) × (link_front s.len appended ≡ some (tt, t))
      × SameEntries appended t
      × (t.head ≡ s.len)
      × HasRing (λ q. (q < s.len) ⊎ (q ≡ s.len)) (stamped go stamp now k) t
  unfolding update
  linked = elim (ℕ_discrete s.len 0) [
    | yes empty ↦
        let (t, run, r) = link_front-empty appended s.len room (v.head_empty empty) in
        (
          t,
          run,
          SameEntries-trans (SameEntries-refl appended) r,
          r.heads,
          HasRing-relinked r (stamped go stamp now k) (one-IsRing empty)
              (λ q i. elim i [ inl lt ↦ absurd (omega (arith, empty)) | inr f ↦ f ]) (λ q i. inr i),
        )
    | no some_there ↦
        let pos : 0 < s.len = omega arith in
        let ring : HasRing (λ q. q < s.len) (stamped go stamp now k) appended =
          IsRing-same v.ring (λ q i. i) (λ q i. i)
            (λ q i. (ground arith, ground arith, ages_old q i)) in
        link_front-ring (stamped go stamp now k) appended ring s.len (λ q i. omega arith) room
          (λ i. omega (arith, i)) (v.head_in pos) (head-ne-empty go v pos)
          (λ q i. rw (ages_old q i, ages_new) (v.recent q i))
  ]

  pub appended_self : entries appended k ≡ some e
  unfolding update
  appended_self = ground arith

  pub appended_other : (j : K) → j ≢ k → entries appended j ≡ entries s j
  unfolding update
  appended_other j n = elim (Option-cases (s.index j)) [
    | inl gone ↦ rw (entries, gone) (ground arith)
    | inr (q, found) ↦ rw (entries, found) (ground (arith, v.index_in j q found))
  ]

  abbrev pub counted : MemoryStore K V → MemoryStore K V
  counted t = record t { used_bytes = t.used_bytes + entry_bytes go k e }

  module _ (t : MemoryStore K V) (same : SameEntries appended t) (head : t.head ≡ s.len)
      (ring : HasRing (λ q. (q < s.len) ⊎ (q ≡ s.len)) (stamped go stamp now k) t) where
    pub counted-len : t.len ≡ suc s.len
    counted-len = same.rest.1 ∙ appended-len

    appended-recent : (q : ℕ) → q < suc s.len → ages (stamped go stamp now k) appended q < suc now
    appended-recent q i = elim (ℕ_discrete q s.len) [
      | yes f ↦ omega (arith, ages_new, ap (ages (stamped go stamp now k) appended) f)
      | no n ↦ omega (arith, ages_old q (omega arith), v.recent q (omega arith))
    ]

    index-after :
        (j : K) (q : ℕ) → t.index j ≡ some q → (q < suc s.len) × ((appended.elements q).key ≡ j)
    unfolding update
    index-after j q f =
        let f' : appended.index j ≡ some q = ap (λ g. g j) (sym same.rest.0) ∙ f in
        elim (go.key_eq k j) [
          | yes c ↦ ground arith
          | no n ↦
              let found : s.index j ≡ some q = ground arith in
              ground (arith, v.index_in j q found, v.index_key j q found)
        ]

    appended-indexed : (q : ℕ) → q < suc s.len → appended.index (appended.elements q).key ≡ some q
    unfolding update
    appended-indexed q i = ground (arith, v.indexed q, key-ne q)

    appended-costs :
        (q : ℕ) → q < suc s.len → (appended.elements q).cost ≡ go.key_size + go.stored_size
    unfolding update
    appended-costs q i = ground (arith, v.costs q)

    pub counted-IsValid : IsValid go (stamped go stamp now k) (suc now) (counted t)
    counted-IsValid = record {
      cap_pos = rw same.rest.2 v.cap_pos;
      cap-lt = rw same.rest.2 v.cap-lt;
      len-le = omega (arith, counted-len, same.rest.2, room);
      head_empty = λ f. absurd (omega (arith, counted-len));
      head_in = λ f. omega (arith, counted-len);
      ring =
          IsRing-same ring (λ q i. omega (arith, counted-len))
            (λ q i. elim i [
              | inl a ↦ omega (arith, counted-len)
              | inr a ↦ omega (arith, counted-len)
            ])
            (λ q i. (refl, refl, refl));
      recent = λ q i. rw (same.keys q) (appended-recent q (omega (arith, counted-len)));
      indexed =
          λ q i. rw (same.rest.0, same.keys q) (appended-indexed q (omega (arith, counted-len)));
      index_in = λ j q f. rw counted-len (index-after j q f).0;
      index_key = λ j q f. same.keys q ∙ (index-after j q f).1;
      costs = λ q i. same.costs q ∙ appended-costs q (omega (arith, counted-len));
      used =
          rw (counted-len, same.rest.3, v.used) (suc_charge s.len (go.key_size + go.stored_size));
    }
