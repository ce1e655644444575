-- ===== src/Stores/Memory/Moves.antt =====
-- What the methods do to a valid store before they make room: an entry is used, or written again.
use go_memoize.Base.{
  ℕ, suc, ◌+◌, ◌%◌, ◌<◌, Bool, true, false, Bool-cases, some, Option-cases, ◌==◌, leb, ◌≡◌, ◌⊎◌,
  inl, inr, ◌∙◌, refl, sym, ap, arith, update,
}
use go_memoize.Hash.{u64_mod}
use go_memoize.Stores.Sizes.{Sizes}
use go_memoize.Stores.Memory.{empty_index, MemoryStore, move_to_front, refresh_on_get}
use go_memoize.Stores.Memory.Methods.{touch}
use go_memoize.Stores.Memory.Linked.{ages, HasRing, Held, SameEntries, SameEntries-trans}
use go_memoize.Stores.Memory.Valid.{IsValid, move_to_front-ok, stamped}
use go_memoize.Stores.Memory.Evict.{entries}

-- `t` holds what `s` holds, under the same bounds.
pub record SameView {K V : Type 0} (s t : MemoryStore K V) : Type 0 where
  pub cap : t.cap ≡ s.cap
  pub max_bytes : t.max_bytes ≡ s.max_bytes
  pub len : t.len ≡ s.len
  pub entry : (k : K) → entries t k ≡ entries s k

pub SameView-refl : {K V : Type 0} (s : MemoryStore K V) → SameView s s
SameView-refl s = record { cap = refl; max_bytes = refl; len = refl; entry = λ k. refl }

module _ {K V : Type 0} {s t : MemoryStore K V} (same : SameEntries s t) where
  pub SameView-entries : SameView s t
  SameView-entries = record {
    cap = same.rest.2;
    max_bytes = same.rest.4;
    len = same.rest.1;
    entry = λ k. elim (Option-cases (s.index k)) [
      | inl gone ↦ rw (entries, same.rest.0, gone) refl
      | inr (q, held) ↦ rw (entries, same.rest.0, held, same.values q) refl
    ];
  }

  module _ (go : Sizes K V) {stamp : K → ℕ} {now : ℕ} (v : IsValid go stamp now s) where
    pub IsValid-same :
        (stamp' : K → ℕ) (now' : ℕ)
        → HasRing (Held s) stamp' t
        → (s.len ≡ 0 → t.head ≡ empty_index)
        → (0 < s.len → t.head < s.len)
        → ((q : ℕ) → q < s.len → ages stamp' s q < now')
        → IsValid go stamp' now' t
    IsValid-same stamp' now' ring empty head recent = record {
      cap_pos = rw same.rest.2 v.cap_pos;
      cap-lt = rw same.rest.2 v.cap-lt;
      len-le = rw (same.rest.1, same.rest.2) v.len-le;
      head_empty = rw same.rest.1 empty;
      head_in = rw same.rest.1 head;
      ring = rw same.rest.1 ring;
      recent = λ q i. rw (same.keys q) (recent q (omega (arith, same.rest.1)));
      indexed = λ q i. rw (same.rest.0, same.keys q) (v.indexed q (omega (arith, same.rest.1)));
      index_in = λ k q e. rw same.rest.1 (v.index_in k q (ap (λ f. f k) (sym same.rest.0) ∙ e));
      index_key = λ k q e. same.keys q ∙ v.index_key k q (ap (λ f. f k) (sym same.rest.0) ∙ e);
      costs = λ q i. same.costs q ∙ v.costs q (omega (arith, same.rest.1));
      used = rw (same.rest.1, same.rest.3) v.used;
    }

module _ {K V : Type 0} where
  refresh-cases :
      (s : MemoryStore K V)
      → (h : ℕ) × (b : Bool) × (refresh_on_get s ≡ some (b, record s { get_hits = h }))
        × (leb s.get_recency_sample 1 ≡ true → b ≡ true)
  unfolding refresh_on_get
  refresh-cases s = elim (Bool-cases (leb s.get_recency_sample 1)) [
    | inl e ↦ (s.get_hits, true, rw e refl, λ _. refl)
    | inr e ↦ (
      (s.get_hits + 1) % u64_mod,
      ((s.get_hits + 1) % u64_mod) % s.get_recency_sample == 0,
      rw e refl,
      λ f. absurd (cc (e, f)),
    )
  ]

  SameEntries-hits : (s : MemoryStore K V) (h : ℕ) → SameEntries s (record s { get_hits = h })
  SameEntries-hits s h = record {
    heads = refl;
    nexts = λ q. refl;
    prevs = λ q. refl;
    keys = λ q. refl;
    values = λ q. refl;
    costs = λ q. refl;
    rest = (refl, refl, refl, refl, refl);
  }

module _ {K V : Type 0} (go : Sizes K V) {stamp : K → ℕ} {now : ℕ} (s : MemoryStore K V)
    (v : IsValid go stamp now s) (p : ℕ) (p_in : p < s.len) where
  recent_stamped :
      (q : ℕ) → q < s.len → ages (stamped go stamp now (s.elements p).key) s q < suc now
  unfolding update
  recent_stamped q i = ground (arith, v.recent q i)

  -- `moveToFront` keeps what is held, and makes an entry the one used last.
  pub moved-IsValid :
      (t : MemoryStore K V) × (move_to_front p s ≡ some (tt, t))
      × SameEntries s t
      × IsValid go (stamped go stamp now (s.elements p).key) (suc now) t
  moved-IsValid =
      let (t, run, same, head, ring) = move_to_front-ok go v p p_in in
      (
        t,
        run,
        same,
        IsValid-same same go v _ (suc now) ring (λ e. absurd (omega arith))
            (λ e. omega (arith, head)) recent_stamped,
      )

module _ {K V : Type 0} (go : Sizes K V) {stamp : K → ℕ} {now : ℕ} (s : MemoryStore K V)
    (v : IsValid go stamp now s) (p : ℕ) (p_in : p < s.len) where
  hits-IsValid : (h : ℕ) → IsValid go stamp now (record s { get_hits = h })
  hits-IsValid h =
      IsValid-same (SameEntries-hits s h) go v stamp now v.ring v.head_empty v.head_in v.recent

  -- The hit of a lookup keeps what is held. It makes the entry the one used last, always if the
  -- sample is one.
  pub touch-ok :
      (t : MemoryStore K V) × (touch go p s ≡ some (tt, t))
      × SameEntries s t
      × (IsValid go (stamped go stamp now (s.elements p).key) (suc now) t
          ⊎ (IsValid go stamp now t × (leb s.get_recency_sample 1 ≡ false)))
  unfolding touch
  touch-ok =
      let (h, b, run, always) = refresh-cases s in
      elim (Bool-cases b) [
        | inl e ↦
            let (t, moved, same, valid) =
              moved-IsValid go (record s { get_hits = h }) (hits-IsValid h) p p_in in
            (t, rw (run, e) moved, SameEntries-trans (SameEntries-hits s h) same, inl valid)
        | inr e ↦ (
          record s { get_hits = h },
          rw (run, e) refl,
          SameEntries-hits s h,
          inr (
            hits-IsValid h,
            elim (Bool-cases (leb s.get_recency_sample 1)) [
              | inl f ↦ absurd (cc (always f, e))
              | inr f ↦ f
            ],
          ),
        )
      ]
