-- ===== src/Stores/Memory/Reads.antt =====
-- `Get`, `Peek` and `PeekFreshValue` of the memory store.
use go_memoize.Base.{
  ℕ, suc, ◌<◌, Bool, true, false, ◌||◌, Bool-cases, none, some, Option-cases, leb, if◌then◌else◌,
  ◌≡◌, ◌⊎◌, inl, inr, refl, arith,
}
use go_memoize.Time.{Time, before, equal}
use go_memoize.Stored.{Stored, state}
use go_memoize.Store.Laws.{found, fresh_found}
use go_memoize.Stores.Sizes.{Sizes}
use go_memoize.Stores.Memory.{MemoryStore, load}
use go_memoize.Stores.Memory.Methods.{get, peek, peek_fresh_value}
use go_memoize.Stores.Memory.Valid.{IsValid, stamped}
use go_memoize.Stores.Memory.Evict.{entries}
use go_memoize.Stores.Memory.Moves.{SameView, SameView-refl, SameView-entries, touch-ok}

load-ok :
    {K V : Type 0} (s : MemoryStore K V) (p : ℕ) → p < s.cap → load p s ≡ some (s.elements p, s)
unfolding load
load-ok s p i = ground arith

-- the test of `PeekFreshValue`
abbrev is_fresh_at : {V : Type 0} → Stored V → Time → Bool
is_fresh_at e at = e.no_expire || (before at e.fresh_until || equal at e.fresh_until)

fresh_answer :
    {V : Type 0} (zero : V) (e : Stored V) (at : Time)
    → fresh_found zero (some e) at
      ≡ (if is_fresh_at e at then (e.value, true, none) else (zero, false, none))
unfolding state
fresh_answer zero e at = ground arith

module _ {K V : Type 0} (go : Sizes K V) {stamp : K → ℕ} {now : ℕ} {s : MemoryStore K V}
    (v : IsValid go stamp now s) where
  -- a lookup leaves what is held, and at most makes the entry of its key the one used last.
  abbrev pub Looked : K → MemoryStore K V → Type 0
  Looked k t =
      SameView s t × (IsValid go (stamped go stamp now k) (suc now) t ⊎ IsValid go stamp now t)

  pub peek-ok : (k : K) → peek go k s ≡ some (found go.zero (entries s k), s)
  unfolding peek
  peek-ok k = elim (Option-cases (s.index k)) [
    | inl gone ↦ rw (peek, entries, gone) refl
    | inr (p, held) ↦
        let i = v.index_in k p held in
        rw (peek, entries, held, load-ok s p (omega (arith, v.len-le))) refl
  ]

  pub get_hit-ok :
      (k : K) (p : ℕ)
      → s.index k ≡ some p
      → (t : MemoryStore K V) × (get go k s ≡ some (((s.elements p).value, true, none), t))
        × SameView s t
        × (IsValid go (stamped go stamp now k) (suc now) t
            ⊎ (IsValid go stamp now t × (leb s.get_recency_sample 1 ≡ false)))
  unfolding get
  get_hit-ok k p held =
      let i = v.index_in k p held in
      let (t, run, same, valid) = touch-ok go s v p i in
      (
        t,
        rw (get, held, run, load-ok t p (omega (arith, same.rest.2, v.len-le)), same.values p) refl,
        SameView-entries same,
        rw (v.index_key k p held) at valid,
      )

  pub get-ok :
      (k : K)
      → (t : MemoryStore K V) × (get go k s ≡ some (found go.zero (entries s k), t)) × Looked k t
  unfolding get
  get-ok k = elim (Option-cases (s.index k)) [
    | inl gone ↦ (s, rw (get, entries, gone) refl, (SameView-refl s, inr v))
    | inr (p, held) ↦
        let (t, run, same, valid) = get_hit-ok k p held in
        (t, rw (entries, held) run, (same, elim valid [ inl a ↦ inl a | inr (a, _) ↦ inr a ]))
  ]

  pub peek_fresh_value-ok :
      (k : K) (at : Time)
      → (t : MemoryStore K V) × (peek_fresh_value go k at s
          ≡ some (fresh_found go.zero (entries s k) at, t))
        × Looked k t
  unfolding peek_fresh_value state
  peek_fresh_value-ok k at = elim (Option-cases (s.index k)) [
    | inl gone ↦ (s, rw (peek_fresh_value, entries, gone) refl, (SameView-refl s, inr v))
    | inr (p, held) ↦
        let i = v.index_in k p held in
        let (t, run, same, valid) = touch-ok go s v p i in
        let first = load-ok s p (omega (arith, v.len-le)) in
        let second = load-ok t p (omega (arith, same.rest.2, v.len-le)) in
        let e = (s.elements p).value in
        elim (Bool-cases (is_fresh_at e at)) [
          | inl f ↦ (
            t,
            rw
                (
                  peek_fresh_value,
                  entries,
                  held,
                  fresh_answer go.zero e at,
                  first,
                  f,
                  run,
                  second,
                  same.values p,
                )
                refl,
            (
              SameView-entries same,
              elim valid [ inl a ↦ inl (rw (v.index_key k p held) at a) | inr (a, _) ↦ inr a ],
            ),
          )
          | inr f ↦ (
            s,
            rw (peek_fresh_value, entries, held, fresh_answer go.zero e at, first, f) refl,
            (SameView-refl s, inr v),
          )
        ]
  ]
