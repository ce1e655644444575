-- ===== src/Stores/Memory/ByTag.antt =====
-- `DeleteByTag` of the memory store.
use Prim.Native.String.{String}
use go_memoize.Base.{
  ℕ, zero, suc, ◌+◌, ◌-◌, ◌≤◌, ◌<◌, true, false, Bool-cases, Option, none, some, Option-cases, ◌≡◌,
  inl, inr, ◌∙◌, refl, ap, arith, if◌then◌else◌, ℕ_discrete,
}
use go_memoize.Stored.{Stored}
use go_memoize.Stores.Sizes.{Sizes}
use go_memoize.Stores.Tags.{has_tag}
use go_memoize.Stores.Memory.{MemoryStore, load, remove_at}
use go_memoize.Stores.Memory.Valid.{IsValid}
use go_memoize.Stores.Memory.Removal.{Removed}
use go_memoize.Stores.Memory.Removes.{remove_at-ok}
use go_memoize.Stores.Memory.Evict.{entries, Shrunk, entries-removed_self, entries-removed_other}
use go_memoize.Stores.Memory.Methods.{delete_from, delete_by_tag}

-- an entry, unless it has the tag
abbrev pub untagged : {V : Type 0} → String → Option (Stored V) → Option (Stored V)
untagged tag none = none
untagged tag (some e) = if has_tag e.tags tag then none else some e

module _ {K V : Type 0} (go : Sizes K V) (tag : String) where
  -- The entries in front of a position do not have the tag.
  abbrev Cleaned : ℕ → MemoryStore K V → Type 0
  Cleaned pos s = (q : ℕ) → q < pos → has_tag (s.elements q).value.tags tag ≡ false

  abbrev Purged : MemoryStore K V → MemoryStore K V → Type 0
  Purged s t = (k : K) → entries t k ≡ untagged tag (entries s k)

  module _ (fuel pos : ℕ) (s t : MemoryStore K V) {r : Option (Unit {0} × MemoryStore K V)}
      (inside : pos < s.len) (fits : s.len ≤ s.cap) where
    delete_from-removes :
        has_tag (s.elements pos).value.tags tag ≡ true
        → remove_at go pos s ≡ some (tt, t)
        → delete_from go fuel tag pos t ≡ r
        → delete_from go (suc fuel) tag pos s ≡ r
    unfolding delete_from load
    delete_from-removes tagged run rest = ground (arith, tagged, run, rest)

    delete_from-skips :
        has_tag (s.elements pos).value.tags tag ≡ false
        → delete_from go fuel tag (pos + 1) s ≡ r
        → delete_from go (suc fuel) tag pos s ≡ r
    unfolding delete_from load
    delete_from-skips clean rest = ground (arith, clean, rest)

  module _ {stamp : K → ℕ} {now : ℕ} (s : MemoryStore K V) (v : IsValid go stamp now s) where
    all_clean : Cleaned s.len s → Purged s s
    all_clean clean k = elim (Option-cases (s.index k)) [
      | inl gone ↦ rw (entries, gone) refl
      | inr (q, found) ↦ rw (entries, found, clean q (v.index_in k q found)) refl
    ]

    module _ {t : MemoryStore K V} {p n : ℕ} (counted : s.len ≡ suc n) (p_in : p ≤ n)
        (r : Removed s t p n) where
      Cleaned-removed : Cleaned p s → Cleaned p t
      Cleaned-removed clean q i = ground (arith, clean q i, r.values q)

      Purged-removed :
          (u : MemoryStore K V)
          → has_tag (s.elements p).value.tags tag ≡ true
          → Purged t u
          → Purged s u
      Purged-removed u tagged rest k = elim (go.key_eq k (s.elements p).key) [
        | no m ↦ rest k ∙ ap (untagged tag) (entries-removed_other go v counted p_in r k m)
        | yes e ↦
            let before : entries s k ≡ some (s.elements p).value =
              rw (e, entries, v.indexed p (omega arith)) refl in
            let after : entries t k ≡ none = rw e (entries-removed_self go v counted p_in r) in
            rw (rest k, after, before, tagged) refl
      ]

  pub delete_from-ok :
      {stamp : K → ℕ} {now : ℕ} (fuel pos : ℕ) (s : MemoryStore K V)
      → IsValid go stamp now s
      → pos ≤ s.len
      → s.len < pos + fuel
      → Cleaned pos s
      → (t : MemoryStore K V) × (delete_from go fuel tag pos s ≡ some (tt, t))
        × IsValid go stamp now t
        × Shrunk s t
        × Purged s t
  unfolding delete_from
  delete_from-ok zero pos s v inside fueled clean = absurd (omega arith)
  delete_from-ok (suc fuel) pos s v inside fueled clean = elim (ℕ_discrete pos s.len) [
    | yes e ↦ (
      s,
      ground arith,
      v,
      record { cap = refl; max_bytes = refl; len = omega arith },
      all_clean s v (λ q i. clean q (omega (arith, e))),
    )
    | no m ↦
        let within : pos < s.len = omega arith in
        let n = s.len - 1 in
        let counted : s.len ≡ suc n = omega arith in
        let p_in : pos ≤ n = omega arith in
        elim (Bool-cases (has_tag (s.elements pos).value.tags tag)) [
          | inl tagged ↦
              let (t, run, r, valid) = remove_at-ok go v pos n counted p_in in
              let (u, rest, valid', less, purged) =
                delete_from-ok fuel pos t valid (omega (arith, r.len)) (omega (arith, r.len))
                  (Cleaned-removed s v counted p_in r clean) in
              (
                u,
                delete_from-removes fuel pos s t within v.len-le tagged run rest,
                valid',
                record {
                  cap = less.cap ∙ r.cap;
                  max_bytes = less.max_bytes ∙ r.max_bytes;
                  len = omega (arith, less.len, r.len);
                },
                Purged-removed s v counted p_in r u tagged purged,
              )
          | inr untouched ↦
              let (u, rest, valid', less, purged) =
                delete_from-ok fuel (pos + 1) s v (omega arith) (omega arith) (λ q i.
                  elim (ℕ_discrete q pos) [
                    | yes f ↦ rw f untouched
                    | no g ↦ clean q (omega arith)
                  ]) in
              (
                u,
                delete_from-skips fuel pos s s within v.len-le untouched rest,
                valid',
                less,
                purged,
              )
        ]
  ]

  -- `DeleteByTag` on a valid store ends without a panic, and leaves a valid store, with no more
  -- entries under the same bounds: an entry is gone if it has the tag, and kept otherwise.
  pub delete_by_tag-ok :
      {stamp : K → ℕ} {now : ℕ} (s : MemoryStore K V)
      → IsValid go stamp now s
      → (t : MemoryStore K V) × (delete_by_tag go tag s ≡ some (tt, t))
        × IsValid go stamp now t
        × Shrunk s t
        × ((k : K) → entries t k ≡ untagged tag (entries s k))
  unfolding delete_by_tag
  delete_by_tag-ok s v =
      delete_from-ok (suc s.len) 0 s v (omega arith) (omega arith) (λ q i. absurd (omega arith))
