-- ===== src/Stores/Memory/Recency.antt =====
-- The order in which `Set` evicts: by the last use of an entry.
use mathlib.Core.Option.{some-injective}
use go_memoize.Base.{
  ℕ, suc, ◌<◌, true, none, some, Option-cases, leb, ◌≡◌, ◌≢◌, ◌⊎◌, inl, inr, ◌∙◌, sym, ap, arith,
  update_self,
}
use go_memoize.Stored.{Stored}
use go_memoize.Stores.Sizes.{Sizes}
use go_memoize.Stores.Memory.{MemoryStore}
use go_memoize.Stores.Memory.Valid.{IsValid}
use go_memoize.Stores.Memory.Evict.{entries, entries-index}
use go_memoize.Stores.Memory.Reads.{get_hit-ok}
use go_memoize.Stores.Memory.Replaces.{Written}
use go_memoize.Stores.Memory.Writes.{set-ok}
use go_memoize.Stores.Memory.Methods.{get, set}

module _ {K V : Type 0} (go : Sizes K V) {stamp : K → ℕ} {now : ℕ} (s : MemoryStore K V)
    (v : IsValid go stamp now s) where
  -- An entry that is held was used before now.
  held-recent : (k : K) (e : Stored V) → entries s k ≡ some e → stamp k < now
  held-recent k e held =
      let (q, found) = entries-index go v k e held in
      omega (arith, v.recent q (v.index_in k q found), ap stamp (v.index_key k q found))

  -- After the use of `k`, a `Set` of another key evicts `k` only if it evicts all others.
  newest-kept :
      (j k : K) (e : Stored V) (t : MemoryStore K V)
      → j ≢ k
      → suc (stamp k) ≡ now
      → Written stamp j e s t
      → (entries t k ≡ entries s k) ⊎ ((i : K) → i ≢ j → entries t i ≡ none)
  newest-kept j k e t n newest w = elim (w.entry k (λ c. n (sym c))) [
    | inl kept ↦ inl kept
    | inr (gone, older) ↦ inr (λ i m. elim (Option-cases (entries t i)) [
      | inl none_there ↦ none_there
      | inr (f, found) ↦ elim (w.entry i m) [
        | inl kept ↦ absurd (omega (arith, older i f m found, held-recent i f (sym kept ∙ found)))
        | inr (none_there, _) ↦ none_there
      ]
    ])
  ]

-- With every hit refreshing the order of use: after a hit of `Get`, a `Set` of another key keeps
-- the entry that was hit, unless all that is left is the entry just set.
pub set-get_recent :
    {K V : Type 0} (go : Sizes K V) {stamp : K → ℕ} {now : ℕ} (s : MemoryStore K V) (j k : K)
    (e f : Stored V)
    → IsValid go stamp now s
    → leb s.get_recency_sample 1 ≡ true
    → j ≢ k
    → entries s k ≡ some f
    → (u : MemoryStore K V) × (t : MemoryStore K V) × (get go k s ≡ some ((f, true, none), u))
      × (set go j e u ≡ some (tt, t))
      × (entries t j ≡ some e)
      × ((entries t k ≡ some f) ⊎ ((i : K) → i ≢ j → entries t i ≡ none))
set-get_recent go {stamp} {now} s j k e f v sampled n held =
    let (p, found) = entries-index go v k f held in
    let (u, hit, same, valid) = get_hit-ok go v k p found in
    let value = some-injective _ _ (rw (entries, found) at held) in
    elim valid [
      | inr (_, off) ↦ absurd (cc (sampled, off))
      | inl v' ↦
          let (t, run, v'', w) = set-ok go u v' j e in
          (
            u,
            t,
            hit ∙ ap (λ x. some ((x, true, none), u)) value,
            run,
            w.written,
            elim (newest-kept go u v' j k e t n (ap suc (update_self go.key_eq stamp k now)) w) [
              | inl kept ↦ inl (kept ∙ same.entry k ∙ held)
              | inr gone ↦ inr gone
            ],
          )
    ]
