-- ===== src/Stores/Single/Laws.antt =====
-- The single-entry store meets the contract of a store.
use Prim.Native.String.{String}
use mathlib.Core.Path.{subst}
use mathlib.Core.Option.{some-injective}
use go_memoize.Base.{
  ◌+◌, ◌*◌, Option, none, some, ◌≡◌, ◌≢◌, inl, refl, sym, arith, ite, if_pos, if_neg, if◌then◌else◌,
}
use go_memoize.Time.{Time}
use go_memoize.Stored.{Stored, state}
use go_memoize.Store.{Ctx, Found}
use go_memoize.Store.Laws.{StoreLaws, SlotLaws, Keeps, found, fresh_found}
use go_memoize.Stores.Sizes.{Sizes}
use go_memoize.Stores.Tags.{has_tag}
use go_memoize.Stores.Single.{
  SingleStore, load, get, peek_fresh_value, set, delete, clear, single_store, delete_by_tag,
  new_single, len, used_bytes, single_entry_bytes,
}

-- Every state of the store is valid.
abbrev pub AnyState : {K V : Type 0} → SingleStore K V → Type 0
AnyState _ = Unit {0}

module _ {K V : Type 0} (go : Sizes K V) where
  abbrev pub entries : SingleStore K V → K → Option (Stored V)
  entries s k = elim s.entry [ none ↦ none | some e ↦ ite (go.key_eq e.key k) (some e.value) none ]

  load-found : (k : K) (s : SingleStore K V) → load go k s ≡ found go.zero (entries s k)
  unfolding load
  load-found k s = ground arith

  peek-found :
      (ctx : Ctx) (k : K) (now : Time) (s : SingleStore K V)
      → peek_fresh_value go ctx k now s ≡ (fresh_found go.zero (entries s k) now, s)
  unfolding peek_fresh_value state
  peek-found ctx k now s = ground arith

  get-law :
      (ctx : Ctx) (k : K) (s : SingleStore K V)
      → ((get go ctx k s).0 ≡ found go.zero (entries s k))
        × Keeps AnyState entries s (get go ctx k s).1
  unfolding get
  get-law ctx k s = (load-found k s, record { valid = tt; same = λ j. refl })

  delete_self : (ctx : Ctx) (k : K) (s : SingleStore K V) → entries (delete go ctx k s).1 k ≡ none
  unfolding delete
  delete_self ctx k s = ground arith

  delete_other :
      (ctx : Ctx) (k j : K) (s : SingleStore K V)
      → j ≢ k
      → entries (delete go ctx k s).1 j ≡ entries s j
  unfolding delete
  delete_other ctx k j s n = ground arith

  delete_error : (ctx : Ctx) (k : K) (s : SingleStore K V) → (delete go ctx k s).0 ≡ none
  unfolding delete
  delete_error ctx k s = ground arith

  abbrev PeekLaw :
      Ctx
      → K
      → Time
      → SingleStore K V
      → (Ctx → K → Time → SingleStore K V → Found V × SingleStore K V)
      → Type 0
  PeekLaw ctx k now s ask =
      ((ask ctx k now s).0 ≡ fresh_found go.zero (entries s k) now)
      × Keeps AnyState entries s (ask ctx k now s).1

  peek-law :
      (ctx : Ctx) (k : K) (now : Time) (s : SingleStore K V)
      → PeekLaw ctx k now s (peek_fresh_value go)
  peek-law ctx k now s = rw (peek-found ctx k now s) (refl, record { valid = tt; same = λ j. refl })

  -- the laws without what `Set` does to other keys
  pub single_store-StoreLaws : StoreLaws go.zero (single_store go) AnyState entries
  unfolding single_store set clear
  single_store-StoreLaws = record {
    get-view = λ ctx k s h. get-law ctx k s;
    peek-view = λ peek ctx k s e h.
        subst
          (λ ask.
            ((ask ctx k s).0 ≡ found go.zero (entries s k))
            × Keeps AnyState entries s (ask ctx k s).1)
          (some-injective _ _ e) (get-law ctx k s);
    peek_fresh_value-view = λ ask ctx k now s e h.
        subst (PeekLaw ctx k now s) (some-injective _ _ e) (peek-law ctx k now s);
    set-view = λ ctx k e s h. (
      refl,
      tt,
      if_pos (go.key_eq k k) refl (some e) none,
      λ j n. inl (if_neg (go.key_eq k j) (λ p. n (sym p)) (some e) none),
    );
    delete-view = λ ctx k s h.
        (delete_error ctx k s, tt, delete_self ctx k s, λ j n. delete_other ctx k j s n);
    clear-view = λ ctx s h. (refl, tt, λ j. refl);
  }

  -- The single-entry store implements the interface of a store: lookups with or without a peek
  -- answer with the entry last set if it is for their key, `PeekFreshValue` exactly if it is fresh
  -- then, reads change nothing, `Set` drops the entry of any other key, `Delete` changes its key
  -- and no other, `Clear` all keys, and no call returns an error.
  pub single_store-SlotLaws : SlotLaws go.zero (single_store go) AnyState entries
  unfolding single_store set
  single_store-SlotLaws = (
    single_store-StoreLaws,
    λ ctx k e s h j n. if_neg (go.key_eq k j) (λ p. n (sym p)) (some e) none,
  )

  -- `DeleteByTag` returns no error and drops the entry of a key exactly if it has the tag.
  delete_by_tag-entries :
      (tag : String) (s : SingleStore K V) (k : K)
      → ((delete_by_tag tag s).0 ≡ none)
        × (entries (delete_by_tag tag s).1 k ≡ (elim (entries s k) [
          | none ↦ none
          | some e ↦ if has_tag e.tags tag then none else some e
        ]))
  unfolding delete_by_tag
  delete_by_tag-entries tag s k = (ground arith, ground arith)

  -- The bytes in use are those of the entries that are held.
  abbrev pub IsCounted : SingleStore K V → Type 0
  IsCounted s = used_bytes s ≡ len s * (go.key_size + go.stored_size)

  -- From a new store on, every method that writes keeps the count of its bytes.
  pub single_store-IsCounted :
      (ctx : Ctx) (k : K) (e : Stored V) (tag : String) (s : SingleStore K V)
      → IsCounted s
      → IsCounted new_single
        × IsCounted (set go ctx k e s).1
        × IsCounted (delete go ctx k s).1
        × IsCounted (clear go ctx s).1
        × IsCounted (delete_by_tag tag s).1
  unfolding new_single len used_bytes set single_entry_bytes delete clear delete_by_tag
  single_store-IsCounted ctx k e tag s h =
      (omega arith, omega arith, ground arith, omega arith, ground arith)
