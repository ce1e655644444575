-- ===== src/Stores/Memory/Laws.antt =====
-- The memory store meets the contract of a store, and `New` makes a valid one.
use mathlib.Core.Path.{subst}
use mathlib.Core.Option.{some-injective}
use go_memoize.Base.{ℕ, Option, none, some, ◌≡◌, inl, inr, refl}
use go_memoize.Store.{Error}
use go_memoize.Store.Laws.{StoreLaws, Keeps, found, fresh_found}
use go_memoize.Stores.Sizes.{Sizes}
use go_memoize.Stores.Memory.{MemoryStore, M}
use go_memoize.Stores.Memory.Valid.{IsValid}
use go_memoize.Stores.Memory.Evict.{entries}
use go_memoize.Stores.Memory.Reads.{Looked, peek-ok, get-ok, peek_fresh_value-ok}
use go_memoize.Stores.Memory.Writes.{set-ok, delete-ok, clear-ok}
use go_memoize.Stores.Memory.Methods.{total, written, memory_store}

module _ {K V : Type 0} (go : Sizes K V) where
  -- The invariant holds, by some order of the uses.
  abbrev pub IsHeld : MemoryStore K V → Type 0
  IsHeld s = (stamp : K → ℕ) × (now : ℕ) × IsValid go stamp now s

  module _ {A : Type 0} (fault : A) (s t : MemoryStore K V) where
    total-ok : (m : M K V A) (a : A) → m s ≡ some (a, t) → total go fault m s ≡ (a, t)
    total-ok m a run = rw (total, run) refl

    written-ok :
        (fault' : Option Error) (m : M K V (Unit {0}))
        → m s ≡ some (tt, t)
        → total go fault' (written go m) s ≡ (none, t)
    written-ok fault' m run = rw (total, run) refl

  pub Looked-Keeps :
      {stamp : K → ℕ} {now : ℕ} {s : MemoryStore K V} (v : IsValid go stamp now s) (k : K)
      (t : MemoryStore K V)
      → Looked go v k t
      → Keeps IsHeld entries s t
  Looked-Keeps v k t (same, inl valid) = record { valid = (_, _, valid); same = same.entry }
  Looked-Keeps v k t (same, inr valid) = record { valid = (_, _, valid); same = same.entry }

  -- The memory store implements the interface of a store: lookups answer with the entry last set
  -- that was not evicted, `PeekFreshValue` exactly if it is fresh then, reads keep every entry,
  -- `Set` keeps or evicts the entries of other keys, `Delete` changes its key and no other,
  -- `Clear` all keys, no call of a valid store panics or returns an error, and all keep it valid.
  pub memory_store-StoreLaws : StoreLaws go.zero (memory_store go) IsHeld entries
  unfolding memory_store
  memory_store-StoreLaws = record {
    get-view = λ ctx k s (stamp, now, v).
        let (t, run, same) = get-ok go v k in rw (total, run) (refl, Looked-Keeps v k t same);
    peek-view = λ ask ctx k s e (stamp, now, v).
        subst
          (λ ask.
            ((ask ctx k s).0 ≡ found go.zero (entries s k))
            × Keeps IsHeld entries s (ask ctx k s).1)
          (some-injective _ _ e)
          (rw (total, peek-ok go v k) (refl, record { valid = (stamp, now, v); same = λ j. refl }));
    peek_fresh_value-view = λ ask ctx k at s e (stamp, now, v).
        let (t, run, same) = peek_fresh_value-ok go v k at in
        subst
          (λ ask.
            ((ask ctx k at s).0 ≡ fresh_found go.zero (entries s k) at)
            × Keeps IsHeld entries s (ask ctx k at s).1)
          (some-injective _ _ e) (rw (total, run) (refl, Looked-Keeps v k t same));
    set-view = λ ctx k e s (stamp, now, v).
        let (t, run, valid, w) = set-ok go s v k e in
        rw (total, run)
          (
            refl,
            (_, _, valid),
            w.written,
            λ j n. elim (w.entry j n) [ inl kept ↦ inr kept | inr (gone, _) ↦ inl gone ],
          );
    delete-view = λ ctx k s (stamp, now, v).
        let (t, run, valid, less, gone, kept) = delete-ok go s v k in
        rw (total, run) (refl, (_, _, valid), gone, kept);
    clear-view = λ ctx s (stamp, now, v).
        let (t, run, valid, less, gone) = clear-ok go s v in
        rw (total, run) (refl, (_, _, valid), gone);
  }
