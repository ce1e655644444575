-- ===== src/Stores/Chain.antt =====
-- stores/chain/store.go: a sequence of stores, looked up in order and written all together. The
-- tiers work on one state, that of all of them.
pub mod Tiers
pub mod Writes
pub mod Laws
use go_memoize.Base.{
  ℕ, Bool, true, false, Option, none, some, List, [], ◌∷◌, ◌++◌, ltb, if◌then◌else◌,
}
use go_memoize.Base.Lists.{length}
use go_memoize.Stored.{Stored}
use go_memoize.Store.{Store, Ctx, Found, Error, zero_stored}

-- `New`; `none` is its panic on fewer than two tiers.
unfoldable pub new_chain : {K V S : Type 0} → List (Store K V S) → Option (List (Store K V S))
new_chain tiers = if ltb (length tiers) 2 then none else some tiers

module _ {K V S : Type 0} (zero : V) where
  -- the inner loop of `Get`: it ignores the errors of the tiers that it fills
  unfoldable pub backfill : List (Store K V S) → Ctx → K → Stored V → S → S
  backfill [] ctx key val s = s
  backfill (tier ∷ tiers) ctx key val s = backfill tiers ctx key val (tier.set ctx key val s).1

  -- the outer loop, with the tiers that it has passed
  unfoldable pub get_from :
      List (Store K V S) → List (Store K V S) → Ctx → K → S → Found (Stored V) × S
  unfolding backfill
  get_from above [] ctx key s = ((zero_stored zero, false, none), s)
  get_from above (tier ∷ tiers) ctx key s =
      let ((val, ok, err), s') = tier.get ctx key s in
      let rest = get_from (above ++ (tier ∷ [])) tiers ctx key s' in
      elim err [
        | some x ↦ ((val, false, some x), s')
        | none ↦ if ok then ((val, true, none), backfill above ctx key val s') else rest
      ]

  -- `Get`
  unfoldable pub get : List (Store K V S) → Ctx → K → S → Found (Stored V) × S
  unfolding get_from
  get tiers = get_from [] tiers

  -- `Set`, `Delete`, `Clear`: each stops at the first error.
  unfoldable pub set : List (Store K V S) → Ctx → K → Stored V → S → Option Error × S
  set [] ctx key value s = (none, s)
  set (tier ∷ tiers) ctx key value s =
      let (err, s') = tier.set ctx key value s in
      let rest = set tiers ctx key value s' in elim err [ some x ↦ (some x, s') | none ↦ rest ]

  unfoldable pub delete : List (Store K V S) → Ctx → K → S → Option Error × S
  delete [] ctx key s = (none, s)
  delete (tier ∷ tiers) ctx key s =
      let (err, s') = tier.delete ctx key s in
      let rest = delete tiers ctx key s' in elim err [ some x ↦ (some x, s') | none ↦ rest ]

  unfoldable pub clear : List (Store K V S) → Ctx → S → Option Error × S
  clear [] ctx s = (none, s)
  clear (tier ∷ tiers) ctx s =
      let (err, s') = tier.clear ctx s in
      let rest = clear tiers ctx s' in elim err [ some x ↦ (some x, s') | none ↦ rest ]

  -- a `ChainStore` as a `Store`; it has neither `Peek` nor `PeekFreshValue`
  unfoldable pub chain_store : List (Store K V S) → Store K V S
  unfolding get set delete clear
  chain_store tiers = record {
    get = get tiers;
    set = set tiers;
    delete = delete tiers;
    clear = clear tiers;
    peek = none;
    peek_fresh_value = none;
  }
