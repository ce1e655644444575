-- ===== src/Tests/Chain.antt =====
-- A chain of two maps.
use go_memoize.Base.{
  ℕ, Option, none, some, List, [], ◌∷◌, ◌++◌, ◌≡◌, ◌≢◌, ◌⊎◌, refl, arith, ℕ_discrete, update,
}
use go_memoize.Stored.{Stored}
use go_memoize.Store.{Store, Ctx}
use go_memoize.Store.Laws.{MapLaws, found}
use go_memoize.Stores.Chain.{chain_store}
use go_memoize.Stores.Chain.Tiers.{TierLaws, AnyState, first_of}
use go_memoize.Stores.Chain.Laws.{AllHold, chain_store-MapLaws}

-- one map for each tier
abbrev Maps : Type 0
Maps = ℕ → ℕ → Option (Stored ℕ)

abbrev put : ℕ → ℕ → Option (Stored ℕ) → Maps → Maps
put i k o s = update ℕ_discrete s i (update ℕ_discrete (s i) k o)

abbrev tier : ℕ → Store ℕ ℕ Maps
tier i = record {
  get = λ ctx k s. (found 0 (s i k), s);
  set = λ ctx k e s. (none, put i k (some e) s);
  delete = λ ctx k s. (none, put i k none s);
  clear = λ ctx s. (none, update ℕ_discrete s i (λ _. none));
  peek = none;
  peek_fresh_value = none;
}

abbrev view : ℕ → Maps → ℕ → Option (Stored ℕ)
view n s = s n

put_self : (i k : ℕ) (o : Option (Stored ℕ)) (s : Maps) → put i k o s i k ≡ o
unfolding update
put_self i k o s = ground arith

put_other :
    (i k n j : ℕ) (o : Option (Stored ℕ)) (s : Maps) → (n ≢ i) ⊎ (j ≢ k) → put i k o s n j ≡ s n j
unfolding update
put_other i k n j o s h = ground arith

tier-TierLaws : TierLaws 0 tier view
unfolding update
tier-TierLaws = record {
  get-found = λ i ctx k s. refl;
  get-same = λ i ctx k s n j. refl;
  set-error = λ i ctx k e s. refl;
  set_self = λ i ctx k e s. put_self i k (some e) s;
  set_other = λ i ctx k e s n j h. put_other i k n j (some e) s h;
  delete-error = λ i ctx k s. refl;
  delete_self = λ i ctx k s. put_self i k none s;
  delete_other = λ i ctx k s n j h. put_other i k n j none s h;
  clear-error = λ i ctx s. refl;
  clear_self = λ i ctx s j. ground arith;
  clear_other = λ i ctx s n j h. ground arith;
}

chain_store-MapLaws_example :
    MapLaws 0 (chain_store 0 (tier 1 ∷ tier 2 ∷ [])) AnyState (first_of view (1 ∷ 2 ∷ []))
    × ((ctx : Ctx) (k : ℕ) (e : Stored ℕ) (s : Maps) (above : List ℕ) (n : ℕ) (below : List ℕ)
        → 1 ∷ 2 ∷ [] ≡ above ++ (n ∷ below)
        → first_of view above s k ≡ none
        → view n s k ≡ some e
        → AllHold 0 tier tier-TierLaws above
            ((chain_store 0 (tier 1 ∷ tier 2 ∷ [])).get ctx k s).1
            k
            e)
chain_store-MapLaws_example = chain_store-MapLaws 0 tier tier-TierLaws ℕ_discrete 1 (2 ∷ [])
