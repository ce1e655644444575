-- ===== src/Stores/Chain/Tiers.antt =====
-- What the tiers of a chain keep to, and what a chain of them holds.
use go_memoize.Base.{ℕ, Option, none, some, List, [], ◌∷◌, ◌≡◌, ◌≢◌, ◌⊎◌, refl}
use go_memoize.Stored.{Stored}
use go_memoize.Store.{Store, Ctx}
use go_memoize.Store.Laws.{found}

-- Tiers by number on one state, each with its own map of entries: a read changes no map, a write
-- changes its key in its tier and nothing else, and there are no errors.
pub record TierLaws {K V S : Type 0} (zero : V) (tier : ℕ → Store K V S)
    (view : ℕ → S → K → Option (Stored V)) : Type 0 where
  pub get-found :
      (i : ℕ) (ctx : Ctx) (k : K) (s : S) → ((tier i).get ctx k s).0 ≡ found zero (view i s k)
  pub get-same :
      (i : ℕ) (ctx : Ctx) (k : K) (s : S) (n : ℕ) (j : K)
      → view n ((tier i).get ctx k s).1 j ≡ view n s j
  pub set-error :
      (i : ℕ) (ctx : Ctx) (k : K) (e : Stored V) (s : S) → ((tier i).set ctx k e s).0 ≡ none
  pub set_self :
      (i : ℕ) (ctx : Ctx) (k : K) (e : Stored V) (s : S)
      → view i ((tier i).set ctx k e s).1 k ≡ some e
  pub set_other :
      (i : ℕ) (ctx : Ctx) (k : K) (e : Stored V) (s : S) (n : ℕ) (j : K)
      → (n ≢ i) ⊎ (j ≢ k)
      → view n ((tier i).set ctx k e s).1 j ≡ view n s j
  pub delete-error : (i : ℕ) (ctx : Ctx) (k : K) (s : S) → ((tier i).delete ctx k s).0 ≡ none
  pub delete_self :
      (i : ℕ) (ctx : Ctx) (k : K) (s : S) → view i ((tier i).delete ctx k s).1 k ≡ none
  pub delete_other :
      (i : ℕ) (ctx : Ctx) (k : K) (s : S) (n : ℕ) (j : K)
      → (n ≢ i) ⊎ (j ≢ k)
      → view n ((tier i).delete ctx k s).1 j ≡ view n s j
  pub clear-error : (i : ℕ) (ctx : Ctx) (s : S) → ((tier i).clear ctx s).0 ≡ none
  pub clear_self : (i : ℕ) (ctx : Ctx) (s : S) (j : K) → view i ((tier i).clear ctx s).1 j ≡ none
  pub clear_other :
      (i : ℕ) (ctx : Ctx) (s : S) (n : ℕ) (j : K)
      → n ≢ i
      → view n ((tier i).clear ctx s).1 j ≡ view n s j

-- Every state of the tiers is valid.
abbrev pub AnyState : {S : Type 0} → S → Type 0
AnyState _ = Unit {0}

abbrev pub or_else : {A : Type 0} → Option A → Option A → Option A
or_else (some x) o = some x
or_else none o = o

-- What a chain holds under a key: the entry of the first tier that has one.
abbrev pub first_of :
    {K V S : Type 0} → (ℕ → S → K → Option (Stored V)) → List ℕ → S → K → Option (Stored V)
first_of view [] s k = none
first_of view (i ∷ is) s k = or_else (view i s k) (first_of view is s k)

pub first_of-same :
    {K V S : Type 0} (view : ℕ → S → K → Option (Stored V)) (is : List ℕ) (s t : S) (k : K)
    → ((n : ℕ) → view n t k ≡ view n s k)
    → first_of view is t k ≡ first_of view is s k
first_of-same view [] s t k h = refl
first_of-same view (i ∷ is) s t k h = rw (h i, first_of-same view is s t k h) refl
