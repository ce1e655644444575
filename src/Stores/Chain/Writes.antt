-- ===== src/Stores/Chain/Writes.antt =====
-- What a write to all tiers of a chain does to what the chain holds.
use go_memoize.Base.{
  ℕ, Option, none, some, List, [], ◌∷◌, map, ◌≡◌, ◌≢◌, ◌∙◌, inl, inr, refl, ℕ_discrete,
}
use go_memoize.Stored.{Stored}
use go_memoize.Store.{Store, Ctx}
use go_memoize.Stores.Chain.{set, delete, clear}
use go_memoize.Stores.Chain.Tiers.{TierLaws, first_of}

module _ {K V S : Type 0} (zero : V) (tier : ℕ → Store K V S) {view : ℕ → S → K → Option (Stored V)}
    (laws : TierLaws zero tier view) where
  module _ (ctx : Ctx) (k : K) where
    module _ (e : Stored V) where
      pub set_step :
          (i n : ℕ) (s : S) → view n s k ≡ some e → view n ((tier i).set ctx k e s).1 k ≡ some e
      set_step i n s h = elim (ℕ_discrete n i) [
        | yes p ↦ rw p (laws.set_self i ctx k e s)
        | no p ↦ laws.set_other i ctx k e s n k (inl p) ∙ h
      ]

      set_keeps :
          (is : List ℕ) (s : S) (n : ℕ)
          → view n s k ≡ some e
          → view n (set zero (map tier is) ctx k e s).1 k ≡ some e
      unfolding set
      set_keeps [] s n h = h
      set_keeps (i ∷ is) s n h =
          rw (laws.set-error i ctx k e s) (set_keeps is _ n (set_step i n s h))

      pub set_other :
          (is : List ℕ) (s : S) (n : ℕ) (j : K)
          → j ≢ k
          → view n (set zero (map tier is) ctx k e s).1 j ≡ view n s j
      unfolding set
      set_other [] s n j h = refl
      set_other (i ∷ is) s n j h =
          rw (laws.set-error i ctx k e s)
            (set_other is _ n j h ∙ laws.set_other i ctx k e s n j (inr h))

      pub set-error : (is : List ℕ) (s : S) → (set zero (map tier is) ctx k e s).0 ≡ none
      unfolding set
      set-error [] s = refl
      set-error (i ∷ is) s = rw (laws.set-error i ctx k e s) (set-error is _)

      pub set-first :
          (i : ℕ) (is : List ℕ) (s : S)
          → first_of view (i ∷ is) (set zero (map tier (i ∷ is)) ctx k e s).1 k ≡ some e
      unfolding set
      set-first i is s =
          rw (laws.set-error i ctx k e s, set_keeps is _ i (laws.set_self i ctx k e s)) refl

    delete_step :
        (i n : ℕ) (s : S) → view n s k ≡ none → view n ((tier i).delete ctx k s).1 k ≡ none
    delete_step i n s h = elim (ℕ_discrete n i) [
      | yes p ↦ rw p (laws.delete_self i ctx k s)
      | no p ↦ laws.delete_other i ctx k s n k (inl p) ∙ h
    ]

    delete_keeps :
        (is : List ℕ) (s : S) (n : ℕ)
        → view n s k ≡ none
        → view n (delete zero (map tier is) ctx k s).1 k ≡ none
    unfolding delete
    delete_keeps [] s n h = h
    delete_keeps (i ∷ is) s n h =
        rw (laws.delete-error i ctx k s) (delete_keeps is _ n (delete_step i n s h))

    pub delete_other :
        (is : List ℕ) (s : S) (n : ℕ) (j : K)
        → j ≢ k
        → view n (delete zero (map tier is) ctx k s).1 j ≡ view n s j
    unfolding delete
    delete_other [] s n j h = refl
    delete_other (i ∷ is) s n j h =
        rw (laws.delete-error i ctx k s)
          (delete_other is _ n j h ∙ laws.delete_other i ctx k s n j (inr h))

    pub delete-error : (is : List ℕ) (s : S) → (delete zero (map tier is) ctx k s).0 ≡ none
    unfolding delete
    delete-error [] s = refl
    delete-error (i ∷ is) s = rw (laws.delete-error i ctx k s) (delete-error is _)

    pub delete-first :
        (is : List ℕ) (s : S) → first_of view is (delete zero (map tier is) ctx k s).1 k ≡ none
    unfolding delete
    delete-first [] s = refl
    delete-first (i ∷ is) s =
        rw (laws.delete-error i ctx k s, delete_keeps is _ i (laws.delete_self i ctx k s))
          (delete-first is _)

  module _ (ctx : Ctx) where
    clear_step :
        (i n : ℕ) (s : S) (j : K) → view n s j ≡ none → view n ((tier i).clear ctx s).1 j ≡ none
    clear_step i n s j h = elim (ℕ_discrete n i) [
      | yes p ↦ rw p (laws.clear_self i ctx s j)
      | no p ↦ laws.clear_other i ctx s n j p ∙ h
    ]

    clear_keeps :
        (is : List ℕ) (s : S) (n : ℕ) (j : K)
        → view n s j ≡ none
        → view n (clear zero (map tier is) ctx s).1 j ≡ none
    unfolding clear
    clear_keeps [] s n j h = h
    clear_keeps (i ∷ is) s n j h =
        rw (laws.clear-error i ctx s) (clear_keeps is _ n j (clear_step i n s j h))

    pub clear-error : (is : List ℕ) (s : S) → (clear zero (map tier is) ctx s).0 ≡ none
    unfolding clear
    clear-error [] s = refl
    clear-error (i ∷ is) s = rw (laws.clear-error i ctx s) (clear-error is _)

    pub clear-first :
        (is : List ℕ) (s : S) (j : K) → first_of view is (clear zero (map tier is) ctx s).1 j ≡ none
    unfolding clear
    clear-first [] s j = refl
    clear-first (i ∷ is) s j =
        rw (laws.clear-error i ctx s, clear_keeps is _ i j (laws.clear_self i ctx s j))
          (clear-first is _ j)
