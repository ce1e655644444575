-- ===== src/Stores/Chain/Laws.antt =====
-- A chain of stores that hold on to their entries is itself such a store.
use go_memoize.Base.{
  ℕ, Option, none, some, List, [], ◌∷◌, ◌++◌, map, ◌≡◌, ◌≢◌, ◌∙◌, inl, inr, refl, sym, ap,
  Option-cases,
}
use mathlib.Core.Path.{subst}
use mathlib.Core.List.{map-append, append_assoc, append-nil}
use go_memoize.Stored.{Stored}
use go_memoize.Store.{Store, Ctx}
use go_memoize.Store.Laws.{StoreLaws, MapLaws, found}
use go_memoize.Stores.Chain.{backfill, get_from, get, chain_store}
use go_memoize.Stores.Chain.Tiers.{TierLaws, AnyState, first_of, first_of-same}
use go_memoize.Stores.Chain.Writes.{
  set_step, set_other, set-error, set-first, delete_other, delete-error, delete-first, clear-error,
  clear-first,
}

module _ {K V S : Type 0} (zero : V) (tier : ℕ → Store K V S) {view : ℕ → S → K → Option (Stored V)}
    (laws : TierLaws zero tier view) where
  module _ (ctx : Ctx) (k : K) where
    module _ (e : Stored V) where
      backfill_other :
          (is : List ℕ) (s : S) (n : ℕ) (j : K)
          → j ≢ k
          → view n (backfill zero (map tier is) ctx k e s) j ≡ view n s j
      unfolding backfill
      backfill_other [] s n j h = refl
      backfill_other (i ∷ is) s n j h =
          backfill_other is _ n j h ∙ laws.set_other i ctx k e s n j (inr h)

      backfill_keeps :
          (is : List ℕ) (s : S) (n : ℕ)
          → view n s k ≡ some e
          → view n (backfill zero (map tier is) ctx k e s) k ≡ some e
      unfolding backfill
      backfill_keeps [] s n h = h
      backfill_keeps (i ∷ is) s n h =
          backfill_keeps is _ n (set_step zero tier laws ctx k e i n s h)

      -- Once a tier is reached that has an entry, the chain holds it.
      backfill-first :
          (above is : List ℕ) (i : ℕ) (s : S)
          → view i s k ≡ some e
          → first_of view (above ++ (i ∷ is)) (backfill zero (map tier above) ctx k e s) k ≡ some e
      unfolding backfill
      backfill-first [] is i s h = rw h refl
      backfill-first (a ∷ above) is i s h =
          rw (backfill_keeps above _ a (laws.set_self a ctx k e s)) refl

    first_of-snoc :
        (above : List ℕ) (i : ℕ) (s : S)
        → first_of view above s k ≡ none
        → view i s k ≡ none
        → first_of view (above ++ (i ∷ [])) s k ≡ none
    first_of-snoc [] i s h v = rw (first_of, v) refl
    first_of-snoc (a ∷ above) i s h v = elim (Option-cases (view a s k)) [
      | inl gone ↦ rw (first_of, gone) (first_of-snoc above i s (rw (first_of, gone) at h) v)
      | inr (e, held) ↦ absurd (cc (held))
    ]

    -- The loop of `Get` below tiers that have no entry for the key.
    get_from-found :
        (above is whole : List ℕ) (tiers : List (Store K V S)) (s : S)
        → tiers ≡ map tier above
        → whole ≡ above ++ is
        → first_of view above s k ≡ none
        → ((get_from zero tiers (map tier is) ctx k s).0 ≡ found zero (first_of view is s k))
          × (first_of view whole (get_from zero tiers (map tier is) ctx k s).1 k
              ≡ first_of view is s k)
          × ((n : ℕ) (j : K)
              → j ≢ k
              → view n (get_from zero tiers (map tier is) ctx k s).1 j ≡ view n s j)
    unfolding get_from
    get_from-found above [] whole tiers s q r h = (refl, rw (r, append-nil above) h, λ n j m. refl)
    get_from-found above (i ∷ is) whole tiers s q r h =
        let s' = ((tier i).get ctx k s).1 in
        elim (Option-cases (view i s k)) [
          | inl gone ↦
              let h' = first_of-same view above s s' k (λ n. laws.get-same i ctx k s n k) ∙ h in
              let gone' = laws.get-same i ctx k s i k ∙ gone in
              let (answer, first, others) =
                get_from-found (above ++ (i ∷ [])) is whole (tiers ++ (tier i ∷ [])) s'
                  (rw q (sym (map-append tier above (i ∷ []))))
                  (r ∙ sym (append_assoc above (i ∷ []) is)) (first_of-snoc above i s' h' gone') in
              let below = first_of-same view is s s' k (λ n. laws.get-same i ctx k s n k) in
              rw (laws.get-found i ctx k s, first_of, gone, laws.get-found i ctx k s, gone)
                (
                  answer ∙ ap (found zero) below,
                  first ∙ below,
                  λ n j m. others n j m ∙ laws.get-same i ctx k s n j,
                )
          | inr (e, held) ↦
              let held' = laws.get-same i ctx k s i k ∙ held in
              rw (laws.get-found i ctx k s, first_of, held, laws.get-found i ctx k s, held)
                (
                  refl,
                  rw (q, r) (backfill-first e above is i s' held'),
                  λ n j m. rw q (backfill_other e above s' n j m ∙ laws.get-same i ctx k s n j),
                )
        ]

  -- The tiers hold an entry under a key.
  abbrev pub AllHold : List ℕ → S → K → Stored V → Type 0
  AllHold [] s k e = Unit {0}
  AllHold (a ∷ above) s k e = (view a s k ≡ some e) × AllHold above s k e

  module _ (ctx : Ctx) (k : K) (e : Stored V) where
    backfill-AllHold :
        (above : List ℕ) (s : S) → AllHold above (backfill zero (map tier above) ctx k e s) k e
    unfolding backfill
    backfill-AllHold [] s = tt
    backfill-AllHold (a ∷ above) s =
        (backfill_keeps ctx k e above _ a (laws.set_self a ctx k e s), backfill-AllHold above _)

    get_from-AllHold :
        (above mid : List ℕ) (i : ℕ) (is : List ℕ) (tiers : List (Store K V S)) (s : S)
        → tiers ≡ map tier above
        → first_of view mid s k ≡ none
        → view i s k ≡ some e
        → AllHold (above ++ mid) (get_from zero tiers (map tier (mid ++ (i ∷ is))) ctx k s).1 k e
    unfolding get_from
    get_from-AllHold above [] i is tiers s q h v =
        let s' = ((tier i).get ctx k s).1 in
        rw (append-nil above, laws.get-found i ctx k s, v, laws.get-found i ctx k s, v, q)
          (backfill-AllHold above s')
    get_from-AllHold above (m ∷ mid) i is tiers s q h v =
        let s' = ((tier m).get ctx k s).1 in
        elim (Option-cases (view m s k)) [
          | inl gone ↦
              let below = first_of-same view mid s s' k (λ n. laws.get-same m ctx k s n k) in
              rw (laws.get-found m ctx k s, gone, laws.get-found m ctx k s, gone)
                (subst
                  (λ l.
                    AllHold l
                      (get_from zero (tiers ++ (tier m ∷ [])) (map tier (mid ++ (i ∷ is))) ctx k
                        s').1
                      k e)
                  (append_assoc above (m ∷ []) mid)
                  (get_from-AllHold (above ++ (m ∷ [])) mid i is (tiers ++ (tier m ∷ [])) s'
                    (rw q (sym (map-append tier above (m ∷ []))))
                    (below ∙ (rw (first_of, gone) at h)) (laws.get-same m ctx k s i k ∙ v)))
          | inr (x, full) ↦ absurd (cc (rw (first_of, full) at h))
        ]

  -- the laws without what `Set` does to other keys
  chain_store-StoreLaws :
      (key_eq : Discrete K) (i : ℕ) (is : List ℕ)
      → StoreLaws zero (chain_store zero (map tier (i ∷ is))) AnyState (first_of view (i ∷ is))
  unfolding chain_store get
  chain_store-StoreLaws key_eq i is = record {
    get-view = λ ctx k s h.
        let (answer, first, others) = get_from-found ctx k [] all all [] s refl refl refl in
        (
          answer,
          record {
            valid = tt;
            same = λ j. elim (key_eq j k) [
              | yes p ↦ rw p first
              | no p ↦ first_of-same view all s _ j (λ n. others n j p)
            ];
          },
        );
    peek-view = λ ask ctx k s e h. absurd (cc);
    peek_fresh_value-view = λ ask ctx k now s e h. absurd (cc);
    set-view = λ ctx k e s h. (
      set-error zero tier laws ctx k e all s,
      tt,
      set-first zero tier laws ctx k e i is s,
      λ j n. inr (first_of-same view all s _ j (λ m. set_other zero tier laws ctx k e all s m j n)),
    );
    delete-view = λ ctx k s h. (
      delete-error zero tier laws ctx k all s,
      tt,
      delete-first zero tier laws ctx k all s,
      λ j n. first_of-same view all s _ j (λ m. delete_other zero tier laws ctx k all s m j n),
    );
    clear-view = λ ctx s h.
        (clear-error zero tier laws ctx all s, tt, λ j. clear-first zero tier laws ctx all s j);
  }
    where
      all : List ℕ
      all = i ∷ is

  -- For a chain of at least one tier, whose tiers keep what is set, do not share entries and return
  -- no error: a lookup answers with the entry of the first tier that has one, and fills each tier
  -- above it with that entry. Over the entries that the chain holds so, it is a store in which a
  -- lookup keeps all entries, `Set` and `Delete` change their key and no other, and `Clear` drops
  -- all keys.
  pub chain_store-MapLaws :
      (key_eq : Discrete K) (i : ℕ) (is : List ℕ)
      → MapLaws zero (chain_store zero (map tier (i ∷ is))) AnyState (first_of view (i ∷ is))
        × ((ctx : Ctx) (k : K) (e : Stored V) (s : S) (above : List ℕ) (n : ℕ) (below : List ℕ)
            → i ∷ is ≡ above ++ (n ∷ below)
            → first_of view above s k ≡ none
            → view n s k ≡ some e
            → AllHold above ((chain_store zero (map tier (i ∷ is))).get ctx k s).1 k e)
  unfolding chain_store get
  chain_store-MapLaws key_eq i is = (
    (
      chain_store-StoreLaws key_eq i is,
      λ ctx k e s h j n.
          first_of-same view (i ∷ is) s _ j
            (λ m. set_other zero tier laws ctx k e (i ∷ is) s m j n),
    ),
    λ ctx k e s above n below parts none_above held.
        subst (λ l. AllHold above (get_from zero [] (map tier l) ctx k s).1 k e) (sym parts)
          (get_from-AllHold ctx k e [] above n below [] s refl none_above held),
  )
