-- ===== src/Direct/Laws.antt =====
-- The direct store meets the laws that a cache relies on, and never forgets an entry.
use go_memoize.Base.{
  ℕ, Option, none, some, ◌≡◌, inr, refl, sym, arith, update, update_self, update_ne, ℕ_discrete,
}
use mathlib.Core.Path.{subst}
use mathlib.Core.Option.{some-injective}
use go_memoize.Time.{Time}
use go_memoize.Stored.{Stored}
use go_memoize.Store.{Ctx, Found}
use go_memoize.Store.Laws.{StoreLaws, MapLaws, Keeps, found, fresh_found}
use go_memoize.Direct.{DirectStore, get, set, delete, peek_fresh_value, direct_store}

-- Every state of the map is valid.
abbrev pub AnyState : {V : Type 0} → DirectStore V → Type 0
AnyState _ = Unit {0}

abbrev pub entries : {V : Type 0} → DirectStore V → ℕ → Option (Stored V)
entries s = s.entries

module _ {V : Type 0} (zero : V) where
  get-found : (k : ℕ) (s : DirectStore V) → get zero k s ≡ (found zero (s.entries k), s)
  unfolding get
  get-found k s = ground arith

  peek-found :
      (k : ℕ) (now : Time) (s : DirectStore V)
      → peek_fresh_value zero k now s ≡ (fresh_found zero (s.entries k) now, s)
  unfolding peek_fresh_value
  peek-found k now s = ground arith

  abbrev PeekLaw :
      Ctx
      → ℕ
      → Time
      → DirectStore V
      → (Ctx → ℕ → Time → DirectStore V → Found V × DirectStore V)
      → Type 0
  PeekLaw ctx k now s ask =
      ((ask ctx k now s).0 ≡ fresh_found zero (s.entries k) now)
      × Keeps AnyState entries s (ask ctx k now s).1

  peek-law :
      (ctx : Ctx) (k : ℕ) (now : Time) (s : DirectStore V)
      → PeekLaw ctx k now s (λ _. peek_fresh_value zero)
  peek-law ctx k now s = rw (peek-found k now s) (refl, record { valid = tt; same = λ j. refl })

  -- the laws without what `Set` does to other keys
  pub direct_store-StoreLaws : StoreLaws zero (direct_store zero) AnyState entries
  unfolding direct_store set delete update
  direct_store-StoreLaws = record {
    get-view = λ ctx k s h. rw (get-found k s) (refl, record { valid = tt; same = λ j. refl });
    peek-view = λ peek ctx k s e h. absurd (cc);
    peek_fresh_value-view = λ ask ctx k now s e h.
        subst (PeekLaw ctx k now s) (some-injective _ _ e) (peek-law ctx k now s);
    set-view = λ ctx k e s h. (
      refl,
      tt,
      update_self ℕ_discrete s.entries k (some e),
      λ j n. inr (update_ne ℕ_discrete s.entries k j (some e) (λ p. n (sym p))),
    );
    delete-view = λ ctx k s h. (
      refl,
      tt,
      update_self ℕ_discrete s.entries k none,
      λ j n. update_ne ℕ_discrete s.entries k j none (λ p. n (sym p)),
    );
    clear-view = λ ctx s h. (refl, tt, λ j. refl);
  }

  -- The direct store implements the interface of a store: a lookup answers with the entry last
  -- set, `PeekFreshValue` exactly with a fresh one, reads change nothing, `Set` and `Delete`
  -- change their key and no other, `Clear` all keys, and no call returns an error.
  pub direct_store-MapLaws : MapLaws zero (direct_store zero) AnyState entries
  unfolding direct_store set
  direct_store-MapLaws = (
    direct_store-StoreLaws,
    λ ctx k e s h j n. update_ne ℕ_discrete s.entries k j (some e) (λ p. n (sym p)),
  )
