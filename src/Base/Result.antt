-- ===== src/Base/Result.antt =====
-- Go's `(A, error)` of a constructor, where a result goes with no error.
use mathlib.Core.Path.{◌≡◌, refl}

pub data Result {ℓ κ} (E : Type κ) (A : Type ℓ) : Type (ℓ ⊔ κ) where
  ok : A → Result E A
  err : E → Result E A

infixl 5 ◌>>=◌
abbrev pub ◌>>=◌ {ℓ κ ι} :
    {E : Type κ} {A : Type ℓ} {B : Type ι} → Result E A → (A → Result E B) → Result E B
ok a >>= f = f a
err e >>= f = err e

-- A chain that succeeds succeeded at each step.
pub >>=-eq-ok {ℓ κ ι} :
    {E : Type κ} {A : Type ℓ} {C : Type ι} (first : Result E A) (rest : A → Result E C) {made : C}
    → (first >>= rest) ≡ ok made
    → (mid : A) × (first ≡ ok mid) × (rest mid ≡ ok made)
>>=-eq-ok (ok mid) rest done = (mid, refl, done)
>>=-eq-ok (err x) rest done = cc
