-- ===== src/Base/Strings.antt =====
-- Equality of Go's strings is decidable.
use Prim.Native.Nat.{ℕ, compare, Ordering}
use Prim.Native.String.{String, [], ◌∷◌}
use Prim.Native.Char.{Char, char, IsScalar, IsLt, code}
use mathlib.Core.Path.{◌≡◌, refl, ap, subst}
use native.Mathlib.Decide.{ℕ_discrete}

abbrev Both : Ordering → Ordering → Type 0
Both Ordering.lt o = IsLt o
Both Ordering.eq _ = ⊥
Both Ordering.gt _ = ⊥

-- Surrogates are the code points between the two ranges.
abbrev Either : Ordering → Ordering → Ordering → Type 0
Either Ordering.lt _ _ = Unit
Either Ordering.eq o p = Both o p
Either Ordering.gt o p = Both o p

Both-IsProp : (o p : Ordering) → IsProp (Both o p)
Both-IsProp Ordering.lt Ordering.lt = hlevel
Both-IsProp Ordering.lt Ordering.eq = hlevel
Both-IsProp Ordering.lt Ordering.gt = hlevel
Both-IsProp Ordering.eq p = hlevel
Both-IsProp Ordering.gt p = hlevel

Either-IsProp : (m o p : Ordering) → IsProp (Either m o p)
Either-IsProp Ordering.lt o p = hlevel
Either-IsProp Ordering.eq o p = Both-IsProp o p
Either-IsProp Ordering.gt o p = Both-IsProp o p

IsScalar-IsProp : (n : ℕ) → IsProp (IsScalar n)
IsScalar-IsProp n = Either-IsProp (compare n 55296) (compare 57343 n) (compare n 1114112)

char-eq : (n m : ℕ) (p : IsScalar n) (q : IsScalar m) → n ≡ m → char n p ≡ char m q
char-eq n m p q e =
    subst (λ m. (q : IsScalar m) → char n p ≡ char m q) e (λ q. ap (char n) (IsScalar-IsProp n p q))
      q

char_discrete : Discrete Char
char_discrete (char n p) (char m q) = elim (ℕ_discrete n m) [
  | yes e ↦ yes (char-eq n m p q e)
  | no apart ↦ no (λ f. apart (ap code f))
]

pub string_discrete : Discrete String
string_discrete [] [] = yes refl
string_discrete [] (d ∷ t) = no (λ e. absurd (cc e))
string_discrete (c ∷ s) [] = no (λ e. absurd (cc e))
string_discrete (c ∷ s) (d ∷ t) = elim (char_discrete c d) [
  | no apart ↦ no (λ e. apart (cc e))
  | yes same ↦ elim (string_discrete s t) [
    | no apart ↦ no (λ e. apart (cc e))
    | yes rest ↦ yes (cc (same, rest))
  ]
]
