-- ===== src/Hash/Xor.antt =====
-- Exclusive or on numbers, from the digit recursion that the native operation stands for: it
-- cancels, and it stays below a power of two.
use Prim.Native.Nat.{digits, differ, bitwise, bit_xor-bitwise}
use native.Mathlib.Nat.{le_refl, pow-suc}
use go_memoize.Base.{
  ℕ, zero, suc, ◌+◌, ◌-◌, ◌*◌, ◌/◌, ◌%◌, ◌^◌, ◌≤◌, ◌<◌, bit_xor, ◌≡◌, refl, sym, ap, ◌∙◌, arith,
}

module _ (z : ℕ → ℕ) (f : ℕ → ℕ → ℕ) where
  -- Fuel beyond the number itself makes no difference.
  digits-suc : (n a b : ℕ) → a ≤ n → digits z f n a b ≡ digits z f (suc n) a b
  digits-suc zero zero b h = refl
  digits-suc zero (suc a) b h = absurd (omega arith)
  digits-suc (suc n) zero b h = refl
  digits-suc (suc n) (suc a) b h = rw (digits-suc n (suc a / 2) (b / 2) (omega arith))

  digits-spare : (d a b : ℕ) → digits z f (d + a) a b ≡ digits z f a a b
  digits-spare zero a b = ap (λ n. digits z f n a b) (omega arith)
  digits-spare (suc d) a b =
      ap (λ n. digits z f n a b) (let e : suc d + a ≡ suc (d + a) = omega arith in e)
      ∙ sym (digits-suc (d + a) a b (omega arith))
      ∙ digits-spare d a b

  bitwise-suc :
      (x y : ℕ)
      → bitwise z f (suc x) y ≡ f (suc x % 2) (y % 2) + 2 * bitwise z f (suc x / 2) (y / 2)
  bitwise-suc x y =
      let half = suc x / 2 in
      let fuel : x ≡ x - half + half = omega arith in
      let enough =
        ap (λ n. digits z f n half (y / 2)) fuel ∙ digits-spare (x - half) half (y / 2) in
      omega (arith, enough)

zero-bit_xor : (b : ℕ) → bit_xor 0 b ≡ b
zero-bit_xor b = simp bit_xor-bitwise

bit_xor_step : (a b : ℕ) → bit_xor a b ≡ bit_xor (a / 2) (b / 2) * 2 + differ (a % 2) (b % 2)
bit_xor_step zero b = omega (arith, zero-bit_xor b, zero-bit_xor (b / 2))
bit_xor_step (suc a) b = simp bit_xor-bitwise (omega (arith, bitwise-suc (λ y. y) differ a b))

-- On binary digits, `differ` is the remainder of the sum.
differ-digits : (x y : ℕ) → x < 2 → y < 2 → differ x y ≡ (x + y) % 2
differ-digits zero y p q = omega arith
differ-digits (suc zero) zero p q = refl
differ-digits (suc zero) (suc zero) p q = refl
differ-digits (suc zero) (suc (suc y)) p q = absurd (omega arith)
differ-digits (suc (suc x)) y p q = absurd (omega arith)

bit_xor_digit : (a b : ℕ) → bit_xor a b ≡ bit_xor (a / 2) (b / 2) * 2 + (a + b) % 2
bit_xor_digit a b =
    omega (arith, bit_xor_step a b, differ-digits (a % 2) (b % 2) (omega arith) (omega arith))

bit_xor-half : (a b : ℕ) → bit_xor a b / 2 ≡ bit_xor (a / 2) (b / 2)
bit_xor-half a b = omega (arith, bit_xor_digit a b)

bit_xor_cancel_fuel : (n a b : ℕ) → a ≤ n → bit_xor a (bit_xor a b) ≡ b
bit_xor_cancel_fuel n zero b h = zero-bit_xor (bit_xor 0 b) ∙ zero-bit_xor b
bit_xor_cancel_fuel zero (suc a) b h = absurd (omega arith)
bit_xor_cancel_fuel (suc n) (suc a) b h = omega (
  arith,
  bit_xor_digit (suc a) (bit_xor (suc a) b),
  bit_xor_digit (suc a) b,
  ap (bit_xor (suc a / 2)) (bit_xor-half (suc a) b),
  bit_xor_cancel_fuel n (suc a / 2) (b / 2) (omega arith),
)

-- The second operand comes back: nothing is lost.
pub bit_xor_cancel : (a b : ℕ) → bit_xor a (bit_xor a b) ≡ b
bit_xor_cancel a b = bit_xor_cancel_fuel a a b (le_refl a)

pub bit_xor-lt-pow : (w a b : ℕ) → a < 2 ^ w → b < 2 ^ w → bit_xor a b < 2 ^ w
bit_xor-lt-pow zero zero b p q = omega (arith, zero-bit_xor b)
bit_xor-lt-pow zero (suc a) b p q = absurd (omega arith)
bit_xor-lt-pow (suc w) a b p q = omega (
  arith,
  pow-suc 2 w,
  bit_xor_digit a b,
  bit_xor-lt-pow w (a / 2) (b / 2) (omega (arith, pow-suc 2 w)) (omega (arith, pow-suc 2 w)),
)
