-- ===== src/Hash/Injective.antt =====
-- What one round of the hash keeps apart: words, by the inverse of the odd prime.
use native.Mathlib.Nat.{add-mul-mod_self_right, div-add-mod', mod-eq_of_lt}
use go_memoize.Base.{ℕ, ◌+◌, ◌*◌, ◌/◌, ◌%◌, ◌<◌, bit_xor, ◌≡◌, refl, ap, sym, ◌∙◌, arith}
use go_memoize.Hash.{u64_mod, prime64, IsWord, hash_uint}
use go_memoize.Hash.Xor.{bit_xor_cancel, bit_xor-lt-pow}

-- A product modulo `m` is that of the remainder.
mod-mul-mod : (m q a : ℕ) → a % m * q % m ≡ a * q % m
mod-mul-mod m q a =
    let whole : a % m * q + a / m * q * m ≡ a * q =
      omega (arith, ap (λ (t : ℕ). t * q) (div-add-mod' a m)) in
    sym (add-mul-mod_self_right (a % m * q) (a / m * q) m) ∙ ap (λ t. t % m) whole

-- A factor that has an inverse modulo `m` can be taken back.
mul-mod_inverse : (m p q k : ℕ) → p * q ≡ 1 + k * m → (x : ℕ) → x < m → x * p % m * q % m ≡ x
mul-mod_inverse m p q k inv x hx =
    let whole : x * p * q ≡ x + x * k * m = omega (arith, ap (λ (t : ℕ). x * t) inv) in
    mod-mul-mod m q (x * p)
    ∙ ap (λ t. t % m) whole
    ∙ add-mul-mod_self_right x (x * k) m
    ∙ mod-eq_of_lt hx

mul-mod_cancel :
    (m p q k : ℕ) → p * q ≡ 1 + k * m → (x y : ℕ) → x < m → y < m → x * p % m ≡ y * p % m → x ≡ y
mul-mod_cancel m p q k inv x y hx hy e =
    sym (mul-mod_inverse m p q k inv x hx)
    ∙ ap (λ t. t * q % m) e
    ∙ mul-mod_inverse m p q k inv y hy

-- One round maps different words to different words, whatever the hash so far.
pub hash_uint_injective :
    (h x y : ℕ) → IsWord h → IsWord x → IsWord y → hash_uint h x ≡ hash_uint h y → x ≡ y
unfolding hash_uint
hash_uint_injective h x y hh hx hy e =
    let same =
      mul-mod_cancel u64_mod prime64 14886173955864302971 887285111055 refl (bit_xor h x)
        (bit_xor h y) (bit_xor-lt-pow 64 h x hh hx) (bit_xor-lt-pow 64 h y hh hy) e in
    sym (bit_xor_cancel h x) ∙ ap (bit_xor h) same ∙ bit_xor_cancel h y
