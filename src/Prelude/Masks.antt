-- ===== src/Prelude/Masks.antt =====
-- Masking with 2 ^ k - 1, and the rounds of a masked scan.
use Prim.Native.Nat.{bit_and, bit_and-bitwise, digits, min}
use native.Mathlib.Nat.{
  pow-suc, zero-mod, mod-lt, mod-eq_of_lt, div-add-mod', add-mul-mod_self_right, mod-add-mod,
  add-mod_right,
}
use demiplane.Prelude.{
  ℕ, zero, suc, ◌+◌, ◌-◌, ◌*◌, ◌/◌, ◌%◌, ◌^◌, ◌≤◌, ◌<◌, ◌≡◌, refl, sym, ap, ◌∙◌, leb, Bool-cases,
  inl, inr, arith,
}

double_mod : (a m : ℕ) → 0 < m → a % (m * 2) ≡ (a / 2 % m) * 2 + a % 2
double_mod a m h =
    let low = (a / 2 % m) * 2 + a % 2 in
    let quotient = a / 2 / m in
    let small : low < m * 2 = omega (arith, mod-lt (a / 2) h) in
    let split : a ≡ low + quotient * (m * 2) = omega (arith, div-add-mod' (a / 2) m) in
    ap (λ (x : ℕ). x % (m * 2)) split
    ∙ add-mul-mod_self_right low quotient (m * 2)
    ∙ mod-eq_of_lt small

min_bit : (b : ℕ) → b < 2 → min b 1 ≡ b
min_bit zero h = refl
min_bit (suc zero) h = refl
min_bit (suc (suc b)) h = absurd (omega arith)

min_zero : (b : ℕ) → min b 0 ≡ 0
min_zero b = omega arith

pub pow_positive : (k : ℕ) → 0 < 2 ^ k
pow_positive zero = omega arith
pow_positive (suc k) = omega (arith, pow_positive k)

digits-mask : (n a k : ℕ) → a ≤ n → digits (λ b. zero) min n a (2 ^ k - 1) ≡ a % 2 ^ k
digits-mask zero zero k h = sym (zero-mod (2 ^ k))
digits-mask zero (suc a) k h = absurd (omega arith)
digits-mask (suc n) zero k h = sym (zero-mod (2 ^ k))
digits-mask (suc n) (suc a) zero h =
    omega (arith, digits-mask n (suc a / 2) zero (omega arith), min_zero (suc a % 2))
digits-mask (suc n) (suc a) (suc k) h =
    let positive = pow_positive k in
    let half : (2 ^ suc k - 1) / 2 ≡ 2 ^ k - 1 = omega (arith, pow-suc 2 k) in
    let odd : (2 ^ suc k - 1) % 2 ≡ 1 = omega (arith, pow-suc 2 k) in
    rw (half, odd, digits-mask n (suc a / 2) k (omega arith), min_bit (suc a % 2) (omega arith))
      (sym (double_mod (suc a) (2 ^ k) positive) ∙ ap (◌%◌ (suc a)) (sym (pow-suc 2 k)))

pub bit_and-mask : (a k : ℕ) → bit_and a (2 ^ k - 1) ≡ a % 2 ^ k
bit_and-mask a k = bit_and-bitwise a (2 ^ k - 1) ∙ digits-mask a a k (omega arith)

-- The round in which a scan from `at` of `m` places comes to a place.
pub round_of : (at m place : ℕ) → place < m → (j : ℕ) × (j < m) × ((at + j) % m ≡ place)
round_of at m place h =
    let r = at % m in
    let small : r < m = mod-lt at (omega arith) in
    elim (Bool-cases (leb r place)) [
      | inl e ↦ (
        place - r,
        ground (arith, small),
        sym (mod-add-mod at m (place - r))
            ∙ ap (λ (x : ℕ). x % m) (ground (arith, small))
            ∙ mod-eq_of_lt h,
      )
      | inr e ↦ (
        place + m - r,
        ground (arith, small),
        sym (mod-add-mod at m (place + m - r))
            ∙ ap (λ (x : ℕ). x % m) (ground (arith, small))
            ∙ add-mod_right place m
            ∙ mod-eq_of_lt h,
      )
    ]
