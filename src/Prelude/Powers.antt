-- ===== src/Prelude/Powers.antt =====
-- Powers of two, and the places of a ring that a mask finds.
use Prim.Native.Nat.{bit_and, bit_and-bitwise, digits, min}
use mathlib.Core.Path.{subst}
use native.Mathlib.Nat.{pow-suc, mod_self, add-mod_right, div-add-mod'}
use demiplane.Prelude.{
  ℕ, zero, suc, ◌+◌, ◌-◌, ◌*◌, ◌/◌, ◌%◌, ◌^◌, ◌≤◌, ◌<◌, ◌≡◌, ◌↔◌, refl, sym, ap, ◌∙◌, ltb, ◌==◌,
  Bool-cases, inl, inr, ltb→lt, ==_iff, arith,
}
use demiplane.Prelude.Masks.{bit_and-mask}

abbrev pub IsPower : ℕ → Type 0
IsPower c = (k : ℕ) × (c ≡ 2 ^ k)

digits_self : (n a : ℕ) → a ≤ n → digits (λ b. zero) min n a a ≡ a
digits_self zero zero h = refl
digits_self zero (suc a) h = absurd (omega arith)
digits_self (suc n) zero h = refl
digits_self (suc n) (suc a) h = omega (arith, digits_self n (suc a / 2) (omega arith))

doubled : (m : ℕ) → IsPower m → IsPower (m * 2)
doubled m (k, e) = (suc k, omega (arith, e, pow-suc 2 k))

digits-IsPower : (n c : ℕ) → c ≤ n → 0 < c → digits (λ b. zero) min n c (c - 1) ≡ 0 → IsPower c
digits-IsPower n zero h pos e = absurd (omega arith)
digits-IsPower zero (suc a) h pos e = absurd (omega arith)
digits-IsPower (suc n) (suc a) h pos e =
    let m = suc a / 2 in
    let low = (suc a - 1) / 2 in
    let both : digits (λ b. zero) min n m low * 2 + min (suc a % 2) ((suc a - 1) % 2) ≡ 0 = e in
    let top : digits (λ b. zero) min n m low ≡ 0 = omega (arith, both) in
    elim (Bool-cases (suc a % 2 == 0)) [
      | inl even ↦
          let rest : suc a % 2 ≡ 0 = (==_iff _ 0).0 even in
          let below : low ≡ m - 1 = omega (arith, rest) in
          let whole : m * 2 ≡ suc a = omega (arith, rest) in
          subst IsPower whole
            (doubled m (digits-IsPower n m (omega arith) (omega (arith, rest)) (rw below at top)))
      | inr odd ↦
          let rest : suc a % 2 ≡ 1 = ground (arith, odd) in
          let same : low ≡ m = omega (arith, rest) in
          let empty : digits (λ b. zero) min n m m ≡ 0 = rw same at top in
          (0, omega (arith, rest, digits_self n m (omega arith), empty))
    ]

pub bit_and-IsPower : (c : ℕ) → 0 < c → (bit_and c (c - 1) ≡ 0) ↔ IsPower c
bit_and-IsPower c pos = (
  λ e. digits-IsPower c c (omega arith) pos (sym (bit_and-bitwise c (c - 1)) ∙ e),
  λ (k, e). ap (λ (x : ℕ). bit_and x (x - 1)) e ∙ bit_and-mask (2 ^ k) k ∙ mod_self (2 ^ k),
)

mul_le : (a b m : ℕ) → a < b → (a + 1) * m ≤ b * m
mul_le a b m h = grind arith

far_apart : (s t m : ℕ) → s % m ≡ t % m → t / m < s / m → t + m ≤ s
far_apart s t m e h =
    omega (arith, e, mul_le (t / m) (s / m) m h, div-add-mod' s m, div-add-mod' t m)

-- The place of a number in a ring of `size` places.
abbrev pub place : ℕ → ℕ → ℕ
place size n = bit_and n (size - 1)

module _ {size : ℕ} (p : IsPower size) where
  place-mod : (n : ℕ) → place size n ≡ n % size
  place-mod n = rw p.1 (bit_and-mask n p.0)

  -- A full turn comes back to the place.
  pub place-add : (n : ℕ) → place size (n + size) ≡ place size n
  place-add n = place-mod (n + size) ∙ add-mod_right n size ∙ sym (place-mod n)

  -- In a window of `size` numbers each place has one number.
  pub place-injective :
      (n s t : ℕ)
      → n ≤ s
      → s < n + size
      → n ≤ t
      → t < n + size
      → place size s ≡ place size t
      → s ≡ t
  place-injective n s t a b c d e =
      let same : s % size ≡ t % size = sym (place-mod s) ∙ e ∙ place-mod t in
      elim (Bool-cases (ltb (t / size) (s / size))) [
        | inl over ↦ absurd (omega (arith, far_apart s t size same (ltb→lt _ _ over)))
        | inr level ↦ elim (Bool-cases (ltb (s / size) (t / size))) [
          | inl under ↦ absurd (omega (arith, far_apart t s size (sym same) (ltb→lt _ _ under)))
          | inr level' ↦
              let quotient : s / size ≡ t / size = ground (arith, level, level') in
              omega (
                arith,
                same,
                ap (λ (q : ℕ). q * size) quotient,
                div-add-mod' s size,
                div-add-mod' t size,
              )
        ]
      ]
