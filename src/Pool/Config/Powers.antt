-- ===== src/Pool/Config/Powers.antt =====
-- Which configurations PoolConfig accepts.
use Prim.Native.Nat.{bit_and}
use demiplane.Prelude.{
  ℕ, ◌-◌, ◌≤◌, ◌<◌, ◌≡◌, ◌≢◌, ◌↔◌, refl, none, false, ltb, ◌==◌, Bool-cases, inl, inr, ==_iff,
  arith,
}
use demiplane.Prelude.Masks.{pow_positive}
use demiplane.Prelude.Powers.{IsPower, bit_and-IsPower}
use demiplane.Query.Ast.{Signed, plus, minus}
use demiplane.Pool.Config.{PoolConfig, validate, not_positive}

not_zero : (x : ℕ) → (x == 0) ≡ false → x ≢ 0
not_zero x h = ground arith

abbrev pub IsPositive : Signed → Type 0
IsPositive (plus n) = 0 < n
IsPositive (minus n) = ⊥

not_positive_iff : (t : Signed) → (not_positive t ≡ none) ↔ IsPositive t
not_positive_iff (plus n) = elim (Bool-cases (n == 0)) [
  | inl e ↦ simp e ((λ h. absurd cc), λ h. absurd (ground (arith, e)))
  | inr e ↦ simp e ((λ h. ground (arith, e)), λ h. refl)
]
not_positive_iff (minus n) = ((λ h. absurd cc), λ h. absurd h)

-- `validate` throws nothing exactly when the capacity is a power of two, `min_connections` is at
-- most the capacity, and the timeout is a positive number of seconds.
pub validate_accepts :
    (c : PoolConfig)
    → (validate c ≡ none)
      ↔ (IsPower c.capacity × (c.min_connections ≤ c.capacity) × IsPositive c.connect_timeout)
unfolding validate
validate_accepts c = elim (Bool-cases (c.capacity == 0)) [
  | inl z ↦
      let empty = (==_iff c.capacity 0).0 z in
      simp z ((λ h. absurd cc), λ h. absurd (omega (arith, empty, h.0.1, pow_positive h.0.0)))
  | inr z ↦
      let power = bit_and-IsPower c.capacity (ground (arith, z)) in
      elim (Bool-cases (bit_and c.capacity (c.capacity - 1) == 0)) [
        | inr b ↦ simp (z, b) ((λ h. absurd cc), λ h. absurd (not_zero _ b (power.1 h.0)))
        | inl b ↦ elim (Bool-cases (ltb c.capacity c.min_connections)) [
          | inl m ↦ simp (z, b, m) ((λ h. absurd cc), λ h. absurd (ground (arith, h.1, m)))
          | inr m ↦
              simp (z, b, m)
                (
                  (λ h. (
                    power.0 ((==_iff _ 0).0 b),
                    ground (arith, m),
                    (not_positive_iff c.connect_timeout).0 h,
                  )),
                  λ h. (not_positive_iff c.connect_timeout).1 h.2,
                )
        ]
      ]
]
