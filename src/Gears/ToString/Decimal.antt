-- ===== src/Gears/ToString/Decimal.antt =====
-- constexpr_to_string against decimal numbers and the size of its buffer.
use native.Mathlib.Nat.{pow-suc}
use demiplane.Prelude.{
  ℕ, zero, suc, ◌+◌, ◌-◌, ◌*◌, ◌/◌, ◌%◌, ◌^◌, ◌≤◌, ◌<◌, ◌≡◌, refl, sym, ◌∙◌, true, [], ◌∷◌, Text,
  codes, length, All, ltb, ◌==◌, Bool-cases, inl, inr, ==_iff, arith,
}
use demiplane.Prelude.Ranges.{checks, checks_all}
use demiplane.Gears.ToString.{tens_char, units_char, head_digits, digits_loop, constexpr_to_string}

-- The number that a text of digits stands for, read from the left.
abbrev pub of_digits : ℕ → Text → ℕ
of_digits acc [] = acc
of_digits acc (c ∷ cs) = of_digits (acc * 10 + (c - b'0')) cs

abbrev pub IsDigit : ℕ → Type 0
IsDigit c = (b'0' ≤ c) × (c ≤ b'9')

tens_table : checks (λ n. tens_char n == b'0' + n / 10) 100 ≡ true
unfolding checks tens_char codes
tens_table = refl

units_table : checks (λ n. units_char n == b'0' + n % 10) 100 ≡ true
unfolding checks units_char codes
units_table = refl

tens_char_lem : (n : ℕ) → n < 100 → tens_char n ≡ b'0' + n / 10
tens_char_lem n h = (==_iff _ _).0 (checks_all _ n 100 tens_table h)

units_char_lem : (n : ℕ) → n < 100 → units_char n ≡ b'0' + n % 10
units_char_lem n h = (==_iff _ _).0 (checks_all _ n 100 units_table h)

of_digits-cong : (a b : ℕ) (cs : Text) → a ≡ b → of_digits a cs ≡ of_digits b cs
of_digits-cong a b cs e = rw e

of_digits_pair :
    (acc n : ℕ) (cs : Text)
    → n < 100
    → of_digits acc (tens_char n ∷ units_char n ∷ cs) ≡ of_digits (acc * 100 + n) cs
of_digits_pair acc n cs h =
    of_digits-cong _ _ cs (omega (arith, tens_char_lem n h, units_char_lem n h))

of_digits-head_digits :
    (n : ℕ) (cs : Text) → n < 100 → of_digits 0 (head_digits n cs) ≡ of_digits n cs
unfolding head_digits
of_digits-head_digits n cs h = elim (Bool-cases (ltb n 10)) [
  | inl e ↦ rw e (of_digits-cong _ _ cs (omega arith))
  | inr e ↦ rw e (of_digits_pair 0 n cs h ∙ of_digits-cong _ _ cs (omega arith))
]

of_digits-digits_loop :
    (fuel n : ℕ) (cs : Text) → n ≤ fuel → of_digits 0 (digits_loop fuel n cs) ≡ of_digits n cs
unfolding digits_loop
of_digits-digits_loop zero n cs h = of_digits-head_digits n cs (omega arith)
of_digits-digits_loop (suc fuel) n cs h = elim (Bool-cases (ltb n 100)) [
  | inl e ↦ rw e (of_digits-head_digits n cs (ground arith))
  | inr e ↦ rw e (
      of_digits-digits_loop fuel (n / 100) _ (ground arith)
      ∙ of_digits_pair (n / 100) (n % 100) cs (omega arith)
      ∙ of_digits-cong _ _ cs (omega arith))
]

pair-IsDigit :
    (n : ℕ) (cs : Text) → n < 100 → All IsDigit cs → All IsDigit (tens_char n ∷ units_char n ∷ cs)
pair-IsDigit n cs h d = (omega (arith, tens_char_lem n h), (omega (arith, units_char_lem n h), d))

head_digits-IsDigit :
    (n : ℕ) (cs : Text) → n < 100 → All IsDigit cs → All IsDigit (head_digits n cs)
unfolding head_digits
head_digits-IsDigit n cs h d = elim (Bool-cases (ltb n 10)) [
  | inl e ↦ rw e ((omega arith, ground arith), d)
  | inr e ↦ rw e (pair-IsDigit n cs h d)
]

digits_loop-IsDigit :
    (fuel n : ℕ) (cs : Text) → n ≤ fuel → All IsDigit cs → All IsDigit (digits_loop fuel n cs)
unfolding digits_loop
digits_loop-IsDigit zero n cs h d = head_digits-IsDigit n cs (omega arith) d
digits_loop-IsDigit (suc fuel) n cs h d = elim (Bool-cases (ltb n 100)) [
  | inl e ↦ rw e (head_digits-IsDigit n cs (ground arith) d)
  | inr e ↦ rw e (
      digits_loop-IsDigit fuel (n / 100) _ (ground arith)
        (pair-IsDigit (n % 100) cs (omega arith) d))
]

StartsNonzero : Text → Type 0
StartsNonzero [] = ⊥
StartsNonzero (c ∷ cs) = b'1' ≤ c

digits_loop-StartsNonzero :
    (fuel n : ℕ) (cs : Text) → n ≤ fuel → 0 < n → StartsNonzero (digits_loop fuel n cs)
unfolding digits_loop head_digits StartsNonzero
digits_loop-StartsNonzero zero n cs h more = absurd (omega arith)
digits_loop-StartsNonzero (suc fuel) n cs h more = elim (Bool-cases (ltb n 100)) [
  | inl e ↦ elim (Bool-cases (ltb n 10)) [
    | inl k ↦ rw (e, k) (omega arith)
    | inr k ↦
        rw (e, k)
          (let shown = tens_char_lem n (ground arith) in
            let big : 10 ≤ n = ground (arith, k) in omega (arith, shown, big))
  ]
  | inr e ↦ rw e (digits_loop-StartsNonzero fuel (n / 100) _ (ground arith) (ground arith))
]

-- Decimal notation: digits, at least one, and no 0 before another digit.
abbrev pub IsNumeral : Text → Type 0
IsNumeral [] = ⊥
IsNumeral (c ∷ []) = IsDigit c
IsNumeral (c ∷ d ∷ cs) = (b'1' ≤ c) × (c ≤ b'9') × All IsDigit (d ∷ cs)

numeral : (t : Text) → All IsDigit t → StartsNonzero t → IsNumeral t
unfolding StartsNonzero
numeral [] d s = s
numeral (c ∷ []) d s = d.0
numeral (c ∷ x ∷ cs) d s = (s, d.0.1, d.1)

-- Every value is printed in decimal notation: digits only, at least one, with no 0 before another
-- digit, and the number that they stand for is the value.
pub of_digits-constexpr_to_string :
    (n : ℕ) → (of_digits 0 (constexpr_to_string n) ≡ n) × IsNumeral (constexpr_to_string n)
unfolding constexpr_to_string
of_digits-constexpr_to_string n = elim (Bool-cases (n == 0)) [
  | inl e ↦ rw e (sym ((==_iff n 0).0 e), (omega arith, omega arith))
  | inr e ↦ rw e (
    of_digits-digits_loop n n [] (omega arith),
    numeral (digits_loop n n []) (digits_loop-IsDigit n n [] (omega arith) tt)
        (digits_loop-StartsNonzero n n [] (omega arith) (ground (arith, e))),
  )
]

length-digits_loop :
    (k fuel n : ℕ) (cs : Text)
    → n < 100 ^ suc k
    → length (digits_loop fuel n cs) ≤ length cs + (k + k + 2)
unfolding digits_loop head_digits
length-digits_loop k zero n cs h = ground arith
length-digits_loop zero (suc fuel) n cs h = ground arith
length-digits_loop (suc k) (suc fuel) n cs h = elim (Bool-cases (ltb n 100)) [
  | inl e ↦ rw e (ground arith)
  | inr e ↦ rw e (
      omega (
        arith,
        length-digits_loop k fuel (n / 100) (tens_char (n % 100) ∷ units_char (n % 100) ∷ cs)
            (omega (arith, pow-suc 100 (suc k))),
      ))
]

-- A 64-bit value is printed with decimal digits only, and with 20 of them at most, so the buffer
-- is never written past its end.
constexpr_to_string_digits :
    (n : ℕ)
    → n < 2 ^ 64
    → All IsDigit (constexpr_to_string n) × (length (constexpr_to_string n) ≤ 20)
unfolding constexpr_to_string
constexpr_to_string_digits n h = elim (Bool-cases (n == 0)) [
  | inl e ↦ rw e (omega arith, omega arith)
  | inr e ↦
      rw e (digits_loop-IsDigit n n [] (omega arith) tt, length-digits_loop 9 n n [] (omega arith))
]
