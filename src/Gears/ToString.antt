-- ===== src/Gears/ToString.antt =====
-- gears::constexpr_to_string for unsigned integers (common/gears/utilities/gears_utils.hpp).
-- The buffer is written from its front and read from its last written byte, so the list of what was
-- written, newest first, is the result. A round of the loop divides by 100: as many rounds as the
-- value is large are enough.
pub mod Decimal
pub mod Tests
use demiplane.Prelude.{
  ℕ, zero, suc, ◌+◌, ◌-◌, ◌*◌, ◌/◌, ◌%◌, ◌^◌, ◌≤◌, ◌<◌, ◌≡◌, refl, Bool, true, false, List, [], ◌∷◌,
  Text, codes, length, get_or, ltb, ◌==◌, if◌then◌else◌, Bool-cases, inl, inr, ==_iff, arith, ◌&&◌,
}

-- Two digits for each number below 100.
digit_table : Text
unfolding codes
digit_table =
    codes
      "00010203040506070809101112131415161718192021222324252627282930313233343536373839404142434445464748495051525354555657585960616263646566676869707172737475767778798081828384858687888990919293949596979899"

-- `digits[idx]` and `digits[idx + 1]` at `idx = n * 2`.
tens_char : ℕ → ℕ
unfolding digit_table
tens_char n = get_or digit_table (n * 2) 0

units_char : ℕ → ℕ
unfolding digit_table
units_char n = get_or digit_table (n * 2 + 1) 0

-- The last one or two digits.
head_digits : ℕ → Text → Text
head_digits temp buffer =
    if ltb temp 10 then (b'0' + temp) ∷ buffer else tens_char temp ∷ units_char temp ∷ buffer

unfoldable pub digits_loop : ℕ → ℕ → Text → Text
unfolding head_digits tens_char units_char
digits_loop zero temp buffer = head_digits temp buffer
digits_loop (suc fuel) temp buffer =
    let rest =
      digits_loop fuel (temp / 100) (tens_char (temp % 100) ∷ units_char (temp % 100) ∷ buffer) in
    if ltb temp 100 then head_digits temp buffer else rest

unfoldable pub constexpr_to_string : ℕ → Text
unfolding digits_loop
constexpr_to_string value = if value == 0 then b'0' ∷ [] else digits_loop value value []
