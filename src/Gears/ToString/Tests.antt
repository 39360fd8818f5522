-- ===== src/Gears/ToString/Tests.antt =====
-- constexpr_to_string at concrete values.
use demiplane.Prelude.{◌≡◌, refl, codes}
use demiplane.Gears.ToString.{constexpr_to_string}
use demiplane.Gears.ToString.Decimal.{IsNumeral, of_digits, of_digits-constexpr_to_string}

constexpr_to_string_seven_digits : constexpr_to_string 1234567 ≡ codes "1234567"
unfolding constexpr_to_string codes
constexpr_to_string_seven_digits = refl

of_digits-constexpr_to_string_example :
    (of_digits 0 (constexpr_to_string 1203) ≡ 1203) × IsNumeral (constexpr_to_string 1203)
of_digits-constexpr_to_string_example = of_digits-constexpr_to_string 1203
