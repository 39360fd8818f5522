-- ===== src/Prelude/Numerals.antt =====
-- Numbers in texts, as the C++ library reads and writes them.
use demiplane.Prelude.{
  ℕ, zero, suc, ◌+◌, ◌-◌, ◌*◌, ◌/◌, ◌%◌, Bool, true, false, ◌&&◌, ◌||◌, not, [], ◌∷◌, Text, ltb,
  leb, ◌==◌, if◌then◌else◌,
}

-- `std::isspace` in the C locale.
abbrev pub is_space : ℕ → Bool
is_space c = c == b' ' || (leb 9 c && leb c 13)

abbrev pub is_digit : ℕ → Bool
is_digit c = leb b'0' c && leb c b'9'

-- The number that the leading digits of a text spell, after the digits that were read before.
unfoldable pub leading_number : ℕ → Text → ℕ
leading_number n [] = n
leading_number n (c ∷ cs) =
    let more = leading_number (n * 10 + (c - b'0')) cs in if is_digit c then more else n

-- What `std::stoi` does: a number by its sign and magnitude, or one of its two exceptions.
pub data Stoi : Type 0 where
  positive negative : ℕ → Stoi
  no_conversion out_of_range : Stoi

unfoldable pub signed_number : Bool → Text → Stoi
unfolding leading_number
signed_number minus [] = no_conversion
signed_number minus (c ∷ cs) =
    let n = leading_number 0 (c ∷ cs) in
    if not (is_digit c)
    then no_conversion
    else if minus
    then (if ltb 2147483648 n then out_of_range else negative n)
    else if ltb 2147483647 n
    then out_of_range
    else positive n

unfoldable pub stoi : Text → Stoi
unfolding signed_number
stoi [] = no_conversion
stoi (c ∷ cs) =
    let skipped = stoi cs in
    if is_space c
    then skipped
    else if c == b'-'
    then signed_number true cs
    else if c == b'+'
    then signed_number false cs
    else signed_number false (c ∷ cs)

-- `std::from_chars` of an `int`: no blanks and no plus sign.
unfoldable pub from_chars : Text → Stoi
unfolding signed_number
from_chars [] = no_conversion
from_chars (c ∷ cs) = if c == b'-' then signed_number true cs else signed_number false (c ∷ cs)

-- `std::to_string` of a count: the decimal digits before those in `buffer`.
unfoldable pub to_string_loop : ℕ → ℕ → Text → Text
to_string_loop zero n buffer = buffer
to_string_loop (suc fuel) n buffer =
    let more = to_string_loop fuel (n / 10) ((b'0' + n % 10) ∷ buffer) in
    if ltb n 10 then (b'0' + n) ∷ buffer else more

unfoldable pub to_string : ℕ → Text
unfolding to_string_loop
to_string n = to_string_loop (suc n) n []
