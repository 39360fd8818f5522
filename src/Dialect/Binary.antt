-- ===== src/Dialect/Binary.antt =====
-- Binary values of PostgresDialect: the hexadecimal form of a byte string.
use demiplane.Prelude.{
  ℕ, ◌+◌, ◌*◌, ◌-◌, ◌/◌, ◌%◌, ◌<◌, ◌≡◌, refl, ap₂, true, List, [], ◌∷◌, Text, codes, length, All,
  leb, ◌==◌, if◌then◌else◌, ==_iff, arith,
}
use demiplane.Prelude.Ranges.{checks, checks_all}
use demiplane.Dialect.{hex_char, hex_bytes}

-- The value of a hexadecimal digit in lower case.
unfoldable pub hex_value : ℕ → ℕ
hex_value c = if leb c b'9' then c - b'0' else c - b'a' + 10

unfoldable pub read_hex : Text → List ℕ
unfolding hex_value
read_hex [] = []
read_hex (h ∷ []) = []
read_hex (h ∷ l ∷ cs) = (hex_value h * 16 + hex_value l) ∷ read_hex cs

nibble_table : checks (λ n. hex_value (hex_char n) == n) 16 ≡ true
unfolding checks hex_char hex_value codes
nibble_table = refl

hex_value-hex_char : (n : ℕ) → n < 16 → hex_value (hex_char n) ≡ n
hex_value-hex_char n h = (==_iff _ _).0 (checks_all _ n 16 nibble_table h)

-- The hexadecimal digits of a list of bytes, numbers below 256, read back as the bytes, two digits to
-- a byte.
pub read_hex-hex_bytes :
    (bs : List ℕ)
    → All (λ b. b < 256) bs
    → (read_hex (hex_bytes bs) ≡ bs) × (length (hex_bytes bs) ≡ 2 * length bs)
unfolding read_hex hex_bytes
read_hex-hex_bytes [] h = (refl, refl)
read_hex-hex_bytes (b ∷ bs) h = (
  ap₂ ◌∷◌
      (omega (
        arith,
        hex_value-hex_char (b / 16) (omega arith),
        hex_value-hex_char (b % 16) (omega arith),
      ))
      (read_hex-hex_bytes bs h.1).0,
  omega (arith, (read_hex-hex_bytes bs h.1).1),
)
