-- ===== src/Dialect/Tests.antt =====
-- The texts of PostgresDialect at concrete values.
use demiplane.Prelude.{◌≡◌, ◌≢◌, refl, some, [], ◌∷◌, ◌++◌, Text, codes, length, arith}
use demiplane.Dialect.{quote_identifier, format_string_value, hex_bytes, format_binary_data}
use demiplane.Dialect.Quoting.{
  read_quoted, double_backslashes, read_quoted-quote_identifier, read_quoted-format_string_value,
  format_string_value_corrupts,
}
use demiplane.Dialect.Binary.{read_hex, read_hex-hex_bytes}

-- A name with a quote in it: a, a quote, b.
abbrev odd_name : Text
odd_name = 97 ∷ 34 ∷ 98 ∷ []

-- A value with an apostrophe and a backslash in it.
abbrev odd_value : Text
odd_value = 97 ∷ 39 ∷ 92 ∷ []

quoted_name : quote_identifier odd_name ≡ 34 ∷ 97 ∷ 34 ∷ 34 ∷ 98 ∷ 34 ∷ []
unfolding quote_identifier
quoted_name = refl

hex_text : format_binary_data (202 ∷ 254 ∷ []) ≡ 39 ∷ 92 ∷ b'x' ∷ (codes "cafe" ++ 39 ∷ [])
unfolding format_binary_data codes
hex_text = refl

read_quoted-quote_identifier_example :
    (tail : Text) × (quote_identifier odd_name ++ 32 ∷ [] ≡ 34 ∷ tail)
    × (read_quoted 34 tail ≡ some (odd_name, 32 ∷ []))
read_quoted-quote_identifier_example = read_quoted-quote_identifier odd_name (32 ∷ []) (omega arith)

read_quoted-format_string_value_example :
    (tail : Text) × (format_string_value odd_value ++ 41 ∷ [] ≡ 39 ∷ tail)
    × (read_quoted 39 tail ≡ some (double_backslashes odd_value, 41 ∷ []))
read_quoted-format_string_value_example =
    read_quoted-format_string_value odd_value (41 ∷ []) (omega arith)

format_string_value_corrupts_example :
    read_quoted 39 (97 ∷ 39 ∷ 39 ∷ 92 ∷ 92 ∷ 39 ∷ []) ≢ some (odd_value, [])
unfolding format_string_value
format_string_value_corrupts_example =
    format_string_value_corrupts odd_value (97 ∷ 39 ∷ 39 ∷ 92 ∷ 92 ∷ 39 ∷ []) (omega arith) refl

read_hex-hex_bytes_run :
    (read_hex (hex_bytes (202 ∷ 254 ∷ [])) ≡ 202 ∷ 254 ∷ [])
    × (length (hex_bytes (202 ∷ 254 ∷ [])) ≡ 4)
read_hex-hex_bytes_run = read_hex-hex_bytes (202 ∷ 254 ∷ []) (omega arith, (omega arith, tt))
