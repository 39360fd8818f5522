-- ===== src/Dialect.antt =====
-- PostgresDialect (components/database/providers/postgresql/dialect): the bytes of identifiers,
-- placeholders, limits and values. A function that appends to `out` returns what it appends.
-- `std::to_chars` of the integers and of the floating-point numbers is a parameter.
pub mod Quoting
pub mod Binary
pub mod Tests
use Prim.Native.String.{String}
use demiplane.Prelude.{
  ℕ, ◌+◌, ◌/◌, ◌%◌, ◌<◌, Bool, List, [], ◌∷◌, ◌++◌, Text, codes, get_or, ltb, ◌==◌, if◌then◌else◌,
}
use demiplane.Gears.ToString.{constexpr_to_string}
use demiplane.Query.Ast.{
  FieldValue, null, bool, char, int16, int32, int64, uint16, uint32, uint64, float, double, string,
  string_view, bytes, byte_span, Signed,
}
use demiplane.Query.Visitor.{
  Plain, Piece, text, identifier, limit_clause, plain, placeholder, value,
}

-- `std::to_chars` without a format: of an integer, and of a float and a double by their bits.
pub record ToChars : Type 0 where
  pub signed_chars : Signed → Text
  pub unsigned_chars : ℕ → Text
  pub float_chars : ℕ → Text
  pub double_chars : ℕ → Text

unfoldable pub escape_char : ℕ → Text
escape_char c = if c == 39 then 39 ∷ 39 ∷ [] else if c == 92 then 92 ∷ 92 ∷ [] else c ∷ []

unfoldable pub escape_string : Text → Text
unfolding escape_char
escape_string [] = []
escape_string (c ∷ str) = escape_char c ++ escape_string str

unfoldable pub escape_identifier : Text → Text
escape_identifier [] = []
escape_identifier (c ∷ name) =
    (if c == b'"' then b'"' ∷ b'"' ∷ [] else c ∷ []) ++ escape_identifier name

unfoldable pub quote_identifier : Text → Text
unfolding escape_identifier
quote_identifier name = b'"' ∷ (escape_identifier name ++ b'"' ∷ [])

unfoldable pub placeholder_text : ℕ → Text
unfolding constexpr_to_string
placeholder_text index = b'$' ∷ constexpr_to_string index

unfoldable pub limit_text : ℕ → ℕ → Text
unfolding constexpr_to_string codes
limit_text limit offset =
    codes " LIMIT "
    ++ (constexpr_to_string limit
        ++ (if ltb 0 offset then codes " OFFSET " ++ constexpr_to_string offset else []))

hex_char : ℕ → ℕ
unfolding codes
hex_char i = get_or (codes "0123456789abcdef") i 0

unfoldable pub hex_bytes : List ℕ → Text
unfolding hex_char
hex_bytes [] = []
hex_bytes (byte ∷ rest) = hex_char (byte / 16) ∷ hex_char (byte % 16) ∷ hex_bytes rest

-- '\x...': the apostrophe, a backslash and an x, the digits, the apostrophe.
unfoldable pub format_binary_data : List ℕ → Text
unfolding hex_bytes
format_binary_data bs = 39 ∷ 92 ∷ b'x' ∷ (hex_bytes bs ++ 39 ∷ [])

unfoldable pub format_string_value : Text → Text
unfolding escape_string
format_string_value val = 39 ∷ (escape_string val ++ 39 ∷ [])

module _ (std : ToChars) where
  unfoldable pub format_value : FieldValue → Text
  unfolding codes escape_char format_string_value format_binary_data
  format_value null = codes "NULL"
  format_value (bool val) = if val then codes "TRUE" else codes "FALSE"
  format_value (char val) = 39 ∷ (escape_char val ++ 39 ∷ [])
  format_value (int16 val) = std.signed_chars val
  format_value (int32 val) = std.signed_chars val
  format_value (int64 val) = std.signed_chars val
  format_value (uint16 val) = std.unsigned_chars val
  format_value (uint32 val) = std.unsigned_chars val
  format_value (uint64 val) = std.unsigned_chars val
  format_value (float val) = std.float_chars val
  format_value (double val) = std.double_chars val
  format_value (string val) = format_string_value val
  format_value (string_view val) = format_string_value val
  format_value (bytes val) = format_binary_data val
  format_value (byte_span val) = format_binary_data val

  -- The bytes that the pieces append to `sql_`.
  unfoldable pub render : List Piece → Text
  unfolding quote_identifier limit_text placeholder_text format_value
  render [] = []
  render (plain (text t) ∷ ps) = t ++ render ps
  render (plain (identifier n) ∷ ps) = quote_identifier n ++ render ps
  render (plain (limit_clause limit offset) ∷ ps) = limit_text limit offset ++ render ps
  render (placeholder n ∷ ps) = placeholder_text n ++ render ps
  render (value x ∷ ps) = format_value x ++ render ps
