-- ===== src/Dialect/Quoting.antt =====
-- What a reader of SQL makes of the quoted texts of PostgresDialect.
use demiplane.Prelude.{
  ℕ, ◌+◌, ◌<◌, ◌≡◌, ◌≢◌, refl, ap, true, false, [], ◌∷◌, ◌++◌, append_assoc, Text, Option, none,
  some, ◌==◌, if◌then◌else◌, Bool-cases, inl, inr, arith, sym, length, ==_iff, ◌∙◌,
}
use mathlib.Core.Option
use demiplane.Dialect.{escape_string, escape_identifier, quote_identifier, format_string_value}

-- Reads a text in which `q` is written twice, up to the `q` that closes it; gives the text and what
-- follows it.
unfoldable pub read_quoted : ℕ → Text → Option (Text × Text)
read_quoted q [] = none
read_quoted q (c ∷ []) = if c == q then some ([], []) else none
read_quoted q (c ∷ d ∷ cs) =
    let doubled = Option.map (λ (r : Text × Text). (c ∷ r.0, r.1)) (read_quoted q cs) in
    let longer = Option.map (λ (r : Text × Text). (c ∷ r.0, r.1)) (read_quoted q (d ∷ cs)) in
    if c == q then (if d == q then doubled else some ([], d ∷ cs)) else longer

-- The text does not go on with `q`.
abbrev pub NotNext : ℕ → Text → Type 0
NotNext q [] = Unit {0}
NotNext q (c ∷ cs) = c ≢ q

read_close : (q : ℕ) (rest : Text) → NotNext q rest → read_quoted q (q ∷ rest) ≡ some ([], rest)
unfolding read_quoted
read_close q [] h = ground arith
read_close q (d ∷ rest) h = ground arith

abbrev add : ℕ → Option (Text × Text) → Option (Text × Text)
add c = Option.map (λ (r : Text × Text). (c ∷ r.0, r.1))

eq_self : (q : ℕ) → (q == q) ≡ true
eq_self q = (==_iff q q).1 refl

ne_test : (c q : ℕ) → c ≢ q → (c == q) ≡ false
ne_test c q h = ground arith

read_doubled : (q : ℕ) (cs : Text) → read_quoted q (q ∷ q ∷ cs) ≡ add q (read_quoted q cs)
unfolding read_quoted
read_doubled q cs = rw (eq_self q)

read_other :
    (q c : ℕ) (xs : Text) (d : ℕ) (ys : Text)
    → c ≢ q
    → read_quoted q (c ∷ (xs ++ d ∷ ys)) ≡ add c (read_quoted q (xs ++ d ∷ ys))
unfolding read_quoted
read_other q c [] d ys h = rw (ne_test c q h)
read_other q c (x ∷ xs) d ys h = rw (ne_test c q h)

read_identifier :
    (name rest : Text)
    → NotNext b'"' rest
    → read_quoted b'"' (escape_identifier name ++ b'"' ∷ rest) ≡ some (name, rest)
unfolding escape_identifier
read_identifier [] rest h = read_close b'"' rest h
read_identifier (c ∷ name) rest h = elim (Bool-cases (c == b'"')) [
  | inl e ↦
      rw (e, read_doubled, read_identifier name rest h)
        (ap (λ (d : ℕ). some (d ∷ name, rest)) (sym ((==_iff c b'"').0 e)))
  | inr e ↦ rw (
    e,
    read_other b'"' c (escape_identifier name) b'"' rest (ground arith),
    read_identifier name rest h,
  )
]

-- A quoted identifier is read back as the name that was given, whatever its bytes, and the reader
-- stops at its closing quote.
pub read_quoted-quote_identifier :
    (name rest : Text)
    → NotNext b'"' rest
    → (tail : Text) × (quote_identifier name ++ rest ≡ b'"' ∷ tail)
      × (read_quoted b'"' tail ≡ some (name, rest))
unfolding quote_identifier
read_quoted-quote_identifier name rest h = (
  escape_identifier name ++ b'"' ∷ rest,
  ap (◌∷◌ b'"') (append_assoc (escape_identifier name) _ rest),
  read_identifier name rest h,
)

-- Every backslash written twice.
unfoldable pub double_backslashes : Text → Text
double_backslashes [] = []
double_backslashes (c ∷ cs) =
    if c == 92 then 92 ∷ 92 ∷ double_backslashes cs else c ∷ double_backslashes cs

read_string :
    (val rest : Text)
    → NotNext 39 rest
    → read_quoted 39 (escape_string val ++ 39 ∷ rest) ≡ some (double_backslashes val, rest)
unfolding escape_string double_backslashes
read_string [] rest h = read_close 39 rest h
read_string (c ∷ val) rest h = elim (Bool-cases (c == 39)) [
  | inl e ↦
      let is_quote = (==_iff c 39).0 e in rw (e, read_doubled, read_string val rest h) (rw is_quote)
  | inr e ↦ elim (Bool-cases (c == 92)) [
    | inl b ↦ rw (
      e,
      b,
      read_other 39 92 (92 ∷ escape_string val) 39 rest (omega arith),
      read_other 39 92 (escape_string val) 39 rest (omega arith),
      read_string val rest h,
    )
    | inr b ↦
        rw
          (e, b, read_other 39 c (escape_string val) 39 rest (ground arith), read_string val rest h)
  ]
]

-- A string value cannot break out of its literal: a reader for which an apostrophe is written twice
-- and a backslash is an ordinary byte, as PostgreSQL reads with standard_conforming_strings, stops
-- at its closing apostrophe, and has read the value with each backslash doubled.
pub read_quoted-format_string_value :
    (val rest : Text)
    → NotNext 39 rest
    → (tail : Text) × (format_string_value val ++ rest ≡ 39 ∷ tail)
      × (read_quoted 39 tail ≡ some (double_backslashes val, rest))
unfolding format_string_value
read_quoted-format_string_value val rest h = (
  escape_string val ++ 39 ∷ rest,
  ap (◌∷◌ 39) (append_assoc (escape_string val) _ rest),
  read_string val rest h,
)

-- The number of backslashes.
abbrev pub backslashes : Text → ℕ
backslashes [] = 0
backslashes (c ∷ cs) = (if c == 92 then 1 else 0) + backslashes cs

length-double_backslashes :
    (val : Text) → length (double_backslashes val) ≡ length val + backslashes val
unfolding double_backslashes
length-double_backslashes [] = omega arith
length-double_backslashes (c ∷ val) = ground (arith, length-double_backslashes val)

abbrev read_length : Option (Text × Text) → ℕ
read_length none = 0
read_length (some r) = length r.0

-- A reader for which an apostrophe is written twice and a backslash is an ordinary byte never reads
-- back a string value that contains a backslash.
pub format_string_value_corrupts :
    (val tail : Text)
    → 0 < backslashes val
    → format_string_value val ≡ 39 ∷ tail
    → read_quoted 39 tail ≢ some (val, [])
unfolding format_string_value
format_string_value_corrupts val tail b e r =
    let same : escape_string val ++ 39 ∷ [] ≡ tail = cc in
    omega (
      arith,
      length-double_backslashes val,
      ap read_length (sym (read_string val [] tt) ∙ ap (read_quoted 39) same ∙ r),
    )
