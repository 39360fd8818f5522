-- ===== src/Connection/Legible.antt =====
-- escape_connection_value (components/database/providers/postgresql/config/tools/
-- postgres_connection_tools.hpp) against the reader of libpq.
use demiplane.Prelude.Numerals.{is_space}
use demiplane.Prelude.{
  ℕ, Bool, true, false, ◌||◌, not, ◌≡◌, refl, ◌∙◌, ap, [], ◌∷◌, ◌++◌, append_assoc, append-nil,
  Text, ◌==◌, if◌then◌else◌, arith, Bool-cases, inl, inr,
}
use demiplane.Connection.Credentials.{is_empty, escape_loop, escape_connection_value}
use demiplane.Connection.Reader.{
  go, bare, quoted, before_value, between, step, found, read, Ends, read-bare_end,
}

abbrev pub is_escaped : ℕ → Bool
is_escaped c = c == b'\\' || c == 39

-- A byte for which the value is put in quotes.
abbrev pub is_quoting : ℕ → Bool
is_quoting c = is_escaped c || (c == b' ' || c == b'=')

abbrev pub needs_quoting : Text → Bool
needs_quoting [] = false
needs_quoting (c ∷ cs) = is_quoting c || needs_quoting cs

abbrev pub escaped : Text → Text
escaped [] = []
escaped (c ∷ cs) = if is_escaped c then b'\\' ∷ c ∷ escaped cs else c ∷ escaped cs

-- A tab, a newline or another blank but the space.
abbrev pub has_blank : Text → Bool
has_blank [] = false
has_blank (c ∷ cs) = is_space c || has_blank cs

-- The value is empty, needs quotes or has no blank.
abbrev pub is_legible : Text → Bool
is_legible v = needs_quoting v || not (has_blank v)

or_true : (b : Bool) → (b || true) ≡ true
or_true true = refl
or_true false = refl

or_false : (b : Bool) → (b || false) ≡ b
or_false true = refl
or_false false = refl

escape_loop_lem :
    (v : Text) (q : Bool) (done : Text)
    → escape_loop v q done ≡ (needs_quoting v || q, done ++ escaped v)
unfolding escape_loop
escape_loop_lem [] q done = rw append-nil
escape_loop_lem (c ∷ v) q done = elim (Bool-cases (is_escaped c)) [
  | inl e ↦ rw (
    e,
    escape_loop_lem v true ((done ++ b'\\' ∷ []) ++ c ∷ []),
    append_assoc,
    append_assoc,
    or_true (needs_quoting v),
  )
  | inr e ↦ elim (Bool-cases (c == b' ' || c == b'=')) [
    | inl blank ↦
        rw (
          e,
          blank,
          escape_loop_lem v true (done ++ c ∷ []),
          append_assoc,
          or_true (needs_quoting v),
        )
    | inr plain ↦ rw (e, plain, escape_loop_lem v q (done ++ c ∷ []), append_assoc)
  ]
]

pub escape-cons :
    (c : ℕ) (v : Text)
    → escape_connection_value (c ∷ v)
      ≡ (if needs_quoting (c ∷ v) then 39 ∷ (escaped (c ∷ v) ++ 39 ∷ []) else escaped (c ∷ v))
unfolding escape_connection_value
escape-cons c v = rw (escape_loop_lem (c ∷ v) false [], or_false (needs_quoting (c ∷ v)))

-- A value that needs no quotes is written as it is.
pub escaped_lem : (v : Text) → needs_quoting v ≡ false → escaped v ≡ v
escaped_lem [] h = refl
escaped_lem (c ∷ v) h = ground (arith, escaped_lem v)

read-quoted :
    (k v done rest : Text)
    → read (quoted k done) (escaped v ++ 39 ∷ rest) ≡ found (k, done ++ v) (read between rest)
unfolding read step
read-quoted k [] done rest = rw append-nil
read-quoted k (c ∷ v) done rest = elim (Bool-cases (is_escaped c)) [
  | inl e ↦ rw (e, read-quoted k v (done ++ c ∷ []) rest, append_assoc)
  | inr e ↦
      let s : step (quoted k done) c ≡ go (quoted k (done ++ c ∷ [])) = ground (arith, e) in
      rw (e, s, read-quoted k v (done ++ c ∷ []) rest, append_assoc)
]

pub read-bare :
    (k v done rest : Text)
    → needs_quoting v ≡ false
    → has_blank v ≡ false
    → read (bare k done) (v ++ rest) ≡ read (bare k (done ++ v)) rest
unfolding read
read-bare k [] done rest h b = rw append-nil
read-bare k (c ∷ v) done rest h b =
    let s : step (bare k done) c ≡ go (bare k (done ++ c ∷ [])) =
      unfold step in ground (arith, h, b) in
    rw
      (s, read-bare k v (done ++ c ∷ []) rest (ground (arith, h)) (ground (arith, b)), append_assoc)

pub read-escaped :
    (k : Text) (c : ℕ) (v rest : Text)
    → needs_quoting (c ∷ v) ≡ true
    → read (before_value k) (escape_connection_value (c ∷ v) ++ rest)
      ≡ found (k, c ∷ v) (read between rest)
unfolding read
read-escaped k c v rest h =
    rw (escape-cons c v, h)
      (ap (λ (t : Text). read (quoted k []) t) (append_assoc (escaped (c ∷ v)) (39 ∷ []) rest)
        ∙ read-quoted k (c ∷ v) [] rest)

pub escape-plain :
    (v : Text) → is_empty v ≡ false → needs_quoting v ≡ false → escape_connection_value v ≡ v
escape-plain [] p h = cc
escape-plain (c ∷ v) p h = rw (escape-cons c v, h) (escaped_lem (c ∷ v) h)

read-plain :
    (k : Text) (c : ℕ) (v rest : Text)
    → needs_quoting (c ∷ v) ≡ false
    → has_blank (c ∷ v) ≡ false
    → Ends rest
    → read (before_value k) (c ∷ (v ++ rest)) ≡ found (k, c ∷ v) (read between rest)
unfolding read
read-plain k c v rest h b e =
    let s : step (before_value k) c ≡ go (bare k (c ∷ [])) = unfold step in ground (arith, h, b) in
    rw (s, read-bare k v (c ∷ []) rest (ground (arith, h)) (ground (arith, b)))
      (read-bare_end k (c ∷ v) rest e)

-- A legible value is read back, up to its end.
pub read-escape_connection_value :
    (k v rest : Text)
    → is_legible v ≡ true
    → Ends rest
    → read (before_value k) (escape_connection_value v ++ rest) ≡ found (k, v) (read between rest)
unfolding escape_connection_value read step
read-escape_connection_value k [] rest h e = refl
read-escape_connection_value k (c ∷ v) rest h e = elim (Bool-cases (needs_quoting (c ∷ v))) [
  | inl q ↦ read-escaped k c v rest q
  | inr q ↦ rw (escape-plain (c ∷ v) refl q) (read-plain k c v rest q (ground (arith, h, q)) e)
]
