-- ===== src/Connection/Illegible.antt =====
-- Values that libpq does not read back from escape_connection_value (components/database/providers/
-- postgresql/config/tools/postgres_connection_tools.hpp).
use mathlib.Core.Path.{subst}
use demiplane.Prelude.Numerals.{is_space}
use demiplane.Prelude.{
  ℕ, Bool, true, false, ◌||◌, ◌≡◌, ◌≢◌, refl, suc, ap, Option, none, some, List, [], ◌∷◌, ◌++◌, ◌+◌,
  ◌<◌, not, Text, length, length-append, ◌==◌, arith, Bool-cases, inl, inr,
}
use demiplane.Connection.Credentials.{escape_connection_value}
use demiplane.Connection.Reader.{
  Pair, go, emit, bare, bare_escape, before_value, between, step, finish, found, read,
}
use demiplane.Connection.Legible.{is_legible, needs_quoting, has_blank, escape-plain}
use demiplane.Connection.Parameters.{write}
use demiplane.Connection.Keys.{AllKeys}

-- What holds of the first value, if there is one.
abbrev pub FirstValue : (Text → Type 0) → Option (List Pair) → Type 0
FirstValue P none = Unit
FirstValue P (some []) = Unit
FirstValue P (some ((k, v) ∷ ps)) = P v

FirstValue-found :
    (P : Text → Type 0) (k v : Text) (o : Option (List Pair)) → P v → FirstValue P (found (k, v) o)
FirstValue-found P k v none h = tt
FirstValue-found P k v (some ps) h = h

abbrev BeginsDark : Text → Type 0
BeginsDark [] = Unit
BeginsDark (c ∷ v) = is_space c ≡ false

mutual
  unfolding read step finish

  bare-BeginsDark :
      (k v xs : Text) (c : ℕ)
      → is_space c ≡ false
      → FirstValue BeginsDark (read (bare k (c ∷ v)) xs)
  bare-BeginsDark k v [] c h = h
  bare-BeginsDark k v (x ∷ xs) c h = elim (Bool-cases (is_space x)) [
    | inl e ↦ rw e (FirstValue-found BeginsDark k (c ∷ v) (read between xs) h)
    | inr e ↦ elim (Bool-cases (x == b'\\')) [
      | inl b ↦ rw (e, b) (bare_escape-BeginsDark k v xs c h)
      | inr b ↦ rw (e, b) (bare-BeginsDark k (v ++ x ∷ []) xs c h)
    ]
  ]

  bare_escape-BeginsDark :
      (k v xs : Text) (c : ℕ)
      → is_space c ≡ false
      → FirstValue BeginsDark (read (bare_escape k (c ∷ v)) xs)
  bare_escape-BeginsDark k v [] c h = h
  bare_escape-BeginsDark k v (x ∷ xs) c h = bare-BeginsDark k (v ++ x ∷ []) xs c h

-- A byte that starts a bare value.
abbrev is_bare : ℕ → Bool
is_bare c = not (is_space c || (c == 39 || c == b'\\'))

value-BeginsDark :
    (k xs : Text) (c : ℕ)
    → is_bare c ≡ true
    → FirstValue BeginsDark (read (before_value k) (c ∷ xs))
unfolding read
value-BeginsDark k xs c h =
    let e : step (before_value k) c ≡ go (bare k (c ∷ [])) = unfold step in ground (arith, h) in
    rw e (bare-BeginsDark k [] xs c (ground (arith, h)))

write-BeginsDark :
    (k : Text) (ps : List Pair)
    → AllKeys ps
    → FirstValue BeginsDark (read (before_value k) (write ps))
unfolding write read step finish
write-BeginsDark k [] ks = tt
write-BeginsDark k (([], v) ∷ ps) ks =
    value-BeginsDark k (escape_connection_value v ++ write ps) b'=' refl
write-BeginsDark k ((c ∷ k', v) ∷ ps) ks =
    value-BeginsDark k (k' ++ b'=' ∷ (escape_connection_value v ++ write ps)) c (ground (arith, ks))

skipped-BeginsDark :
    (k v : Text) (ps : List Pair)
    → AllKeys ps
    → needs_quoting v ≡ false
    → FirstValue BeginsDark (read (before_value k) (v ++ write ps))
unfolding read
skipped-BeginsDark k [] ps ks n = write-BeginsDark k ps ks
skipped-BeginsDark k (c ∷ v) ps ks n = elim (Bool-cases (is_space c)) [
  | inl e ↦
      let s : step (before_value k) c ≡ go (before_value k) = unfold step in ground (arith, e) in
      rw s (skipped-BeginsDark k v ps ks (ground (arith, n)))
  | inr e ↦ value-BeginsDark k (v ++ write ps) c (ground (arith, n, e))
]

-- A bare value ends at its first blank.
bare-shorter :
    (k v done rest : Text) (n : ℕ)
    → length done + length v ≡ n
    → needs_quoting v ≡ false
    → has_blank v ≡ true
    → FirstValue (λ w. length w < n) (read (bare k done) (v ++ rest))
unfolding read
bare-shorter k [] done rest n l q b = absurd (cc)
bare-shorter k (c ∷ v) done rest n l q b = elim (Bool-cases (is_space c)) [
  | inl e ↦
      let s : step (bare k done) c ≡ emit (k, done) between = unfold step in ground (arith, e) in
      rw s (FirstValue-found _ k done (read between (v ++ rest)) (omega arith))
  | inr e ↦
      let s : step (bare k done) c ≡ go (bare k (done ++ c ∷ [])) =
        unfold step in ground (arith, e, q) in
      rw s (
        bare-shorter k v (done ++ c ∷ []) rest n (omega (arith, length-append done (c ∷ []), l))
          (ground (arith, q)) (ground (arith, b, e)))
]

FirstValue-map :
    (P Q : Text → Type 0)
    → ((w : Text) → P w → Q w)
    → (o : Option (List Pair)) → FirstValue P o
    → FirstValue Q o
FirstValue-map P Q f none h = tt
FirstValue-map P Q f (some []) h = tt
FirstValue-map P Q f (some ((k, v) ∷ ps)) h = f v h

begins-apart : (c : ℕ) (v : Text) → is_space c ≡ true → (w : Text) → BeginsDark w → w ≢ c ∷ v
begins-apart c v e w d same = let dark : BeginsDark (c ∷ v) = subst BeginsDark same d in cc

shorter-apart : (v w : Text) → length w < length v → w ≢ v
shorter-apart v w h same = omega (arith, ap length same)

first_shorter :
    (k : Text) (c : ℕ) (v rest : Text)
    → is_space c ≡ false
    → needs_quoting (c ∷ v) ≡ false
    → has_blank (c ∷ v) ≡ true
    → FirstValue (λ w. length w < length (c ∷ v)) (read (before_value k) (c ∷ (v ++ rest)))
unfolding read
first_shorter k c v rest e q b =
    let s : step (before_value k) c ≡ go (bare k (c ∷ [])) = unfold step in ground (arith, e, q) in
    rw s (
      bare-shorter k v (c ∷ []) rest (suc (length v)) (omega arith) (ground (arith, q))
        (ground (arith, b, e)))

-- What a value that is not legible is read as, if the text is read at all, is not that value.
module _ (k : Text) (ps : List Pair) (ks : AllKeys ps) where
  pub illegible-first :
      (v : Text)
      → is_legible v ≡ false
      → FirstValue (λ w. w ≢ v) (read (before_value k) (escape_connection_value v ++ write ps))
  illegible-first [] h = absurd (cc)
  illegible-first (c ∷ v) h =
      let q : needs_quoting (c ∷ v) ≡ false = ground (arith, h) in
      let b : has_blank (c ∷ v) ≡ true = ground (arith, h) in
      rw (escape-plain (c ∷ v) refl q) (elim (Bool-cases (is_space c)) [
        | inl e ↦
            FirstValue-map BeginsDark _ (begins-apart c v e) _
              (skipped-BeginsDark k (c ∷ v) ps ks q)
        | inr e ↦
            FirstValue-map _ _ (shorter-apart (c ∷ v)) _ (first_shorter k c v (write ps) e q b)
      ])
