-- ===== src/Connection/Reader.antt =====
-- How libpq reads a connection string (PQconninfoParse): keywords, an equals sign with optional
-- blanks around it, and a value that is bare or quoted, with a backslash before a byte that stands
-- for itself. The texts of postgres_connection_tools.hpp and postgres_connection_config.hpp are
-- judged by what this reader makes of them.
use mathlib.Core.Option
use demiplane.Prelude.Numerals.{is_space}
use demiplane.Prelude.{
  ℕ, Bool, true, ◌&&◌, ◌||◌, not, ◌≡◌, refl, Option, none, some, List, [], ◌∷◌, ◌++◌, append_assoc,
  append-nil, Text, ◌==◌, if◌then◌else◌, arith, All,
}

abbrev pub Pair : Type 0
Pair = Text × Text

pub data Scan : Type 0 where
  between : Scan
  key after_key before_value : Text → Scan
  bare bare_escape quoted quoted_escape : Text → Text → Scan

pub data Move : Type 0 where
  refuse : Move
  go : Scan → Move
  emit : Pair → Scan → Move

unfoldable pub step : Scan → ℕ → Move
step between c =
    if is_space c then go between else if c == b'=' then go (before_value []) else go (key (c ∷ []))
step (key k) c =
    if c == b'='
    then go (before_value k)
    else if is_space c
    then go (after_key k)
    else go (key (k ++ c ∷ []))
step (after_key k) c =
    if is_space c then go (after_key k) else if c == b'=' then go (before_value k) else refuse
step (before_value k) c =
    if is_space c
    then go (before_value k)
    else if c == 39
    then go (quoted k [])
    else if c == b'\\'
    then go (bare_escape k [])
    else go (bare k (c ∷ []))
step (bare k v) c =
    if is_space c
    then emit (k, v) between
    else if c == b'\\'
    then go (bare_escape k v)
    else go (bare k (v ++ c ∷ []))
step (bare_escape k v) c = go (bare k (v ++ c ∷ []))
step (quoted k v) c =
    if c == 39
    then emit (k, v) between
    else if c == b'\\'
    then go (quoted_escape k v)
    else go (quoted k (v ++ c ∷ []))
step (quoted_escape k v) c = go (quoted k (v ++ c ∷ []))

unfoldable pub finish : Scan → Option (List Pair)
finish between = some []
finish (key k) = none
finish (after_key k) = none
finish (before_value k) = some ((k, []) ∷ [])
finish (bare k v) = some ((k, v) ∷ [])
finish (bare_escape k v) = some ((k, v) ∷ [])
finish (quoted k v) = none
finish (quoted_escape k v) = none

abbrev pub found : Pair → Option (List Pair) → Option (List Pair)
found p = Option.map (◌∷◌ p)

-- `rest` reads what follows from any scan.
abbrev pub continue : (Scan → Option (List Pair)) → Move → Option (List Pair)
continue rest refuse = none
continue rest (go s) = rest s
continue rest (emit p s) = found p (rest s)

unfoldable pub read : Scan → Text → Option (List Pair)
unfolding step finish
read s [] = finish s
read s (c ∷ cs) = continue (λ t. read t cs) (step s c)

-- The keywords with their values, or `none` for a text that libpq refuses.
unfoldable pub read_conninfo : Text → Option (List Pair)
unfolding read
read_conninfo s = read between s

-- No byte of a keyword is a blank, an equals sign, a quote or a backslash.
abbrev is_key_byte : ℕ → Bool
is_key_byte c = not (is_space c || (c == b'=' || (c == 39 || c == b'\\')))

abbrev pub IsKey : Text → Type 0
IsKey k = All (λ c. is_key_byte c ≡ true) k

abbrev all_key_bytes : Text → Bool
all_key_bytes [] = true
all_key_bytes (c ∷ k) = is_key_byte c && all_key_bytes k

pub all_key_bytes-IsKey : (k : Text) → all_key_bytes k ≡ true → IsKey k
all_key_bytes-IsKey [] h = tt
all_key_bytes-IsKey (c ∷ k) h = (ground (arith, h), all_key_bytes-IsKey k (ground (arith, h)))

-- The value ends where the text does or before a blank.
abbrev pub Ends : Text → Type 0
Ends [] = Unit
Ends (c ∷ cs) = is_space c ≡ true

read_key :
    (k done rest : Text)
    → IsKey k
    → read (key done) (k ++ b'=' ∷ rest) ≡ read (before_value (done ++ k)) rest
unfolding read
read_key [] done rest h = rw append-nil
read_key (c ∷ k) done rest h =
    let e : step (key done) c ≡ go (key (done ++ c ∷ [])) = unfold step in ground (arith, h.0) in
    rw (e, read_key k (done ++ c ∷ []) rest h.1, append_assoc)

-- A blank and a keyword with its equals sign.
pub read-between :
    (k rest : Text)
    → IsKey k
    → read between (b' ' ∷ (k ++ b'=' ∷ rest)) ≡ read (before_value k) rest
unfolding read
read-between [] rest h = refl
read-between (c ∷ k) rest h =
    let e : step between c ≡ go (key (c ∷ [])) = unfold step in ground (arith, h.0) in
    rw (e, read_key k (c ∷ []) rest h.1)

-- Reading on after a value that has ended.
pub read-bare_end :
    (k v rest : Text) → Ends rest → read (bare k v) rest ≡ found (k, v) (read between rest)
unfolding read
read-bare_end k v [] h = refl
read-bare_end k v (c ∷ rest) h =
    let e : step (bare k v) c ≡ emit (k, v) between = unfold step in ground (arith, h) in
    let e' : step between c ≡ go between = unfold step in ground (arith, h) in rw (e, e')
