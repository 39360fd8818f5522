-- ===== src/Query/Gaps.antt =====
-- Places where the generated SQL loses something of the expression: values of rows in `Tuple` mode,
-- parameters beside values in `Sink` mode, the grouping of set operations and of NOT.
use mathlib.Core.Path.{ap₂}
use demiplane.Prelude.{
  ℕ, zero, suc, ◌+◌, ◌≤◌, ◌<◌, ◌≡◌, refl, ap, ◌∙◌, Bool, List, [], ◌∷◌, ◌++◌, append_assoc,
  append-nil, length, arith, ◌==◌, if◌then◌else◌, Text, false, some, ◌≢◌, ◌⊎◌, inl, inr, none,
}
use demiplane.Query.Ast.{
  Expr, Table, Row, insert, set_op, SetOperation, unary, op_not, is_null, is_not_null, dynamic_ptr,
  static_table, StaticTable, StaticFieldSchema, FieldSchema, create_table,
}
use demiplane.Query.Visitor.{identifier, ParamMode}
use demiplane.Query.Generate.{generate}
use demiplane.Query.Compile.{CompiledStatic, compile_static, compile_dynamic}
use demiplane.Dialect.{ToChars, render}
use demiplane.Query.Words.{
  comma, field_pieces, fields_pieces, static_field_pieces, static_fields_pieces, name_pieces, Slot,
  fixed, lit, datum, hole, word, preceded, separated, row_slots, rows_slots,
}
use demiplane.Query.Grammar.{slots}
use demiplane.Query.Emit.{emit-append}
use demiplane.Query.Refine.{kept, rows_literals}
use demiplane.Query.Lower.{
  placeholders, numbers, places, values, holes, lower_tuple, lower_sink, sink_sql,
}
use demiplane.Query.Params.{
  generate-sql, generate-params, compile_static_tuple, placeholders-lower_tuple,
  placeholders-plains,
}

length-numbers : (c k : ℕ) → length (numbers c k) ≡ k
length-numbers c zero = refl
length-numbers c (suc k) = ap suc (length-numbers (suc c) k)

-- The number of values in the rows.
unfoldable pub total : List Row → ℕ
total [] = 0
total (r ∷ rs) = length r + total rs

places-append : (xs ys : List Slot) → places (xs ++ ys) ≡ places xs + places ys
places-append [] ys = omega arith
places-append (fixed ps ∷ xs) ys = places-append xs ys
places-append (lit x ∷ xs) ys = omega (arith, places-append xs ys)
places-append (datum x ∷ xs) ys = omega (arith, places-append xs ys)
places-append (hole ∷ xs) ys = omega (arith, places-append xs ys)

places_row : (r : Row) → places (preceded (fixed (word ", ")) (row_slots r)) ≡ length r
places_row [] = refl
places_row (x ∷ r) = ap suc (places_row r)

places_first_row : (r : Row) → places (separated (fixed (word ", ")) (row_slots r)) ≡ length r
places_first_row [] = refl
places_first_row (x ∷ r) = ap suc (places_row r)

places_rows : (rs : List Row) → places (preceded (fixed (word ", ")) (rows_slots rs)) ≡ total rs
unfolding total
places_rows [] = refl
places_rows (r ∷ rs) = simp (places-append, places_first_row r, places_rows rs) (omega arith)

places_all_rows :
    (rs : List Row) → places (separated (fixed (word ", ")) (rows_slots rs)) ≡ total rs
unfolding total
places_all_rows [] = refl
places_all_rows (r ∷ rs) = simp (places-append, places_first_row r, places_rows rs) (omega arith)

-- compile_static of an INSERT in `Tuple` mode throws exactly if its SQL is longer than the capacity of
-- its string. Otherwise its SQL has a placeholder for each value of the rows, and no parameter at all
-- is captured.
pub insert_tuple :
    (std : ToChars) (max_len : ℕ) (table : Table) (columns : List Text) (rows : List Row)
    → ((max_len < length (render std (lower_tuple 0 (slots (insert table columns rows)))))
        × (compile_static std max_len ParamMode.tuple (insert table columns rows) ≡ none))
      ⊎ ((c : CompiledStatic) × (length
              (render std (lower_tuple 0 (slots (insert table columns rows))))
            ≤ max_len)
          × (compile_static std max_len ParamMode.tuple (insert table columns rows) ≡ some c)
          × (c.params ≡ [])
          × (length (placeholders c.sql) ≡ total rows))
unfolding kept slots
insert_tuple std max_len table columns rows =
    elim (compile_static_tuple (insert table columns rows) std max_len) [
      | inl over ↦ inl over
      | inr (fits, done) ↦ inr (
        _,
        fits,
        done,
        simp (generate-params, rows_literals),
        rw placeholders-lower_tuple (length-numbers 0 _ ∙ places_all_rows rows),
      )
    ]

-- How often a number occurs.
abbrev pub occurrences : ℕ → List ℕ → ℕ
occurrences a [] = 0
occurrences a (x ∷ xs) = (if a == x then 1 else 0) + occurrences a xs

-- A value gets the next number of the sink, a `?` the next of the visitor's own counter.
value_number :
    (n c : ℕ) (xs : List Slot)
    → 0 < length (values xs)
    → 0 < occurrences (suc n) (placeholders (lower_sink n c xs))
value_number n c [] h = absurd (omega arith)
value_number n c (fixed ps ∷ xs) h = rw placeholders-plains (value_number n c xs h)
value_number n c (lit x ∷ xs) h = ground arith
value_number n c (datum x ∷ xs) h = ground arith
value_number n c (hole ∷ xs) h = ground (arith, value_number n (suc c) xs h)

hole_number :
    (n c : ℕ) (xs : List Slot)
    → 0 < holes xs
    → 0 < occurrences (suc c) (placeholders (lower_sink n c xs))
hole_number n c [] h = absurd (omega arith)
hole_number n c (fixed ps ∷ xs) h = rw placeholders-plains (hole_number n c xs h)
hole_number n c (lit x ∷ xs) h = ground (arith, hole_number (suc n) c xs h)
hole_number n c (datum x ∷ xs) h = ground (arith, hole_number (suc n) c xs h)
hole_number n c (hole ∷ xs) h = ground arith

number_one_twice :
    (xs : List Slot)
    → 0 < length (values xs)
    → 0 < holes xs
    → 2 ≤ occurrences 1 (placeholders (lower_sink 0 0 xs))
number_one_twice [] v h = absurd (omega arith)
number_one_twice (fixed ps ∷ xs) v h = rw placeholders-plains (number_one_twice xs v h)
number_one_twice (lit x ∷ xs) v h = ground (arith, hole_number 1 0 xs h)
number_one_twice (datum x ∷ xs) v h = ground (arith, hole_number 1 0 xs h)
number_one_twice (hole ∷ xs) v h = ground (arith, value_number 0 1 xs v)

-- In `Sink` mode, an expression with at least one value and at least one `?` uses $1 twice.
pub sink_collision :
    (e : Expr)
    → 0 < length (values (slots e))
    → 0 < holes (slots e)
    → 2 ≤ occurrences 1 (placeholders (compile_dynamic ParamMode.sink e).sql)
unfolding compile_dynamic
sink_collision e v h = simp (generate-sql, sink_sql) (number_one_twice (slots e) v h)

-- In every mode, a set operation nested on the right and the same operations grouped to the left
-- give the same SQL: the grouping of the expression is lost.
pub set_op_grouping :
    (m : ParamMode) (o p : SetOperation) (a b c : Expr)
    → (generate m (set_op o a (set_op p b c))).sql ≡ (generate m (set_op p (set_op o a b) c)).sql
unfolding slots
set_op_grouping m o p a b c = simp (generate-sql, emit-append, append_assoc)

-- In every mode, `is_null(!x)` and `!is_null(x)` give the same SQL, and so do `is_not_null(!x)` and
-- `!is_not_null(x)`.
pub not_grouping :
    (m : ParamMode) (e : Expr)
    → ((generate m (unary is_null (unary op_not e))).sql
        ≡ (generate m (unary op_not (unary is_null e))).sql)
      × ((generate m (unary is_not_null (unary op_not e))).sql
          ≡ (generate m (unary op_not (unary is_not_null e))).sql)
unfolding slots
not_grouping m e = (simp generate-sql, simp generate-sql)

-- The dynamic field that a static one describes when it has no default and no foreign key.
pub as_dynamic : StaticFieldSchema → FieldSchema
as_dynamic f = record {
  name = f.name;
  db_type = f.sql_type;
  is_nullable = f.is_nullable;
  is_primary_key = f.is_primary_key;
  is_foreign_key = false;
  is_unique = f.is_unique;
  foreign_table = [];
  foreign_column = [];
  default_value = [];
}

pub all_dynamic : List StaticFieldSchema → List FieldSchema
all_dynamic [] = []
all_dynamic (f ∷ fs) = as_dynamic f ∷ all_dynamic fs

field_pieces-as_dynamic :
    (f : StaticFieldSchema) → field_pieces (as_dynamic f) ≡ static_field_pieces f
unfolding as_dynamic
field_pieces-as_dynamic f = simp append-nil

fields_pieces-all_dynamic :
    (fs : List StaticFieldSchema) → fields_pieces (all_dynamic fs) ≡ static_fields_pieces fs
unfolding all_dynamic
fields_pieces-all_dynamic [] = refl
fields_pieces-all_dynamic (f ∷ fs) =
    ap₂ ◌∷◌ (field_pieces-as_dynamic f) (fields_pieces-all_dynamic fs)

separated-all_dynamic :
    (fs : List StaticFieldSchema)
    → separated comma (fields_pieces (all_dynamic fs)) ≡ separated comma (static_fields_pieces fs)
separated-all_dynamic fs = ap (separated comma) (fields_pieces-all_dynamic fs)

name_pieces_nonempty : (n : Text) → n ≢ [] → name_pieces n ≡ identifier n ∷ []
name_pieces_nonempty [] h = absurd (h refl)
name_pieces_nonempty (c ∷ n) h = refl

-- In every mode, CREATE TABLE of a static table whose name is not empty gives the SQL of CREATE TABLE of the dynamic table of the same name
-- and fields.
pub create_table_static :
    (m : ParamMode) (t : StaticTable) (if_not_exists : Bool)
    → t.table_name ≢ []
    → (generate m (create_table (static_table t) if_not_exists)).sql
      ≡ (generate m (
          create_table
            (dynamic_ptr
              (some (record { table_name = t.table_name; fields = all_dynamic t.fields })))
            if_not_exists)).sql
unfolding slots
create_table_static m t b h = rw (
  generate-sql,
  generate-sql,
  name_pieces_nonempty t.table_name h,
  separated-all_dynamic t.fields,
)
