-- ===== src/Query/Words.antt =====
-- What SQL text an expression stands for, whatever the way its values travel: an independent
-- description, by recursion on the expression, of what query_visitor.hpp and
-- sql_generator_visitor.inl write. Values and parameters are left open as slots.
use Prim.Native.String.{String}
use demiplane.Prelude.{Bool, not, ◌&&◌, none, some, List, [], ◌∷◌, ◌++◌, Text, codes, if◌then◌else◌}
use demiplane.Query.Ast.{
  FieldValue, Column, ColumnLike, column, all_columns, FieldSchema, StaticFieldSchema, TableSchema,
  dynamic_ptr, static_table, Table, schema, table_name, BinaryOp, equal, not_equal, less,
  less_equal, greater, greater_equal, op_and, op_or, op_like, op_not_like, op_in, JoinType, inner,
  left, right, full, cross, SetOperation, union, union_all, intersect, except, OrderDirection, asc,
  desc, Row, Assignment,
}
use demiplane.Query.Visitor.{Plain, text, identifier, is_empty}

-- Fixed text, a literal of an expression, a value of a row or an assignment, or `?`.
pub data Slot : Type 0 where
  fixed : List Plain → Slot
  lit : FieldValue → Slot
  datum : FieldValue → Slot
  hole : Slot

abbrev pub word : String → List Plain
word s = text (codes s) ∷ []

abbrev pub opt : Bool → List Plain → List Plain
opt b ps = if b then ps else []

abbrev pub name_pieces : Text → List Plain
name_pieces n = opt (not (is_empty n)) (identifier n ∷ [])

abbrev pub alias_pieces : Text → List Plain
alias_pieces n = opt (not (is_empty n)) (text (codes " AS ") ∷ identifier n ∷ [])

abbrev pub qualifier_pieces : Text → List Plain
qualifier_pieces n = opt (not (is_empty n)) (identifier n ∷ word ".")

abbrev pub column_pieces : Column → List Plain
column_pieces c = qualifier_pieces c.table_name ++ identifier c.name ∷ alias_pieces c.alias

abbrev pub star_pieces : Text → List Plain
star_pieces table = qualifier_pieces table ++ word "*"

abbrev pub column_like_pieces : ColumnLike → List Plain
column_like_pieces (column c) = column_pieces c
column_like_pieces (all_columns table) = star_pieces table

abbrev pub counted_pieces : ColumnLike → List Plain
counted_pieces (column c) = column_pieces c
counted_pieces (all_columns table) = word "*"

abbrev pub schema_pieces : TableSchema → List Plain
schema_pieces (dynamic_ptr none) = []
schema_pieces (dynamic_ptr (some t)) = identifier t.table_name ∷ []
schema_pieces (static_table t) = name_pieces t.table_name

abbrev pub table_pieces : Table → List Plain
table_pieces (schema t) = schema_pieces t
table_pieces (table_name n) = name_pieces n

unfoldable pub binary_word : BinaryOp → String
binary_word equal = " = "
binary_word not_equal = " != "
binary_word less = " < "
binary_word less_equal = " <= "
binary_word greater = " > "
binary_word greater_equal = " >= "
binary_word op_and = " AND "
binary_word op_or = " OR "
binary_word op_like = " LIKE "
binary_word op_not_like = " NOT LIKE "
binary_word op_in = " IN "

unfoldable pub join_word : JoinType → String
join_word inner = " INNER JOIN "
join_word left = " LEFT JOIN "
join_word right = " RIGHT JOIN "
join_word full = " FULL OUTER JOIN "
join_word cross = " CROSS JOIN "

unfoldable pub set_word : SetOperation → String
set_word union = " UNION "
set_word union_all = " UNION ALL "
set_word intersect = " INTERSECT "
set_word except = " EXCEPT "

unfoldable pub direction_word : OrderDirection → String
direction_word asc = " ASC"
direction_word desc = " DESC"

-- The items with `between` in front of each but the first.
module _ {ℓ} {A : Type ℓ} (between : A) where
  abbrev pub preceded : List (List A) → List A
  preceded [] = []
  preceded (x ∷ xs) = between ∷ (x ++ preceded xs)

  abbrev pub separated : List (List A) → List A
  separated [] = []
  separated (x ∷ xs) = x ++ preceded xs

abbrev pub comma : Plain
comma = text (codes ", ")

abbrev pub row_slots : Row → List (List Slot)
row_slots [] = []
row_slots (x ∷ xs) = (datum x ∷ []) ∷ row_slots xs

abbrev pub rows_slots : List Row → List (List Slot)
rows_slots [] = []
rows_slots (r ∷ rs) =
    (fixed (word "(") ∷ (separated (fixed (word ", ")) (row_slots r) ++ fixed (word ")") ∷ []))
    ∷ rows_slots rs

abbrev pub assignment_slots : List Assignment → List (List Slot)
assignment_slots [] = []
assignment_slots ((c, x) ∷ rest) =
    (fixed (identifier c ∷ word " = ") ∷ datum x ∷ []) ∷ assignment_slots rest

abbrev pub columns_pieces : List Text → List (List Plain)
columns_pieces [] = []
columns_pieces (c ∷ cs) = (identifier c ∷ []) ∷ columns_pieces cs

-- A primary key is neither NOT NULL nor UNIQUE a second time.
abbrev pub constraint_pieces : Bool → Bool → Bool → List Plain
constraint_pieces key nullable unique =
    if key
    then word " PRIMARY KEY"
    else opt (not nullable) (word " NOT NULL") ++ opt unique (word " UNIQUE")

abbrev pub reference_pieces : FieldSchema → List Plain
reference_pieces f = opt (f.is_foreign_key && not (is_empty f.foreign_table)) (
    text (codes " REFERENCES ")
    ∷ identifier f.foreign_table
    ∷ text (codes "(")
    ∷ identifier f.foreign_column
    ∷ text (codes ")")
    ∷ [])

abbrev pub field_pieces : FieldSchema → List Plain
field_pieces f =
    identifier f.name
    ∷ text (codes " ")
    ∷ text f.db_type
    ∷ (constraint_pieces f.is_primary_key f.is_nullable f.is_unique
        ++ (opt (not (is_empty f.default_value))
              (text (codes " DEFAULT ") ∷ text f.default_value ∷ [])
            ++ reference_pieces f))

abbrev pub static_field_pieces : StaticFieldSchema → List Plain
static_field_pieces f =
    identifier f.name
    ∷ text (codes " ")
    ∷ text f.sql_type
    ∷ constraint_pieces f.is_primary_key f.is_nullable f.is_unique

abbrev pub fields_pieces : List FieldSchema → List (List Plain)
fields_pieces [] = []
fields_pieces (f ∷ fs) = field_pieces f ∷ fields_pieces fs

abbrev pub static_fields_pieces : List StaticFieldSchema → List (List Plain)
static_fields_pieces [] = []
static_fields_pieces (f ∷ fs) = static_field_pieces f ∷ static_fields_pieces fs

abbrev pub schema_columns_pieces : TableSchema → List Plain
schema_columns_pieces (dynamic_ptr none) = []
schema_columns_pieces (dynamic_ptr (some t)) =
    word " (" ++ (separated comma (fields_pieces t.fields) ++ word ")")
schema_columns_pieces (static_table t) =
    word " (" ++ (separated comma (static_fields_pieces t.fields) ++ word ")")
