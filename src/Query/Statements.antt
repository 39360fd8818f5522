-- ===== src/Query/Statements.antt =====
-- The loops of SqlGeneratorVisitor over the columns, rows and assignments of a statement:
-- sql_generator_visitor.inl. The flag `first` of a loop is its argument.
use demiplane.Prelude.{Bool, true, false, not, ◌&&◌, none, some, List, [], ◌∷◌, Text, if◌then◌else◌}
use demiplane.Query.Ast.{
  FieldSchema, StaticFieldSchema, TableSchema, dynamic_ptr, static_table, Row, Assignment,
}
use demiplane.Query.Visitor.{
  ParamMode, text, identifier, Visitor, append_plain, append_str, is_empty, skip, ◌▸◌,
  visit_value_impl,
}

-- `if (!first) sql_ += ", "; first = false;`
unfoldable pub separate : Bool → Visitor → Visitor
separate first = if first then skip else append_str ", "

unfoldable pub insert_columns_loop : Bool → List Text → Visitor → Visitor
unfolding separate
insert_columns_loop first [] = skip
insert_columns_loop first (col ∷ cols) =
    separate first ▸ append_plain (identifier col) ▸ insert_columns_loop false cols

unfoldable pub visit_insert_columns : List Text → Visitor → Visitor
unfolding insert_columns_loop
visit_insert_columns columns =
    append_str " (" ▸ insert_columns_loop true columns ▸ append_str ") VALUES "

module _ (mode : ParamMode) where
  unfoldable pub row_loop : Bool → Row → Visitor → Visitor
  unfolding separate
  row_loop first [] = skip
  row_loop first (val ∷ vals) = separate first ▸ visit_value_impl mode val ▸ row_loop false vals

  unfoldable pub rows_loop : Bool → List Row → Visitor → Visitor
  unfolding separate row_loop
  rows_loop first [] = skip
  rows_loop first (row ∷ rows) =
      separate first ▸ append_str "(" ▸ row_loop true row ▸ append_str ")" ▸ rows_loop false rows

  unfoldable pub visit_insert_values : List Row → Visitor → Visitor
  unfolding rows_loop
  visit_insert_values rows = rows_loop true rows

  unfoldable pub assignments_loop : Bool → List Assignment → Visitor → Visitor
  unfolding separate
  assignments_loop first [] = skip
  assignments_loop first ((col, val) ∷ rest) =
      separate first
      ▸ append_plain (identifier col)
      ▸ append_str " = "
      ▸ visit_value_impl mode val
      ▸ assignments_loop false rest

  unfoldable pub visit_update_set : List Assignment → Visitor → Visitor
  unfolding assignments_loop
  visit_update_set assignments = append_str " SET " ▸ assignments_loop true assignments

unfoldable pub visit_create_table_start : Bool → Visitor → Visitor
visit_create_table_start if_not_exists =
    append_str "CREATE TABLE " ▸ (if if_not_exists then append_str "IF NOT EXISTS " else skip)

-- The constraints that a static and a dynamic field share: they are written in this order.
unfoldable pub key_constraints : Bool → Bool → Bool → Visitor → Visitor
key_constraints is_primary_key is_nullable is_unique =
    (if is_primary_key then append_str " PRIMARY KEY" else skip)
    ▸ (if not is_nullable && not is_primary_key then append_str " NOT NULL" else skip)
    ▸ (if is_unique && not is_primary_key then append_str " UNIQUE" else skip)

unfoldable pub default_clause : Text → Visitor → Visitor
default_clause default_value =
    if is_empty default_value
    then skip
    else append_str " DEFAULT " ▸ append_plain (text default_value)

unfoldable pub references_clause : FieldSchema → Visitor → Visitor
references_clause field =
    if field.is_foreign_key && not (is_empty field.foreign_table)
    then append_str " REFERENCES "
      ▸ append_plain (identifier field.foreign_table)
      ▸ append_str "("
      ▸ append_plain (identifier field.foreign_column)
      ▸ append_str ")"
    else skip

unfoldable pub dynamic_field : FieldSchema → Visitor → Visitor
unfolding key_constraints default_clause references_clause
dynamic_field field =
    append_plain (identifier field.name)
    ▸ append_str " "
    ▸ append_plain (text field.db_type)
    ▸ key_constraints field.is_primary_key field.is_nullable field.is_unique
    ▸ default_clause field.default_value
    ▸ references_clause field

unfoldable pub dynamic_fields_loop : Bool → List FieldSchema → Visitor → Visitor
unfolding separate dynamic_field
dynamic_fields_loop first [] = skip
dynamic_fields_loop first (field ∷ fields) =
    separate first ▸ dynamic_field field ▸ dynamic_fields_loop false fields

unfoldable pub static_field : StaticFieldSchema → Visitor → Visitor
unfolding key_constraints
static_field field =
    append_plain (identifier field.name)
    ▸ append_str " "
    ▸ append_plain (text field.sql_type)
    ▸ key_constraints field.is_primary_key field.is_nullable field.is_unique

unfoldable pub static_fields_loop : Bool → List StaticFieldSchema → Visitor → Visitor
unfolding separate static_field
static_fields_loop first [] = skip
static_fields_loop first (field ∷ fields) =
    separate first ▸ static_field field ▸ static_fields_loop false fields

unfoldable pub visit_create_table_columns : TableSchema → Visitor → Visitor
unfolding dynamic_fields_loop static_fields_loop
visit_create_table_columns (dynamic_ptr none) = skip
visit_create_table_columns (dynamic_ptr (some table)) =
    append_str " (" ▸ dynamic_fields_loop true table.fields ▸ append_str ")"
visit_create_table_columns (static_table table) =
    append_str " (" ▸ static_fields_loop true table.fields ▸ append_str ")"

unfoldable pub visit_drop_table_start : Bool → Visitor → Visitor
visit_drop_table_start if_exists =
    append_str "DROP TABLE " ▸ (if if_exists then append_str "IF EXISTS " else skip)

unfoldable pub visit_drop_table_end : Bool → Visitor → Visitor
visit_drop_table_end cascade = if cascade then append_str " CASCADE" else skip
