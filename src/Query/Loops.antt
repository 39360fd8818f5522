-- ===== src/Query/Loops.antt =====
-- The loops over columns, rows, assignments and fields (sql_generator_visitor.inl) as runs of slots
-- separated by commas.
use demiplane.Prelude.{
  not, ◌&&◌, codes, ◌≡◌, refl, sym, Bool, true, false, none, some, List, [], ◌∷◌, ◌++◌,
  append_assoc, Text, Bool-cases, inl, inr,
}
use demiplane.Query.Ast.{
  FieldSchema, StaticFieldSchema, TableSchema, dynamic_ptr, static_table, Row, Assignment,
}
use demiplane.Query.Visitor.{ParamMode, text, Visitor, is_empty}
use demiplane.Query.Statements.{
  insert_columns_loop, visit_insert_columns, row_loop, rows_loop, visit_insert_values,
  assignments_loop, visit_update_set, key_constraints, default_clause, references_clause,
  dynamic_field, dynamic_fields_loop, static_field, static_fields_loop, visit_create_table_columns,
}
use demiplane.Query.Words.{
  fixed, word, opt, preceded, separated, comma, row_slots, rows_slots, assignment_slots,
  columns_pieces, constraint_pieces, reference_pieces, field_pieces, static_field_pieces,
  fields_pieces, static_fields_pieces, schema_columns_pieces,
}
use demiplane.Query.Emit.{append_all, emit, append_all-append, emit-append}

columns_loop-append_all :
    (cs : List Text) (v : Visitor)
    → insert_columns_loop false cs v ≡ append_all (preceded comma (columns_pieces cs)) v
unfolding insert_columns_loop
columns_loop-append_all [] v = refl
columns_loop-append_all (c ∷ cs) v = columns_loop-append_all cs _

columns_separated :
    (cs : List Text) (v : Visitor)
    → insert_columns_loop true cs v ≡ append_all (separated comma (columns_pieces cs)) v
unfolding insert_columns_loop
columns_separated [] v = refl
columns_separated (c ∷ cs) v = columns_loop-append_all cs _

pub visit_insert_columns-append_all :
    (cs : List Text) (v : Visitor)
    → visit_insert_columns cs v
      ≡ append_all (word " (" ++ (separated comma (columns_pieces cs) ++ word ") VALUES ")) v
unfolding visit_insert_columns
visit_insert_columns-append_all cs v =
    rw (columns_separated cs) (sym (append_all-append (separated comma (columns_pieces cs)) _ _))

module _ (m : ParamMode) where
  row_loop-emit :
      (r : Row) (v : Visitor)
      → row_loop m false r v ≡ emit m (preceded (fixed (word ", ")) (row_slots r)) v
  unfolding row_loop
  row_loop-emit [] v = refl
  row_loop-emit (x ∷ r) v = row_loop-emit r _

  row_separated :
      (r : Row) (v : Visitor)
      → row_loop m true r v ≡ emit m (separated (fixed (word ", ")) (row_slots r)) v
  unfolding row_loop
  row_separated [] v = refl
  row_separated (x ∷ r) v = row_loop-emit r _

  rows_loop-emit :
      (rs : List Row) (v : Visitor)
      → rows_loop m false rs v ≡ emit m (preceded (fixed (word ", ")) (rows_slots rs)) v
  unfolding rows_loop
  rows_loop-emit [] v = refl
  rows_loop-emit (r ∷ rs) v = simp (rows_loop-emit rs, row_separated r, emit-append, append_assoc)

  pub visit_insert_values-emit :
      (rs : List Row) (v : Visitor)
      → visit_insert_values m rs v ≡ emit m (separated (fixed (word ", ")) (rows_slots rs)) v
  unfolding visit_insert_values
  visit_insert_values-emit [] v = refl
  visit_insert_values-emit (r ∷ rs) v =
      simp (rows_loop-emit rs, row_separated r, emit-append, append_assoc)

  assignments_loop-emit :
      (xs : List Assignment) (v : Visitor)
      → assignments_loop m false xs v
        ≡ emit m (preceded (fixed (word ", ")) (assignment_slots xs)) v
  unfolding assignments_loop
  assignments_loop-emit [] v = refl
  assignments_loop-emit ((c, x) ∷ xs) v = assignments_loop-emit xs _

  pub visit_update_set-emit :
      (xs : List Assignment) (v : Visitor)
      → visit_update_set m xs v
        ≡ emit m (fixed (word " SET ") ∷ separated (fixed (word ", ")) (assignment_slots xs)) v
  unfolding visit_update_set
  visit_update_set-emit [] v = refl
  visit_update_set-emit ((c, x) ∷ xs) v = assignments_loop-emit xs _

key_constraints-append_all :
    (key nullable unique : Bool) (v : Visitor)
    → key_constraints key nullable unique v ≡ append_all (constraint_pieces key nullable unique) v
unfolding key_constraints
key_constraints-append_all true true true v = refl
key_constraints-append_all true true false v = refl
key_constraints-append_all true false true v = refl
key_constraints-append_all true false false v = refl
key_constraints-append_all false true true v = refl
key_constraints-append_all false true false v = refl
key_constraints-append_all false false true v = refl
key_constraints-append_all false false false v = refl

default_clause-append_all :
    (t : Text) (v : Visitor)
    → default_clause t v
      ≡ append_all (opt (not (is_empty t)) (text (codes " DEFAULT ") ∷ text t ∷ [])) v
unfolding default_clause
default_clause-append_all [] v = refl
default_clause-append_all (c ∷ t) v = refl

references_clause-append_all :
    (f : FieldSchema) (v : Visitor) → references_clause f v ≡ append_all (reference_pieces f) v
unfolding references_clause
references_clause-append_all f v =
    elim (Bool-cases (f.is_foreign_key && not (is_empty f.foreign_table))) [
      | inl e ↦ rw e
      | inr e ↦ rw e
    ]

dynamic_field-append_all :
    (f : FieldSchema) (v : Visitor) → dynamic_field f v ≡ append_all (field_pieces f) v
unfolding dynamic_field
dynamic_field-append_all f v =
    rw
      (
        key_constraints-append_all f.is_primary_key f.is_nullable f.is_unique,
        default_clause-append_all f.default_value,
        references_clause-append_all f,
      )
      (simp append_all-append)

static_field-append_all :
    (f : StaticFieldSchema) (v : Visitor) → static_field f v ≡ append_all (static_field_pieces f) v
unfolding static_field
static_field-append_all f v =
    key_constraints-append_all f.is_primary_key f.is_nullable f.is_unique _

dynamic_loop-append_all :
    (fs : List FieldSchema) (v : Visitor)
    → dynamic_fields_loop false fs v ≡ append_all (preceded comma (fields_pieces fs)) v
unfolding dynamic_fields_loop
dynamic_loop-append_all [] v = refl
dynamic_loop-append_all (f ∷ fs) v =
    rw (dynamic_field-append_all f, dynamic_loop-append_all fs)
      (sym (append_all-append (field_pieces f) _ _))

static_loop-append_all :
    (fs : List StaticFieldSchema) (v : Visitor)
    → static_fields_loop false fs v ≡ append_all (preceded comma (static_fields_pieces fs)) v
unfolding static_fields_loop
static_loop-append_all [] v = refl
static_loop-append_all (f ∷ fs) v =
    rw (static_field-append_all f, static_loop-append_all fs)
      (sym (append_all-append (static_field_pieces f) _ _))

dynamic_separated :
    (fs : List FieldSchema) (v : Visitor)
    → dynamic_fields_loop true fs v ≡ append_all (separated comma (fields_pieces fs)) v
unfolding dynamic_fields_loop
dynamic_separated [] v = refl
dynamic_separated (f ∷ fs) v =
    rw (dynamic_field-append_all f, dynamic_loop-append_all fs)
      (sym (append_all-append (field_pieces f) _ _))

static_separated :
    (fs : List StaticFieldSchema) (v : Visitor)
    → static_fields_loop true fs v ≡ append_all (separated comma (static_fields_pieces fs)) v
unfolding static_fields_loop
static_separated [] v = refl
static_separated (f ∷ fs) v =
    rw (static_field-append_all f, static_loop-append_all fs)
      (sym (append_all-append (static_field_pieces f) _ _))

pub visit_create_table_columns-append_all :
    (t : TableSchema) (v : Visitor)
    → visit_create_table_columns t v ≡ append_all (schema_columns_pieces t) v
unfolding visit_create_table_columns
visit_create_table_columns-append_all (dynamic_ptr none) v = refl
visit_create_table_columns-append_all (dynamic_ptr (some t)) v =
    rw (dynamic_separated t.fields)
      (sym (append_all-append (separated comma (fields_pieces t.fields)) _ _))
visit_create_table_columns-append_all (static_table t) v =
    rw (static_separated t.fields)
      (sym (append_all-append (separated comma (static_fields_pieces t.fields)) _ _))
