-- ===== src/Query/Emit.antt =====
-- How a run of slots is written into a visitor state, and the `visit_*_impl` methods and loops as
-- such runs.
use demiplane.Prelude.{
  ◌≡◌, refl, Bool, true, false, none, some, List, [], ◌∷◌, ◌++◌, Text, if◌then◌else◌,
}
use demiplane.Query.Ast.{
  ColumnLike, column, all_columns, dynamic_ptr, static_table, Table, schema, table_name, BinaryOp,
  JoinType, SetOperation, OrderDirection,
}
use demiplane.Query.Visitor.{
  ParamMode, Plain, identifier, Visitor, append_plain, append_str, skip, visit_value_impl,
  visit_param_placeholder_impl, visit_table_impl, visit_alias_impl, visit_column_impl,
  visit_all_columns_impl, visit_binary_op_impl, visit_aggregate_end, visit_order_direction_impl,
  visit_join_start, visit_set_op_impl, visit_table_name,
}
use demiplane.Query.Generate.{visit_column_like, visit_counted}
use demiplane.Query.Words.{
  Slot, fixed, lit, datum, hole, word, opt, name_pieces, alias_pieces, qualifier_pieces,
  star_pieces, column_like_pieces, counted_pieces, table_pieces, binary_word, join_word, set_word,
  direction_word,
}

abbrev pub append_all : List Plain → Visitor → Visitor
append_all [] v = v
append_all (p ∷ ps) v = append_all ps (append_plain p v)

abbrev pub emit : ParamMode → List Slot → Visitor → Visitor
emit m [] v = v
emit m (fixed ps ∷ xs) v = emit m xs (append_all ps v)
emit m (lit x ∷ xs) v = emit m xs (visit_value_impl m x v)
emit m (datum x ∷ xs) v = emit m xs (visit_value_impl m x v)
emit m (hole ∷ xs) v = emit m xs (visit_param_placeholder_impl v)

pub append_all-append :
    (xs ys : List Plain) (v : Visitor) → append_all (xs ++ ys) v ≡ append_all ys (append_all xs v)
append_all-append [] ys v = refl
append_all-append (p ∷ xs) ys v = append_all-append xs ys (append_plain p v)

pub emit-append :
    (m : ParamMode) (xs ys : List Slot) (v : Visitor)
    → emit m (xs ++ ys) v ≡ emit m ys (emit m xs v)
emit-append m [] ys v = refl
emit-append m (fixed ps ∷ xs) ys v = emit-append m xs ys (append_all ps v)
emit-append m (lit x ∷ xs) ys v = emit-append m xs ys (visit_value_impl m x v)
emit-append m (datum x ∷ xs) ys v = emit-append m xs ys (visit_value_impl m x v)
emit-append m (hole ∷ xs) ys v = emit-append m xs ys (visit_param_placeholder_impl v)

pub visit_table_impl-append_all :
    (t : Table) (v : Visitor) → visit_table_impl t v ≡ append_all (table_pieces t) v
unfolding visit_table_impl
visit_table_impl-append_all (schema (dynamic_ptr none)) v = refl
visit_table_impl-append_all (schema (dynamic_ptr (some t))) v = refl
visit_table_impl-append_all (schema (static_table t)) v = visit_name t.table_name
  where
    visit_name : (n : Text) → visit_table_name n v ≡ append_all (name_pieces n) v
    visit_name [] = refl
    visit_name (c ∷ n) = refl
visit_table_impl-append_all (table_name []) v = refl
visit_table_impl-append_all (table_name (c ∷ n)) v = refl

pub visit_table_name-append_all :
    (n : Text) (v : Visitor) → visit_table_name n v ≡ append_all (name_pieces n) v
unfolding visit_table_name
visit_table_name-append_all [] v = refl
visit_table_name-append_all (c ∷ n) v = refl

pub visit_alias_impl-append_all :
    (n : Text) (v : Visitor) → visit_alias_impl n v ≡ append_all (alias_pieces n) v
unfolding visit_alias_impl
visit_alias_impl-append_all [] v = refl
visit_alias_impl-append_all (c ∷ n) v = refl

pub visit_column_impl-append_all :
    (name table alias : Text) (v : Visitor)
    → visit_column_impl name table alias v
      ≡ append_all (qualifier_pieces table ++ identifier name ∷ alias_pieces alias) v
unfolding visit_column_impl
visit_column_impl-append_all name [] [] v = refl
visit_column_impl-append_all name [] (a ∷ as_) v = refl
visit_column_impl-append_all name (t ∷ ts) [] v = refl
visit_column_impl-append_all name (t ∷ ts) (a ∷ as_) v = refl

pub visit_all_columns_impl-append_all :
    (table : Text) (v : Visitor) → visit_all_columns_impl table v ≡ append_all (star_pieces table) v
unfolding visit_all_columns_impl
visit_all_columns_impl-append_all [] v = refl
visit_all_columns_impl-append_all (t ∷ ts) v = refl

pub visit_column_like-append_all :
    (c : ColumnLike) (v : Visitor) → visit_column_like c v ≡ append_all (column_like_pieces c) v
unfolding visit_column_like
visit_column_like-append_all (column c) v =
    visit_column_impl-append_all c.name c.table_name c.alias v
visit_column_like-append_all (all_columns t) v = visit_all_columns_impl-append_all t v

pub visit_counted-append_all :
    (c : ColumnLike) (v : Visitor) → visit_counted c v ≡ append_all (counted_pieces c) v
unfolding visit_counted
visit_counted-append_all (column c) v = visit_column_impl-append_all c.name c.table_name c.alias v
visit_counted-append_all (all_columns t) v = visit_all_columns_impl-append_all [] v

pub visit_aggregate_end-append_all :
    (n : Text) (v : Visitor)
    → visit_aggregate_end n v ≡ append_all (alias_pieces n) (append_str ")" v)
unfolding visit_aggregate_end
visit_aggregate_end-append_all [] v = refl
visit_aggregate_end-append_all (c ∷ n) v = refl

pub visit_binary_op_impl-append :
    (op : BinaryOp) (v : Visitor) → visit_binary_op_impl op v ≡ append_all (word (binary_word op)) v
unfolding visit_binary_op_impl binary_word
visit_binary_op_impl-append BinaryOp.equal v = refl
visit_binary_op_impl-append _ v = refl

pub visit_join_start-append :
    (t : JoinType) (v : Visitor) → visit_join_start t v ≡ append_all (word (join_word t)) v
unfolding visit_join_start join_word
visit_join_start-append JoinType.inner v = refl
visit_join_start-append _ v = refl

pub visit_set_op_impl-append :
    (op : SetOperation) (v : Visitor) → visit_set_op_impl op v ≡ append_all (word (set_word op)) v
unfolding visit_set_op_impl set_word
visit_set_op_impl-append SetOperation.union v = refl
visit_set_op_impl-append _ v = refl

pub visit_order_direction_impl-append :
    (d : OrderDirection) (v : Visitor)
    → visit_order_direction_impl d v ≡ append_all (word (direction_word d)) v
unfolding visit_order_direction_impl direction_word
visit_order_direction_impl-append OrderDirection.asc v = refl
visit_order_direction_impl-append _ v = refl

-- A flag that adds a word.
pub append_opt :
    (b : Bool) (ps : List Plain) (v : Visitor)
    → (if b then append_all ps else skip) v ≡ append_all (opt b ps) v
append_opt true ps v = refl
append_opt false ps v = refl
