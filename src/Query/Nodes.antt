-- ===== src/Query/Nodes.antt =====
-- The bodies of the `visit` overloads of QueryVisitor
-- (components/database/query/compiler/query_visitor/query_visitor.hpp), for the derived class
-- SqlGeneratorVisitor. Each returns the tuple of captured parameters beside the new visitor state;
-- the visit of a child is an argument. The overload for an rvalue and the one for a reference are
-- the same function here.
use demiplane.Prelude.{Bool, true, false, List, [], ◌∷◌, ◌++◌, Text, ℕ, if◌then◌else◌}
use demiplane.Query.Ast.{
  FieldValue, Column, ColumnLike, column, all_columns, UnaryOp, op_not, is_null, is_not_null,
  OrderDirection, Table, TableSchema, schema, Row, Assignment,
}
use demiplane.Query.Visitor.{
  ParamMode, Visitor, visit_param_placeholder_impl, visit_null_impl, visit_table_impl,
  visit_alias_impl, visit_column_impl, visit_all_columns_impl, visit_unary_op_impl,
  visit_count_impl, visit_aggregate_end, visit_select_start, visit_order_direction_impl,
  visit_limit_impl, visit_cte_start,
}
use demiplane.Query.Keywords.{
  visit_subquery_start, visit_subquery_end, visit_exists_start, visit_exists_end, visit_sum_impl,
  visit_avg_impl, visit_max_impl, visit_min_impl, visit_from_start, visit_insert_start,
  visit_update_start, visit_delete_start, visit_case_start, visit_case_end, visit_cte_as_start,
  visit_cte_as_end, visit_cte_end, visit_cte_name_impl,
}
use demiplane.Query.Statements.{
  visit_insert_columns, visit_insert_values, visit_update_set, visit_create_table_start,
  visit_create_table_columns, visit_drop_table_start, visit_drop_table_end,
}

-- The captured parameters: a `std::tuple`, as the list of its elements.
abbrev pub Params : Type 0
Params = List FieldValue

abbrev pub M : Type 0
M = Visitor → Params × Visitor

infixl 5 ◌>>=◌ ◌>>◌
abbrev pub ◌>>=◌ : M → (Params → M) → M
◌>>=◌ m f v = f (m v).0 (m v).1

abbrev pub ◌>>◌ : (Visitor → Visitor) → M → M
◌>>◌ f m v = m (f v)

abbrev pub ret : Params → M
ret ps v = (ps, v)

unfoldable pub capture_param : ParamMode → FieldValue → Params
capture_param ParamMode.tuple x = x ∷ []
capture_param ParamMode.inline x = []
capture_param ParamMode.sink x = []

abbrev pub no_params : Params
no_params = []

unfoldable pub cat_params : ParamMode → Params → Params → Params
cat_params ParamMode.tuple xs ys = xs ++ ys
cat_params ParamMode.inline xs ys = []
cat_params ParamMode.sink xs ys = []

-- The operand of an aggregate or of ORDER BY, by its `accept`.
unfoldable pub visit_column_like : ColumnLike → Visitor → Visitor
visit_column_like (column c) = visit_column_impl c.name c.table_name c.alias
visit_column_like (all_columns table) = visit_all_columns_impl table

-- COUNT drops the table of `AllColumns`.
unfoldable pub visit_counted : ColumnLike → Visitor → Visitor
visit_counted (column c) = visit_column_impl c.name c.table_name c.alias
visit_counted (all_columns table) = visit_all_columns_impl []

-- `Op::is_postfix`.
abbrev pub is_postfix : UnaryOp → Bool
is_postfix op_not = false
is_postfix is_null = true
is_postfix is_not_null = true

abbrev pub visit_column : Column → M
visit_column c = do visit_column_impl c.name c.table_name c.alias; ret no_params

abbrev pub visit_all_columns : Text → M
visit_all_columns table = do visit_all_columns_impl table; ret no_params

abbrev pub visit_literal_null : M
visit_literal_null = do visit_null_impl; ret no_params

abbrev pub visit_placeholder : M
visit_placeholder = do visit_param_placeholder_impl; ret no_params

abbrev pub visit_unary_op : UnaryOp → M → M
visit_unary_op op visit_operand =
    if is_postfix op
    then (do op_params ← visit_operand; visit_unary_op_impl op; ret op_params)
    else (do visit_unary_op_impl op; visit_operand)

abbrev pub visit_subquery : M → Text → M
visit_subquery query alias = do
  visit_subquery_start
  qp ← query
  visit_subquery_end
  visit_alias_impl alias
  ret qp

abbrev pub visit_exists : M → M
visit_exists query = do visit_exists_start; qp ← query; visit_exists_end; ret qp

abbrev pub visit_count : Bool → ColumnLike → Text → M
visit_count distinct c alias = do
  visit_count_impl distinct
  visit_counted c
  visit_aggregate_end alias
  ret no_params

abbrev pub visit_sum : ColumnLike → Text → M
visit_sum c alias = do visit_sum_impl; visit_column_like c; visit_aggregate_end alias; ret no_params

abbrev pub visit_avg : ColumnLike → Text → M
visit_avg c alias = do visit_avg_impl; visit_column_like c; visit_aggregate_end alias; ret no_params

abbrev pub visit_max : ColumnLike → Text → M
visit_max c alias = do visit_max_impl; visit_column_like c; visit_aggregate_end alias; ret no_params

abbrev pub visit_min : ColumnLike → Text → M
visit_min c alias = do visit_min_impl; visit_column_like c; visit_aggregate_end alias; ret no_params

abbrev pub visit_order_term : ColumnLike → OrderDirection → M
visit_order_term c direction = do
  visit_column_like c
  visit_order_direction_impl direction
  ret no_params

abbrev pub visit_select : Bool → M → M
visit_select distinct columns = do visit_select_start distinct; cp ← columns; ret cp

abbrev pub visit_from_table : M → Table → Text → M
visit_from_table sel table alias = do
  sp ← sel
  visit_from_start
  visit_table_impl table
  visit_alias_impl alias
  ret sp

abbrev pub visit_limit : M → ℕ → ℕ → M
visit_limit query number offset = do qp ← query; visit_limit_impl number offset; ret qp

abbrev pub visit_insert_stmt : ParamMode → Table → List Text → List Row → M
visit_insert_stmt m table columns rows = do
  visit_insert_start
  visit_table_impl table
  visit_insert_columns columns
  visit_insert_values m rows
  ret no_params

abbrev pub visit_update_stmt : ParamMode → Table → List Assignment → M
visit_update_stmt m table assignments = do
  visit_update_start
  visit_table_impl table
  visit_update_set m assignments
  ret no_params

abbrev pub visit_delete_stmt : Table → M
visit_delete_stmt table = do visit_delete_start; visit_table_impl table; ret no_params

abbrev pub visit_case : M → Text → M
visit_case whens alias = do
  visit_case_start
  wp ← whens
  visit_case_end
  visit_alias_impl alias
  ret wp

abbrev pub visit_cte : Text → M → Bool → M
visit_cte name query recursive = do
  visit_cte_start recursive
  visit_cte_name_impl name
  visit_cte_as_start
  qp ← query
  visit_cte_as_end
  visit_cte_end
  ret qp

abbrev pub visit_create_table : TableSchema → Bool → M
visit_create_table table if_not_exists = do
  visit_create_table_start if_not_exists
  visit_table_impl (schema table)
  visit_create_table_columns table
  ret no_params

abbrev pub visit_drop_table : Table → Bool → Bool → M
visit_drop_table table if_exists cascade = do
  visit_drop_table_start if_exists
  visit_table_impl table
  visit_drop_table_end cascade
  ret no_params
