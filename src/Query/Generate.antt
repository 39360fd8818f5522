-- ===== src/Query/Generate.antt =====
-- `visit` of QueryVisitor over the whole tree
-- (components/database/query/compiler/query_visitor/query_visitor.hpp), and QueryCompiler
-- (components/database/query/compiler/query_compiler.hpp).
unfoldable pub use demiplane.Query.Nodes.{
  Params, M, capture_param, cat_params, visit_column_like, visit_counted,
}
use demiplane.Prelude.{Bool, true, false, List, if◌then◌else◌}
use demiplane.Query.Ast.{
  Expr, column_expr, literal, null_literal, param_placeholder, all_columns_expr, binary, unary,
  between, in_list, subquery, exists, count, sum, avg, max, min, order_term, select, from_table,
  from_cte, where_expr, group_by_column, group_by_query, having, order_by, limit, join, insert,
  update, update_where, delete, delete_where, set_op, case_expr, case_expr_with_else, cte,
  create_table, drop_table, Exprs, nil, cons, Whens, done, when,
}
use demiplane.Query.Visitor.{ParamMode, Piece, Visitor, fresh, skip}
use demiplane.Query.Keywords.{visit_column_separator}
use demiplane.Query.Nodes.{
  ◌>>=◌, ◌>>◌, ret, no_params, visit_column, visit_all_columns, visit_literal_null,
  visit_placeholder, visit_unary_op, visit_subquery, visit_exists, visit_count, visit_sum,
  visit_avg, visit_max, visit_min, visit_order_term, visit_select, visit_from_table, visit_limit,
  visit_insert_stmt, visit_update_stmt, visit_delete_stmt, visit_case, visit_cte,
  visit_create_table, visit_drop_table,
}
use demiplane.Query.Joined.{
  visit_literal, visit_binary, visit_between, visit_in_list, visit_from_cte, visit_where,
  visit_group_by_column, visit_group_by_query, visit_having, visit_order_by, visit_update_where,
  visit_delete_where, visit_join, visit_set_op, visit_case_with_else, visit_single_when,
}

abbrev separator : Bool → Visitor → Visitor
separator is_first = if is_first then skip else visit_column_separator

unfoldable mutual
  pub visit : ParamMode → Expr → M
  visit m (column_expr c) = visit_column c
  visit m (literal x alias) = visit_literal m x alias
  visit m null_literal = visit_literal_null
  visit m param_placeholder = visit_placeholder
  visit m (all_columns_expr table) = visit_all_columns table
  visit m (binary op l r) = visit_binary m op (visit m l) (visit m r)
  visit m (unary op operand) = visit_unary_op op (visit m operand)
  visit m (between operand lower upper) =
      visit_between m (visit m operand) (visit m lower) (visit m upper)
  visit m (in_list operand values) =
      visit_in_list m (visit m operand) (visit_tuple_elements m true values)
  visit m (subquery query alias) = visit_subquery (visit m query) alias
  visit m (exists query) = visit_exists (visit m query)
  visit m (count distinct c alias) = visit_count distinct c alias
  visit m (sum c alias) = visit_sum c alias
  visit m (avg c alias) = visit_avg c alias
  visit m (max c alias) = visit_max c alias
  visit m (min c alias) = visit_min c alias
  visit m (order_term c direction) = visit_order_term c direction
  visit m (select distinct columns) = visit_select distinct (visit_tuple_elements m true columns)
  visit m (from_table sel table alias) = visit_from_table (visit m sel) table alias
  visit m (from_cte sel name query recursive) =
      visit_from_cte m (visit m sel) name (visit m query) recursive
  visit m (where_expr query condition) = visit_where m (visit m query) (visit m condition)
  visit m (group_by_column query columns) =
      visit_group_by_column m (visit m query) (visit_tuple_elements m true columns)
  visit m (group_by_query query criteria) =
      visit_group_by_query m (visit m query) (visit m criteria)
  visit m (having query condition) = visit_having m (visit m query) (visit m condition)
  visit m (order_by query orders) =
      visit_order_by m (visit m query) (visit_tuple_elements m true orders)
  visit m (limit query number offset) = visit_limit (visit m query) number offset
  visit m (join query type table alias on_condition) =
      visit_join m (visit m query) type table alias (visit m on_condition)
  visit m (insert table columns rows) = visit_insert_stmt m table columns rows
  visit m (update table assignments) = visit_update_stmt m table assignments
  visit m (update_where upd condition) = visit_update_where m (visit m upd) (visit m condition)
  visit m (delete table) = visit_delete_stmt table
  visit m (delete_where del condition) = visit_delete_where m (visit m del) (visit m condition)
  visit m (set_op op l r) = visit_set_op m op (visit m l) (visit m r)
  visit m (case_expr whens alias) = visit_case (visit_when_clauses m whens) alias
  visit m (case_expr_with_else whens else_clause alias) =
      visit_case_with_else m (visit_when_clauses m whens) (visit m else_clause) alias
  visit m (cte name query recursive) = visit_cte name (visit m query) recursive
  visit m (create_table table if_not_exists) = visit_create_table table if_not_exists
  visit m (drop_table table if_exists cascade) = visit_drop_table table if_exists cascade

  pub visit_tuple_elements : ParamMode → Bool → Exprs → M
  visit_tuple_elements m is_first nil = ret no_params
  visit_tuple_elements m is_first (cons e es) = do
    separator is_first
    head ← visit m e
    tail ← visit_tuple_elements m false es
    ret (cat_params m head tail)

  pub visit_when_clauses : ParamMode → Whens → M
  visit_when_clauses m done = ret no_params
  visit_when_clauses m (when condition val rest) = do
    head ← visit_single_when m (visit m condition) (visit m val)
    tail ← visit_when_clauses m rest
    ret (cat_params m head tail)

-- What both functions of QueryCompiler have after `expr.accept(visitor)`: the SQL, and the captured
-- tuple or what the sink received.
pub record Compiled : Type 0 where
  pub sql : List Piece
  pub params : Params
  pub pushed : Params

unfoldable pub generate : ParamMode → Expr → Compiled
generate m e =
    let (ps, v) = visit m e fresh in record { sql = v.sql; params = ps; pushed = v.pushed }
