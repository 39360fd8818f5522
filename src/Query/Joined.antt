-- ===== src/Query/Joined.antt =====
-- The `visit` overloads that join the parameters of several parts with `cat_params`
-- (components/database/query/compiler/query_visitor/query_visitor.hpp), as in `Nodes`.
use demiplane.Prelude.{Bool, Text}
use demiplane.Query.Ast.{FieldValue, BinaryOp, Table, JoinType, SetOperation}
use demiplane.Query.Visitor.{
  ParamMode, visit_value_impl, visit_table_name, visit_table_impl, visit_alias_impl,
  visit_binary_op_impl, visit_join_start, visit_set_op_impl,
}
use demiplane.Query.Keywords.{
  visit_binary_expr_start, visit_binary_expr_end, visit_between_impl, visit_and_impl,
  visit_in_list_start, visit_in_list_end, visit_from_start, visit_where_start, visit_group_by_start,
  visit_having_start, visit_order_by_start, visit_join_on, visit_case_start, visit_case_end,
  visit_when_start, visit_when_then, visit_else_start,
}
use demiplane.Query.Nodes.{M, ◌>>=◌, ◌>>◌, ret, capture_param, cat_params, visit_cte}

-- The visits that join the parameters of their parts.
module _ (m : ParamMode) where
  abbrev pub visit_literal : FieldValue → Text → M
  visit_literal x alias = do visit_value_impl m x; visit_alias_impl alias; ret (capture_param m x)

  abbrev pub visit_binary : BinaryOp → M → M → M
  visit_binary op l r = do
    visit_binary_expr_start
    lp ← l
    visit_binary_op_impl op
    rp ← r
    visit_binary_expr_end
    ret (cat_params m lp rp)

  abbrev pub visit_between : M → M → M → M
  visit_between operand lower upper = do
    op ← operand
    visit_between_impl
    lp ← lower
    visit_and_impl
    up ← upper
    ret (cat_params m op (cat_params m lp up))

  abbrev pub visit_in_list : M → M → M
  visit_in_list operand values = do
    op ← operand
    visit_in_list_start
    vp ← values
    visit_in_list_end
    ret (cat_params m op vp)

  abbrev pub visit_from_cte : M → Text → M → Bool → M
  visit_from_cte sel name query recursive = do
    cp ← visit_cte name query recursive
    sp ← sel
    visit_from_start
    visit_table_name name
    ret (cat_params m cp sp)

  abbrev pub visit_where : M → M → M
  visit_where query condition = do
    qp ← query
    visit_where_start
    cp ← condition
    ret (cat_params m qp cp)

  abbrev pub visit_group_by_column : M → M → M
  visit_group_by_column query columns = do
    qp ← query
    visit_group_by_start
    cp ← columns
    ret (cat_params m qp cp)

  abbrev pub visit_group_by_query : M → M → M
  visit_group_by_query query criteria = do
    qp ← query
    visit_group_by_start
    cp ← criteria
    ret (cat_params m qp cp)

  abbrev pub visit_having : M → M → M
  visit_having query condition = do
    qp ← query
    visit_having_start
    cp ← condition
    ret (cat_params m qp cp)

  abbrev pub visit_order_by : M → M → M
  visit_order_by query orders = do
    qp ← query
    visit_order_by_start
    cp ← orders
    ret (cat_params m qp cp)

  abbrev pub visit_update_where : M → M → M
  visit_update_where upd condition = do
    qp ← upd
    visit_where_start
    cp ← condition
    ret (cat_params m qp cp)

  abbrev pub visit_delete_where : M → M → M
  visit_delete_where del condition = do
    qp ← del
    visit_where_start
    cp ← condition
    ret (cat_params m qp cp)

  abbrev pub visit_join : M → JoinType → Table → Text → M → M
  visit_join query type table alias on_condition = do
    qp ← query
    visit_join_start type
    visit_table_impl table
    visit_alias_impl alias
    visit_join_on
    cp ← on_condition
    ret (cat_params m qp cp)

  abbrev pub visit_set_op : SetOperation → M → M → M
  visit_set_op op l r = do lp ← l; visit_set_op_impl op; rp ← r; ret (cat_params m lp rp)

  abbrev pub visit_case_with_else : M → M → Text → M
  visit_case_with_else whens else_clause alias = do
    visit_case_start
    wp ← whens
    visit_else_start
    ep ← else_clause
    visit_case_end
    visit_alias_impl alias
    ret (cat_params m wp ep)

  abbrev pub visit_single_when : M → M → M
  visit_single_when condition val = do
    visit_when_start
    cp ← condition
    visit_when_then
    vp ← val
    ret (cat_params m cp vp)
