-- ===== src/Query/Grammar.antt =====
-- The SQL that an expression stands for, with its values left open: one line for each node that
-- query_visitor.hpp visits, in terms of the pieces of `Words`.
use demiplane.Prelude.{Bool, List, [], ◌∷◌, ◌++◌}
use demiplane.Query.Ast.{
  UnaryOp, op_not, is_null, is_not_null, Expr, column_expr, literal, null_literal,
  param_placeholder, all_columns_expr, binary, unary, between, in_list, subquery, exists, count,
  sum, avg, max, min, order_term, select, from_table, from_cte, where_expr, group_by_column,
  group_by_query, having, order_by, limit, join, insert, update, update_where, delete, delete_where,
  set_op, case_expr, case_expr_with_else, cte, create_table, drop_table, Exprs, nil, cons, Whens,
  done, when, schema,
}
use demiplane.Query.Visitor.{Plain, identifier, limit_clause}
use demiplane.Query.Words.{
  Slot, fixed, lit, hole, word, opt, name_pieces, alias_pieces, column_pieces, star_pieces,
  column_like_pieces, counted_pieces, table_pieces, binary_word, join_word, set_word,
  direction_word, separated, comma, rows_slots, assignment_slots, columns_pieces,
  schema_columns_pieces,
}

abbrev pub unary_slots : UnaryOp → List Slot → List Slot
unary_slots op_not xs = fixed (word "NOT ") ∷ xs
unary_slots is_null xs = xs ++ fixed (word " IS NULL") ∷ []
unary_slots is_not_null xs = xs ++ fixed (word " IS NOT NULL") ∷ []

abbrev pub cte_head : List Plain → Bool → List Plain
cte_head name recursive =
    word "WITH " ++ (opt recursive (word "RECURSIVE ") ++ name ++ word " AS (")

abbrev pub aggregate_slots : List Plain → List Plain → List Plain → List Slot
aggregate_slots start operand alias =
    fixed start ∷ fixed operand ∷ fixed (word ")") ∷ fixed alias ∷ []

unfoldable mutual
  pub slots : Expr → List Slot
  slots (column_expr c) = fixed (column_pieces c) ∷ []
  slots (literal x alias) = lit x ∷ fixed (alias_pieces alias) ∷ []
  slots null_literal = fixed (word "NULL") ∷ []
  slots param_placeholder = hole ∷ []
  slots (all_columns_expr table) = fixed (star_pieces table) ∷ []
  slots (binary op l r) =
      fixed (word "(")
      ∷ (slots l ++ fixed (word (binary_word op)) ∷ (slots r ++ fixed (word ")") ∷ []))
  slots (unary op e) = unary_slots op (slots e)
  slots (between e lower upper) =
      slots e ++ fixed (word " BETWEEN ") ∷ (slots lower ++ fixed (word " AND ") ∷ slots upper)
  slots (in_list e values) =
      slots e ++ fixed (word " IN (") ∷ (separated_slots values ++ fixed (word ")") ∷ [])
  slots (subquery query alias) =
      fixed (word "(") ∷ (slots query ++ fixed (word ")") ∷ fixed (alias_pieces alias) ∷ [])
  slots (exists query) = fixed (word "EXISTS (") ∷ (slots query ++ fixed (word ")") ∷ [])
  slots (count distinct c alias) =
      fixed (word "COUNT(")
      ∷ fixed (opt distinct (word "DISTINCT "))
      ∷ fixed (counted_pieces c)
      ∷ fixed (word ")")
      ∷ fixed (alias_pieces alias)
      ∷ []
  slots (sum c alias) = aggregate_slots (word "SUM(") (column_like_pieces c) (alias_pieces alias)
  slots (avg c alias) = aggregate_slots (word "AVG(") (column_like_pieces c) (alias_pieces alias)
  slots (max c alias) = aggregate_slots (word "MAX(") (column_like_pieces c) (alias_pieces alias)
  slots (min c alias) = aggregate_slots (word "MIN(") (column_like_pieces c) (alias_pieces alias)
  slots (order_term c direction) =
      fixed (column_like_pieces c) ∷ fixed (word (direction_word direction)) ∷ []
  slots (select distinct columns) =
      fixed (word "SELECT ") ∷ fixed (opt distinct (word "DISTINCT ")) ∷ separated_slots columns
  slots (from_table sel table alias) =
      slots sel
      ++ fixed (word " FROM ") ∷ fixed (table_pieces table) ∷ fixed (alias_pieces alias) ∷ []
  slots (from_cte sel name query recursive) =
      fixed (cte_head (identifier name ∷ []) recursive)
      ∷ (slots query
          ++ fixed (word ")")
            ∷ fixed (word " ")
            ∷ (slots sel ++ fixed (word " FROM ") ∷ fixed (name_pieces name) ∷ []))
  slots (where_expr query condition) = slots query ++ fixed (word " WHERE ") ∷ slots condition
  slots (group_by_column query columns) =
      slots query ++ fixed (word " GROUP BY ") ∷ separated_slots columns
  slots (group_by_query query criteria) = slots query ++ fixed (word " GROUP BY ") ∷ slots criteria
  slots (having query condition) = slots query ++ fixed (word " HAVING ") ∷ slots condition
  slots (order_by query orders) = slots query ++ fixed (word " ORDER BY ") ∷ separated_slots orders
  slots (limit query number offset) = slots query ++ fixed (limit_clause number offset ∷ []) ∷ []
  slots (join query type table alias on_condition) =
      slots query
      ++ fixed (word (join_word type))
        ∷ fixed (table_pieces table)
        ∷ fixed (alias_pieces alias)
        ∷ fixed (word " ON ")
        ∷ slots on_condition
  slots (insert table columns rows) =
      fixed (word "INSERT INTO ")
      ∷ fixed (table_pieces table)
      ∷ fixed (word " (" ++ (separated comma (columns_pieces columns) ++ word ") VALUES "))
      ∷ separated (fixed (word ", ")) (rows_slots rows)
  slots (update table assignments) =
      fixed (word "UPDATE ")
      ∷ fixed (table_pieces table)
      ∷ fixed (word " SET ")
      ∷ separated (fixed (word ", ")) (assignment_slots assignments)
  slots (update_where upd condition) = slots upd ++ fixed (word " WHERE ") ∷ slots condition
  slots (delete table) = fixed (word "DELETE FROM ") ∷ fixed (table_pieces table) ∷ []
  slots (delete_where del condition) = slots del ++ fixed (word " WHERE ") ∷ slots condition
  slots (set_op op l r) = slots l ++ fixed (word (set_word op)) ∷ slots r
  slots (case_expr whens alias) =
      fixed (word "CASE")
      ∷ (when_slots whens ++ fixed (word " END") ∷ fixed (alias_pieces alias) ∷ [])
  slots (case_expr_with_else whens else_clause alias) =
      fixed (word "CASE")
      ∷ (when_slots whens
          ++ fixed (word " ELSE ")
            ∷ (slots else_clause ++ fixed (word " END") ∷ fixed (alias_pieces alias) ∷ []))
  slots (cte name query recursive) =
      fixed (cte_head (identifier name ∷ []) recursive)
      ∷ (slots query ++ fixed (word ")") ∷ fixed (word " ") ∷ [])
  slots (create_table table if_not_exists) =
      fixed (word "CREATE TABLE ")
      ∷ fixed (opt if_not_exists (word "IF NOT EXISTS "))
      ∷ fixed (table_pieces (schema table))
      ∷ fixed (schema_columns_pieces table)
      ∷ []
  slots (drop_table table if_exists cascade) =
      fixed (word "DROP TABLE ")
      ∷ fixed (opt if_exists (word "IF EXISTS "))
      ∷ fixed (table_pieces table)
      ∷ fixed (opt cascade (word " CASCADE"))
      ∷ []

  pub separated_slots : Exprs → List Slot
  separated_slots nil = []
  separated_slots (cons e es) = slots e ++ preceded_slots es

  pub preceded_slots : Exprs → List Slot
  preceded_slots nil = []
  preceded_slots (cons e es) = fixed (word ", ") ∷ (slots e ++ preceded_slots es)

  pub when_slots : Whens → List Slot
  when_slots done = []
  when_slots (when condition val rest) =
      fixed (word " WHEN ")
      ∷ (slots condition ++ fixed (word " THEN ") ∷ (slots val ++ when_slots rest))
