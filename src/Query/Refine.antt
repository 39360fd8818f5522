-- ===== src/Query/Refine.antt =====
-- The visitor against the grammar: the slots of the expression and the literals among them.
use demiplane.Prelude.{
  ◌≡◌, refl, ap, Bool, true, false, List, [], ◌∷◌, ◌++◌, append_assoc, append-nil,
}
use demiplane.Query.Ast.{
  FieldValue, op_not, is_null, is_not_null, Expr, column_expr, literal, null_literal,
  param_placeholder, all_columns_expr, binary, unary, between, in_list, subquery, exists, count,
  sum, avg, max, min, order_term, select, from_table, from_cte, where_expr, group_by_column,
  group_by_query, having, order_by, limit, join, insert, update, update_where, delete, delete_where,
  set_op, case_expr, case_expr_with_else, cte, create_table, drop_table, Exprs, nil, cons, Whens,
  done, when, Row, Assignment,
}
use demiplane.Query.Visitor.{
  ParamMode, Visitor, append_str, visit_cte_start, visit_select_start, visit_count_impl,
  visit_unary_op_impl, visit_null_impl, visit_limit_impl,
}
use demiplane.Query.Statements.{
  visit_create_table_start, visit_drop_table_start, visit_drop_table_end,
}
use demiplane.Query.Generate.{
  Params, capture_param, cat_params, visit, visit_tuple_elements, visit_when_clauses,
}
use demiplane.Query.Words.{
  Slot, opt, fixed, lit, datum, hole, word, preceded, separated, row_slots, rows_slots,
  assignment_slots,
}
use demiplane.Query.Grammar.{slots, separated_slots, preceded_slots, when_slots}
use demiplane.Query.Emit.{
  append_all, emit, append_all-append, emit-append, visit_table_impl-append_all,
  visit_table_name-append_all, visit_alias_impl-append_all, visit_column_impl-append_all,
  visit_all_columns_impl-append_all, visit_column_like-append_all, visit_counted-append_all,
  visit_aggregate_end-append_all, visit_binary_op_impl-append, visit_join_start-append,
  visit_set_op_impl-append, visit_order_direction_impl-append,
}
use demiplane.Query.Loops.{
  visit_insert_columns-append_all, visit_insert_values-emit, visit_update_set-emit,
  visit_create_table_columns-append_all,
}

-- The literals among the slots; those of rows and assignments are not counted.
abbrev pub literals : List Slot → Params
literals [] = []
literals (fixed ps ∷ xs) = literals xs
literals (lit x ∷ xs) = x ∷ literals xs
literals (datum x ∷ xs) = literals xs
literals (hole ∷ xs) = literals xs

-- What a mode keeps of the captured values: only `Tuple` returns them.
unfoldable pub kept : ParamMode → Params → Params
kept ParamMode.tuple ps = ps
kept ParamMode.inline ps = []
kept ParamMode.sink ps = []

pub literals-append : (xs ys : List Slot) → literals (xs ++ ys) ≡ literals xs ++ literals ys
literals-append [] ys = refl
literals-append (fixed ps ∷ xs) ys = literals-append xs ys
literals-append (lit x ∷ xs) ys = ap (◌∷◌ x) (literals-append xs ys)
literals-append (datum x ∷ xs) ys = literals-append xs ys
literals-append (hole ∷ xs) ys = literals-append xs ys

cat_params-kept :
    (m : ParamMode) (xs ys : Params) → cat_params m (kept m xs) (kept m ys) ≡ kept m (xs ++ ys)
unfolding cat_params kept
cat_params-kept ParamMode.inline xs ys = refl
cat_params-kept _ xs ys = refl

capture_param-kept : (m : ParamMode) (x : FieldValue) → capture_param m x ≡ kept m (x ∷ [])
unfolding capture_param kept
capture_param-kept ParamMode.inline x = refl
capture_param-kept _ x = refl

kept-nil : (m : ParamMode) → kept m [] ≡ []
unfolding kept
kept-nil ParamMode.inline = refl
kept-nil _ = refl

row_literals : (r : Row) → literals (preceded (fixed (word ", ")) (row_slots r)) ≡ []
row_literals [] = refl
row_literals (x ∷ r) = row_literals r

one_row_literals : (r : Row) → literals (separated (fixed (word ", ")) (row_slots r)) ≡ []
one_row_literals [] = refl
one_row_literals (x ∷ r) = row_literals r

later_rows_literals : (rs : List Row) → literals (preceded (fixed (word ", ")) (rows_slots rs)) ≡ []
later_rows_literals [] = refl
later_rows_literals (r ∷ rs) = simp (literals-append, one_row_literals r, later_rows_literals rs)

pub rows_literals : (rs : List Row) → literals (separated (fixed (word ", ")) (rows_slots rs)) ≡ []
rows_literals [] = refl
rows_literals (r ∷ rs) = simp (literals-append, one_row_literals r, later_rows_literals rs)

later_assignment_literals :
    (xs : List Assignment) → literals (preceded (fixed (word ", ")) (assignment_slots xs)) ≡ []
later_assignment_literals [] = refl
later_assignment_literals ((c, x) ∷ xs) = later_assignment_literals xs

assignment_literals :
    (xs : List Assignment) → literals (separated (fixed (word ", ")) (assignment_slots xs)) ≡ []
assignment_literals [] = refl
assignment_literals ((c, x) ∷ xs) = later_assignment_literals xs

-- The methods that add a word on a flag.
visit_count_impl-append_all :
    (b : Bool) (v : Visitor)
    → visit_count_impl b v ≡ append_all (opt b (word "DISTINCT ")) (append_str "COUNT(" v)
unfolding visit_count_impl
visit_count_impl-append_all true v = refl
visit_count_impl-append_all false v = refl

visit_select_start-append_all :
    (b : Bool) (v : Visitor)
    → visit_select_start b v ≡ append_all (opt b (word "DISTINCT ")) (append_str "SELECT " v)
unfolding visit_select_start
visit_select_start-append_all true v = refl
visit_select_start-append_all false v = refl

visit_cte_start-append_all :
    (b : Bool) (v : Visitor)
    → visit_cte_start b v ≡ append_all (opt b (word "RECURSIVE ")) (append_str "WITH " v)
unfolding visit_cte_start
visit_cte_start-append_all true v = refl
visit_cte_start-append_all false v = refl

visit_create_table_start-append_all :
    (b : Bool) (v : Visitor)
    → visit_create_table_start b v
      ≡ append_all (opt b (word "IF NOT EXISTS ")) (append_str "CREATE TABLE " v)
unfolding visit_create_table_start
visit_create_table_start-append_all true v = refl
visit_create_table_start-append_all false v = refl

visit_drop_table_start-append_all :
    (b : Bool) (v : Visitor)
    → visit_drop_table_start b v
      ≡ append_all (opt b (word "IF EXISTS ")) (append_str "DROP TABLE " v)
unfolding visit_drop_table_start
visit_drop_table_start-append_all true v = refl
visit_drop_table_start-append_all false v = refl

visit_drop_table_end-append_all :
    (b : Bool) (v : Visitor) → visit_drop_table_end b v ≡ append_all (opt b (word " CASCADE")) v
unfolding visit_drop_table_end
visit_drop_table_end-append_all true v = refl
visit_drop_table_end-append_all false v = refl

ruleset run = (
  cat_params-kept, capture_param-kept, emit-append, literals-append, append-nil, append_assoc,
  append_all-append, visit_table_impl-append_all, visit_table_name-append_all,
  visit_alias_impl-append_all, visit_column_impl-append_all, visit_all_columns_impl-append_all,
  visit_column_like-append_all, visit_counted-append_all, visit_aggregate_end-append_all,
  visit_binary_op_impl-append, visit_join_start-append, visit_set_op_impl-append,
  visit_order_direction_impl-append, kept-nil, visit_count_impl-append_all,
  visit_select_start-append_all, visit_cte_start-append_all, visit_create_table_start-append_all,
  visit_drop_table_start-append_all, visit_drop_table_end-append_all,
  visit_insert_columns-append_all, visit_insert_values-emit, visit_update_set-emit,
  visit_create_table_columns-append_all, rows_literals, assignment_literals,
)

abbrev pub Result : ParamMode → List Slot → Visitor → Params × Visitor
Result m xs v = (kept m (literals xs), emit m xs v)

mutual
  unfolding visit slots visit_unary_op_impl visit_null_impl visit_limit_impl

  pub visit_lem : (m : ParamMode) (e : Expr) (v : Visitor) → visit m e v ≡ Result m (slots e) v
  visit_lem m (column_expr c) v = simp run
  visit_lem m (literal x alias) v = simp run
  visit_lem m null_literal v = simp run
  visit_lem m param_placeholder v = rw kept-nil
  visit_lem m (all_columns_expr table) v = simp run
  visit_lem m (binary op l r) v = simp (run, visit_lem m l, visit_lem m r)
  visit_lem m (unary op_not e) v = simp (visit_lem m e)
  visit_lem m (unary is_null e) v = simp (run, visit_lem m e)
  visit_lem m (unary is_not_null e) v = simp (run, visit_lem m e)
  visit_lem m (between e l u) v = simp (run, visit_lem m e, visit_lem m l, visit_lem m u)
  visit_lem m (in_list e es) v = simp (run, visit_lem m e, tuple_lem m es)
  visit_lem m (subquery q alias) v = simp (run, visit_lem m q)
  visit_lem m (exists q) v = simp (run, visit_lem m q)
  visit_lem m (count b c alias) v = simp run
  visit_lem m (sum c alias) v = simp run
  visit_lem m (avg c alias) v = simp run
  visit_lem m (max c alias) v = simp run
  visit_lem m (min c alias) v = simp run
  visit_lem m (order_term c d) v = simp run
  visit_lem m (select b es) v = simp (run, tuple_lem m es)
  visit_lem m (from_table q t alias) v = simp (run, visit_lem m q)
  visit_lem m (from_cte s n q b) v = simp (run, visit_lem m q, visit_lem m s)
  visit_lem m (where_expr q c) v = simp (run, visit_lem m q, visit_lem m c)
  visit_lem m (group_by_column q es) v = simp (run, visit_lem m q, tuple_lem m es)
  visit_lem m (group_by_query q c) v = simp (run, visit_lem m q, visit_lem m c)
  visit_lem m (having q c) v = simp (run, visit_lem m q, visit_lem m c)
  visit_lem m (order_by q es) v = simp (run, visit_lem m q, tuple_lem m es)
  visit_lem m (limit q n o) v = simp (run, visit_lem m q)
  visit_lem m (join q j t alias c) v = simp (run, visit_lem m q, visit_lem m c)
  visit_lem m (insert t cs rs) v = rw (
    visit_table_impl-append_all,
    visit_insert_columns-append_all,
    visit_insert_values-emit,
    rows_literals rs,
    kept-nil,
  )
  visit_lem m (update t xs) v = simp run
  visit_lem m (update_where q c) v = simp (run, visit_lem m q, visit_lem m c)
  visit_lem m (delete t) v = simp run
  visit_lem m (delete_where q c) v = simp (run, visit_lem m q, visit_lem m c)
  visit_lem m (set_op op l r) v = simp (run, visit_lem m l, visit_lem m r)
  visit_lem m (case_expr ws alias) v = simp (run, whens_lem m ws)
  visit_lem m (case_expr_with_else ws e alias) v = simp (run, whens_lem m ws, visit_lem m e)
  visit_lem m (cte n q b) v = simp (run, visit_lem m q)
  visit_lem m (create_table t b) v = simp run
  visit_lem m (drop_table t b c) v = simp run

  tuple_lem :
      (m : ParamMode) (es : Exprs) (v : Visitor)
      → visit_tuple_elements m true es v ≡ Result m (separated_slots es) v
  tuple_lem m nil v = simp run
  tuple_lem m (cons e es) v = simp (run, visit_lem m e, later_lem m es)

  later_lem :
      (m : ParamMode) (es : Exprs) (v : Visitor)
      → visit_tuple_elements m false es v ≡ Result m (preceded_slots es) v
  later_lem m nil v = simp run
  later_lem m (cons e es) v = simp (run, visit_lem m e, later_lem m es)

  whens_lem :
      (m : ParamMode) (ws : Whens) (v : Visitor)
      → visit_when_clauses m ws v ≡ Result m (when_slots ws) v
  whens_lem m done v = simp run
  whens_lem m (when c x ws) v = simp (run, visit_lem m c, visit_lem m x, whens_lem m ws)
