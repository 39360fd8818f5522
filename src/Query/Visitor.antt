-- ===== src/Query/Visitor.antt =====
-- SqlGeneratorVisitor: its state, and the `visit_*_impl` methods of
-- components/database/query/compiler/query_visitor/detail/sql_generator_visitor.inl.
-- `sql_` is kept as the list of what was appended to it: texts, and calls on the dialect, which
-- `Dialect` turns into bytes. An overload for an rvalue does what the one for a reference does.
use Prim.Native.String.{String}
use demiplane.Prelude.{
  ℕ, ◌+◌, Bool, true, false, Option, none, some, List, [], ◌∷◌, ◌++◌, Text, codes, length,
  if◌then◌else◌,
}
use demiplane.Query.Ast.{
  FieldValue, DynamicTable, TableSchema, dynamic_ptr, static_table, Table, schema, table_name,
  BinaryOp, equal, not_equal, less, less_equal, greater, greater_equal, op_and, op_or, op_like,
  op_not_like, op_in, UnaryOp, op_not, is_null, is_not_null, JoinType, inner, left, right, full,
  cross, SetOperation, union, union_all, intersect, except, OrderDirection, asc, desc,
}

pub data ParamMode : Type 0 where
  inline tuple sink : ParamMode

-- What is appended to `sql_`: a text, or what the dialect writes for an identifier, a limit with
-- its offset, a placeholder or a value.
pub data Plain : Type 0 where
  text : Text → Plain
  identifier : Text → Plain
  limit_clause : ℕ → ℕ → Plain

pub data Piece : Type 0 where
  plain : Plain → Piece
  placeholder : ℕ → Piece
  value : FieldValue → Piece

-- `pushed` is what the parameter sink holds; `ParamSink::push` returns its new size.
pub record Visitor : Type 0 where
  pub sql : List Piece
  pub param_count : ℕ
  pub pushed : List FieldValue

abbrev pub fresh : Visitor
fresh = record { sql = []; param_count = 0; pushed = [] }

abbrev pub append : Piece → Visitor → Visitor
append p v = record v { sql = v.sql ++ p ∷ [] }

abbrev pub append_plain : Plain → Visitor → Visitor
append_plain p = append (plain p)

-- `sql_ += "..."`.
abbrev pub append_str : String → Visitor → Visitor
append_str s = append_plain (text (codes s))

abbrev pub is_empty {ℓ} : {A : Type ℓ} → List A → Bool
is_empty [] = true
is_empty (x ∷ xs) = false

-- Nothing is done, as in the `_end` hooks that only call `force_non_static`.
abbrev pub skip : Visitor → Visitor
skip v = v

-- One step, then another.
infixr 6 ◌▸◌
abbrev pub ◌▸◌ : (Visitor → Visitor) → (Visitor → Visitor) → Visitor → Visitor
◌▸◌ f g v = g (f v)

unfoldable pub visit_value_impl : ParamMode → FieldValue → Visitor → Visitor
visit_value_impl ParamMode.inline x v = append (value x) v
visit_value_impl ParamMode.tuple x v =
    append (placeholder (v.param_count + 1)) (record v { param_count = v.param_count + 1 })
visit_value_impl ParamMode.sink x v =
    let pushed = v.pushed ++ x ∷ [] in
    append (placeholder (length pushed)) (record v { pushed = pushed })

unfoldable pub visit_param_placeholder_impl : Visitor → Visitor
visit_param_placeholder_impl v =
    append (placeholder (v.param_count + 1)) (record v { param_count = v.param_count + 1 })

unfoldable pub visit_null_impl : Visitor → Visitor
visit_null_impl = append_str "NULL"

unfoldable pub visit_table_name : Text → Visitor → Visitor
visit_table_name name = if is_empty name then skip else append_plain (identifier name)

unfoldable pub visit_table_ptr : Option DynamicTable → Visitor → Visitor
visit_table_ptr none = skip
visit_table_ptr (some t) = append_plain (identifier t.table_name)

unfoldable pub visit_table_schema : TableSchema → Visitor → Visitor
unfolding visit_table_ptr visit_table_name
visit_table_schema (dynamic_ptr t) = visit_table_ptr t
visit_table_schema (static_table t) = visit_table_name t.table_name

unfoldable pub visit_table_impl : Table → Visitor → Visitor
unfolding visit_table_schema visit_table_name
visit_table_impl (schema t) = visit_table_schema t
visit_table_impl (table_name name) = visit_table_name name

unfoldable pub visit_alias_impl : Text → Visitor → Visitor
visit_alias_impl alias =
    if is_empty alias then skip else append_str " AS " ▸ append_plain (identifier alias)

-- `if (!table.empty()) { visit_table_impl(table); sql_ += "."; }`
unfoldable pub visit_qualifier : Text → Visitor → Visitor
unfolding visit_table_name
visit_qualifier table = if is_empty table then skip else visit_table_name table ▸ append_str "."

unfoldable pub visit_column_impl : Text → Text → Text → Visitor → Visitor
unfolding visit_qualifier visit_alias_impl
visit_column_impl name table alias =
    visit_qualifier table ▸ append_plain (identifier name) ▸ visit_alias_impl alias

unfoldable pub visit_all_columns_impl : Text → Visitor → Visitor
unfolding visit_qualifier
visit_all_columns_impl table = visit_qualifier table ▸ append_str "*"

unfoldable pub visit_binary_op_impl : BinaryOp → Visitor → Visitor
visit_binary_op_impl equal = append_str " = "
visit_binary_op_impl not_equal = append_str " != "
visit_binary_op_impl less = append_str " < "
visit_binary_op_impl less_equal = append_str " <= "
visit_binary_op_impl greater = append_str " > "
visit_binary_op_impl greater_equal = append_str " >= "
visit_binary_op_impl op_and = append_str " AND "
visit_binary_op_impl op_or = append_str " OR "
visit_binary_op_impl op_like = append_str " LIKE "
visit_binary_op_impl op_not_like = append_str " NOT LIKE "
visit_binary_op_impl op_in = append_str " IN "

unfoldable pub visit_unary_op_impl : UnaryOp → Visitor → Visitor
visit_unary_op_impl op_not = append_str "NOT "
visit_unary_op_impl is_null = append_str " IS NULL"
visit_unary_op_impl is_not_null = append_str " IS NOT NULL"

unfoldable pub visit_count_impl : Bool → Visitor → Visitor
visit_count_impl distinct =
    append_str "COUNT(" ▸ (if distinct then append_str "DISTINCT " else skip)

unfoldable pub visit_aggregate_end : Text → Visitor → Visitor
unfolding visit_alias_impl
visit_aggregate_end alias = append_str ")" ▸ visit_alias_impl alias

unfoldable pub visit_select_start : Bool → Visitor → Visitor
visit_select_start distinct =
    append_str "SELECT " ▸ (if distinct then append_str "DISTINCT " else skip)

unfoldable pub visit_order_direction_impl : OrderDirection → Visitor → Visitor
visit_order_direction_impl asc = append_str " ASC"
visit_order_direction_impl desc = append_str " DESC"

unfoldable pub visit_limit_impl : ℕ → ℕ → Visitor → Visitor
visit_limit_impl limit offset = append_plain (limit_clause limit offset)

unfoldable pub visit_join_start : JoinType → Visitor → Visitor
visit_join_start inner = append_str " INNER JOIN "
visit_join_start left = append_str " LEFT JOIN "
visit_join_start right = append_str " RIGHT JOIN "
visit_join_start full = append_str " FULL OUTER JOIN "
visit_join_start cross = append_str " CROSS JOIN "

unfoldable pub visit_set_op_impl : SetOperation → Visitor → Visitor
visit_set_op_impl union = append_str " UNION "
visit_set_op_impl union_all = append_str " UNION ALL "
visit_set_op_impl intersect = append_str " INTERSECT "
visit_set_op_impl except = append_str " EXCEPT "

unfoldable pub visit_cte_start : Bool → Visitor → Visitor
visit_cte_start recursive =
    append_str "WITH " ▸ (if recursive then append_str "RECURSIVE " else skip)
