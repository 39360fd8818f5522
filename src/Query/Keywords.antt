-- ===== src/Query/Keywords.antt =====
-- The methods of SqlGeneratorVisitor that append a fixed keyword or bracket
-- (components/database/query/compiler/query_visitor/detail/sql_generator_visitor.inl). The `_end`
-- hooks that only call `force_non_static` append nothing and have no counterpart.
use demiplane.Prelude.{Text}
use demiplane.Query.Visitor.{Visitor, append_plain, identifier, append_str}

abbrev pub visit_binary_expr_start : Visitor → Visitor
visit_binary_expr_start = append_str "("

abbrev pub visit_binary_expr_end : Visitor → Visitor
visit_binary_expr_end = append_str ")"

abbrev pub visit_subquery_start : Visitor → Visitor
visit_subquery_start = append_str "("

abbrev pub visit_subquery_end : Visitor → Visitor
visit_subquery_end = append_str ")"

abbrev pub visit_exists_start : Visitor → Visitor
visit_exists_start = append_str "EXISTS ("

abbrev pub visit_exists_end : Visitor → Visitor
visit_exists_end = append_str ")"

abbrev pub visit_between_impl : Visitor → Visitor
visit_between_impl = append_str " BETWEEN "

abbrev pub visit_and_impl : Visitor → Visitor
visit_and_impl = append_str " AND "

abbrev pub visit_in_list_start : Visitor → Visitor
visit_in_list_start = append_str " IN ("

abbrev pub visit_in_list_end : Visitor → Visitor
visit_in_list_end = append_str ")"

abbrev pub visit_sum_impl : Visitor → Visitor
visit_sum_impl = append_str "SUM("

abbrev pub visit_avg_impl : Visitor → Visitor
visit_avg_impl = append_str "AVG("

abbrev pub visit_max_impl : Visitor → Visitor
visit_max_impl = append_str "MAX("

abbrev pub visit_min_impl : Visitor → Visitor
visit_min_impl = append_str "MIN("

abbrev pub visit_from_start : Visitor → Visitor
visit_from_start = append_str " FROM "

abbrev pub visit_where_start : Visitor → Visitor
visit_where_start = append_str " WHERE "

abbrev pub visit_group_by_start : Visitor → Visitor
visit_group_by_start = append_str " GROUP BY "

abbrev pub visit_having_start : Visitor → Visitor
visit_having_start = append_str " HAVING "

abbrev pub visit_order_by_start : Visitor → Visitor
visit_order_by_start = append_str " ORDER BY "

abbrev pub visit_join_on : Visitor → Visitor
visit_join_on = append_str " ON "

abbrev pub visit_insert_start : Visitor → Visitor
visit_insert_start = append_str "INSERT INTO "

abbrev pub visit_update_start : Visitor → Visitor
visit_update_start = append_str "UPDATE "

abbrev pub visit_delete_start : Visitor → Visitor
visit_delete_start = append_str "DELETE FROM "

abbrev pub visit_case_start : Visitor → Visitor
visit_case_start = append_str "CASE"

abbrev pub visit_case_end : Visitor → Visitor
visit_case_end = append_str " END"

abbrev pub visit_when_start : Visitor → Visitor
visit_when_start = append_str " WHEN "

abbrev pub visit_when_then : Visitor → Visitor
visit_when_then = append_str " THEN "

abbrev pub visit_else_start : Visitor → Visitor
visit_else_start = append_str " ELSE "

abbrev pub visit_cte_as_start : Visitor → Visitor
visit_cte_as_start = append_str " AS ("

abbrev pub visit_cte_as_end : Visitor → Visitor
visit_cte_as_end = append_str ")"

abbrev pub visit_cte_end : Visitor → Visitor
visit_cte_end = append_str " "

abbrev pub visit_column_separator : Visitor → Visitor
visit_column_separator = append_str ", "

abbrev pub visit_cte_name_impl : Text → Visitor → Visitor
visit_cte_name_impl name = append_plain (identifier name)
