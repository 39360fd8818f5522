-- ===== src/Query/Tests.antt =====
-- Queries that are compiled in each mode.
use demiplane.Prelude.{
  ℕ, ◌≤◌, ◌<◌, ◌⊎◌, none, false, ◌≡◌, refl, true, false, some, List, [], ◌∷◌, ◌++◌, Text, codes,
  length, arith,
}
use demiplane.Query.Ast.{
  plus, int32, string, Expr, column_expr, literal, param_placeholder, binary, greater, op_and,
  equal, unary, op_not, is_null, is_not_null, in_list, select, from_table, where_expr, nil, cons,
  Table, table_name, insert, set_op, union, except, StaticFieldSchema, StaticTable, static_table,
  dynamic_ptr, create_table, Row,
}
use demiplane.Query.Visitor.{
  ParamMode, fresh, visit_alias_impl, visit_table_impl, visit_column_impl, visit_select_start,
}
use demiplane.Query.Generate.{visit, generate}
use demiplane.Query.Compile.{
  CompiledStatic, append_string, append_pieces, compile_static, compile_dynamic,
}
use demiplane.Query.Grammar.{slots}
use demiplane.Query.Refine.{Result}
use demiplane.Query.Lower.{placeholders, numbers, substitute, lower_tuple}
use demiplane.Query.Params.{visit-Result, substitute_tuple, substitute_sink, placeholders_captured}
use demiplane.Query.Gaps.{
  total, insert_tuple, occurrences, sink_collision, set_op_grouping, not_grouping, all_dynamic,
  create_table_static,
}
use demiplane.Dialect.{ToChars, render}

abbrev field : Text → Expr
field n = column_expr (record { name = n; table_name = []; alias = [] })

abbrev number : ℕ → Expr
number n = literal (int32 (plus n)) []

abbrev users : Table
users = table_name (codes "users")

-- SELECT DISTINCT "name" FROM "users" AS "u"
abbrev names : Expr
names = from_table (select true (cons (field (codes "name")) nil)) users (codes "u")

-- ... WHERE (("age" > 18) AND "city" IN (4, 5))
abbrev query : Expr
query = where_expr names (
    binary op_and (binary greater (field (codes "age")) (number 18))
      (in_list (field (codes "city")) (cons (number 4) (cons (number 5) nil))))

abbrev rows : List Row
rows = (int32 (plus 7) ∷ string (codes "x") ∷ []) ∷ (int32 (plus 8) ∷ string (codes "y") ∷ []) ∷ []

abbrev insertion : Expr
insertion = insert users (codes "id" ∷ codes "name" ∷ []) rows

-- Two numbers as text, for the tests only.
abbrev std : ToChars
std = record {
  signed_chars = λ n. codes "i";
  unsigned_chars = λ n. codes "u";
  float_chars = λ n. codes "f";
  double_chars = λ n. codes "d";
}

sql_text :
    render std (generate ParamMode.tuple names).sql
    ≡ codes "SELECT DISTINCT "
      ++ (34 ∷ codes "name")
      ++ (34 ∷ codes " FROM ")
      ++ (34 ∷ codes "users")
      ++ (34 ∷ codes " AS ")
      ++ (34 ∷ codes "u")
      ++ 34 ∷ []
unfolding render generate codes visit visit_alias_impl visit_table_impl visit_column_impl
    visit_select_start
sql_text = refl

visit-Result_example :
    visit ParamMode.tuple query fresh ≡ Result ParamMode.tuple (slots query) fresh
visit-Result_example = visit-Result ParamMode.tuple query fresh

substitute_tuple_example :
    ((1024 < length (render std (lower_tuple 0 (slots query))))
      × (compile_static std 1024 ParamMode.tuple query ≡ none))
    ⊎ ((c : CompiledStatic) × (length (render std (lower_tuple 0 (slots query))) ≤ 1024)
        × (compile_static std 1024 ParamMode.tuple query ≡ some c)
        × (c.text ≡ render std (lower_tuple 0 (slots query)))
        × (substitute c.params c.sql ≡ (compile_dynamic ParamMode.inline query).sql))
unfolding slots
substitute_tuple_example = substitute_tuple query std 1024 tt tt

substitute_sink_example :
    substitute
      (compile_dynamic ParamMode.sink insertion).pushed
      (compile_dynamic ParamMode.sink insertion).sql
    ≡ (compile_dynamic ParamMode.inline insertion).sql
unfolding slots
substitute_sink_example = substitute_sink insertion tt

placeholders_captured_run :
    placeholders (generate ParamMode.tuple query).sql
    ≡ numbers 0 (length (generate ParamMode.tuple query).params)
unfolding slots
placeholders_captured_run = placeholders_captured query tt tt

insert_tuple_example :
    ((1024
        < length (
            render std
              (lower_tuple 0 (slots (insert users (codes "id" ∷ codes "name" ∷ []) rows)))))
      × (compile_static std 1024 ParamMode.tuple insertion ≡ none))
    ⊎ ((c : CompiledStatic) × (length (
            render std (lower_tuple 0 (slots (insert users (codes "id" ∷ codes "name" ∷ []) rows))))
          ≤ 1024)
        × (compile_static std 1024 ParamMode.tuple insertion ≡ some c)
        × (c.params ≡ [])
        × (length (placeholders c.sql) ≡ 4))
unfolding total
insert_tuple_example = insert_tuple std 1024 users (codes "id" ∷ codes "name" ∷ []) rows

-- `SELECT "age"` does not fit into 11 bytes.
too_long :
    compile_static std 11 ParamMode.tuple (select false (cons (field (codes "age")) nil)) ≡ none
unfolding compile_static append_pieces append_string render generate codes visit visit_alias_impl
    visit_table_impl visit_column_impl visit_select_start
too_long = refl

-- (("age" = ?) AND ("city" = 4))
abbrev mixed : Expr
mixed =
    binary op_and (binary equal (field (codes "age")) param_placeholder)
      (binary equal (field (codes "city")) (number 4))

sink_collision_example : 2 ≤ occurrences 1 (placeholders (compile_dynamic ParamMode.sink mixed).sql)
unfolding slots
sink_collision_example = sink_collision mixed (omega arith) (omega arith)

set_op_grouping_run :
    (generate ParamMode.inline (set_op except names (set_op union names query))).sql
    ≡ (generate ParamMode.inline (set_op union (set_op except names names) query)).sql
set_op_grouping_run = set_op_grouping ParamMode.inline except union names names query

not_grouping_run :
    ((generate ParamMode.inline (unary is_null (unary op_not (field (codes "age"))))).sql
      ≡ (generate ParamMode.inline (unary op_not (unary is_null (field (codes "age"))))).sql)
    × ((generate ParamMode.inline (unary is_not_null (unary op_not (field (codes "age"))))).sql
        ≡ (generate ParamMode.inline (unary op_not (unary is_not_null (field (codes "age"))))).sql)
not_grouping_run = not_grouping ParamMode.inline (field (codes "age"))

abbrev id_field : StaticFieldSchema
id_field = record {
  name = codes "id";
  sql_type = codes "INTEGER";
  is_primary_key = true;
  is_nullable = false;
  is_unique = true;
}

abbrev accounts : StaticTable
accounts = record { table_name = 97 ∷ []; fields = id_field ∷ [] }

create_table_static_run :
    (generate ParamMode.inline (create_table (static_table accounts) true)).sql
    ≡ (generate ParamMode.inline (
        create_table
          (dynamic_ptr
            (some (record { table_name = 97 ∷ []; fields = all_dynamic (id_field ∷ []) })))
          true)).sql
create_table_static_run = create_table_static ParamMode.inline accounts true (λ e. cc)
