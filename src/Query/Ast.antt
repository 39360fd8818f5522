-- ===== src/Query/Ast.antt =====
-- The expression tree that the query builder makes: components/database/query/expressions and the
-- values, columns and tables of components/database/primitives. A class template over its operand
-- types is one constructor here; a parameter pack is a list.
use demiplane.Prelude.{ℕ, Bool, Option, List, Text}

-- A signed integer by its sign and magnitude: `minus n` is -(n + 1).
pub data Signed : Type 0 where
  plus minus : ℕ → Signed

-- `FieldValue`, the variant of db_field_value.hpp. A `float` or `double` is its bit pattern.
pub data FieldValue : Type 0 where
  null : FieldValue
  bool : Bool → FieldValue
  char : ℕ → FieldValue
  int16 int32 int64 : Signed → FieldValue
  uint16 uint32 uint64 : ℕ → FieldValue
  float double : ℕ → FieldValue
  string string_view : Text → FieldValue
  bytes byte_span : List ℕ → FieldValue

pub record Column : Type 0 where
  pub name : Text
  pub table_name : Text
  pub alias : Text

-- `IsColumnLike`: a column, typed or not, or `AllColumns` with the name of its table.
pub data ColumnLike : Type 0 where
  column : Column → ColumnLike
  all_columns : Text → ColumnLike

-- The members of `DynamicFieldSchema` that the generator reads.
pub record FieldSchema : Type 0 where
  pub name : Text
  pub db_type : Text
  pub is_nullable : Bool
  pub is_primary_key : Bool
  pub is_foreign_key : Bool
  pub is_unique : Bool
  pub foreign_table : Text
  pub foreign_column : Text
  pub default_value : Text

pub record DynamicTable : Type 0 where
  pub table_name : Text
  pub fields : List FieldSchema

-- A field of a static table; `sql_type` is the text of `sql_type_for` at the field's C++ type.
pub record StaticFieldSchema : Type 0 where
  pub name : Text
  pub sql_type : Text
  pub is_primary_key : Bool
  pub is_nullable : Bool
  pub is_unique : Bool

pub record StaticTable : Type 0 where
  pub table_name : Text
  pub fields : List StaticFieldSchema

-- A table with a schema: a `DynamicTablePtr`, which may be null, or a static table.
pub data TableSchema : Type 0 where
  dynamic_ptr : Option DynamicTable → TableSchema
  static_table : StaticTable → TableSchema

-- `IsTable`: one with a schema, or a bare name.
pub data Table : Type 0 where
  schema : TableSchema → Table
  table_name : Text → Table

-- `OpNotIn` has no `visit_binary_op_impl`, so no query with it compiles.
pub data BinaryOp : Type 0 where
  equal not_equal less less_equal greater greater_equal : BinaryOp
  op_and op_or op_like op_not_like op_in : BinaryOp

pub data UnaryOp : Type 0 where
  op_not is_null is_not_null : UnaryOp

pub data JoinType : Type 0 where
  inner left right full cross : JoinType

pub data SetOperation : Type 0 where
  union union_all intersect except : SetOperation

pub data OrderDirection : Type 0 where
  asc desc : OrderDirection

-- The rows of an INSERT and the assignments of an UPDATE.
abbrev pub Row : Type 0
Row = List FieldValue

abbrev pub Assignment : Type 0
Assignment = Text × FieldValue

-- Every node that the visitor visits. In `from_cte` the text is the name of the CTE, the next
-- expression its query, and the flag says that it is recursive, as in `cte`.
mutual
  pub data Expr : Type 0 where
    column_expr : Column → Expr
    literal : FieldValue → Text → Expr
    null_literal : Expr
    param_placeholder : Expr
    all_columns_expr : Text → Expr
    binary : BinaryOp → Expr → Expr → Expr
    unary : UnaryOp → Expr → Expr
    between : Expr → Expr → Expr → Expr
    in_list : Expr → Exprs → Expr
    subquery : Expr → Text → Expr
    exists : Expr → Expr
    count : Bool → ColumnLike → Text → Expr
    sum avg max min : ColumnLike → Text → Expr
    order_term : ColumnLike → OrderDirection → Expr
    select : Bool → Exprs → Expr
    from_table : Expr → Table → Text → Expr
    from_cte : Expr → Text → Expr → Bool → Expr
    where_expr : Expr → Expr → Expr
    group_by_column : Expr → Exprs → Expr
    group_by_query : Expr → Expr → Expr
    having : Expr → Expr → Expr
    order_by : Expr → Exprs → Expr
    limit : Expr → ℕ → ℕ → Expr
    join : Expr → JoinType → Table → Text → Expr → Expr
    insert : Table → List Text → List Row → Expr
    update : Table → List Assignment → Expr
    update_where : Expr → Expr → Expr
    delete : Table → Expr
    delete_where : Expr → Expr → Expr
    set_op : SetOperation → Expr → Expr → Expr
    case_expr : Whens → Text → Expr
    case_expr_with_else : Whens → Expr → Text → Expr
    cte : Text → Expr → Bool → Expr
    create_table : TableSchema → Bool → Expr
    drop_table : Table → Bool → Bool → Expr

  pub data Exprs : Type 0 where
    nil : Exprs
    cons : Expr → Exprs → Exprs

  pub data Whens : Type 0 where
    done : Whens
    when : Expr → Expr → Whens → Whens
