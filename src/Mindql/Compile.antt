-- ===== src/Mindql/Compile.antt =====
-- How a parsed query becomes SQL text and bound parameters (src/engrava/mindql/executor.py). A
-- query's fields have the types that their dataclasses declare; the instant of `valid_now` is the
-- one that `mindql_now` pins, an argument; `str.upper` is a parameter.
pub mod Marks
pub mod Values
pub mod Allowed
use engrava.Prelude.{
  ℕ, zero, suc, ◌+◌, Bool, true, false, Option, none, some, List, [], ◌∷◌, ◌++◌, map, ltb, any,
  if◌then◌else◌,
}
use engrava.Prelude.Result.{Result, ok, raised, ◌>>=◌}
use engrava.Prelude.Text.{Text, text, text_eq}
use engrava.Prelude.Decimal.{decimal}
use engrava.Mindql.Syntax.{
  MindqlOperator, Value, TemporalPredicateKind, valid_now, valid_at, valid_within, valid_between,
  BoolOp, op_and, op_or, WhereNode, Operands, comparison, in_condition, temporal_predicate,
  bool_expr, no_operands, operand,
}

-- `MindQLParseError`, as the executor raises it.
pub data QueryError : Type 0 where
  table_not_allowed column_not_allowed keyword_not_allowed temporal_not_supported : QueryError
  not_a_row_bound row_bound_too_large : QueryError

pub record Condition : Type 0 where
  pub field : Text
  pub operator : MindqlOperator
  pub value : Value

pub record TemporalPredicate : Type 0 where
  pub kind : TemporalPredicateKind
  pub start : Option Text
  pub end : Option Text

-- What a caller may hand over as `limit` or `offset`.
pub data RowBound : Type 0 where
  non_negative negative : ℕ → RowBound
  bool_bound : Bool → RowBound
  not_an_int : RowBound

-- The fields of `MindQLQuery` that FIND and COUNT read.
pub record Query : Type 0 where
  pub table : Option Text
  pub conditions : List Condition
  pub temporal_predicates : List TemporalPredicate
  pub where_tree : Option WhereNode
  pub order_by : List (Text × Text)
  pub limit : Option RowBound
  pub offset : Option RowBound

-- A bound parameter: a value of the query, or an instant that may be `None`.
pub data Param : Type 0 where
  value_param : Value → Param
  instant_param : Option Text → Param

abbrev pub Compiled : Type 0
Compiled = Text × List Param

-- `_ALLOWED_COLUMNS`.
abbrev pub allowed_columns : List (Text × List Text)
allowed_columns =
    (
      text "thought",
      text "thought_id"
          ∷ text "thought_type"
          ∷ text "essence"
          ∷ text "content"
          ∷ text "priority"
          ∷ text "lifecycle_status"
          ∷ text "created_cycle"
          ∷ text "updated_cycle"
          ∷ text "source"
          ∷ text "confidence"
          ∷ text "source_type"
          ∷ text "visibility"
          ∷ text "confirmation_count"
          ∷ [],
    )
    ∷ (
      text "edge",
      text "edge_id"
          ∷ text "from_thought_id"
          ∷ text "to_thought_id"
          ∷ text "edge_type"
          ∷ text "weight"
          ∷ text "created_cycle"
          ∷ text "source"
          ∷ text "decay_multiplier"
          ∷ [],
    )
    ∷ (
      text "embedding",
      text "embedding_id"
          ∷ text "owner_type"
          ∷ text "owner_id"
          ∷ text "model_name"
          ∷ text "dimension"
          ∷ [],
    )
    ∷ (
      text "action",
      text "action_id"
          ∷ text "source_thought_id"
          ∷ text "action_type"
          ∷ text "intent"
          ∷ text "status"
          ∷ text "verification_status"
          ∷ [],
    )
    ∷ []

-- `_TEMPORAL_TABLES`.
abbrev pub temporal_tables : List Text
temporal_tables = text "thought" ∷ text "edge" ∷ []

-- `DEFAULT_FIND_LIMIT` and `_SQLITE_MAX_INTEGER`.
abbrev pub default_find_limit : ℕ
default_find_limit = 100

abbrev pub sqlite_max_integer : ℕ
sqlite_max_integer = 9223372036854775807

-- The member of an allowlist that equals a text.
unfoldable pub find_name : Text → List Text → Option Text
find_name name [] = none
find_name name (x ∷ xs) = let rest = find_name name xs in if text_eq name x then some x else rest

unfoldable pub columns_of : Text → List (Text × List Text) → List Text
columns_of table [] = []
columns_of table ((name, columns) ∷ more) =
    let rest = columns_of table more in if text_eq table name then columns else rest

-- `table or _DEFAULT_TABLE`.
abbrev pub resolved : Option Text → Text
resolved none = text "thought"
resolved (some []) = text "thought"
resolved (some (c ∷ cs)) = c ∷ cs

abbrev pub or_raise {ℓ} : {A : Type ℓ} → QueryError → Option A → Result QueryError A
or_raise e none = raised e
or_raise e (some a) = ok a

unfoldable pub guard_table : Option Text → Result QueryError Text
guard_table table =
    or_raise table_not_allowed (find_name (resolved table) (map (λ entry. entry.0) allowed_columns))

unfoldable pub guard_column : Text → Text → Result QueryError Text
guard_column table field =
    or_raise column_not_allowed (find_name field (columns_of table allowed_columns))

unfoldable pub guard_keyword : (upper : Text → Text) → Text → List Text → Result QueryError Text
guard_keyword upper value allowed = or_raise keyword_not_allowed (find_name (upper value) allowed)

unfoldable pub guard_row_bound : RowBound → Result QueryError ℕ
guard_row_bound (non_negative n) =
    if ltb sqlite_max_integer n then raised row_bound_too_large else ok n
guard_row_bound (negative n) = raised not_a_row_bound
guard_row_bound (bool_bound b) = raised not_a_row_bound
guard_row_bound not_an_int = raised not_a_row_bound

-- `_OP_SQL`.
abbrev pub op_sql : MindqlOperator → Text
op_sql MindqlOperator.eq = text "="
op_sql MindqlOperator.ne = text "!="
op_sql MindqlOperator.gt = text ">"
op_sql MindqlOperator.lt = text "<"
op_sql MindqlOperator.ge = text ">="
op_sql MindqlOperator.le = text "<="

-- `sep.join(parts)`.
unfoldable pub join : Text → List Text → Text
join sep [] = []
join sep (x ∷ []) = x
join sep (x ∷ y ∷ rest) = x ++ sep ++ join sep (y ∷ rest)

abbrev pub comparison_sql : Text → MindqlOperator → Text
comparison_sql column operator = column ++ text " " ++ op_sql operator ++ text " ?"

-- `_build_temporal_clause`, for a table with valid-time columns.
abbrev pub temporal_sql : TemporalPredicateKind → Text
temporal_sql valid_now =
    text "(valid_from IS NULL OR valid_from <= ?) AND (valid_until IS NULL OR valid_until > ?)"
temporal_sql valid_at =
    text "(valid_from IS NULL OR valid_from <= ?) AND (valid_until IS NULL OR valid_until > ?)"
temporal_sql valid_within =
    text "(valid_from IS NULL OR valid_from < ?) AND (valid_until IS NULL OR valid_until > ?)"
temporal_sql valid_between =
    text
      "valid_from IS NOT NULL AND valid_from >= ? AND valid_until IS NOT NULL AND valid_until <= ?"

abbrev pub temporal_params :
    (now : Text) → TemporalPredicateKind → Option Text → Option Text → List Param
temporal_params now valid_now start end = instant_param (some now) ∷ instant_param (some now) ∷ []
temporal_params now valid_at start end = instant_param start ∷ instant_param start ∷ []
temporal_params now valid_within start end = instant_param end ∷ instant_param start ∷ []
temporal_params now valid_between start end = instant_param start ∷ instant_param end ∷ []

unfoldable pub build_temporal_clause :
    (now table : Text)
    → TemporalPredicateKind
    → Option Text
    → Option Text
    → Result QueryError Compiled
build_temporal_clause now table kind start end =
    if any (text_eq table) temporal_tables
    then ok (temporal_sql kind, temporal_params now kind start end)
    else raised temporal_not_supported

-- The joiner of a node is one of the two keywords by its type, and passes `_guard_keyword`.
abbrev pub joiner : BoolOp → Text
joiner op_and = text " AND "
joiner op_or = text " OR "

unfoldable mutual
  pub compile_where_node : (now table : Text) → WhereNode → Result QueryError Compiled
  compile_where_node now table (bool_expr op xs) =
      compile_operands now table xs >>= λ (fragments, params).
      ok (text "(" ++ join (joiner op) fragments ++ text ")", params)
  compile_where_node now table (comparison field operator value) =
      guard_column table field >>= λ column.
      ok (comparison_sql column operator, value_param value ∷ [])
  compile_where_node now table (in_condition field values) = guard_column table field >>= λ column.
      ok (
        column ++ text " IN (" ++ join (text ", ") (map (λ value. text "?") values) ++ text ")",
        map value_param values,
      )
  compile_where_node now table (temporal_predicate kind start end) =
      build_temporal_clause now table kind start end >>= λ (fragment, params).
      ok (text "(" ++ fragment ++ text ")", params)

  pub compile_operands : (now table : Text) → Operands → Result QueryError (List Text × List Param)
  compile_operands now table no_operands = ok ([], [])
  compile_operands now table (operand x xs) =
      compile_where_node now table x >>= λ (fragment, params).
      compile_operands now table xs >>= λ (fragments, more).
      ok (fragment ∷ fragments, params ++ more)

-- The flat path of `_build_where`: its two loops.
unfoldable pub build_conditions :
    (table : Text) → List Condition → Result QueryError (List Text × List Param)
build_conditions table [] = ok ([], [])
build_conditions table (cond ∷ conds) = guard_column table cond.field >>= λ column.
    build_conditions table conds >>= λ (clauses, params).
    ok (comparison_sql column cond.operator ∷ clauses, value_param cond.value ∷ params)

unfoldable pub build_temporals :
    (now table : Text) → List TemporalPredicate → Result QueryError (List Text × List Param)
build_temporals now table [] = ok ([], [])
build_temporals now table (p ∷ ps) =
    build_temporal_clause now table p.kind p.start p.end >>= λ (fragment, frag_params).
    build_temporals now table ps >>= λ (clauses, params).
    ok (fragment ∷ clauses, frag_params ++ params)

abbrev pub where_clauses :
    (now table : Text) → Query → Option WhereNode → Result QueryError (List Text × List Param)
where_clauses now table query (some node) =
    compile_where_node now table node >>= λ (fragment, params). ok (fragment ∷ [], params)
where_clauses now table query none =
    build_conditions table query.conditions >>= λ (clauses, params).
    build_temporals now table query.temporal_predicates >>= λ (more, frag_params).
    ok (clauses ++ more, params ++ frag_params)

-- The tree if the query has one, else the flat path.
abbrev pub build_where : (now table : Text) → Query → Result QueryError (List Text × List Param)
build_where now table query = where_clauses now table query query.where_tree

-- `f" WHERE {' AND '.join(clauses)}" if clauses else ""`.
abbrev pub where_sql : List Text → Text
where_sql [] = []
where_sql (c ∷ cs) = text " WHERE " ++ join (text " AND ") (c ∷ cs)

abbrev pub sort_directions : List Text
sort_directions = text "ASC" ∷ text "DESC" ∷ []

unfoldable pub order_items :
    (upper : Text → Text) (table : Text) → List (Text × Text) → Result QueryError (List Text)
order_items upper table [] = ok []
order_items upper table ((field_name, direction) ∷ more) =
    guard_column table field_name >>= λ column.
    guard_keyword upper direction sort_directions >>= λ keyword.
    order_items upper table more >>= λ items. ok ((column ++ text " " ++ keyword) ∷ items)

-- `_build_order_by`, on the items.
abbrev pub order_sql : List Text → Text
order_sql [] = []
order_sql (i ∷ is) = text " ORDER BY " ++ join (text ", ") (i ∷ is)

abbrev pub effective_limit : Option RowBound → Result QueryError ℕ
effective_limit none = ok default_find_limit
effective_limit (some v) = guard_row_bound v

abbrev pub offset_sql : Option RowBound → Result QueryError Text
offset_sql none = ok []
offset_sql (some v) = guard_row_bound v >>= λ n. ok (text " OFFSET " ++ decimal n)

unfoldable pub build_select_sql :
    (upper : Text → Text) (now table : Text) (query : Query) → Result QueryError Compiled
build_select_sql upper now table query = build_where now table query >>= λ (clauses, params).
    order_items upper table query.order_by >>= λ items. effective_limit query.limit >>= λ bound.
    offset_sql query.offset >>= λ offset. ok (
      text "SELECT * FROM "
          ++ table
          ++ where_sql clauses
          ++ order_sql items
          ++ text " LIMIT "
          ++ decimal bound
          ++ offset,
      params,
    )

-- The FIND branch and the COUNT branch of `_explain`.
unfoldable pub compile_find :
    (upper : Text → Text) (now : Text) (query : Query) → Result QueryError Compiled
compile_find upper now query =
    guard_table query.table >>= λ table. build_select_sql upper now table query

unfoldable pub compile_count : (now : Text) (query : Query) → Result QueryError Compiled
compile_count now query = guard_table query.table >>= λ table.
    build_where now table query >>= λ (clauses, params).
    ok (text "SELECT COUNT(*) AS cnt FROM " ++ table ++ where_sql clauses, params)
