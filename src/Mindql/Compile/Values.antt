-- ===== src/Mindql/Compile/Values.antt =====
-- The SQL text of a query (src/engrava/mindql/executor.py) against its values.
use engrava.Prelude.{
  ◌≡◌, refl, ap, Option, none, some, List, [], ◌∷◌, ◌++◌, map, any, Bool-cases, inl, inr,
}
use engrava.Prelude.Result.{Result, ok, raised, ◌>>=◌}
use engrava.Prelude.Text.{Text, text, text_eq}
use engrava.Mindql.Syntax.{
  Value, TemporalPredicateKind, valid_now, valid_at, valid_within, valid_between, WhereNode,
  Operands, comparison, in_condition, temporal_predicate, bool_expr, no_operands, operand,
}
use engrava.Mindql.Compile.{
  QueryError, Condition, TemporalPredicate, Query, Param, value_param, instant_param,
  temporal_tables, guard_table, guard_column, temporal_sql, temporal_params, build_temporal_clause,
  compile_where_node, compile_operands, build_conditions, build_temporals, where_clauses,
  build_where, order_items, effective_limit, offset_sql, build_select_sql, compile_find,
}

-- A query with other values in the same places.
unfoldable mutual
  pub with_values : (Value → Value) → WhereNode → WhereNode
  with_values f (bool_expr op xs) = bool_expr op (with_values_all f xs)
  with_values f (comparison field operator value) = comparison field operator (f value)
  with_values f (in_condition field values) = in_condition field (map f values)
  with_values f (temporal_predicate kind start end) = temporal_predicate kind start end

  pub with_values_all : (Value → Value) → Operands → Operands
  with_values_all f no_operands = no_operands
  with_values_all f (operand x xs) = operand (with_values f x) (with_values_all f xs)

abbrev condition_with : (Value → Value) → Condition → Condition
condition_with f cond = record {
  field = cond.field;
  operator = cond.operator;
  value = f cond.value;
}

abbrev tree_with : (Value → Value) → Option WhereNode → Option WhereNode
tree_with f none = none
tree_with f (some node) = some (with_values f node)

abbrev pub query_with : (Value → Value) → Query → Query
query_with f query = record {
  table = query.table;
  conditions = map (condition_with f) query.conditions;
  temporal_predicates = query.temporal_predicates;
  where_tree = tree_with f query.where_tree;
  order_by = query.order_by;
  limit = query.limit;
  offset = query.offset;
}

abbrev param_with : (Value → Value) → Param → Param
param_with f (value_param v) = value_param (f v)
param_with f (instant_param t) = instant_param t

-- The same text, and the parameters with the other values.
abbrev pub params_with {ℓ} : {A : Type ℓ} → (Value → Value) → A × List Param → A × List Param
params_with f (sql, params) = (sql, map (param_with f) params)

abbrev pub returned_with {ℓ} :
    {A : Type ℓ}
    → (Value → Value)
    → Result QueryError (A × List Param)
    → Result QueryError (A × List Param)
returned_with f m = m >>= λ r. ok (params_with f r)

-- The two calls go the same way after a first call that the values do not reach, or reach alike.
module _ {ℓ κ} {A : Type ℓ} {B : Type κ} (f : Value → Value) where
  after :
      (m : Result QueryError A) (next next' : A → Result QueryError (B × List Param))
      → ((a : A) → next' a ≡ returned_with f (next a))
      → m >>= next' ≡ returned_with f (m >>= next)
  after (ok a) next next' h = h a
  after (raised e) next next' h = refl

  after_with :
      (m m' : Result QueryError (A × List Param))
      (next next' : A × List Param → Result QueryError (B × List Param))
      → m' ≡ returned_with f m
      → ((r : A × List Param) → next' (params_with f r) ≡ returned_with f (next r))
      → m' >>= next' ≡ returned_with f (m >>= next)
  after_with (ok r) m' next next' e h = rw e (h r)
  after_with (raised x) m' next next' e h = rw e refl

map_params-append :
    (f : Value → Value) (xs ys : List Param)
    → map (param_with f) (xs ++ ys) ≡ map (param_with f) xs ++ map (param_with f) ys
map_params-append f [] ys = refl
map_params-append f (x ∷ xs) ys = rw (map_params-append f xs ys) refl

temporal_params-with :
    (f : Value → Value) (now : Text) (kind : TemporalPredicateKind) (start end : Option Text)
    → temporal_params now kind start end ≡ map (param_with f) (temporal_params now kind start end)
temporal_params-with f now valid_now start end = refl
temporal_params-with f now valid_at start end = refl
temporal_params-with f now valid_within start end = refl
temporal_params-with f now valid_between start end = refl

clause-with :
    (f : Value → Value) (now table : Text) (kind : TemporalPredicateKind) (start end : Option Text)
    → build_temporal_clause now table kind start end
      ≡ returned_with f (build_temporal_clause now table kind start end)
unfolding build_temporal_clause
clause-with f now table kind start end = elim (Bool-cases (any (text_eq table) temporal_tables)) [
  | inl e ↦
      rw e
        (ap (λ params. ok (temporal_sql kind, params)) (temporal_params-with f now kind start end))
  | inr e ↦ rw e refl
]

marks-with :
    (f : Value → Value) (values : List Value)
    → map (λ value. text "?") (map f values) ≡ map (λ value. text "?") values
marks-with f [] = refl
marks-with f (v ∷ vs) = ap (◌∷◌ (text "?")) (marks-with f vs)

values-with :
    (f : Value → Value) (values : List Value)
    → map value_param (map f values) ≡ map (param_with f) (map value_param values)
values-with f [] = refl
values-with f (v ∷ vs) = ap (◌∷◌ (value_param (f v))) (values-with f vs)

mutual
  unfolding compile_where_node with_values

  node-with :
      (f : Value → Value) (now table : Text) (node : WhereNode)
      → compile_where_node now table (with_values f node)
        ≡ returned_with f (compile_where_node now table node)
  node-with f now table (bool_expr op xs) =
      after_with f (compile_operands now table xs) _ _ _ (operands-with f now table xs) (λ r. refl)
  node-with f now table (comparison field operator value) =
      after f (guard_column table field) _ _ (λ column. refl)
  node-with f now table (in_condition field values) =
      after f (guard_column table field) _ _
        (λ column. rw (marks-with f values, values-with f values) refl)
  node-with f now table (temporal_predicate kind start end) =
      after_with f (build_temporal_clause now table kind start end) _ _ _
        (clause-with f now table kind start end) (λ r. refl)

  operands-with :
      (f : Value → Value) (now table : Text) (xs : Operands)
      → compile_operands now table (with_values_all f xs)
        ≡ returned_with f (compile_operands now table xs)
  operands-with f now table no_operands = refl
  operands-with f now table (operand x xs) =
      after_with f (compile_where_node now table x) _ _ _ (node-with f now table x)
        (λ (fragment, params).
          after_with f (compile_operands now table xs) _ _ _ (operands-with f now table xs)
            (λ (fragments, more). rw (map_params-append f params more) refl))

conditions-with :
    (f : Value → Value) (table : Text) (conds : List Condition)
    → build_conditions table (map (condition_with f) conds)
      ≡ returned_with f (build_conditions table conds)
unfolding build_conditions
conditions-with f table [] = refl
conditions-with f table (cond ∷ conds) = after f (guard_column table cond.field) _ _ (λ column.
    after_with f (build_conditions table conds) _ _ _ (conditions-with f table conds) (λ r. refl))

temporals-with :
    (f : Value → Value) (now table : Text) (ps : List TemporalPredicate)
    → build_temporals now table ps ≡ returned_with f (build_temporals now table ps)
unfolding build_temporals
temporals-with f now table [] = refl
temporals-with f now table (p ∷ ps) =
    after_with f (build_temporal_clause now table p.kind p.start p.end) _ _ _
      (clause-with f now table p.kind p.start p.end)
      (λ (fragment, frag_params).
        after_with f (build_temporals now table ps) _ _ _ (temporals-with f now table ps)
          (λ (clauses, params). rw (map_params-append f frag_params params) refl))

where-with :
    (f : Value → Value) (now table : Text) (query : Query) (tree : Option WhereNode)
    → where_clauses now table (query_with f query) (tree_with f tree)
      ≡ returned_with f (where_clauses now table query tree)
where-with f now table query (some node) =
    after_with f (compile_where_node now table node) _ _ _ (node-with f now table node) (λ r. refl)
where-with f now table query none =
    after_with f (build_conditions table query.conditions) _ _ _
      (conditions-with f table query.conditions)
      (λ (clauses, params).
        after_with f (build_temporals now table query.temporal_predicates) _ _ _
          (temporals-with f now table query.temporal_predicates)
          (λ (more, frag_params). rw (map_params-append f params frag_params) refl))

-- The text of a FIND is the same for every choice of its values, in comparisons and in IN lists: a
-- value only ever becomes a bound parameter, in the place where it stands. Whether the query is
-- refused, and with which error, does not depend on its values either.
pub compile_find-query_with :
    (f : Value → Value) (upper : Text → Text) (now : Text) (query : Query)
    → compile_find upper now (query_with f query) ≡ returned_with f (compile_find upper now query)
unfolding compile_find build_select_sql
compile_find-query_with f upper now query = after f (guard_table query.table) _ _ (λ table.
    after_with f (build_where now table query) _ _ _ (where-with f now table query query.where_tree)
      (λ (clauses, params). after f (order_items upper table query.order_by) _ _ (λ items.
        after f (effective_limit query.limit) _ _
          (λ bound. after f (offset_sql query.offset) _ _ (λ offset. refl)))))
