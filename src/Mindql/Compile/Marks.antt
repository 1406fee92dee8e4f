-- ===== src/Mindql/Compile/Marks.antt =====
-- The `?` placeholders of the compiled SQL (src/engrava/mindql/executor.py), against its parameters.
use engrava.Prelude.{
  ℕ, suc, ◌+◌, ◌<◌, ◌≡◌, refl, ◌∙◌, Bool, true, ◌&&◌, Option, none, some, List, [], ◌∷◌, ◌++◌, map,
  ◌==◌, any, arith, length, length-append, All, Bool-cases, inl, inr, if◌then◌else◌,
}
use engrava.Prelude.Result.{Result, ok, raised, Yields, >>=-Yields, of_Yields}
use engrava.Prelude.Text.{Text, text, text_eq}
use engrava.Prelude.Decimal.{decimal, decimal-range}
use engrava.Mindql.Syntax.{
  MindqlOperator, Value, TemporalPredicateKind, valid_now, valid_at, valid_within, valid_between,
  BoolOp, op_and, op_or, WhereNode, Operands, comparison, in_condition, temporal_predicate,
  bool_expr, no_operands, operand,
}
use engrava.Mindql.Compile.{
  QueryError, Condition, TemporalPredicate, RowBound, Query, Param, Compiled, value_param,
  allowed_columns, temporal_tables, find_name, columns_of, resolved, or_raise, guard_table,
  guard_column, guard_keyword, guard_row_bound, op_sql, join, comparison_sql, temporal_sql,
  temporal_params, build_temporal_clause, joiner, compile_where_node, compile_operands,
  build_conditions, build_temporals, where_clauses, build_where, where_sql, sort_directions,
  order_items, order_sql, effective_limit, offset_sql, build_select_sql, compile_find,
}

-- How many `?` a text has.
abbrev pub placeholders : Text → ℕ
placeholders [] = 0
placeholders (c ∷ cs) = let rest = placeholders cs in if c == 63 then suc rest else rest

abbrev placeholders_all : List Text → ℕ
placeholders_all [] = 0
placeholders_all (x ∷ xs) = placeholders x + placeholders_all xs

-- As many placeholders as parameters.
abbrev Balanced : Compiled → Type 0
Balanced (sql, params) = placeholders sql ≡ length params

abbrev BalancedAll : List Text × List Param → Type 0
BalancedAll (sqls, params) = placeholders_all sqls ≡ length params

abbrev Plain : Text → Type 0
Plain t = placeholders t ≡ 0

placeholders-append : (s t : Text) → placeholders (s ++ t) ≡ placeholders s + placeholders t
placeholders-append [] t = omega arith
placeholders-append (c ∷ cs) t = elim (Bool-cases (c == 63)) [
  | inl e ↦ rw e (omega (arith, placeholders-append cs t))
  | inr e ↦ rw e (omega (arith, placeholders-append cs t))
]

adds :
    (m n : ℕ) (s t : Text) → placeholders s ≡ m → placeholders t ≡ n → placeholders (s ++ t) ≡ m + n
adds m n s t h k = omega (arith, placeholders-append s t)

all-append :
    (xs ys : List Text) → placeholders_all (xs ++ ys) ≡ placeholders_all xs + placeholders_all ys
all-append [] ys = omega arith
all-append (x ∷ xs) ys = omega (arith, all-append xs ys)

join-placeholders :
    (sep : Text) (xs : List Text) → Plain sep → placeholders (join sep xs) ≡ placeholders_all xs
unfolding join
join-placeholders sep [] h = refl
join-placeholders sep (x ∷ []) h = omega arith
join-placeholders sep (x ∷ y ∷ rest) h =
    let tail = join sep (y ∷ rest) in
    omega (
      arith,
      h,
      placeholders-append (x ++ sep) tail,
      placeholders-append x sep,
      join-placeholders sep (y ∷ rest) h,
    )

digits-Plain : (t : Text) → All (λ c. c < 58) t → Plain t
digits-Plain [] h = refl
digits-Plain (c ∷ cs) h = ground (arith, digits-Plain cs h.1)

decimal-Plain : (n : ℕ) → Plain (decimal n)
decimal-Plain n = digits-Plain (decimal n) (decimal-range n)

find_name-Yields {ℓ} :
    (P : Text → Type ℓ) (e : QueryError) (name : Text) (xs : List Text)
    → All P xs
    → Yields P (or_raise e (find_name name xs))
unfolding find_name
find_name-Yields P e name [] h = tt
find_name-Yields P e name (x ∷ xs) h = elim (Bool-cases (text_eq name x)) [
  | inl q ↦ rw q h.0
  | inr q ↦ rw q (find_name-Yields P e name xs h.1)
]

columns_of-All :
    (table : Text) (entries : List (Text × List Text))
    → All (λ entry. All Plain entry.1) entries
    → All Plain (columns_of table entries)
unfolding columns_of
columns_of-All table [] h = tt
columns_of-All table ((name, columns) ∷ more) h = elim (Bool-cases (text_eq table name)) [
  | inl q ↦ rw q h.0
  | inr q ↦ rw q (columns_of-All table more h.1)
]

abbrev are_plain : List Text → Bool
are_plain [] = true
are_plain (x ∷ xs) = placeholders x == 0 && are_plain xs

are_plain-Plain : (xs : List Text) → are_plain xs ≡ true → All Plain xs
are_plain-Plain [] h = tt
are_plain-Plain (x ∷ xs) h = (ground arith, are_plain-Plain xs (ground arith))

abbrev are_plain_entries : List (Text × List Text) → Bool
are_plain_entries [] = true
are_plain_entries ((name, columns) ∷ more) = are_plain columns && are_plain_entries more

are_plain_entries-Plain :
    (entries : List (Text × List Text))
    → are_plain_entries entries ≡ true
    → All (λ entry. All Plain entry.1) entries
are_plain_entries-Plain [] h = tt
are_plain_entries-Plain ((name, columns) ∷ more) h =
    (are_plain-Plain columns (ground arith), are_plain_entries-Plain more (ground arith))

allowed-Plain : All (λ entry. All Plain entry.1) allowed_columns
allowed-Plain = are_plain_entries-Plain allowed_columns refl

of_any {ℓ} : {A : Type ℓ} (m : Result QueryError A) → Yields (λ a. Unit {0}) m
of_any (ok a) = tt
of_any (raised e) = tt

column-Plain : (table field : Text) → Yields Plain (guard_column table field)
unfolding guard_column
column-Plain table field =
    find_name-Yields Plain _ field _ (columns_of-All table allowed_columns allowed-Plain)

table-Plain : (table : Option Text) → Yields Plain (guard_table table)
unfolding guard_table
table-Plain table =
    find_name-Yields Plain _ (resolved table) _
      (are_plain-Plain (map (λ entry. entry.0) allowed_columns) refl)

op-Plain : (operator : MindqlOperator) → Plain (op_sql operator)
op-Plain MindqlOperator.eq = refl
op-Plain MindqlOperator.ne = refl
op-Plain MindqlOperator.gt = refl
op-Plain MindqlOperator.lt = refl
op-Plain MindqlOperator.ge = refl
op-Plain MindqlOperator.le = refl

joiner-Plain : (op : BoolOp) → Plain (joiner op)
joiner-Plain op_and = refl
joiner-Plain op_or = refl

comparison-placeholders :
    (column : Text) (operator : MindqlOperator)
    → Plain column
    → placeholders (comparison_sql column operator) ≡ 1
comparison-placeholders column operator h =
    let spaced = adds 0 0 column (text " ") h refl in
    adds 0 1 (column ++ text " " ++ op_sql operator) (text " ?")
      (adds 0 0 (column ++ text " ") (op_sql operator) spaced (op-Plain operator)) refl

temporal-Balanced :
    (now : Text) (kind : TemporalPredicateKind) (start end : Option Text)
    → Balanced (temporal_sql kind, temporal_params now kind start end)
temporal-Balanced now valid_now start end = refl
temporal-Balanced now valid_at start end = refl
temporal-Balanced now valid_within start end = refl
temporal-Balanced now valid_between start end = refl

clause-Balanced :
    (now table : Text) (kind : TemporalPredicateKind) (start end : Option Text)
    → Yields Balanced (build_temporal_clause now table kind start end)
unfolding build_temporal_clause
clause-Balanced now table kind start end = elim (Bool-cases (any (text_eq table) temporal_tables)) [
  | inl e ↦ rw e (temporal-Balanced now kind start end)
  | inr e ↦ rw e tt
]

-- A fragment between two pieces of text that have no placeholder.
between :
    (before sql after : Text) (n : ℕ)
    → Plain before
    → placeholders sql ≡ n
    → Plain after
    → placeholders (before ++ sql ++ after) ≡ n
between before sql after n h k l =
    omega (arith, placeholders-append (before ++ sql) after, placeholders-append before sql)

marks-length :
    (values : List Value)
    → placeholders_all (map (λ value. text "?") values) ≡ length (map value_param values)
marks-length [] = refl
marks-length (v ∷ vs) = omega (arith, marks-length vs)

in-Balanced :
    (column : Text) (values : List Value)
    → Plain column
    → Balanced (
      column ++ text " IN (" ++ join (text ", ") (map (λ value. text "?") values) ++ text ")",
      map value_param values,
    )
in-Balanced column values h =
    let marks = join (text ", ") (map (λ value. text "?") values) in
    between (column ++ text " IN (") marks (text ")") _ (adds 0 0 column (text " IN (") h refl)
      (join-placeholders (text ", ") (map (λ value. text "?") values) refl ∙ marks-length values)
      refl

mutual
  unfolding compile_where_node

  node-Balanced :
      (now table : Text) (node : WhereNode) → Yields Balanced (compile_where_node now table node)
  node-Balanced now table (bool_expr op xs) =
      >>=-Yields BalancedAll Balanced (compile_operands now table xs) _
        (operands-Balanced now table xs)
        (λ (fragments, params) h.
          between (text "(") (join (joiner op) fragments) (text ")") _ refl
            (join-placeholders (joiner op) fragments (joiner-Plain op) ∙ h) refl)
  node-Balanced now table (comparison field operator value) =
      >>=-Yields Plain Balanced (guard_column table field) _ (column-Plain table field)
        (λ column h. comparison-placeholders column operator h)
  node-Balanced now table (in_condition field values) =
      >>=-Yields Plain Balanced (guard_column table field) _ (column-Plain table field)
        (λ column h. in-Balanced column values h)
  node-Balanced now table (temporal_predicate kind start end) =
      >>=-Yields Balanced Balanced (build_temporal_clause now table kind start end) _
        (clause-Balanced now table kind start end)
        (λ (fragment, params) h. between (text "(") fragment (text ")") _ refl h refl)

  operands-Balanced :
      (now table : Text) (xs : Operands) → Yields BalancedAll (compile_operands now table xs)
  operands-Balanced now table no_operands = refl
  operands-Balanced now table (operand x xs) =
      >>=-Yields Balanced BalancedAll (compile_where_node now table x) _ (node-Balanced now table x)
        (λ (fragment, params) h.
          >>=-Yields BalancedAll BalancedAll (compile_operands now table xs) _
            (operands-Balanced now table xs)
            (λ (fragments, more) k. omega (arith, h, k, length-append params more)))

conditions-Balanced :
    (table : Text) (conds : List Condition) → Yields BalancedAll (build_conditions table conds)
unfolding build_conditions
conditions-Balanced table [] = refl
conditions-Balanced table (cond ∷ conds) =
    >>=-Yields Plain BalancedAll (guard_column table cond.field) _ (column-Plain table cond.field)
      (λ column h.
        >>=-Yields BalancedAll BalancedAll (build_conditions table conds) _
          (conditions-Balanced table conds)
          (λ (clauses, params) k. omega (arith, k, comparison-placeholders column cond.operator h)))

temporals-Balanced :
    (now table : Text) (ps : List TemporalPredicate)
    → Yields BalancedAll (build_temporals now table ps)
unfolding build_temporals
temporals-Balanced now table [] = refl
temporals-Balanced now table (p ∷ ps) =
    >>=-Yields Balanced BalancedAll (build_temporal_clause now table p.kind p.start p.end) _
      (clause-Balanced now table p.kind p.start p.end)
      (λ (fragment, frag_params) h.
        >>=-Yields BalancedAll BalancedAll (build_temporals now table ps) _
          (temporals-Balanced now table ps)
          (λ (clauses, params) k. omega (arith, h, k, length-append frag_params params)))

where-Balanced :
    (now table : Text) (query : Query) (tree : Option WhereNode)
    → Yields BalancedAll (where_clauses now table query tree)
where-Balanced now table query (some node) =
    >>=-Yields Balanced BalancedAll (compile_where_node now table node) _
      (node-Balanced now table node) (λ (fragment, params) h. omega (arith, h))
where-Balanced now table query none =
    >>=-Yields BalancedAll BalancedAll (build_conditions table query.conditions) _
      (conditions-Balanced table query.conditions)
      (λ (clauses, params) h.
        >>=-Yields BalancedAll BalancedAll (build_temporals now table query.temporal_predicates) _
          (temporals-Balanced now table query.temporal_predicates)
          (λ (more, frag_params) k.
            omega (arith, h, k, length-append params frag_params, all-append clauses more)))

clauses-placeholders :
    (clauses : List Text) → placeholders (where_sql clauses) ≡ placeholders_all clauses
clauses-placeholders [] = refl
clauses-placeholders (c ∷ cs) = omega (
  arith,
  placeholders-append (text " WHERE ") (join (text " AND ") (c ∷ cs)),
  join-placeholders (text " AND ") (c ∷ cs) refl,
)

items-Plain :
    (upper : Text → Text) (table : Text) (keys : List (Text × Text))
    → Yields (λ items. placeholders_all items ≡ 0) (order_items upper table keys)
unfolding order_items guard_keyword
items-Plain upper table [] = refl
items-Plain upper table ((name, direction) ∷ more) =
    >>=-Yields Plain (λ items. placeholders_all items ≡ 0) (guard_column table name) _
      (column-Plain table name)
      (λ column h.
        >>=-Yields Plain (λ items. placeholders_all items ≡ 0)
          (guard_keyword upper direction sort_directions) _
          (find_name-Yields Plain _ (upper direction) sort_directions (refl, (refl, tt)))
          (λ keyword k.
            >>=-Yields (λ items. placeholders_all items ≡ 0) (λ items. placeholders_all items ≡ 0)
              (order_items upper table more) _ (items-Plain upper table more)
              (λ items l. omega (
                arith,
                k,
                l,
                adds 0 0 column (text " ") h refl,
                placeholders-append (column ++ text " ") keyword,
              ))))

order-Plain : (items : List Text) → placeholders_all items ≡ 0 → Plain (order_sql items)
order-Plain [] h = refl
order-Plain (i ∷ is) h =
    adds 0 0 (text " ORDER BY ") (join (text ", ") (i ∷ is)) refl
      (join-placeholders (text ", ") (i ∷ is) refl ∙ h)

offset-Plain : (offset : Option RowBound) → Yields Plain (offset_sql offset)
offset-Plain none = refl
offset-Plain (some v) =
    >>=-Yields (λ n. Unit {0}) Plain (guard_row_bound v) _ (of_any (guard_row_bound v))
      (λ n _. adds 0 0 (text " OFFSET ") (decimal n) refl (decimal-Plain n))

select-Balanced :
    (upper : Text → Text) (now table : Text) (query : Query)
    → Plain table
    → Yields Balanced (build_select_sql upper now table query)
unfolding build_select_sql
select-Balanced upper now table query h =
    >>=-Yields BalancedAll Balanced (build_where now table query) _
      (where-Balanced now table query query.where_tree)
      (λ (clauses, params) k.
        >>=-Yields (λ items. placeholders_all items ≡ 0) Balanced
          (order_items upper table query.order_by) _ (items-Plain upper table query.order_by)
          (λ items l.
            >>=-Yields (λ n. Unit {0}) Balanced (effective_limit query.limit) _
              (of_any (effective_limit query.limit))
              (λ bound _.
                >>=-Yields Plain Balanced (offset_sql query.offset) _ (offset-Plain query.offset)
                  (λ offset m. whole table clauses items bound offset (length params) h k l m))))
  where
    whole :
        (table : Text) (clauses items : List Text) (bound : ℕ) (offset : Text) (n : ℕ)
        → Plain table
        → placeholders_all clauses ≡ n
        → placeholders_all items ≡ 0
        → Plain offset
        → placeholders (
            text "SELECT * FROM "
            ++ table
            ++ where_sql clauses
            ++ order_sql items
            ++ text " LIMIT "
            ++ decimal bound
            ++ offset)
          ≡ n
    whole table clauses items bound offset n h k l m = omega (
      arith,
      h,
      k,
      m,
      placeholders-append
          (text "SELECT * FROM "
            ++ table
            ++ where_sql clauses
            ++ order_sql items
            ++ text " LIMIT "
            ++ decimal bound)
          offset,
      placeholders-append
          (text "SELECT * FROM " ++ table ++ where_sql clauses ++ order_sql items ++ text " LIMIT ")
          (decimal bound),
      placeholders-append (text "SELECT * FROM " ++ table ++ where_sql clauses ++ order_sql items)
          (text " LIMIT "),
      placeholders-append (text "SELECT * FROM " ++ table ++ where_sql clauses) (order_sql items),
      placeholders-append (text "SELECT * FROM " ++ table) (where_sql clauses),
      placeholders-append (text "SELECT * FROM ") table,
      clauses-placeholders clauses,
      order-Plain items l,
      decimal-Plain bound,
    )

-- The SQL of a FIND has exactly as many `?` as the query's parameters: every value of the WHERE
-- clause is bound, and nothing else that is interpolated (table, columns, keywords, numbers) holds
-- a placeholder.
pub compile_find-Balanced :
    (upper : Text → Text) (now : Text) (query : Query) (sql : Text) (params : List Param)
    → compile_find upper now query ≡ ok (sql, params)
    → placeholders sql ≡ length params
unfolding compile_find
compile_find-Balanced upper now query sql params e =
    of_Yields Balanced (compile_find upper now query) (sql, params)
      (>>=-Yields Plain Balanced (guard_table query.table) _ (table-Plain query.table)
        (λ table h. select-Balanced upper now table query h))
      e
