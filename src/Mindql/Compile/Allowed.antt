-- ===== src/Mindql/Compile/Allowed.antt =====
-- Which WHERE trees the executor (src/engrava/mindql/executor.py) compiles.
use engrava.Prelude.{
  ◌≡◌, refl, ◌↔◌, true, false, Option, List, [], ◌∷◌, ◌++◌, any, Bool-cases, inl, inr,
}
use mathlib.Core.List.{Memᴰ}
use engrava.Prelude.Result.{Result, ok, raised, ◌>>=◌}
use engrava.Prelude.Text.{Text, text_eq, text_eq_iff}
use engrava.Mindql.Syntax.{
  TemporalPredicateKind, WhereNode, Operands, comparison, in_condition, temporal_predicate,
  bool_expr, no_operands, operand,
}
use engrava.Mindql.Compile.{
  QueryError, Compiled, Param, allowed_columns, temporal_tables, find_name, columns_of, or_raise,
  guard_column, build_temporal_clause, compile_where_node, compile_operands,
}

-- The allowlist of the table names the column.
abbrev pub IsColumn : Text → Text → Type 0
IsColumn table field = Memᴰ field (columns_of table allowed_columns)

-- Every column of the tree is the table's, and only a table with valid time meets a temporal
-- predicate.
abbrev mutual
  pub IsAllowed : Text → WhereNode → Type 0
  IsAllowed table (bool_expr op xs) = AreAllowed table xs
  IsAllowed table (comparison field operator value) = IsColumn table field
  IsAllowed table (in_condition field values) = IsColumn table field
  IsAllowed table (temporal_predicate kind start end) = any (text_eq table) temporal_tables ≡ true

  pub AreAllowed : Text → Operands → Type 0
  AreAllowed table no_operands = Unit
  AreAllowed table (operand x xs) = IsAllowed table x × AreAllowed table xs

abbrev pub Returns {ℓ} : {A : Type ℓ} → Result QueryError A → Type ℓ
Returns m = (a : _) × (m ≡ ok a)

module _ {ℓ κ} {A : Type ℓ} {B : Type κ} where
  -- A chain whose later calls all return does so when the first one does.
  chain-Returns :
      (m : Result QueryError A) (next : A → Result QueryError B)
      → ((a : A) → Returns (next a))
      → Returns m ↔ Returns (m >>= next)
  chain-Returns (ok a) next h = (λ _. h a, λ _. (a, refl))
  chain-Returns (raised e) next h = (λ r. cc (r.1), λ r. cc (r.1))

find_name-found :
    (e : QueryError) (name : Text) (xs : List Text)
    → Memᴰ name xs
    → Returns (or_raise e (find_name name xs))
unfolding find_name
find_name-found e name [] m = elim m [ ]
find_name-found e name (x ∷ xs) m = elim (Bool-cases (text_eq name x)) [
  | inl q ↦ rw q (x, refl)
  | inr q ↦ rw q (find_name-found e name xs (later x xs m q))
]
  where
    later : (x : Text) (xs : List Text) → Memᴰ name (x ∷ xs) → text_eq name x ≡ false → Memᴰ name xs
    later x xs (Memᴰ.head p) q = absurd (cc ((text_eq_iff name x).1 p, q))
    later x xs (Memᴰ.tail k) q = k

find_name-mem :
    (e : QueryError) (name : Text) (xs : List Text)
    → Returns (or_raise e (find_name name xs))
    → Memᴰ name xs
unfolding find_name
find_name-mem e name [] r = absurd (cc (r.1))
find_name-mem e name (x ∷ xs) r = elim (Bool-cases (text_eq name x)) [
  | inl q ↦ Memᴰ.head ((text_eq_iff name x).0 q)
  | inr q ↦ Memᴰ.tail (find_name-mem e name xs (rw q at r))
]

IsColumn-Returns : (table field : Text) → IsColumn table field ↔ Returns (guard_column table field)
unfolding guard_column
IsColumn-Returns table field = (
  find_name-found _ field (columns_of table allowed_columns),
  find_name-mem _ field (columns_of table allowed_columns),
)

clause-Returns :
    (now table : Text) (kind : TemporalPredicateKind) (start end : Option Text)
    → (any (text_eq table) temporal_tables ≡ true)
      ↔ Returns (build_temporal_clause now table kind start end)
unfolding build_temporal_clause
clause-Returns now table kind start end = elim (Bool-cases (any (text_eq table) temporal_tables)) [
  | inl q ↦ rw q (λ _. (_, refl), λ _. refl)
  | inr q ↦ rw q (λ p. cc p, λ r. cc (r.1))
]

both : {A B C : Type 0} → A ↔ B → B ↔ C → A ↔ C
both h k = (λ a. k.0 (h.0 a), λ c. h.1 (k.1 c))

abbrev two_parts :
    Result QueryError Compiled
    → Result QueryError (List Text × List Param)
    → Result QueryError (List Text × List Param)
two_parts m n =
    m >>= λ (fragment, params). n >>= λ (fragments, more). ok (fragment ∷ fragments, params ++ more)

two_parts-Returns :
    (m : Result QueryError Compiled) (n : Result QueryError (List Text × List Param))
    → (Returns m × Returns n) ↔ Returns (two_parts m n)
two_parts-Returns (ok a) (ok b) = (λ _. (_, refl), λ _. ((a, refl), (b, refl)))
two_parts-Returns (ok a) (raised e) = (λ r. absurd (cc (r.1.1)), λ r. absurd (cc (r.1)))
two_parts-Returns (raised e) n = (λ r. absurd (cc (r.0.1)), λ r. absurd (cc (r.1)))

mutual
  unfolding compile_where_node

  node-Returns :
      (now table : Text) (node : WhereNode)
      → IsAllowed table node ↔ Returns (compile_where_node now table node)
  node-Returns now table (bool_expr op xs) =
      both (operands-AreAllowed now table xs)
        (chain-Returns (compile_operands now table xs) _ (λ r. (_, refl)))
  node-Returns now table (comparison field operator value) =
      both (IsColumn-Returns table field)
        (chain-Returns (guard_column table field) _ (λ r. (_, refl)))
  node-Returns now table (in_condition field values) =
      both (IsColumn-Returns table field)
        (chain-Returns (guard_column table field) _ (λ r. (_, refl)))
  node-Returns now table (temporal_predicate kind start end) =
      both (clause-Returns now table kind start end)
        (chain-Returns (build_temporal_clause now table kind start end) _ (λ r. (_, refl)))

  operands-AreAllowed :
      (now table : Text) (xs : Operands)
      → AreAllowed table xs ↔ Returns (compile_operands now table xs)
  operands-AreAllowed now table no_operands = (λ _. (_, refl), λ _. tt)
  operands-AreAllowed now table (operand x xs) =
      both (pair (node-Returns now table x) (operands-AreAllowed now table xs))
        (two_parts-Returns (compile_where_node now table x) (compile_operands now table xs))
    where
      pair : {A B C D : Type 0} → A ↔ B → C ↔ D → (A × C) ↔ (B × D)
      pair h k = (λ a. (h.0 a.0, k.0 a.1), λ b. (h.1 b.0, k.1 b.1))

-- A tree compiles exactly if every column it names, in comparisons and in IN lists, stands in the
-- allowlist of its table, and its temporal predicates, if any, meet a table with valid time.
pub compile_where_node-IsAllowed :
    (now table : Text) (node : WhereNode)
    → IsAllowed table node ↔ Returns (compile_where_node now table node)
compile_where_node-IsAllowed now table node = node-Returns now table node
