-- ===== src/Mindql/Parse.antt =====
-- `_BoolExprParser` and `_parse_bool_expr` (src/engrava/mindql/parser.py). The parser's position is
-- the list of the tokens that are left, its depth an argument: a call that returns has restored it.
pub mod Ends
pub mod RoundTrip
use engrava.Prelude.{
  ℕ, zero, suc, ◌+◌, ◌*◌, Bool, true, false, List, [], ◌∷◌, ltb, length, if◌then◌else◌,
}
use engrava.Prelude.Result.{Result, ok, raised, ◌>>=◌}
use engrava.Prelude.Text.{Text}
use engrava.Mindql.Syntax.{
  WhereNode, Operands, no_operands, operand, BoolOp, op_and, op_or, bool_expr, Token, Tokens,
  lparen, rparen, kw_and, kw_or, fragment, ParseError, expected_a_condition, nested_too_deeply,
  unbalanced_parentheses, unexpected_token, requires_a_condition, out_of_fuel,
}

-- `_MAX_WHERE_NESTING_DEPTH`.
abbrev pub max_where_nesting_depth : ℕ
max_where_nesting_depth = 256

abbrev pub Parsed {ℓ} : Type ℓ → Type ℓ
Parsed A = Result ParseError (A × Tokens)

-- `operands[0]` if it is the only one.
abbrev pub joined : BoolOp → WhereNode → Operands → WhereNode
joined op x no_operands = x
joined op x (operand y ys) = bool_expr op (operand x (operand y ys))

abbrev pub close_group : WhereNode × Tokens → Parsed WhereNode
close_group (node, rparen ∷ rest) = ok (node, rest)
close_group (node, _) = raised unbalanced_parentheses

-- `parser.at_end()`.
abbrev pub at_end : WhereNode × Tokens → Result ParseError WhereNode
at_end (node, []) = ok node
at_end (node, t ∷ ts) = raised (unexpected_token t)

module _ (parse_fragment : Text → Result ParseError WhereNode) where
  abbrev pub leaf_of : Text → Tokens → Parsed WhereNode
  leaf_of text rest = parse_fragment text >>= λ node. ok (node, rest)

  -- Each call costs one unit of fuel.
  unfoldable mutual
    pub parse_or : ℕ → ℕ → Tokens → Parsed WhereNode
    parse_or zero depth ts = raised out_of_fuel
    parse_or (suc f) depth ts = parse_and f depth ts >>= λ (x, rest).
        or_rest f depth rest >>= λ (xs, rest'). ok (joined op_or x xs, rest')

    pub or_rest : ℕ → ℕ → Tokens → Parsed Operands
    or_rest zero depth ts = raised out_of_fuel
    or_rest (suc f) depth (kw_or ∷ ts) = parse_and f depth ts >>= λ (x, rest).
        or_rest f depth rest >>= λ (xs, rest'). ok (operand x xs, rest')
    or_rest (suc f) depth ts = ok (no_operands, ts)

    pub parse_and : ℕ → ℕ → Tokens → Parsed WhereNode
    parse_and zero depth ts = raised out_of_fuel
    parse_and (suc f) depth ts = parse_operand f depth ts >>= λ (x, rest).
        and_rest f depth rest >>= λ (xs, rest'). ok (joined op_and x xs, rest')

    pub and_rest : ℕ → ℕ → Tokens → Parsed Operands
    and_rest zero depth ts = raised out_of_fuel
    and_rest (suc f) depth (kw_and ∷ ts) = parse_operand f depth ts >>= λ (x, rest).
        and_rest f depth rest >>= λ (xs, rest'). ok (operand x xs, rest')
    and_rest (suc f) depth ts = ok (no_operands, ts)

    pub parse_operand : ℕ → ℕ → Tokens → Parsed WhereNode
    parse_operand zero depth ts = raised out_of_fuel
    parse_operand (suc f) depth [] = raised expected_a_condition
    parse_operand (suc f) depth (lparen ∷ ts) =
        let group = parse_or f (suc depth) ts >>= close_group in
        if ltb max_where_nesting_depth (suc depth) then raised nested_too_deeply else group
    parse_operand (suc f) depth (rparen ∷ ts) = raised (unexpected_token rparen)
    parse_operand (suc f) depth (kw_and ∷ ts) = raised (unexpected_token kw_and)
    parse_operand (suc f) depth (kw_or ∷ ts) = raised (unexpected_token kw_or)
    parse_operand (suc f) depth (fragment text ∷ ts) = leaf_of text ts

  -- `_parse_bool_expr`, on the tokens of the clause.
  unfoldable pub parse_bool_expr : Tokens → Result ParseError WhereNode
  unfolding parse_or
  parse_bool_expr [] = raised requires_a_condition
  parse_bool_expr (t ∷ ts) = parse_or (4 * length (t ∷ ts) + 5) 0 (t ∷ ts) >>= at_end
