-- ===== src/Mindql/Syntax.antt =====
-- Conditions, the WHERE tree, and the tokens of a WHERE clause (src/engrava/mindql/parser.py).
use engrava.Prelude.{ℕ, Bool, Option, List}
use engrava.Prelude.Text.{Text}

pub data MindqlOperator : Type 0 where
  eq ne gt lt ge le : MindqlOperator

-- `str | int | float`; a float is the text that `float()` read.
pub data Value : Type 0 where
  str_value float_value : Text → Value
  int_value : (negative : Bool) → ℕ → Value

pub data TemporalPredicateKind : Type 0 where
  valid_now valid_at valid_within valid_between : TemporalPredicateKind

pub data BoolOp : Type 0 where
  op_and op_or : BoolOp

-- `WhereNode`: a comparison, a membership, a temporal predicate, or a joined expression.
mutual
  pub data WhereNode : Type 0 where
    comparison : (field : Text) → MindqlOperator → Value → WhereNode
    in_condition : (field : Text) → List Value → WhereNode
    temporal_predicate : TemporalPredicateKind → Option Text → Option Text → WhereNode
    bool_expr : BoolOp → Operands → WhereNode

  pub data Operands : Type 0 where
    no_operands : Operands
    operand : WhereNode → Operands → Operands

-- The stream of `_tokenize_where`: its four structural strings, and the fragments.
pub data Token : Type 0 where
  lparen rparen kw_and kw_or : Token
  fragment : Text → Token

abbrev pub Tokens : Type 0
Tokens = List Token

pub data ParseError : Type 0 where
  expected_a_condition nested_too_deeply unbalanced_parentheses : ParseError
  unexpected_token : Token → ParseError
  invalid_condition malformed_in_list empty_in_list malformed_temporal_predicate : ParseError
  requires_a_condition unterminated_string unterminated_in : ParseError
  out_of_fuel : ParseError
