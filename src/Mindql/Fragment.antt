-- ===== src/Mindql/Fragment.antt =====
-- How one operand of a WHERE clause is read (src/engrava/mindql/parser.py). The regular expressions
-- of the module, the `str` methods, `int`, `float` and the ISO-8601 check are parameters.
pub mod Reads
use engrava.Prelude.{
  ℕ, zero, suc, Bool, true, false, ◌==◌, ◌&&◌, Option, none, some, List, [], ◌∷◌, length, get_elem?,
  if◌then◌else◌,
}
use engrava.Prelude.Result.{Result, ok, raised, ◌>>=◌}
use engrava.Prelude.Text.{Text, text, text_eq}
use engrava.Mindql.Quote.{unescape}
use engrava.Mindql.Syntax.{
  MindqlOperator, Value, str_value, float_value, int_value, TemporalPredicateKind, valid_now,
  valid_at, valid_within, valid_between, WhereNode, comparison, in_condition, temporal_predicate,
  ParseError, invalid_condition, malformed_in_list, empty_in_list, malformed_temporal_predicate,
  out_of_fuel,
}

pub record Lexis : Type 0 where
  -- `_CONDITION_RE.fullmatch`: the field, the operator, the quoted value or none, the bare value.
  pub condition_match : Text → Option (Text × Text × Option Text × Text)
  -- The `field IN (body)` expression: the field and the body.
  pub in_match : Text → Option (Text × Text)
  -- `_IN_VALUE_RE.match`: the quoted value or none, the bare value, and the text behind the match.
  pub in_value_match : Text → Option (Option Text × Text × Text)
  pub is_space : ℕ → Bool
  -- `part.split(None, 1)` of a text that is not blank: the first word, and the rest or an empty text.
  pub split_word : Text → Text × Text
  pub lower : Text → Text
  -- `_TIMESTAMP_ARG_RE.findall`, of each pair the group that is not empty.
  pub timestamp_args : Text → List Text
  -- `int(raw)`: the sign and the magnitude, or none for `ValueError`; `float(raw)` as its text.
  pub to_int : Text → Option (Bool × ℕ)
  pub to_float : Text → Option Text
  pub is_blank : Text → Bool
  -- `validate_iso8601_nullable` of a text: none for `ValueError`.
  pub iso8601 : Text → Option Text

-- `_OPERATOR_MAP`; the expression matches no other operator.
unfoldable pub operator_of : Text → MindqlOperator
operator_of op_str =
    if text_eq op_str (text "=")
    then MindqlOperator.eq
    else if text_eq op_str (text "!=")
    then MindqlOperator.ne
    else if text_eq op_str (text ">")
    then MindqlOperator.gt
    else if text_eq op_str (text "<")
    then MindqlOperator.lt
    else if text_eq op_str (text ">=")
    then MindqlOperator.ge
    else MindqlOperator.le

-- `TemporalPredicateKind(keyword)`: none for `ValueError`.
unfoldable pub kind_of : Text → Option TemporalPredicateKind
kind_of keyword =
    if text_eq keyword (text "valid_now")
    then some valid_now
    else if text_eq keyword (text "valid_at")
    then some valid_at
    else if text_eq keyword (text "valid_within")
    then some valid_within
    else if text_eq keyword (text "valid_between")
    then some valid_between
    else none

-- `_TEMPORAL_ARITY`.
abbrev pub temporal_arity : TemporalPredicateKind → ℕ
temporal_arity valid_now = 0
temporal_arity valid_at = 1
temporal_arity valid_within = 2
temporal_arity valid_between = 2

module _ (lexis : Lexis) where
  unfoldable pub coerce_value : Text → Value
  coerce_value raw = elim (lexis.to_int raw) [
    | some (negative, n) ↦ int_value negative n
    | none ↦ elim (lexis.to_float raw) [ some x ↦ float_value x | none ↦ str_value raw ]
  ]

  -- A quoted value verbatim but for its doubled quotes, a bare value coerced.
  abbrev pub value_of : Option Text → Text → Value
  value_of (some quoted) bare = str_value (unescape quoted)
  value_of none bare = coerce_value bare

  abbrev pub validated : Option Text → Result ParseError Text
  validated (some t) = ok t
  validated none = raised malformed_temporal_predicate

  unfoldable pub require_iso8601 : Text → Result ParseError Text
  require_iso8601 arg =
      if lexis.is_blank arg
      then raised malformed_temporal_predicate
      else validated (lexis.iso8601 arg)

  unfoldable pub validate_all : List Text → Result ParseError (List Text)
  validate_all [] = ok []
  validate_all (arg ∷ args) = require_iso8601 arg >>= λ v. validate_all args >>= λ vs. ok (v ∷ vs)

  abbrev pub temporal_of : TemporalPredicateKind → List Text → Result ParseError (Option WhereNode)
  temporal_of kind args =
      if length args == temporal_arity kind
      then (validate_all args >>= λ instants.
          ok (some (temporal_predicate kind (get_elem? instants 0) (get_elem? instants 1))))
      else raised malformed_temporal_predicate

  abbrev pub temporal_or_none :
      Option TemporalPredicateKind → Text → Result ParseError (Option WhereNode)
  temporal_or_none none rest = ok none
  temporal_or_none (some kind) rest = temporal_of kind (lexis.timestamp_args rest)

  -- `none` if the fragment starts with no temporal keyword.
  unfoldable pub try_parse_temporal_predicate : Text → Result ParseError (Option WhereNode)
  try_parse_temporal_predicate part =
      let words = lexis.split_word part in temporal_or_none (kind_of (lexis.lower words.0)) words.1

  -- A value at the start of the body, and the text behind it: a match of nothing is none.
  abbrev pub next_value : Text → Option (Option Text × Text × Text) → Option (Value × Text)
  next_value body none = none
  next_value body (some (quoted, bare, rest)) =
      if length rest == length body then none else some (value_of quoted bare, rest)

  -- The loop of `_parse_in_values` from where it stands; `seen` says whether it has values.
  unfoldable pub in_values_from :
      ℕ → (expect_value seen : Bool) → Text → Result ParseError (List Value)
  in_values_from zero expect_value seen body = raised out_of_fuel
  in_values_from (suc f) expect_value seen [] =
      if expect_value && seen then raised malformed_in_list else ok []
  in_values_from (suc f) true seen (c ∷ cs) = elim (lexis.is_space c) [
    | true ↦ in_values_from f true seen cs
    | false ↦ elim (c == 44) [
      | true ↦ raised malformed_in_list
      | false ↦ elim (next_value (c ∷ cs) (lexis.in_value_match (c ∷ cs))) [
        | none ↦ raised malformed_in_list
        | some (value, rest) ↦ in_values_from f false true rest >>= λ values. ok (value ∷ values)
      ]
    ]
  ]
  in_values_from (suc f) false seen (c ∷ cs) = elim (lexis.is_space c) [
    | true ↦ in_values_from f false seen cs
    | false ↦ elim (c == 44) [
      | true ↦ in_values_from f true seen cs
      | false ↦ raised malformed_in_list
    ]
  ]

  unfoldable pub parse_in_values : Text → Result ParseError (List Value)
  parse_in_values body = in_values_from (suc (length body)) true false body

  abbrev pub at_least_one : Text → List Value → Result ParseError (Option WhereNode)
  at_least_one field [] = raised empty_in_list
  at_least_one field (v ∷ vs) = ok (some (in_condition field (v ∷ vs)))

  abbrev pub in_or_none : Option (Text × Text) → Result ParseError (Option WhereNode)
  in_or_none none = ok none
  in_or_none (some (field, body)) = parse_in_values body >>= at_least_one field

  unfoldable pub try_parse_in_condition : Text → Result ParseError (Option WhereNode)
  try_parse_in_condition fragment = in_or_none (lexis.in_match fragment)

  -- `_parse_condition`, with the node that `_parse_operand_fragment` makes of the condition.
  abbrev pub condition_of : Option (Text × Text × Option Text × Text) → Result ParseError WhereNode
  condition_of none = raised invalid_condition
  condition_of (some (field, op_str, quoted, bare)) =
      ok (comparison field (operator_of op_str) (value_of quoted bare))

  unfoldable pub parse_condition : Text → Result ParseError WhereNode
  parse_condition part = condition_of (lexis.condition_match part)

  abbrev pub or_else : Option WhereNode → Result ParseError WhereNode → Result ParseError WhereNode
  or_else (some node) next = ok node
  or_else none next = next

  unfoldable pub parse_operand_fragment : Text → Result ParseError WhereNode
  parse_operand_fragment fragment = try_parse_temporal_predicate fragment >>= λ temporal.
      or_else temporal (
        try_parse_in_condition fragment >>= λ condition.
        or_else condition (parse_condition fragment))
