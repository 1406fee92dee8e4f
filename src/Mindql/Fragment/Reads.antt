-- ===== src/Mindql/Fragment/Reads.antt =====
-- Reading a WHERE clause (src/engrava/mindql/parser.py), fragments included, and its fuel.
use engrava.Prelude.{
  ℕ, zero, suc, ◌<◌, ◌≤◌, ◌≡◌, ◌≢◌, refl, Bool, true, false, ◌==◌, ==_iff, Option, none, some, List,
  [], ◌∷◌, length, arith, Option-cases, inl, inr, if◌then◌else◌,
}
use engrava.Prelude.Result.{Result, raised}
use engrava.Prelude.Text.{Text}
use engrava.Mindql.Syntax.{Value, TemporalPredicateKind, WhereNode, Tokens, ParseError, out_of_fuel}
use engrava.Mindql.Ended.{Ended, chain-Ended, either-Ended, if-Ended}
use engrava.Mindql.Parse.{parse_bool_expr}
use engrava.Mindql.Parse.Ends.{parse_bool_expr-ends}
use engrava.Mindql.Fragment.{
  Lexis, kind_of, value_of, validated, require_iso8601, temporal_or_none, in_or_none, condition_of,
  validate_all, temporal_arity, temporal_of, try_parse_temporal_predicate, next_value,
  in_values_from, parse_in_values, at_least_one, try_parse_in_condition, parse_condition, or_else,
  parse_operand_fragment,
}

-- `_parse_bool_expr` with the fragments read as the module reads them.
unfoldable pub parse_where : Lexis → Tokens → Result ParseError WhereNode
parse_where lexis tokens = parse_bool_expr (parse_operand_fragment lexis) tokens

-- What a match of `_IN_VALUE_RE` leaves is no longer than the text it was tried on.
abbrev pub Advances : Lexis → Type 0
Advances lexis =
    (body bare rest : Text) (quoted : Option Text)
    → lexis.in_value_match body ≡ some (quoted, bare, rest)
    → length rest ≤ length body

module _ (lexis : Lexis) where
  validated-Ended : (o : Option Text) → Ended (validated lexis o)
  validated-Ended (some v) = λ p. cc p
  validated-Ended none = λ p. cc p

  iso-Ended : (arg : Text) → Ended (require_iso8601 lexis arg)
  unfolding require_iso8601
  iso-Ended arg =
      if-Ended (lexis.is_blank arg) _ _ (λ p. cc p) (validated-Ended (lexis.iso8601 arg))

  all-Ended : (args : List Text) → Ended (validate_all lexis args)
  unfolding validate_all
  all-Ended [] = λ p. cc p
  all-Ended (arg ∷ args) =
      chain-Ended (require_iso8601 lexis arg) _ (iso-Ended arg)
        (λ v. chain-Ended (validate_all lexis args) _ (all-Ended args) (λ vs p. cc p))

  temporal_of-Ended :
      (kind : TemporalPredicateKind) (args : List Text) → Ended (temporal_of lexis kind args)
  temporal_of-Ended kind args =
      if-Ended (length args == temporal_arity kind) _ _
        (chain-Ended (validate_all lexis args) _ (all-Ended args) (λ vs p. cc p)) (λ p. cc p)

  or_none-Ended :
      (o : Option TemporalPredicateKind) (rest : Text) → Ended (temporal_or_none lexis o rest)
  or_none-Ended none rest = λ p. cc p
  or_none-Ended (some kind) rest = temporal_of-Ended kind (lexis.timestamp_args rest)

  temporal-Ended : (part : Text) → Ended (try_parse_temporal_predicate lexis part)
  unfolding try_parse_temporal_predicate
  temporal-Ended part =
      let words = lexis.split_word part in or_none-Ended (kind_of (lexis.lower words.0)) words.1

  module _ (advances : Advances lexis) where
    next_value-shorter :
        (body rest : Text) (value : Value) (found : Option (Option Text × Text × Text))
        → lexis.in_value_match body ≡ found
        → next_value lexis body found ≡ some (value, rest)
        → length rest < length body
    next_value-shorter body rest value none q e = absurd (cc e)
    next_value-shorter body rest value (some (quoted, bare, rest')) q e =
        shorter rest' (value_of lexis quoted bare) (advances body bare rest' quoted q) e
      where
        shorter :
            (rest' : Text) (read : Value)
            → length rest' ≤ length body
            → ◌≡◌ {A = Option (Value × Text)}
                (if◌then◌else◌ {A = Option (Value × Text)}
                  (length rest' == length body)
                  none
                  (some (read, rest')))
                (some (value, rest))
            → length rest < length body
        shorter rest' read h q = ground (arith, ==_iff (length rest') (length body))

    values-Ended :
        (f : ℕ) (expect_value seen : Bool) (body : Text)
        → length body < f
        → Ended (in_values_from lexis f expect_value seen body)
    unfolding in_values_from
    values-Ended zero expect_value seen body h = absurd (omega arith)
    values-Ended (suc f) true true [] h = λ p. cc p
    values-Ended (suc f) true false [] h = λ p. cc p
    values-Ended (suc f) false seen [] h = λ p. cc p
    values-Ended (suc f) true seen (c ∷ cs) h =
        either-Ended (lexis.is_space c) _ _ (values-Ended f true seen cs (omega arith)) (
          either-Ended (c == 44) _ _ (λ p. cc p)
            (elim (Option-cases (next_value lexis (c ∷ cs) (lexis.in_value_match (c ∷ cs)))) [
              | inl e ↦ rw e (λ p. cc p)
              | inr ((value, rest), e) ↦ rw e (
                  chain-Ended (in_values_from lexis f false true rest) _
                    (values-Ended f false true rest
                      (omega (arith, h, next_value-shorter (c ∷ cs) rest value _ refl e)))
                    (λ values p. cc p))
            ]))
    values-Ended (suc f) false seen (c ∷ cs) h =
        either-Ended (lexis.is_space c) _ _ (values-Ended f false seen cs (omega arith))
          (either-Ended (c == 44) _ _ (values-Ended f true seen cs (omega arith)) (λ p. cc p))

    some_value-Ended :
        (field : Text) (values : List Value) → Ended (at_least_one lexis field values)
    some_value-Ended field [] = λ p. cc p
    some_value-Ended field (v ∷ vs) = λ p. cc p

    in_or_none-Ended : (o : Option (Text × Text)) → Ended (in_or_none lexis o)
    unfolding parse_in_values
    in_or_none-Ended none = λ p. cc p
    in_or_none-Ended (some (field, body)) =
        chain-Ended (parse_in_values lexis body) (at_least_one lexis field)
          (values-Ended (suc (length body)) true false body (omega arith)) (some_value-Ended field)

    in-Ended : (fragment : Text) → Ended (try_parse_in_condition lexis fragment)
    unfolding try_parse_in_condition
    in-Ended fragment = in_or_none-Ended (lexis.in_match fragment)

    condition_of-Ended :
        (o : Option (Text × Text × Option Text × Text)) → Ended (condition_of lexis o)
    condition_of-Ended none = λ p. cc p
    condition_of-Ended (some groups) = λ p. cc p

    condition-Ended : (part : Text) → Ended (parse_condition lexis part)
    unfolding parse_condition
    condition-Ended part = condition_of-Ended (lexis.condition_match part)

    or_else-Ended :
        (o : Option WhereNode) (next : Result ParseError WhereNode)
        → Ended next
        → Ended (or_else lexis o next)
    or_else-Ended (some node) next h = λ p. cc p
    or_else-Ended none next h = h

    pub fragment-Ended : (fragment : Text) → Ended (parse_operand_fragment lexis fragment)
    unfolding parse_operand_fragment
    fragment-Ended fragment =
        chain-Ended (try_parse_temporal_predicate lexis fragment) _ (temporal-Ended fragment)
          (λ temporal. or_else-Ended temporal _ (
            chain-Ended (try_parse_in_condition lexis fragment) _ (in-Ended fragment)
              (λ condition. or_else-Ended condition _ (condition-Ended fragment))))

-- Whatever the tokens of a clause are, reading it returns a tree or raises one of the program's
-- errors: the recursion of the parser and the scan of each IN list end, when a match of a value
-- leaves no more text than there was.
pub parse_where-ends :
    (lexis : Lexis) (tokens : Tokens)
    → Advances lexis
    → parse_where lexis tokens ≢ raised out_of_fuel
unfolding parse_where
parse_where-ends lexis tokens advances =
    parse_bool_expr-ends (parse_operand_fragment lexis) (fragment-Ended lexis advances) tokens
