-- ===== src/Mindql/Tests.antt =====
-- Runs of MindQL's parser and compiler (src/engrava/mindql/parser.py,
-- src/engrava/mindql/executor.py), and their theorems at concrete inputs.
use engrava.Prelude.{
  ℕ, suc, ◌≤◌, ◌≡◌, ◌≢◌, refl, ◌↔◌, false, Option, none, some, List, [], ◌∷◌, length, arith, ◌==◌,
  ◌<◌, subst, Bool-cases, inl, inr, if◌then◌else◌,
}
use engrava.Prelude.Result.{Result, ok, raised}
use engrava.Prelude.Text.{Text, text, text_eq}
use engrava.Prelude.Decimal.{decimal}
use engrava.Mindql.Syntax.{
  MindqlOperator, str_value, int_value, WhereNode, comparison, in_condition, temporal_predicate,
  valid_at, bool_expr, no_operands, operand, BoolOp, op_and, op_or, lparen, rparen, kw_and, kw_or,
  fragment, ParseError, unbalanced_parentheses, out_of_fuel,
}
use engrava.Mindql.Parse.{parse_or, parse_bool_expr}
use engrava.Mindql.Quote.{
  strip_from, open_from, mask_quoted, strip_string_literals, has_unterminated_string, needs_tree,
  unescape,
}
use engrava.Mindql.Quote.Mask.{IsMaskOf, mask_quoted-skeleton}
use engrava.Mindql.Quote.Escaped.{escape, with_literal, needs_tree-literal}
use engrava.Mindql.Fragment.{Lexis}
use engrava.Mindql.Fragment.Reads.{Advances}
use engrava.Mindql.Tokens.{Scanner, through_quote, tokenize_from, tokenize_where}
use engrava.Mindql.Tokens.Ends.{ScannerAdvances, parse_where_text, parse_where_text-ends}
use engrava.Mindql.Compile.{
  Query, RowBound, Param, value_param, instant_param, compile_find, build_select_sql,
  compile_where_node, guard_table, guard_column, guard_keyword, guard_row_bound, find_name,
  columns_of, join, order_items, build_temporal_clause,
}
use engrava.Mindql.Compile.Marks.{placeholders, compile_find-Balanced}
use engrava.Mindql.Compile.Values.{query_with, returned_with, compile_find-query_with}
use engrava.Mindql.Compile.Allowed.{IsAllowed, Returns, compile_where_node-IsAllowed}

-- A fragment is a column name, compared with 1.
abbrev by_name : Text → Result ParseError WhereNode
by_name field = ok (comparison field MindqlOperator.eq (int_value false 1))

abbrev field_of : WhereNode → Text
field_of (comparison field operator value) = field
field_of other = []

abbrev named : ℕ → WhereNode
named c = comparison (c ∷ []) MindqlOperator.eq (int_value false 1)

-- `a OR b AND (c OR d)`.
abbrev grouped : WhereNode
grouped = bool_expr op_or (
    operand (named 97) (
      operand
        (bool_expr op_and (
          operand (named 98) (
            operand (bool_expr op_or (operand (named 99) (operand (named 100) no_operands)))
              no_operands)))
        no_operands))

-- AND binds tighter than OR without parentheses.
precedence :
    parse_bool_expr by_name (
      fragment (text "a")
      ∷ kw_or
      ∷ fragment (text "b")
      ∷ kw_and
      ∷ lparen
      ∷ fragment (text "c")
      ∷ kw_or
      ∷ fragment (text "d")
      ∷ rparen
      ∷ [])
    ≡ ok grouped
unfolding parse_bool_expr parse_or
precedence = refl

unbalanced :
    parse_bool_expr by_name (lparen ∷ fragment (text "a") ∷ []) ≡ raised unbalanced_parentheses
unfolding parse_bool_expr parse_or
unbalanced = refl

-- `'it''s'`, and what follows it.
abbrev quoted_text : Text
quoted_text = text "a = 'it''s' OR b"

skeleton : strip_string_literals quoted_text ≡ text "a =  OR b"
unfolding strip_from
skeleton = refl

mask_quoted-skeleton_example :
    (length (mask_quoted quoted_text) ≡ length quoted_text)
    × IsMaskOf quoted_text (mask_quoted quoted_text)
    × (strip_string_literals (mask_quoted quoted_text) ≡ strip_string_literals quoted_text)
    × (has_unterminated_string (mask_quoted quoted_text) ≡ has_unterminated_string quoted_text)
mask_quoted-skeleton_example = mask_quoted-skeleton quoted_text

needs_tree-literal_example :
    (strip_string_literals (with_literal (text "a =") 32 (text "') OR (b") [])
      ≡ strip_string_literals (with_literal (text "a =") 32 (text "x") []))
    × (has_unterminated_string (with_literal (text "a =") 32 (text "') OR (b") [])
        ≡ has_unterminated_string [])
    × (needs_tree (λ t. false) (with_literal (text "a =") 32 (text "') OR (b") [])
        ≡ needs_tree (λ t. false) (with_literal (text "a =") 32 (text "x") []))
    × (unescape (escape (text "') OR (b")) ≡ text "') OR (b")
unfolding open_from
needs_tree-literal_example =
    needs_tree-literal (λ t. false) (text "a =") 32 (text "') OR (b") (text "x") [] refl tt refl

-- Every fragment is an IN list of one-character values.
abbrev one_char : Text → Option (Option Text × Text × Text)
one_char [] = none
one_char (c ∷ rest) = some (none, c ∷ [], rest)

abbrev one_char_lexis : Lexis
one_char_lexis = record {
  condition_match = λ t. none;
  in_match = λ t. some (text "source", t);
  in_value_match = one_char;
  is_space = λ c. false;
  split_word = λ t. (t, []);
  lower = λ t. t;
  timestamp_args = λ t. [];
  to_int = λ t. none;
  to_float = λ t. none;
  is_blank = λ t. false;
  iso8601 = λ t. some t;
}

one_char-Advances : Advances one_char_lexis
one_char-Advances [] bare rest quoted e = absurd (cc e)
one_char-Advances (c ∷ cs) bare rest quoted e = shorter (cc e)
  where
    shorter : rest ≡ cs → length rest ≤ length (c ∷ cs)
    shorter q = rw q (omega arith)

-- A scanner to which `&` is the word AND.
abbrev ampersand : Text → Text → Option (BoolOp × Text × Text)
ampersand before [] = none
ampersand before (c ∷ rest) = if c == 38 then some (op_and, c ∷ [], rest) else none

abbrev ampersand_scanner : Scanner
ampersand_scanner = record {
  is_space = λ c. c == 32;
  strip = λ t. t;
  in_head_match = λ t. none;
  keyword_match = ampersand;
}

grouped_tokens :
    tokenize_where ampersand_scanner (text "a='(&' &(b)")
    ≡ ok (fragment (text "a='(&' ") ∷ kw_and ∷ lparen ∷ fragment (text "b") ∷ rparen ∷ [])
unfolding tokenize_where tokenize_from through_quote
grouped_tokens = refl

ampersand-ScannerAdvances : ScannerAdvances ampersand_scanner
ampersand-ScannerAdvances = (λ t matched after e. absurd (cc e), shorter)
  where
    shorter :
        (before t taken rest : Text) (op : BoolOp)
        → ampersand before t ≡ some (op, taken, rest)
        → length rest < length t
    shorter before [] taken rest op e = absurd (cc e)
    shorter before (c ∷ cs) taken rest op e = elim (Bool-cases (c == 38)) [
      | inl q ↦ subst (λ r. length r < suc (length cs)) (rest_of (rw q at e)) (omega arith)
      | inr q ↦ absurd (cc (rw q at e))
    ]
      where
        rest_of :
            ◌≡◌ {A = Option (BoolOp × Text × Text)}
              (some (op_and, c ∷ [], cs))
              (some (op, taken, rest))
            → cs ≡ rest
        rest_of k = cc k

parse_where_text-ends_example :
    parse_where_text ampersand_scanner one_char_lexis (text "x&('y')") ≢ raised out_of_fuel
parse_where_text-ends_example =
    parse_where_text-ends ampersand_scanner one_char_lexis (text "x&('y')")
      ampersand-ScannerAdvances one_char-Advances

-- `FIND thoughts WHERE essence = 'A' AND valid_at …`, sorted, with a limit.
abbrev find_query : Query
find_query = record {
  table = some (text "thought");
  conditions = [];
  temporal_predicates = [];
  where_tree = some (
      bool_expr op_and (
        operand (comparison (text "essence") MindqlOperator.eq (str_value (text "A"))) (
          operand (in_condition (text "source") (int_value false 1 ∷ int_value false 2 ∷ []))
            (operand (temporal_predicate valid_at (some (text "T")) none) no_operands))));
  order_by = (text "priority", text "DESC") ∷ [];
  limit = some (RowBound.non_negative 5);
  offset = none;
}

abbrev find_sql : Text
find_sql =
    text
      "SELECT * FROM thought WHERE (essence = ? AND source IN (?, ?) AND ((valid_from IS NULL OR valid_from <= ?) AND (valid_until IS NULL OR valid_until > ?))) ORDER BY priority DESC LIMIT 5"

abbrev find_params : List Param
find_params =
    value_param (str_value (text "A"))
    ∷ value_param (int_value false 1)
    ∷ value_param (int_value false 2)
    ∷ instant_param (some (text "T"))
    ∷ instant_param (some (text "T"))
    ∷ []

compile_find-Balanced_example : placeholders find_sql ≡ length find_params
unfolding compile_find build_select_sql compile_where_node guard_table guard_column guard_keyword
    guard_row_bound find_name columns_of join order_items build_temporal_clause decimal text_eq
compile_find-Balanced_example =
    compile_find-Balanced (λ t. t) (text "N") find_query find_sql find_params refl

compile_find-query_with_example :
    compile_find (λ t. t) (text "N") (query_with (λ v. str_value (text "x'; DROP")) find_query)
    ≡ returned_with (λ v. str_value (text "x'; DROP")) (compile_find (λ t. t) (text "N") find_query)
compile_find-query_with_example =
    compile_find-query_with (λ v. str_value (text "x'; DROP")) (λ t. t) (text "N") find_query

compile_where_node-IsAllowed_example :
    IsAllowed (text "thought") (comparison (text "essence") MindqlOperator.eq (int_value false 1))
    ↔ Returns (
        compile_where_node
          (text "N")
          (text "thought")
          (comparison (text "essence") MindqlOperator.eq (int_value false 1)))
compile_where_node-IsAllowed_example =
    compile_where_node-IsAllowed (text "N") (text "thought")
      (comparison (text "essence") MindqlOperator.eq (int_value false 1))
