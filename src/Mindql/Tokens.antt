-- ===== src/Mindql/Tokens.antt =====
-- `_WhereTokenizer` (src/engrava/mindql/parser.py). The position is the text that is left, with the
-- text before it; the pending operand is its text so far. The two regular expressions and
-- `str.strip` are parameters.
pub mod Ends
use engrava.Prelude.{
  ℕ, zero, suc, Bool, true, false, ◌==◌, ◌||◌, Option, none, some, List, [], ◌∷◌, ◌++◌, length,
  if◌then◌else◌,
}
use engrava.Prelude.Result.{Result, ok, raised, ◌>>=◌}
use engrava.Prelude.Text.{Text}
use engrava.Mindql.Syntax.{
  BoolOp, op_and, op_or, Token, Tokens, lparen, rparen, kw_and, kw_or, fragment, ParseError,
  unterminated_string, unterminated_in, out_of_fuel,
}
use engrava.Mindql.Quote.{quote}

pub record Scanner : Type 0 where
  pub is_space : ℕ → Bool
  pub strip : Text → Text
  -- `_IN_HEAD_RE.match`: the text of the match, and the text behind it.
  pub in_head_match : Text → Option (Text × Text)
  -- `_BOOL_KEYWORD_RE.match`, by the text before: the keyword, its text, and the text behind it.
  pub keyword_match : (before : Text) → Text → Option (BoolOp × Text × Text)

abbrev pub passed : ℕ → Option (Text × Text) → Option (Text × Text)
passed c none = none
passed c (some (taken, rest)) = some (c ∷ taken, rest)

-- `text.find("'", pos)`: the text up to the quote and with it, and the text behind it.
unfoldable pub through_quote : Text → Option (Text × Text)
through_quote [] = none
through_quote (c ∷ cs) = elim (c == quote) [
  | true ↦ some (c ∷ [], cs)
  | false ↦ passed c (through_quote cs)
]

-- `_consume_in_list`, past the quoted values: the text through the closing `)`, and the rest.
unfoldable pub consume_in_list : (in_quotes : Bool) → Text → Result ParseError (Text × Text)
consume_in_list true [] = raised unterminated_string
consume_in_list false [] = raised unterminated_in
consume_in_list true (c ∷ cs) =
    consume_in_list (if c == quote then false else true) cs >>= λ (taken, rest).
    ok (c ∷ taken, rest)
consume_in_list false (c ∷ cs) = elim (c == 41) [
  | true ↦ ok (c ∷ [], cs)
  | false ↦ consume_in_list (if c == quote then true else false) cs >>= λ (taken, rest).
      ok (c ∷ taken, rest)
]

abbrev pub keyword_token : BoolOp → Token
keyword_token op_and = kw_and
keyword_token op_or = kw_or

-- More of the pending operand, if there is one, or of a new one.
abbrev pub extended : Option Text → Text → Option Text
extended none taken = none
extended (some operand) taken = some (operand ++ taken)

abbrev pub begun : Option Text → Text → Option Text
begun none taken = some taken
begun (some operand) taken = some (operand ++ taken)

-- `_try_in_head`: the operand and the rest, if no operand is pending and one starts here.
abbrev pub in_head : Option (Text × Text) → Option (Result ParseError (Text × Text))
in_head none = none
in_head (some (matched, after)) =
    some (consume_in_list false after >>= λ (taken, rest). ok (matched ++ taken, rest))

-- `_skip_quoted`, behind the opening quote.
abbrev pub skip_quoted : Option (Text × Text) → Result ParseError (Text × Text)
skip_quoted none = raised unterminated_string
skip_quoted (some (taken, rest)) = ok (quote ∷ taken, rest)

module _ (scanner : Scanner) where
  abbrev stripped : Text → Tokens → Tokens
  stripped [] tokens = tokens
  stripped (c ∷ cs) tokens = fragment (c ∷ cs) ∷ tokens

  -- `_flush`, before the tokens that follow.
  abbrev pub flush : Option Text → Tokens → Tokens
  flush none tokens = tokens
  flush (some operand) tokens = stripped (scanner.strip operand) tokens

  abbrev pub try_in_head : Option Text → Text → Option (Result ParseError (Text × Text))
  try_in_head none text = in_head (scanner.in_head_match text)
  try_in_head (some operand) text = none

  -- The loop of `tokenize`, from a position on.
  unfoldable pub tokenize_from :
      ℕ → (before : Text) → (operand : Option Text) → Text → Result ParseError Tokens
  tokenize_from zero before operand text = raised out_of_fuel
  tokenize_from (suc f) before operand [] = ok (flush operand [])
  tokenize_from (suc f) before operand (c ∷ cs) = elim (scanner.is_space c) [
    | true ↦ tokenize_from f (before ++ c ∷ []) (extended operand (c ∷ [])) cs
    | false ↦ elim (try_in_head operand (c ∷ cs)) [
      | some head ↦ head >>= λ (taken, rest). tokenize_from f (before ++ taken) (some taken) rest
      | none ↦ elim (c == 40) [
        | true ↦ tokenize_from f (before ++ c ∷ []) none cs >>= λ tokens.
            ok (flush operand (lparen ∷ tokens))
        | false ↦ elim (c == 41) [
          | true ↦ tokenize_from f (before ++ c ∷ []) none cs >>= λ tokens.
              ok (flush operand (rparen ∷ tokens))
          | false ↦ elim (c == quote) [
            | true ↦ skip_quoted (through_quote cs) >>= λ (taken, rest).
                tokenize_from f (before ++ taken) (begun operand taken) rest
            | false ↦ elim (scanner.keyword_match before (c ∷ cs)) [
              | some (op, taken, rest) ↦ tokenize_from f (before ++ taken) none rest >>= λ tokens.
                  ok (flush operand (keyword_token op ∷ tokens))
              | none ↦ tokenize_from f (before ++ c ∷ []) (begun operand (c ∷ [])) cs
            ]
          ]
        ]
      ]
    ]
  ]

  unfoldable pub tokenize_where : Text → Result ParseError Tokens
  tokenize_where text = tokenize_from (suc (length text)) [] none text
