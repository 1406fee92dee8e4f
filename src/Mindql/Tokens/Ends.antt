-- ===== src/Mindql/Tokens/Ends.antt =====
-- Cutting a WHERE clause into tokens (src/engrava/mindql/parser.py), reading it, and the fuel.
use engrava.Prelude.{
  ℕ, zero, suc, ◌<◌, ◌≤◌, ◌≡◌, ◌≢◌, refl, subst, Bool, true, false, ◌==◌, Option, none, some, [],
  ◌∷◌, length, arith, Bool-cases, inl, inr, if◌then◌else◌,
}
use engrava.Prelude.Result.{Result, raised, ◌>>=◌, Yields, >>=-Yields}
use engrava.Prelude.Text.{Text}
use engrava.Mindql.Syntax.{BoolOp, WhereNode, ParseError, out_of_fuel}
use engrava.Mindql.Quote.{quote}
use engrava.Mindql.Ended.{Ended, chain-Ended, chain_with-Ended, either-Ended, option-Ended}
use engrava.Mindql.Fragment.{Lexis}
use engrava.Mindql.Fragment.Reads.{Advances, parse_where, parse_where-ends}
use engrava.Mindql.Tokens.{
  Scanner, passed, through_quote, consume_in_list, in_head, try_in_head, skip_quoted, tokenize_from,
  tokenize_where,
}

-- A match leaves no more text than it was tried on, and a keyword leaves less.
abbrev pub ScannerAdvances : Scanner → Type 0
ScannerAdvances scanner =
    ((text matched after : Text)
      → scanner.in_head_match text ≡ some (matched, after)
      → length after ≤ length text)
    × ((before text taken rest : Text) (op : BoolOp)
        → scanner.keyword_match before text ≡ some (op, taken, rest)
        → length rest < length text)

-- What is left is shorter.
abbrev Leaves : ℕ → Text × Text → Type 0
Leaves n (taken, rest) = length rest < n

passed-Leaves :
    (c n : ℕ) (o : Option (Text × Text))
    → Yields (Leaves n) (skip_quoted o)
    → Yields (Leaves (suc n)) (skip_quoted (passed c o))
passed-Leaves c n none h = tt
passed-Leaves c n (some (taken, rest)) h = omega (arith, h)

skip_quoted-Leaves :
    (cs : Text) → Yields (Leaves (suc (length cs))) (skip_quoted (through_quote cs))
unfolding through_quote
skip_quoted-Leaves [] = tt
skip_quoted-Leaves (c ∷ cs) = elim (Bool-cases (c == quote)) [
  | inl e ↦ rw (e, through_quote) (omega arith)
  | inr e ↦
      rw (e, through_quote)
        (passed-Leaves c (suc (length cs)) (through_quote cs) (skip_quoted-Leaves cs))
]

skip_quoted-Ended : (o : Option (Text × Text)) → Ended (skip_quoted o)
skip_quoted-Ended none = λ p. cc p
skip_quoted-Ended (some parts) = λ p. cc p

list-Ended : (in_quotes : Bool) (text : Text) → Ended (consume_in_list in_quotes text)
unfolding consume_in_list
list-Ended true [] = λ p. cc p
list-Ended false [] = λ p. cc p
list-Ended true (c ∷ cs) =
    chain-Ended (consume_in_list (if c == quote then false else true) cs) _
      (list-Ended (if c == quote then false else true) cs) (λ r p. cc p)
list-Ended false (c ∷ cs) =
    either-Ended (c == 41) _ _ (λ p. cc p)
      (chain-Ended (consume_in_list (if c == quote then true else false) cs) _
        (list-Ended (if c == quote then true else false) cs) (λ r p. cc p))

list-Leaves :
    (in_quotes : Bool) (text : Text)
    → Yields (Leaves (length text)) (consume_in_list in_quotes text)
unfolding consume_in_list
list-Leaves true [] = tt
list-Leaves false [] = tt
list-Leaves true (c ∷ cs) =
    >>=-Yields (Leaves (length cs)) (Leaves (length (c ∷ cs)))
      (consume_in_list (if c == quote then false else true) cs) _
      (list-Leaves (if c == quote then false else true) cs) (λ (taken, rest) h. omega (arith, h))
list-Leaves false (c ∷ cs) = elim (Bool-cases (c == 41)) [
  | inl e ↦ rw (e, consume_in_list) (omega arith)
  | inr e ↦
      rw (e, consume_in_list)
        (>>=-Yields (Leaves (length cs)) (Leaves (length (c ∷ cs)))
          (consume_in_list (if c == quote then true else false) cs) _
          (list-Leaves (if c == quote then true else false) cs)
          (λ (taken, rest) h. omega (arith, h)))
]

module _ (scanner : Scanner) (advances : ScannerAdvances scanner) where
  -- The head of an IN list, if there is one, ends and leaves less than it was tried on.
  abbrev Heads : ℕ → Option (Result ParseError (Text × Text)) → Type 0
  Heads n none = Unit
  Heads n (some head) = Ended head × Yields (Leaves n) head

  in_head-Heads :
      (text : Text) (o : Option (Text × Text))
      → scanner.in_head_match text ≡ o
      → Heads (length text) (in_head o)
  in_head-Heads text none e = tt
  in_head-Heads text (some (matched, after)) e = (
    chain-Ended (consume_in_list false after) _ (list-Ended false after) (λ r p. cc p),
    >>=-Yields (Leaves (length after)) (Leaves (length text)) (consume_in_list false after) _
        (list-Leaves false after)
        (λ (taken, rest) h. omega (arith, h, advances.0 text matched after e)),
  )

  try_in_head-Heads :
      (operand : Option Text) (text : Text) → Heads (length text) (try_in_head scanner operand text)
  try_in_head-Heads none text = in_head-Heads text (scanner.in_head_match text) refl
  try_in_head-Heads (some operand) text = tt

  taken_head :
      (n : ℕ) (o : Option (Result ParseError (Text × Text)))
      (head : Result ParseError (Text × Text))
      → Heads n o
      → o ≡ some head
      → Heads n (some head)
  taken_head n o head h e = subst (Heads n) e h

  tokenize_from-Ended :
      (f : ℕ) (before : Text) (operand : Option Text) (text : Text)
      → length text < f
      → Ended (tokenize_from scanner f before operand text)
  unfolding tokenize_from
  tokenize_from-Ended zero before operand text h = absurd (omega arith)
  tokenize_from-Ended (suc f) before operand [] h = λ p. cc p
  tokenize_from-Ended (suc f) before operand (c ∷ cs) h =
      either-Ended (scanner.is_space c) _ _ (tokenize_from-Ended f _ _ cs (omega arith)) (
        option-Ended (try_in_head scanner operand (c ∷ cs)) _ _
          (either-Ended (c == 40) _ _
            (chain-Ended (tokenize_from scanner f _ none cs) _
              (tokenize_from-Ended f _ none cs (omega arith)) (λ ts p. cc p))
            (either-Ended (c == 41) _ _
              (chain-Ended (tokenize_from scanner f _ none cs) _
                (tokenize_from-Ended f _ none cs (omega arith)) (λ ts p. cc p))
              (either-Ended (c == quote) _ _
                (chain_with-Ended (Leaves (suc (length cs))) (skip_quoted (through_quote cs)) _
                  (skip_quoted-Ended (through_quote cs)) (skip_quoted-Leaves cs)
                  (λ (taken, rest) k. tokenize_from-Ended f _ _ rest (omega (arith, h, k))))
                (option-Ended (scanner.keyword_match before (c ∷ cs)) _ _
                  (tokenize_from-Ended f _ _ cs (omega arith))
                  (λ (op, taken, rest) e.
                    chain-Ended (tokenize_from scanner f _ none rest) _
                      (tokenize_from-Ended f _ none rest
                        (omega (arith, h, advances.1 before (c ∷ cs) taken rest op e)))
                      (λ ts p. cc p))))))
          (λ head e.
            let (ends, leaves) =
              taken_head (length (c ∷ cs)) _ head (try_in_head-Heads operand (c ∷ cs)) e in
            chain_with-Ended (Leaves (length (c ∷ cs))) head _ ends leaves
              (λ (taken, rest) k. tokenize_from-Ended f _ _ rest (omega (arith, h, k)))))

-- `_parse_bool_expr`, from the text of the clause.
unfoldable pub parse_where_text : Scanner → Lexis → Text → Result ParseError WhereNode
parse_where_text scanner lexis text = tokenize_where scanner text >>= parse_where lexis

-- Whatever the text of a WHERE clause is, reading it returns a tree or raises one of the program's
-- errors: the tokeniser, the recursion of the parser and the scan of each IN list end, when no
-- match leaves more text than there was, and a match of a keyword leaves less.
pub parse_where_text-ends :
    (scanner : Scanner) (lexis : Lexis) (text : Text)
    → ScannerAdvances scanner
    → Advances lexis
    → parse_where_text scanner lexis text ≢ raised out_of_fuel
unfolding parse_where_text tokenize_where
parse_where_text-ends scanner lexis text scans advances =
    chain-Ended (tokenize_where scanner text) _
      (tokenize_from-Ended scanner scans (suc (length text)) [] none text (omega arith))
      (λ tokens. parse_where-ends lexis tokens advances)
