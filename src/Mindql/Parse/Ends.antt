-- ===== src/Mindql/Parse/Ends.antt =====
-- The fuel of the WHERE parser (src/engrava/mindql/parser.py).
use engrava.Prelude.{
  ℕ, zero, suc, ◌+◌, ◌*◌, ◌<◌, ◌≢◌, [], ◌∷◌, ltb, arith, length, Bool-cases, inl, inr,
}
use engrava.Prelude.Result.{Result, ok, raised, ◌>>=◌}
use engrava.Prelude.Text.{Text}
use engrava.Mindql.Syntax.{
  WhereNode, Tokens, lparen, rparen, kw_and, kw_or, fragment, ParseError, out_of_fuel,
}
use engrava.Mindql.Parse.{
  Parsed, max_where_nesting_depth, close_group, leaf_of, parse_or, or_rest, parse_and, and_rest,
  parse_operand, at_end, parse_bool_expr,
}

-- A call that has not run out of fuel, and has left fewer than `n` tokens if it returned.
data Ends {A : Type 0} (n : ℕ) : Parsed A → Type 0 where
  returns : (a : A) (rest : Tokens) → length rest < n → Ends n (ok (a, rest))
  fails : (e : ParseError) → e ≢ out_of_fuel → Ends n (raised e)

>>=-Ends :
    {A B : Type 0} (m n : ℕ) (first : Parsed A) (next : A × Tokens → Parsed B)
    → Ends m first
    → ((a : A) (rest : Tokens) → length rest < m → Ends n (next (a, rest)))
    → Ends n (first >>= next)
>>=-Ends m n _ next (returns a rest h) k = k a rest h
>>=-Ends m n _ next (fails e h) k = fails e h

module _ (parse_fragment : Text → Result ParseError WhereNode)
    (never_out : (t : Text) → parse_fragment t ≢ raised out_of_fuel) where
  leaf-Ends :
      (n : ℕ) (t : Text) (ts : Tokens) → length ts < n → Ends n (leaf_of parse_fragment t ts)
  leaf-Ends n t ts k = from (parse_fragment t) (never_out t)
    where
      from :
          (r : Result ParseError WhereNode)
          → r ≢ raised out_of_fuel
          → Ends n (r >>= λ node. ok (node, ts))
      from (ok node) h = returns node ts k
      from (raised e) h = fails e (λ p. h (rw p))

  group-Ends :
      (n : ℕ) (node : WhereNode) (rest : Tokens)
      → length rest < n
      → Ends n (close_group (node, rest))
  group-Ends n node [] h = fails _ (λ p. cc)
  group-Ends n node (rparen ∷ rest) h = returns node rest (omega arith)
  group-Ends n node (lparen ∷ rest) h = fails _ (λ p. cc)
  group-Ends n node (kw_and ∷ rest) h = fails _ (λ p. cc)
  group-Ends n node (kw_or ∷ rest) h = fails _ (λ p. cc)
  group-Ends n node (fragment t ∷ rest) h = fails _ (λ p. cc)

  mutual
    unfolding parse_or

    parse_or-Ends :
        (f d : ℕ) (ts : Tokens)
        → 4 * length ts + 4 < f
        → Ends (suc (length ts)) (parse_or parse_fragment f d ts)
    parse_or-Ends zero d ts h = absurd (omega arith)
    parse_or-Ends (suc f) d ts h =
        >>=-Ends _ _ _ _ (parse_and-Ends f d ts (omega arith)) (λ x rest k.
          >>=-Ends _ _ _ _ (or_rest-Ends f d rest (omega arith))
            (λ xs rest' k'. returns _ rest' (omega arith)))

    or_rest-Ends :
        (f d : ℕ) (ts : Tokens)
        → 4 * length ts + 1 < f
        → Ends (suc (length ts)) (or_rest parse_fragment f d ts)
    or_rest-Ends zero d ts h = absurd (omega arith)
    or_rest-Ends (suc f) d (kw_or ∷ ts) h =
        >>=-Ends _ _ _ _ (parse_and-Ends f d ts (omega arith)) (λ x rest k.
          >>=-Ends _ _ _ _ (or_rest-Ends f d rest (omega arith))
            (λ xs rest' k'. returns _ rest' (omega arith)))
    or_rest-Ends (suc f) d [] h = returns _ [] (omega arith)
    or_rest-Ends (suc f) d (lparen ∷ ts) h = returns _ (lparen ∷ ts) (omega arith)
    or_rest-Ends (suc f) d (rparen ∷ ts) h = returns _ (rparen ∷ ts) (omega arith)
    or_rest-Ends (suc f) d (kw_and ∷ ts) h = returns _ (kw_and ∷ ts) (omega arith)
    or_rest-Ends (suc f) d (fragment t ∷ ts) h = returns _ (fragment t ∷ ts) (omega arith)

    parse_and-Ends :
        (f d : ℕ) (ts : Tokens)
        → 4 * length ts + 3 < f
        → Ends (suc (length ts)) (parse_and parse_fragment f d ts)
    parse_and-Ends zero d ts h = absurd (omega arith)
    parse_and-Ends (suc f) d ts h =
        >>=-Ends _ _ _ _ (parse_operand-Ends f d ts (omega arith)) (λ x rest k.
          >>=-Ends _ _ _ _ (and_rest-Ends f d rest (omega arith))
            (λ xs rest' k'. returns _ rest' (omega arith)))

    and_rest-Ends :
        (f d : ℕ) (ts : Tokens)
        → 4 * length ts + 1 < f
        → Ends (suc (length ts)) (and_rest parse_fragment f d ts)
    and_rest-Ends zero d ts h = absurd (omega arith)
    and_rest-Ends (suc f) d (kw_and ∷ ts) h =
        >>=-Ends _ _ _ _ (parse_operand-Ends f d ts (omega arith)) (λ x rest k.
          >>=-Ends _ _ _ _ (and_rest-Ends f d rest (omega arith))
            (λ xs rest' k'. returns _ rest' (omega arith)))
    and_rest-Ends (suc f) d [] h = returns _ [] (omega arith)
    and_rest-Ends (suc f) d (lparen ∷ ts) h = returns _ (lparen ∷ ts) (omega arith)
    and_rest-Ends (suc f) d (rparen ∷ ts) h = returns _ (rparen ∷ ts) (omega arith)
    and_rest-Ends (suc f) d (kw_or ∷ ts) h = returns _ (kw_or ∷ ts) (omega arith)
    and_rest-Ends (suc f) d (fragment t ∷ ts) h = returns _ (fragment t ∷ ts) (omega arith)

    parse_operand-Ends :
        (f d : ℕ) (ts : Tokens)
        → 4 * length ts + 2 < f
        → Ends (suc (length ts)) (parse_operand parse_fragment f d ts)
    parse_operand-Ends zero d ts h = absurd (omega arith)
    parse_operand-Ends (suc f) d [] h = fails _ (λ p. cc)
    parse_operand-Ends (suc f) d (lparen ∷ ts) h =
        elim (Bool-cases (ltb max_where_nesting_depth (suc d))) [
          | inl e ↦ rw e (fails _ (λ p. cc))
          | inr e ↦ rw e (
              >>=-Ends _ _ _ _ (parse_or-Ends f (suc d) ts (omega arith))
                (λ node rest k. group-Ends _ node rest (omega arith)))
        ]
    parse_operand-Ends (suc f) d (rparen ∷ ts) h = fails _ (λ p. cc)
    parse_operand-Ends (suc f) d (kw_and ∷ ts) h = fails _ (λ p. cc)
    parse_operand-Ends (suc f) d (kw_or ∷ ts) h = fails _ (λ p. cc)
    parse_operand-Ends (suc f) d (fragment t ∷ ts) h = leaf-Ends _ t ts (omega arith)

  at_end-ne-out : (n : ℕ) (r : Parsed WhereNode) → Ends n r → (r >>= at_end) ≢ raised out_of_fuel
  at_end-ne-out n _ (returns node [] h) = λ p. cc
  at_end-ne-out n _ (returns node (t ∷ ts) h) = λ p. cc
  at_end-ne-out n _ (fails e h) = λ p. h (cc p)

  -- Whatever the tokens are, the parser returns a tree or raises one of the program's errors: the
  -- fuel of 4 for each token and 5 is enough.
  pub parse_bool_expr-ends : (ts : Tokens) → parse_bool_expr parse_fragment ts ≢ raised out_of_fuel
  unfolding parse_bool_expr
  parse_bool_expr-ends [] = λ p. cc
  parse_bool_expr-ends (t ∷ ts) =
      at_end-ne-out _ _ (parse_or-Ends (4 * length (t ∷ ts) + 5) 0 (t ∷ ts) (omega arith))
