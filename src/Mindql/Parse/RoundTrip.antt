-- ===== src/Mindql/Parse/RoundTrip.antt =====
-- What the WHERE parser (src/engrava/mindql/parser.py) makes of a tree that is written out.
use engrava.Prelude.{
  ℕ, zero, suc, ◌+◌, ◌*◌, ◌<◌, ◌≤◌, ◌≡◌, refl, false, [], ◌∷◌, ◌++◌, ltb, arith, length,
  length-append, max,
}
use mathlib.Core.List.{append_assoc}
use engrava.Prelude.Result.{Result, ok}
use engrava.Prelude.Text.{Text}
use engrava.Mindql.Syntax.{
  WhereNode, Operands, comparison, in_condition, temporal_predicate, bool_expr, no_operands,
  operand, BoolOp, op_and, op_or, Token, Tokens, lparen, rparen, kw_and, kw_or, fragment,
  ParseError,
}
use engrava.Mindql.Parse.{
  max_where_nesting_depth, parse_or, or_rest, parse_and, and_rest, parse_operand,
}

abbrev pub keyword : BoolOp → Token
keyword op_and = kw_and
keyword op_or = kw_or

module _ (write_leaf : WhereNode → Text) where
  -- The clause of a tree: every joined expression inside another is in parentheses.
  unfoldable mutual
    pub write : WhereNode → Tokens
    write (bool_expr op xs) = write_all op xs
    write leaf = fragment (write_leaf leaf) ∷ []

    pub write_all : BoolOp → Operands → Tokens
    write_all op no_operands = []
    write_all op (operand x xs) = write_operand x ++ write_more op xs

    pub write_more : BoolOp → Operands → Tokens
    write_more op no_operands = []
    write_more op (operand x xs) = keyword op ∷ (write_operand x ++ write_more op xs)

    pub write_operand : WhereNode → Tokens
    write_operand (bool_expr op xs) = lparen ∷ (write_all op xs ++ rparen ∷ [])
    write_operand leaf = fragment (write_leaf leaf) ∷ []

-- How deep the parentheses of a tree nest.
unfoldable mutual
  pub nesting : WhereNode → ℕ
  nesting (bool_expr op xs) = suc (nesting_all xs)
  nesting leaf = 0

  pub nesting_all : Operands → ℕ
  nesting_all no_operands = 0
  nesting_all (operand x xs) = max (nesting x) (nesting_all xs)

module _ (parse_fragment : Text → Result ParseError WhereNode) (write_leaf : WhereNode → Text) where
  abbrev IsRead : WhereNode → Type 0
  IsRead leaf = parse_fragment (write_leaf leaf) ≡ ok leaf

  -- The trees that the parser builds: two operands or more, and leaves whose text reads back.
  abbrev mutual
    pub IsWritable : WhereNode → Type 0
    IsWritable (bool_expr op no_operands) = ⊥
    IsWritable (bool_expr op (operand x no_operands)) = ⊥
    IsWritable (bool_expr op (operand x (operand y ys))) =
        IsWritable x × IsWritable y × AreWritable ys
    IsWritable leaf = IsRead leaf

    pub AreWritable : Operands → Type 0
    AreWritable no_operands = Unit
    AreWritable (operand x xs) = IsWritable x × AreWritable xs

  -- What the two loops do at a token that is none of theirs.
  abbrev EndsAnd : ℕ → Tokens → Type 0
  EndsAnd d rest = (f : ℕ) → 0 < f → and_rest parse_fragment f d rest ≡ ok (no_operands, rest)

  abbrev EndsOr : ℕ → Tokens → Type 0
  EndsOr d rest = (f : ℕ) → 0 < f → or_rest parse_fragment f d rest ≡ ok (no_operands, rest)

  or-EndsAnd : (d : ℕ) (ts : Tokens) → EndsAnd d (kw_or ∷ ts)
  unfolding parse_or
  or-EndsAnd d ts zero h = absurd (omega arith)
  or-EndsAnd d ts (suc f) h = refl

  close-EndsAnd : (d : ℕ) (ts : Tokens) → EndsAnd d (rparen ∷ ts)
  unfolding parse_or
  close-EndsAnd d ts zero h = absurd (omega arith)
  close-EndsAnd d ts (suc f) h = refl

  close-EndsOr : (d : ℕ) (ts : Tokens) → EndsOr d (rparen ∷ ts)
  unfolding parse_or
  close-EndsOr d ts zero h = absurd (omega arith)
  close-EndsOr d ts (suc f) h = refl

  more-EndsAnd :
      (d : ℕ) (ys : Operands) (rest : Tokens)
      → EndsAnd d rest
      → EndsAnd d (write_more write_leaf op_or ys ++ rest)
  unfolding write
  more-EndsAnd d no_operands rest h = h
  more-EndsAnd d (operand y ys) rest h = or-EndsAnd d _

  abbrev Deep : ℕ → ℕ → Type 0
  Deep d n = d + n ≤ max_where_nesting_depth

  shallow : (d n : ℕ) → Deep d (suc n) → ltb max_where_nesting_depth (suc d) ≡ false
  shallow d n h = ground arith

  abbrev long : Tokens → ℕ
  long ts = 4 * length ts

  leaf-Reads :
      (leaf : WhereNode) (d f : ℕ) (rest : Tokens)
      → IsRead leaf
      → 2 < f
      → parse_operand parse_fragment f d (fragment (write_leaf leaf) ∷ rest) ≡ ok (leaf, rest)
  unfolding parse_or
  leaf-Reads leaf d zero rest r h = absurd (omega arith)
  leaf-Reads leaf d (suc f) rest r h = rw r refl

  -- One operand where an AND could go on.
  one_and :
      (x : WhereNode) (d f : ℕ) (ts rest : Tokens)
      → EndsAnd d rest
      → 1 < f
      → ((g : ℕ) → f ≡ suc g → parse_operand parse_fragment g d ts ≡ ok (x, rest))
      → parse_and parse_fragment f d ts ≡ ok (x, rest)
  unfolding parse_or
  one_and x d zero ts rest e h k = absurd (omega arith)
  one_and x d (suc f) ts rest e h k = rw (k f refl, e f (omega arith)) refl

  mutual
    unfolding parse_or write nesting

    operand-Reads :
        (t : WhereNode)
        → IsWritable t
        → (d f : ℕ) (rest : Tokens) → Deep d (nesting t)
        → long (write_operand write_leaf t) + 2 < f
        → parse_operand parse_fragment f d (write_operand write_leaf t ++ rest) ≡ ok (t, rest)
    operand-Reads (comparison a b c) w d f rest n h = leaf-Reads _ d f rest w (omega arith)
    operand-Reads (in_condition a b) w d f rest n h = leaf-Reads _ d f rest w (omega arith)
    operand-Reads (temporal_predicate a b c) w d f rest n h = leaf-Reads _ d f rest w (omega arith)
    operand-Reads (bool_expr op xs) w d zero rest n h = absurd (omega arith)
    operand-Reads (bool_expr op xs) w d (suc f) rest n h =
        let sizes = length-append (write_all write_leaf op xs) (rparen ∷ []) in
        rw
          (
            shallow d _ n,
            append_assoc (write_all write_leaf op xs) (rparen ∷ []) rest,
            all-Reads op xs w (suc d) f (rparen ∷ rest) (omega arith) (omega (arith, sizes))
                (close-EndsAnd (suc d) rest) (close-EndsOr (suc d) rest),
          )
          refl

    all-Reads :
        (op : BoolOp) (xs : Operands)
        → IsWritable (bool_expr op xs)
        → (d f : ℕ) (rest : Tokens) → Deep d (nesting_all xs)
        → long (write_all write_leaf op xs) + 4 < f
        → EndsAnd d rest
        → EndsOr d rest
        → parse_or parse_fragment f d (write_all write_leaf op xs ++ rest)
          ≡ ok (bool_expr op xs, rest)
    all-Reads op no_operands w d f rest n h ea eo = absurd w
    all-Reads op (operand x no_operands) w d f rest n h ea eo = absurd w
    all-Reads op (operand x (operand y ys)) w d zero rest n h ea eo = absurd (omega arith)
    all-Reads op_and (operand x (operand y ys)) w d (suc zero) rest n h ea eo = absurd (omega arith)
    all-Reads op_and (operand x (operand y ys)) w d (suc (suc f)) rest n h ea eo =
        let more = write_more write_leaf op_and (operand y ys) in
        let sizes = length-append (write_operand write_leaf x) more in
        rw
          (
            append_assoc (write_operand write_leaf x) more rest,
            operand-Reads x w.0 d f (more ++ rest) (omega arith) (omega (arith, sizes)),
            and_more-Reads (operand y ys) (w.1, w.2) d f rest (omega arith) (omega (arith, sizes))
                ea,
            eo (suc f) (omega arith),
          )
          refl
    all-Reads op_or (operand x (operand y ys)) w d (suc f) rest n h ea eo =
        let more = write_more write_leaf op_or (operand y ys) in
        let sizes = length-append (write_operand write_leaf x) more in
        rw
          (
            append_assoc (write_operand write_leaf x) more rest,
            one_and x d f (write_operand write_leaf x ++ (more ++ rest)) (more ++ rest)
                (more-EndsAnd d (operand y ys) rest ea) (omega arith)
                (λ g e.
                  operand-Reads x w.0 d g (more ++ rest) (omega arith) (omega (arith, sizes, e))),
            or_more-Reads (operand y ys) (w.1, w.2) d f rest (omega arith) (omega (arith, sizes)) ea
                eo,
          )
          refl

    and_more-Reads :
        (ys : Operands)
        → AreWritable ys
        → (d f : ℕ) (rest : Tokens) → Deep d (nesting_all ys)
        → long (write_more write_leaf op_and ys) + 1 < f
        → EndsAnd d rest
        → and_rest parse_fragment f d (write_more write_leaf op_and ys ++ rest) ≡ ok (ys, rest)
    and_more-Reads no_operands w d f rest n h ea = ea f (omega arith)
    and_more-Reads (operand y ys) w d zero rest n h ea = absurd (omega arith)
    and_more-Reads (operand y ys) w d (suc f) rest n h ea =
        let more = write_more write_leaf op_and ys in
        let sizes = length-append (write_operand write_leaf y) more in
        rw
          (
            append_assoc (write_operand write_leaf y) more rest,
            operand-Reads y w.0 d f (more ++ rest) (omega arith) (omega (arith, sizes)),
            and_more-Reads ys w.1 d f rest (omega arith) (omega (arith, sizes)) ea,
          )
          refl

    or_more-Reads :
        (ys : Operands)
        → AreWritable ys
        → (d f : ℕ) (rest : Tokens) → Deep d (nesting_all ys)
        → long (write_more write_leaf op_or ys) + 1 < f
        → EndsAnd d rest
        → EndsOr d rest
        → or_rest parse_fragment f d (write_more write_leaf op_or ys ++ rest) ≡ ok (ys, rest)
    or_more-Reads no_operands w d f rest n h ea eo = eo f (omega arith)
    or_more-Reads (operand y ys) w d zero rest n h ea eo = absurd (omega arith)
    or_more-Reads (operand y ys) w d (suc f) rest n h ea eo =
        let more = write_more write_leaf op_or ys in
        let sizes = length-append (write_operand write_leaf y) more in
        rw
          (
            append_assoc (write_operand write_leaf y) more rest,
            one_and y d f (write_operand write_leaf y ++ (more ++ rest)) (more ++ rest)
                (more-EndsAnd d ys rest ea) (omega arith)
                (λ g e.
                  operand-Reads y w.0 d g (more ++ rest) (omega arith) (omega (arith, sizes, e))),
            or_more-Reads ys w.1 d f rest (omega arith) (omega (arith, sizes)) ea eo,
          )
          refl
