-- ===== src/Migrations/Script/Pieces.antt =====
-- The statements of a script against the script
-- (src/engrava/infrastructure/sqlite/extension_migrations.py).
use engrava.Prelude.{
  ℕ, zero, suc, ◌<◌, ◌≤◌, ◌==◌, ◌||◌, ◌≡◌, ◌≢◌, refl, sym, ap, subst, ◌∙◌, inl, inr, Bool, true,
  false, List, [], ◌∷◌, ◌++◌, length, arith, ==_iff, Bool-cases, if◌then◌else◌,
}
use engrava.Prelude.Result.{Result, ok, raised}
use engrava.Prelude.Text.{Text}
use mathlib.Core.List.{append-nil, append_assoc}
use engrava.Migrations.Script.{
  Scan, semicolon, Region, comment, literal, no_region, scan_region, ScriptError,
  unterminated_literal, unterminated_comment, unterminated_statement, Splitter, emitted,
  at_semicolon, at_char, at_region, split_from, split_sql_statements,
}
use engrava.Migrations.Script.Forms.{IsComment, IsLiteral, Opens}
use engrava.Migrations.Script.Regions.{Takes, IsRegionOf, scan_region-IsRegionOf}

module _ (complete_statement : Text → Bool) (strip : Text → Text) (isspace : ℕ → Bool) where
  -- A text, with what follows it, of whole comments, whole literals, and single characters outside of
  -- them, which begin neither a comment nor a literal; and whether there is more in it than spaces,
  -- semicolons and comments. A semicolon within it is one at which sqlite3 does not call it complete.
  pub data Lexed : Text → Bool → Text → Type 0 where
    nothing : (after : Text) → Lexed after false []
    space :
        (after : Text) (b : Bool) (t : Text) (c : ℕ)
        → isspace c ≡ true
        → ¬ Opens (c ∷ after)
        → Lexed (c ∷ after) b t
        → Lexed after b (t ++ c ∷ [])
    separator :
        (after : Text) (b : Bool) (t : Text)
        → complete_statement (t ++ semicolon ∷ []) ≡ false
        → Lexed (semicolon ∷ after) b t
        → Lexed after b (t ++ semicolon ∷ [])
    other :
        (after : Text) (b : Bool) (t : Text) (c : ℕ)
        → isspace c ≡ false
        → c ≢ semicolon
        → ¬ Opens (c ∷ after)
        → Lexed (c ∷ after) b t
        → Lexed after true (t ++ c ∷ [])
    remark :
        (after : Text) (b : Bool) (t r : Text)
        → IsComment r after
        → Lexed (r ++ after) b t
        → Lexed after b (t ++ r)
    quotation :
        (after : Text) (b : Bool) (t r : Text)
        → IsLiteral r after
        → Lexed (r ++ after) b t
        → Lexed after true (t ++ r)

  -- A script and its statements, in their order.
  pub data Pieces : Text → List Text → Type 0 where
    blank_end : (t : Text) → Lexed [] false t → Pieces t []
    blank :
        (t rest : Text) (ss : List Text)
        → Lexed (semicolon ∷ rest) false t
        → Pieces rest ss
        → Pieces (t ++ (semicolon ∷ rest)) ss
    statement :
        (t rest : Text) (ss : List Text)
        → Lexed (semicolon ∷ rest) true t
        → complete_statement (t ++ semicolon ∷ []) ≡ true
        → Pieces rest ss
        → Pieces (t ++ (semicolon ∷ rest)) (strip (t ++ semicolon ∷ []) ∷ ss)

  -- A text that begins with a literal or a comment that is not ended.
  pub data Unended : ScriptError → Text → Type 0 where
    open_literal :
        (t : Text)
        → Opens t
        → ((r after : Text) → IsLiteral r after → r ++ after ≢ t)
        → Unended unterminated_literal t
    open_comment :
        (t : Text)
        → Opens t
        → ((r after : Text) → IsComment r after → r ++ after ≢ t)
        → Unended unterminated_comment t

  -- Why a script is refused: behind whole pieces stands a statement that is not ended, or a literal or
  -- a comment.
  pub data Stops : Text → ScriptError → Type 0 where
    at_end : (t : Text) → Lexed [] true t → Stops t unterminated_statement
    within :
        (b : Bool) (t left : Text) (e : ScriptError)
        → Lexed left b t
        → Unended e left
        → Stops (t ++ left) e
    behind_piece :
        (b : Bool) (t rest : Text) (e : ScriptError)
        → Lexed (semicolon ∷ rest) b t
        → complete_statement (t ++ semicolon ∷ []) ≡ true
        → Stops rest e
        → Stops (t ++ (semicolon ∷ rest)) e

  -- What the loop may come to from a state, with `rest` left.
  pub data Splits (s : Splitter) (rest : Text) : Result ScriptError (List Text) → Type 0 where
    refused : (e : ScriptError) → Stops (s.stmt ++ rest) e → Splits s rest (raised e)
    splits : (ss : List Text) → Pieces (s.stmt ++ rest) ss → Splits s rest (ok (s.statements ++ ss))

  -- A step of the loop that takes a part of the text into the statement.
  takes_in :
      (s s' : Splitter) (front left rest : Text) {out : Result ScriptError (List Text)}
      → front ++ left ≡ rest
      → s'.statements ≡ s.statements
      → s'.stmt ≡ s.stmt ++ front
      → Splits s' left out
      → Splits s rest out
  takes_in s s' front left rest h same grown (Splits.refused e k) = Splits.refused e (
      subst (λ t. Stops t e)
        (ap (λ t. t ++ left) grown ∙ (append_assoc s.stmt front left ∙ ap (λ t. s.stmt ++ t) h)) k)
  takes_in s s' front left rest h same grown (Splits.splits ss k) =
      subst (λ done. Splits s rest (ok (done ++ ss))) (sym same)
        (Splits.splits ss (
          subst (λ t. Pieces t ss)
            (ap (λ t. t ++ left) grown ∙ (append_assoc s.stmt front left ∙ ap (λ t. s.stmt ++ t) h))
            k))

  -- A step that closes a piece.
  closes_piece :
      (s : Splitter) (cs : Text) {out : Result ScriptError (List Text)}
      → Lexed (semicolon ∷ cs) s.content_since_emit s.stmt
      → complete_statement (s.stmt ++ semicolon ∷ []) ≡ true
      → Splits (emitted complete_statement strip isspace s) cs out
      → Splits s (semicolon ∷ cs) out
  closes_piece s cs lexed whole (Splits.refused e k) =
      Splits.refused e (Stops.behind_piece s.content_since_emit s.stmt cs e lexed whole k)
  closes_piece s cs lexed whole (Splits.splits ss k) = by_content s.content_since_emit refl
    where
      by_content :
          (b : Bool)
          → s.content_since_emit ≡ b
          → Splits s (semicolon ∷ cs) (
              ok (
                (if s.content_since_emit
                  then s.statements ++ strip (s.stmt ++ semicolon ∷ []) ∷ []
                  else s.statements)
                ++ ss))
      by_content false e = rw e (
          Splits.splits ss
            (Pieces.blank s.stmt cs ss (subst (λ b. Lexed (semicolon ∷ cs) b s.stmt) e lexed) k))
      by_content true e =
          rw (e, append_assoc s.statements (strip (s.stmt ++ semicolon ∷ []) ∷ []) ss)
            (Splits.splits (strip (s.stmt ++ semicolon ∷ []) ∷ ss) (
              Pieces.statement s.stmt cs ss (subst (λ b. Lexed (semicolon ∷ cs) b s.stmt) e lexed)
                whole k))

  split_from-Splits :
      (f : ℕ) (rest : Text) (s : Splitter)
      → length rest ≤ f
      → Lexed rest s.content_since_emit s.stmt
      → Splits s rest (split_from complete_statement strip isspace f rest s)
  unfolding split_from
  split_from-Splits f [] s h lexed = by_content s.content_since_emit lexed
    where
      by_content :
          (b : Bool)
          → Lexed [] b s.stmt
          → Splits s [] (if b then raised unterminated_statement else ok s.statements)
      by_content true k =
          Splits.refused unterminated_statement
            (Stops.at_end (s.stmt ++ []) (subst (Lexed [] true) (sym (append-nil s.stmt)) k))
      by_content false k =
          subst (λ done. Splits s [] (ok done)) (append-nil s.statements)
            (Splits.splits [] (
              Pieces.blank_end (s.stmt ++ []) (subst (Lexed [] false) (sym (append-nil s.stmt)) k)))
  split_from-Splits zero (c ∷ cs) s h lexed = absurd (omega (arith, h))
  split_from-Splits (suc f) (c ∷ cs) s h lexed =
      by_region (scan_region (c ∷ cs)) (scan_region-IsRegionOf c cs)
        (λ rest s' k lexed'. split_from-Splits f rest s' (omega (arith, h, k)) lexed')
    where
      go : Text → Splitter → Result ScriptError (List Text)
      go rest s' = split_from complete_statement strip isspace f rest s'

      Onward : Type 0
      Onward =
          (rest : Text) (s' : Splitter)
          → length rest < length (c ∷ cs)
          → Lexed rest s'.content_since_emit s'.stmt
          → Splits s' rest (go rest s')

      by_scan :
          (is_content : Bool) (P : Text → Text → Type 0) (r : Scan) (e : ScriptError)
          → (Opens (c ∷ cs)
              → ((t after : Text) → P t after → t ++ after ≢ c ∷ cs)
              → Unended e (c ∷ cs))
          → Takes P (c ∷ cs) r
          → (P r.taken r.left
              → Lexed (r.taken ++ r.left) s.content_since_emit s.stmt
              → Lexed r.left (s.content_since_emit || is_content) (s.stmt ++ r.taken))
          → Onward
          → Splits s (c ∷ cs) (elim r.terminated [
            | true ↦ go r.left (at_region complete_statement strip isspace is_content r.taken s)
            | false ↦ raised e
          ])
      by_scan is_content P r e known t grown onward = by_end r.terminated refl
        where
          next : Splitter
          next = at_region complete_statement strip isspace is_content r.taken s

          by_end :
              (b : Bool)
              → r.terminated ≡ b
              → Splits s (c ∷ cs) (elim b [ true ↦ go r.left next | false ↦ raised e ])
          by_end true h = takes_in s next r.taken r.left (c ∷ cs) t.joined refl refl (
              onward r.left next t.shorter (
                grown (t.whole h)
                  (subst (λ u. Lexed u s.content_since_emit s.stmt) (sym t.joined) lexed)))
          by_end false h = Splits.refused e (
              Stops.within s.content_since_emit s.stmt (c ∷ cs) e lexed
                (known t.opens (t.unended h)))

      or_false : (b : Bool) → (b || false) ≡ b
      or_false b = ground arith

      or_true : (b : Bool) → true ≡ (b || true)
      or_true b = ground arith

      by_semicolon :
          Lexed (semicolon ∷ cs) s.content_since_emit s.stmt
          → Onward
          → Splits s (semicolon ∷ cs) (go cs (at_semicolon complete_statement strip isspace s))
      by_semicolon here onward = by_complete (complete_statement (s.stmt ++ semicolon ∷ [])) refl
        where
          longer : Splitter
          longer = record s { stmt = s.stmt ++ semicolon ∷ [] }

          by_complete :
              (b : Bool)
              → complete_statement (s.stmt ++ semicolon ∷ []) ≡ b
              → Splits s
                  (semicolon ∷ cs)
                  (go cs (if b then emitted complete_statement strip isspace s else longer))
          by_complete true e = closes_piece s cs here e (
              onward cs (emitted complete_statement strip isspace s) (omega arith)
                (Lexed.nothing cs))
          by_complete false e =
              takes_in s longer (semicolon ∷ []) cs (semicolon ∷ cs) refl refl refl (
                onward cs longer (omega arith)
                  (Lexed.separator cs s.content_since_emit s.stmt e here))

      by_char :
          ¬ Opens (c ∷ cs)
          → c ≢ semicolon
          → Onward
          → Splits s (c ∷ cs) (go cs (at_char complete_statement strip isspace c s))
      by_char plain differs onward =
          takes_in s (at_char complete_statement strip isspace c s) (c ∷ []) cs (c ∷ cs) refl refl
            refl
            (onward cs (at_char complete_statement strip isspace c s) (omega arith)
              (by_space (isspace c) refl))
        where
          by_space :
              (b : Bool)
              → isspace c ≡ b
              → Lexed cs (if b then s.content_since_emit else true) (s.stmt ++ c ∷ [])
          by_space true e = Lexed.space cs s.content_since_emit s.stmt c e plain lexed
          by_space false e = Lexed.other cs s.content_since_emit s.stmt c e differs plain lexed

      by_region :
          (region : Region)
          → IsRegionOf (c ∷ cs) region
          → Onward
          → Splits s (c ∷ cs) (elim region [
            | comment r ↦ elim r.terminated [
              | true ↦ go r.left (at_region complete_statement strip isspace false r.taken s)
              | false ↦ raised unterminated_comment
            ]
            | literal r ↦ elim r.terminated [
              | true ↦ go r.left (at_region complete_statement strip isspace true r.taken s)
              | false ↦ raised unterminated_literal
            ]
            | no_region ↦ elim (c == semicolon) [
              | true ↦ go cs (at_semicolon complete_statement strip isspace s)
              | false ↦ go cs (at_char complete_statement strip isspace c s)
            ]
          ])
      by_region (comment r) t onward =
          by_scan false IsComment r unterminated_comment (Unended.open_comment (c ∷ cs)) t
            (λ k before.
              subst (λ b. Lexed r.left b (s.stmt ++ r.taken)) (sym (or_false s.content_since_emit))
                (Lexed.remark r.left _ s.stmt r.taken k before))
            onward
      by_region (literal r) t onward =
          by_scan true IsLiteral r unterminated_literal (Unended.open_literal (c ∷ cs)) t
            (λ k before.
              subst (λ b. Lexed r.left b (s.stmt ++ r.taken)) (or_true s.content_since_emit)
                (Lexed.quotation r.left s.content_since_emit s.stmt r.taken k before))
            onward
      by_region no_region t onward = elim (Bool-cases (c == semicolon)) [
        | inl e ↦
            rw (e, (==_iff c semicolon).0 e)
              (by_semicolon
                (subst (λ d. Lexed (d ∷ cs) s.content_since_emit s.stmt) ((==_iff c semicolon).0 e)
                  lexed)
                onward)
        | inr e ↦ rw e (by_char t (λ k. absurd (cc (e, (==_iff c semicolon).1 k))) onward)
      ]

  -- A script is refused, and behind whole pieces of it stands a literal or a comment that is nowhere
  -- ended, or it ends in a statement that no semicolon ends; or it is split: its
  -- statements are, in their order, what the script's pieces are when stripped, each piece ending at
  -- its first semicolon outside every comment and literal at which sqlite3 calls it complete, and
  -- between them stand only spaces, semicolons and comments. A comment begins with `--` or a slash
  -- and a star, a literal with one of the three quotes or `[`, and no character outside of them
  -- begins one. The fuel is enough.
  pub split_sql_statements-Splits :
      (sql : Text)
      → Splits
          (record { statements = []; stmt = []; content_since_emit = false })
          sql
          (split_sql_statements complete_statement strip isspace sql)
  unfolding split_sql_statements
  split_sql_statements-Splits sql =
      split_from-Splits (length sql) sql _ (omega arith) (Lexed.nothing sql)
