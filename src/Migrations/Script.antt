-- ===== src/Migrations/Script.antt =====
-- The split of a migration script into statements (src/engrava/infrastructure/sqlite/
-- extension_migrations.py). The index of each loop is the text that is left. `complete_statement` is
-- sqlite3's; `isspace`, `isalpha`, `strip` and `upper` are those of `str`.
pub mod Forms
pub mod Ends
pub mod Regions
pub mod Pieces
use engrava.Prelude.{
  ℕ, zero, suc, ◌==◌, ◌||◌, ◌&&◌, not, Bool, true, false, Option, none, some, List, [], ◌∷◌, ◌++◌,
  length, if◌then◌else◌,
}
use engrava.Prelude.Result.{Result, ok, raised}
use engrava.Prelude.Text.{Text}

-- What a scan took, what it left, and whether it came to the end that it looked for.
pub record Scan : Type 0 where
  pub taken : Text
  pub left : Text
  pub terminated : Bool

abbrev pub past : Text → Scan → Scan
past front s = record s { taken = front ++ s.taken }

abbrev pub newline : ℕ
newline = 10

abbrev pub semicolon : ℕ
semicolon = 59

abbrev pub dash : ℕ
dash = 45

abbrev pub slash : ℕ
slash = 47

abbrev pub star : ℕ
star = 42

abbrev pub open_bracket : ℕ
open_bracket = 91

abbrev pub close_bracket : ℕ
close_bracket = 93

-- `'`, `"` or the backtick.
abbrev pub is_quote : ℕ → Bool
is_quote c = c == 39 || c == 34 || c == 96

-- `_consume_quoted`, from behind the opening quote.
unfoldable pub consume_quoted : (quote : ℕ) → Text → Scan
consume_quoted q [] = record { taken = []; left = []; terminated = false }
consume_quoted q (c ∷ []) = record { taken = c ∷ []; left = []; terminated = c == q }
consume_quoted q (c ∷ d ∷ cs) = elim (c == q) [
  | true ↦ elim (d == q) [
    | true ↦ past (c ∷ d ∷ []) (consume_quoted q cs)
    | false ↦ record { taken = c ∷ []; left = d ∷ cs; terminated = true }
  ]
  | false ↦ past (c ∷ []) (consume_quoted q (d ∷ cs))
]

-- `sql.find(c, i)`, and one past it.
unfoldable pub through : ℕ → Text → Scan
through stop [] = record { taken = []; left = []; terminated = false }
through stop (c ∷ cs) = elim (c == stop) [
  | true ↦ record { taken = c ∷ []; left = cs; terminated = true }
  | false ↦ past (c ∷ []) (through stop cs)
]

-- `sql.find("*/", i)`, and two past it.
unfoldable pub through_close : Text → Scan
through_close [] = record { taken = []; left = []; terminated = false }
through_close (c ∷ []) = record { taken = c ∷ []; left = []; terminated = false }
through_close (c ∷ d ∷ cs) = elim (c == star && d == slash) [
  | true ↦ record { taken = c ∷ d ∷ []; left = cs; terminated = true }
  | false ↦ past (c ∷ []) (through_close (d ∷ cs))
]

-- A region, and whether it is content.
pub data Region : Type 0 where
  comment literal : Scan → Region
  no_region : Region

-- A line comment ends at the end of the text as well.
abbrev pub ended : Scan → Scan
ended s = record s { terminated = true }

abbrev pub scan_quoted : ℕ → Text → Region
scan_quoted c cs =
    if is_quote c
    then literal (past (c ∷ []) (consume_quoted c cs))
    else if c == open_bracket
    then literal (past (c ∷ []) (through close_bracket cs))
    else no_region

-- `_scan_non_statement_region`.
abbrev pub scan_region : Text → Region
scan_region [] = no_region
scan_region (c ∷ []) = scan_quoted c []
scan_region (c ∷ d ∷ cs) =
    if c == dash && d == dash
    then comment (past (c ∷ d ∷ []) (ended (through newline cs)))
    else if c == slash && d == star
    then comment (past (c ∷ d ∷ []) (through_close cs))
    else scan_quoted c (d ∷ cs)

pub data ScriptError : Type 0 where
  unterminated_literal unterminated_comment unterminated_statement out_of_fuel : ScriptError

-- The variables of the loop, the text of the statement so far in place of `stmt_start`.
pub record Splitter : Type 0 where
  pub statements : List Text
  pub stmt : Text
  pub content_since_emit : Bool

module _ (complete_statement : Text → Bool) (strip : Text → Text) (isspace : ℕ → Bool) where
  abbrev pub emitted : Splitter → Splitter
  emitted s = record {
    statements =
        if s.content_since_emit
        then s.statements ++ strip (s.stmt ++ semicolon ∷ []) ∷ []
        else s.statements;
    stmt = [];
    content_since_emit = false;
  }

  abbrev pub at_semicolon : Splitter → Splitter
  at_semicolon s =
      if complete_statement (s.stmt ++ semicolon ∷ [])
      then emitted s
      else record s { stmt = s.stmt ++ semicolon ∷ [] }

  abbrev pub at_char : ℕ → Splitter → Splitter
  at_char c s = record s {
    stmt = s.stmt ++ c ∷ [];
    content_since_emit = if isspace c then s.content_since_emit else true;
  }

  abbrev pub at_region : (is_content : Bool) → Text → Splitter → Splitter
  at_region is_content taken s = record s {
    stmt = s.stmt ++ taken;
    content_since_emit = s.content_since_emit || is_content;
  }

  -- The loop, on fuel.
  unfoldable pub split_from : ℕ → Text → Splitter → Result ScriptError (List Text)
  split_from fuel [] s =
      if s.content_since_emit then raised unterminated_statement else ok s.statements
  split_from zero (c ∷ cs) s = raised out_of_fuel
  split_from (suc f) (c ∷ cs) s = elim (scan_region (c ∷ cs)) [
    | comment r ↦ elim r.terminated [
      | true ↦ split_from f r.left (at_region false r.taken s)
      | false ↦ raised unterminated_comment
    ]
    | literal r ↦ elim r.terminated [
      | true ↦ split_from f r.left (at_region true r.taken s)
      | false ↦ raised unterminated_literal
    ]
    | no_region ↦ elim (c == semicolon) [
      | true ↦ split_from f cs (at_semicolon s)
      | false ↦ split_from f cs (at_char c s)
    ]
  ]

  -- `_split_sql_statements`.
  unfoldable pub split_sql_statements : Text → Result ScriptError (List Text)
  unfolding split_from
  split_sql_statements sql =
      split_from (length sql) sql
        (record { statements = []; stmt = []; content_since_emit = false })

-- `_leading_keyword`, on fuel: the spaces and comments in front are skipped.
module _ (isspace isalpha : ℕ → Bool) (upper : Text → Text) where
  unfoldable pub skip_front : ℕ → Text → Text
  skip_front zero cs = cs
  skip_front (suc f) [] = []
  skip_front (suc f) (c ∷ cs) = elim (isspace c || c == 65279) [
    | true ↦ skip_front f cs
    | false ↦ elim (scan_region (c ∷ cs)) [
      | comment r ↦ skip_front f r.left
      | literal r ↦ c ∷ cs
      | no_region ↦ c ∷ cs
    ]
  ]

  unfoldable pub word_front : Text → Text
  word_front [] = []
  word_front (c ∷ cs) = elim (isalpha c || c == 95) [ true ↦ c ∷ word_front cs | false ↦ [] ]

  unfoldable pub leading_keyword : Text → Text
  unfolding skip_front word_front
  leading_keyword statement = upper (word_front (skip_front (length statement) statement))
