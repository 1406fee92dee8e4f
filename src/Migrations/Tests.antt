-- ===== src/Migrations/Tests.antt =====
-- Runs of the migration runner (src/engrava/infrastructure/sqlite/extension_migrations.py), and its
-- theorems at concrete inputs.
use engrava.Prelude.{
  ℕ, ◌≡◌, refl, Bool, false, ◌==◌, not, any, Option, none, some, List, [], ◌∷◌, ◌++◌, arith,
  if◌then◌else◌,
}
use engrava.Prelude.Result.{ok, raised}
use engrava.Prelude.Order.{lex_leq}
use engrava.Prelude.Sort.{sort, insert}
use engrava.Prelude.Text.{Text, text, text_eq}
use engrava.Migrations.Defs.{
  MigrationPath, Applied, no_row, version, Database, Call, execution_failed, drifted_content,
  insert_history, insert_all, reject_duplicates, reject_transaction_control, exec_all,
  verify_summary, baseline_from, adopt_legacy_history, verify_no_drift, prepare_from, run_step,
  run_steps, sorted_files, apply_pending,
}
use engrava.Migrations.Script.{
  consume_quoted, through, through_close, split_sql_statements, leading_keyword,
}
use engrava.Migrations.Script.Pieces.{Splits, split_sql_statements-Splits}
use engrava.Migrations.Recorded.{Records}
use engrava.Migrations.Recorded.Steps.{Outcome}
use engrava.Migrations.Again.{apply_pending_complete}
use engrava.Migrations.Atomic.{Made, apply_pending-Outcome}

-- A file's content is its location; the digest is the content; a script is one statement.
abbrev read_location : MigrationPath → Option Text
read_location path = some path.location

abbrev one_statement : Text → Option (List Text)
one_statement sql = some (sql ∷ [])

-- The tables log the statements; one of them fails.
abbrev log_statement : Text → List Text → Option (List Text)
log_statement stmt log = if text_eq stmt (text "bad") then none else some (log ++ stmt ∷ [])

abbrev file : Text → Text → MigrationPath
file name sql = record { name = name; location = sql }

abbrev empty_database : Database (List Text)
empty_database = record { schema = []; history = []; summary = no_row }

abbrev row : ℕ → Text → Text → Applied
row n name sql = record { index = n; migration_file = name; checksum = sql }

abbrev run : List MigrationPath → Database (List Text) → Call (List Text) (Unit {0})
run files db =
    apply_pending read_location (λ sql. sql) one_statement (λ stmt. stmt) log_statement files db

abbrev migrated : Database (List Text)
migrated = record {
  schema = text "one" ∷ text "two" ∷ [];
  history = row 1 (text "a.sql") (text "one") ∷ row 2 (text "b.sql") (text "two") ∷ [];
  summary = version 2;
}

-- The files of a manifest run in the order of their names.
both_run :
    run (file (text "b.sql") (text "two") ∷ file (text "a.sql") (text "one") ∷ []) empty_database
    ≡ (migrated, ok tt)
unfolding apply_pending run_steps run_step exec_all insert_history reject_duplicates
    adopt_legacy_history baseline_from insert_all verify_no_drift prepare_from
    reject_transaction_control verify_summary sort insert text_eq lex_leq
both_run = refl

-- A changed file is refused.
changed_file :
    run (file (text "b.sql") (text "two") ∷ file (text "a.sql") (text "ONE") ∷ []) migrated
    ≡ (migrated, raised drifted_content)
unfolding apply_pending run_steps run_step exec_all insert_history reject_duplicates
    adopt_legacy_history baseline_from insert_all verify_no_drift prepare_from
    reject_transaction_control verify_summary sort insert text_eq lex_leq
changed_file = refl

-- The first file stays when the second fails.
abbrev half_way : Database (List Text)
half_way = record {
  schema = text "one" ∷ [];
  history = row 1 (text "a.sql") (text "one") ∷ [];
  summary = version 1;
}

second_fails :
    run (file (text "b.sql") (text "bad") ∷ file (text "a.sql") (text "one") ∷ []) empty_database
    ≡ (half_way, raised execution_failed)
unfolding apply_pending run_steps run_step exec_all insert_history reject_duplicates
    adopt_legacy_history baseline_from insert_all verify_no_drift prepare_from
    reject_transaction_control verify_summary sort insert text_eq lex_leq
second_fails = refl

apply_pending_complete_example :
    Records read_location
      (λ sql. sql)
      1
      (sorted_files (file (text "b.sql") (text "two") ∷ file (text "a.sql") (text "one") ∷ []))
      migrated.history
    × (migrated.summary ≡ version 2)
    × (run (file (text "b.sql") (text "two") ∷ file (text "a.sql") (text "one") ∷ []) migrated
        ≡ (migrated, ok tt))
apply_pending_complete_example =
    apply_pending_complete read_location (λ sql. sql) one_statement (λ stmt. stmt) log_statement
      (file (text "b.sql") (text "two")) (file (text "a.sql") (text "one") ∷ []) empty_database
      migrated both_run

apply_pending-Outcome_example :
    Outcome read_location
      (λ sql. sql)
      one_statement
      log_statement
      (Made read_location (λ sql. sql) one_statement log_statement [])
      (sorted_files (file (text "b.sql") (text "bad") ∷ file (text "a.sql") (text "one") ∷ []))
      0
      (run
        (file (text "b.sql") (text "bad") ∷ file (text "a.sql") (text "one") ∷ [])
        empty_database)
apply_pending-Outcome_example =
    apply_pending-Outcome read_location (λ sql. sql) one_statement log_statement (λ stmt. stmt) []
      (file (text "b.sql") (text "bad")) (file (text "a.sql") (text "one") ∷ []) empty_database
      record {
        recorded = [];
        left_over =
            sorted_files (file (text "b.sql") (text "bad") ∷ file (text "a.sql") (text "one") ∷ []);
        parts = refl;
        at_least = omega arith;
        records = tt;
        keeps = (refl, refl);
      }

-- A space, and a statement that is complete where it has no letter "B".
abbrev isspace : ℕ → Bool
isspace c = c == 32

abbrev complete : Text → Bool
complete t = not (any (◌==◌ 66) t)

abbrev script : Text
script = text "-- a;\nA ';';"

split_sql_statements-Splits_example :
    Splits complete
      (λ t. t)
      isspace
      (record { statements = []; stmt = []; content_since_emit = false })
      script
      (split_sql_statements complete (λ t. t) isspace script)
split_sql_statements-Splits_example = split_sql_statements-Splits complete (λ t. t) isspace script

-- The semicolons in the comment and in the literal end no statement.
one_split : split_sql_statements complete (λ t. t) isspace script ≡ ok (script ∷ [])
unfolding split_sql_statements consume_quoted through
one_split = refl

keyword :
    leading_keyword isspace (λ c. not (c == 32)) (λ t. t) (text " /* x */COMMIT a") ≡ text "COMMIT"
unfolding leading_keyword through_close
keyword = refl
