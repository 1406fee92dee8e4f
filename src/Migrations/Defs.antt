-- ===== src/Migrations/Defs.antt =====
-- `ExtensionMigrationRunner.apply_pending` and what it calls
-- (src/engrava/infrastructure/sqlite/extension_migrations.py), on the rows of one extension. A
-- savepoint that is unwound gives back the database as it was; a statement acts on the extension's
-- own tables.
use engrava.Prelude.{
  ℕ, suc, true, false, ◌==◌, ltb, any, Option, none, some, List, [], ◌∷◌, length, take, drop,
  if◌then◌else◌,
}
use engrava.Prelude.Order.{text_order}
use engrava.Prelude.Sort.{sort}
use engrava.Prelude.Result.{Result, ok, raised, ◌>>=◌}
use engrava.Prelude.Text.{Text, text, text_eq}

pub data MigrationError : Type 0 where
  downgrade duplicate_filename inconsistent_bookkeeping corrupt_history : MigrationError
  drifted_name drifted_content cannot_read unsupported_sql transaction_control : MigrationError
  execution_failed adoption_failed index_error : MigrationError

-- A file that the manifest declares: its name, and where `_read_migration_sql` finds it.
pub record MigrationPath : Type 0 where
  pub name : Text
  pub location : Text

-- `_AppliedMigration`: what a run reads back of a row of the history.
pub record Applied : Type 0 where
  pub index : ℕ
  pub migration_file : Text
  pub checksum : Text

-- `_PreparedMigration`.
pub record Prepared : Type 0 where
  pub index : ℕ
  pub basename : Text
  pub checksum : Text
  pub statements : List Text

-- The row of `extension_schema_versions`: its `version`, an integer.
pub data Summary : Type 0 where
  no_row : Summary
  version negative_version : ℕ → Summary

-- The extension's own tables, the rows of `extension_schema_migrations` by `migration_index`, and
-- the summary. A table that does not exist has no rows.
pub record Database {ℓ} (S : Type ℓ) : Type ℓ where
  pub schema : S
  pub history : List Applied
  pub summary : Summary

abbrev pub recorded_version : Summary → ℕ
recorded_version no_row = 0
recorded_version (version n) = n
recorded_version (negative_version n) = 0

abbrev max_of : ℕ → ℕ → ℕ
max_of a b = if ltb a b then b else a

-- `_SQL_INSERT_HISTORY`: none if the index is taken.
unfoldable pub insert_history : Applied → List Applied → Option (List Applied)
insert_history entry [] = some (entry ∷ [])
insert_history entry (row ∷ rows) = elim (ltb entry.index row.index) [
  | true ↦ some (entry ∷ row ∷ rows)
  | false ↦ elim (entry.index == row.index) [
    | true ↦ none
    | false ↦ elim (insert_history entry rows) [ none ↦ none | some rest ↦ some (row ∷ rest) ]
  ]
]

unfoldable pub insert_all : List Applied → List Applied → Option (List Applied)
insert_all [] rows = some rows
insert_all (entry ∷ entries) rows = elim (insert_history entry rows) [
  | none ↦ none
  | some rows' ↦ insert_all entries rows'
]

-- `_reject_duplicate_filenames`, from the names already seen.
unfoldable pub reject_duplicates :
    (seen : List Text) → List MigrationPath → Result MigrationError (Unit {0})
reject_duplicates seen [] = ok tt
reject_duplicates seen (path ∷ paths) = elim (any (text_eq path.name) seen) [
  | true ↦ raised duplicate_filename
  | false ↦ reject_duplicates (path.name ∷ seen) paths
]

-- `sorted(manifest.schema_migrations, key=lambda p: p.name)`.
abbrev pub sorted_files : List MigrationPath → List MigrationPath
sorted_files files = sort text_order (λ path. path.name) files

-- `_reject_transaction_control`, by the leading keyword of each statement.
abbrev pub transaction_keywords : List Text
transaction_keywords =
    text "BEGIN"
    ∷ text "COMMIT"
    ∷ text "END"
    ∷ text "ROLLBACK"
    ∷ text "SAVEPOINT"
    ∷ text "RELEASE"
    ∷ []

unfoldable pub reject_transaction_control :
    (leading_keyword : Text → Text) → List Text → Result MigrationError (Unit {0})
reject_transaction_control leading_keyword [] = ok tt
reject_transaction_control leading_keyword (statement ∷ statements) =
    elim (any (text_eq (leading_keyword statement)) transaction_keywords) [
      | true ↦ raised transaction_control
      | false ↦ reject_transaction_control leading_keyword statements
    ]

-- A call that may write, whether it returns or raises.
abbrev pub Call {ℓ κ} : Type ℓ → Type κ → Type (ℓ ⊔ κ)
Call S A = Database S × Result MigrationError A

abbrev pub after {ℓ κ μ} :
    {S : Type ℓ} {A : Type κ} {B : Type μ} → Call S A → (Database S → A → Call S B) → Call S B
after (db, raised e) next = (db, raised e)
after (db, ok a) next = next db a

abbrev pub entry_of : Prepared → Applied
entry_of step = record {
  index = step.index;
  migration_file = step.basename;
  checksum = step.checksum;
}

-- The row of the history and the summary that a step writes after its statements.
abbrev pub step_rows {ℓ} : {S : Type ℓ} → Prepared → S → Option (List Applied) → Option (Database S)
step_rows step s none = none
step_rows step s (some rows) =
    some record { schema = s; history = rows; summary = version step.index }

abbrev pub step_from {ℓ} : {S : Type ℓ} → Prepared → Database S → Option S → Option (Database S)
step_from step db none = none
step_from step db (some s) = step_rows step s (insert_history (entry_of step) db.history)

-- Statements are executed one by one: none where one raises.
module _ {ℓ} {S : Type ℓ} (exec : Text → S → Option S) where
  unfoldable pub exec_all : List Text → S → Option S
  exec_all [] s = some s
  exec_all (stmt ∷ stmts) s = elim (exec stmt s) [ none ↦ none | some s' ↦ exec_all stmts s' ]

  -- One pass of the loop: the statements, the row of the history, and the summary, in a savepoint.
  unfoldable pub run_step : Prepared → Database S → Option (Database S)
  run_step step db = step_from step db (exec_all step.statements db.schema)

  unfoldable pub run_steps : List Prepared → Database S → Call S (Unit {0})
  run_steps [] db = (db, ok tt)
  run_steps (step ∷ steps) db = elim (run_step step db) [
    | none ↦ (db, raised execution_failed)
    | some db' ↦ run_steps steps db'
  ]

-- `_verify_summary_matches_history`.
unfoldable pub verify_summary : Summary → ℕ → Result MigrationError (Unit {0})
verify_summary (negative_version n) history_length = raised inconsistent_bookkeeping
verify_summary no_row history_length =
    if history_length == 0 then ok tt else raised inconsistent_bookkeeping
verify_summary (version n) history_length =
    if n == history_length then ok tt else raised inconsistent_bookkeeping

abbrev pub refuse_downgrade : ℕ → ℕ → Result MigrationError (Unit {0})
refuse_downgrade current total = if ltb total current then raised downgrade else ok tt

abbrev pub split_or_raise : Option (List Text) → Result MigrationError (List Text)
split_or_raise none = raised unsupported_sql
split_or_raise (some stmts) = ok stmts

abbrev pub text_or_raise : Option Text → Result MigrationError Text
text_or_raise none = raised cannot_read
text_or_raise (some sql) = ok sql

-- The split of a script into statements: none where it is refused.
abbrev pub split_sql :
    (split : Text → Option (List Text)) → Text → Result MigrationError (List Text)
split_sql split sql = split_or_raise (split sql)

-- Reading a file: none where it raises.
module _ (read : MigrationPath → Option Text) where
  abbrev pub read_sql : MigrationPath → Result MigrationError Text
  read_sql path = text_or_raise (read path)

  module _ (digest : Text → Text) where
    -- The entries that `_adopt_legacy_history` makes of the first files.
    unfoldable pub baseline_from :
        (index : ℕ) → List MigrationPath → Result MigrationError (List Applied)
    baseline_from index [] = ok []
    baseline_from index (path ∷ paths) = read_sql path >>= λ sql.
        baseline_from (suc index) paths >>= λ entries.
        ok (record { index = index; migration_file = path.name; checksum = digest sql } ∷ entries)

    -- `_verify_no_drift`, from a position on.
    unfoldable pub verify_no_drift :
        (position : ℕ) → List MigrationPath → List Applied → Result MigrationError (Unit {0})
    verify_no_drift position files [] = ok tt
    verify_no_drift position [] (entry ∷ entries) = raised index_error
    verify_no_drift position (path ∷ paths) (entry ∷ entries) = elim (entry.index == position) [
      | false ↦ raised corrupt_history
      | true ↦ elim (text_eq path.name entry.migration_file) [
        | false ↦ raised drifted_name
        | true ↦ read_sql path >>= λ sql. elim (text_eq (digest sql) entry.checksum) [
          | false ↦ raised drifted_content
          | true ↦ verify_no_drift (suc position) paths entries
        ]
      ]
    ]

    module _ {ℓ} {S : Type ℓ} where
      abbrev pub adopt_entries :
          Database S → List Applied → Option (List Applied) → Call S (List Applied)
      adopt_entries db baseline none = (db, raised adoption_failed)
      adopt_entries db baseline (some rows) =
          (record { schema = db.schema; history = rows; summary = db.summary }, ok baseline)

      abbrev pub adopt_baseline :
          Database S → Result MigrationError (List Applied) → Call S (List Applied)
      adopt_baseline db (raised e) = (db, raised e)
      adopt_baseline db (ok baseline) = adopt_entries db baseline (insert_all baseline db.history)

      -- `_adopt_legacy_history`, for a database without a history.
      unfoldable pub adopt_legacy_history : List MigrationPath → Database S → Call S (List Applied)
      adopt_legacy_history files db = elim (ltb (length files) (recorded_version db.summary)) [
        | true ↦ (db, raised downgrade)
        | false ↦ adopt_baseline db (baseline_from 1 (take (recorded_version db.summary) files))
      ]

      -- The history that the run starts from.
      abbrev pub history_or_adopted :
          List MigrationPath → Database S → List Applied → Call S (List Applied)
      history_or_adopted files db [] = adopt_legacy_history files db
      history_or_adopted files db (e ∷ es) =
          (db, verify_summary db.summary (length (e ∷ es)) >>= λ _. ok (e ∷ es))

    -- The keyword that a statement starts with.
    module _ (split : Text → Option (List Text)) (leading_keyword : Text → Text) where
      abbrev pub prepare_one : ℕ → MigrationPath → Result MigrationError Prepared
      prepare_one index path = read_sql path >>= λ sql. split_sql split sql >>= λ statements.
          reject_transaction_control leading_keyword statements >>= λ _. ok record {
            index = index;
            basename = path.name;
            checksum = digest sql;
            statements = statements;
          }

      -- `_prepare_pending`, on the files that are left.
      unfoldable pub prepare_from :
          (index : ℕ) → List MigrationPath → Result MigrationError (List Prepared)
      prepare_from index [] = ok []
      prepare_from index (path ∷ paths) = prepare_one index path >>= λ step.
          prepare_from (suc index) paths >>= λ steps. ok (step ∷ steps)

      -- What follows the history: the check of its length and of drift, and the files left to run.
      abbrev pub checked_steps :
          List MigrationPath → List Applied → Result MigrationError (List Prepared)
      checked_steps files applied = refuse_downgrade (length applied) (length files) >>= λ _.
          verify_no_drift 1 files applied >>= λ _.
          prepare_from (suc (length applied)) (drop (length applied) files)

      module _ {ℓ} {S : Type ℓ} (exec : Text → S → Option S) where
        abbrev pub apply_sorted : List MigrationPath → Database S → Call S (Unit {0})
        apply_sorted files db =
            after (db, reject_duplicates [] files)
              (λ db _. after (history_or_adopted files db db.history) (λ db applied.
                after (db, checked_steps files applied) (λ db steps. run_steps exec steps db)))

        unfoldable pub apply_pending : List MigrationPath → Database S → Call S (Unit {0})
        apply_pending [] db =
            (db, refuse_downgrade (max_of (length db.history) (recorded_version db.summary)) 0)
        apply_pending (path ∷ paths) db = apply_sorted (sorted_files (path ∷ paths)) db
