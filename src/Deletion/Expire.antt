-- ===== src/Deletion/Expire.antt =====
-- `cleanup_expired` (src/engrava/infrastructure/sqlite/engrava_core.py), from the query to the result,
-- under its two strategies. `clock` is the time at which `ThoughtRecord.evolve` runs, and `invalid` is
-- the error that it raises.
use engrava.Prelude.{ℕ, ◌||◌, Bool, true, false, Option, none, some, List, [], ◌∷◌, ltb, length}
use engrava.Prelude.Result.{Result, ok, raised}
use engrava.Prelude.Text.{Text}
use engrava.Floats.{Floats}
use engrava.Thought.Defs.{Thought, Instant, archived, ThoughtError}
use engrava.Thought.Lifecycle.{Changes, text_value, evolve}
use engrava.Hygiene.Archive.{get_thought_row}
use engrava.Expiry.Defs.{expired_rows, split_expired_by_pinned}
use engrava.Deletion.Tables.{Db, Delta, updates, deletes, Engine, archive_thought, settled}
use engrava.Deletion.Defs.{after, Call, in_savepoint, execute, record_mutation, delete_one}

pub data CleanupStrategy : Type 0 where
  archive delete : CleanupStrategy

pub record CleanupResult : Type 0 where
  pub expired_count : ℕ
  pub strategy_applied : CleanupStrategy
  pub timestamp : Instant
  pub pinned_kept_count : ℕ

module _ {F : Floats} {J E : Type 0} (engine : Engine F J E) (clock : Instant)
    (invalid : ThoughtError → E) where
  -- The keywords of `before.evolve(...)`.
  abbrev expiry_changes : Changes F
  expiry_changes = record {
    new_created_at = none;
    new_status = some (text_value archived);
    new_updated_at = none;
    others = λ t. record t { expires_at = none; archived_at_cycle = none; archived_at = none };
  }

  abbrev pub note_evolved :
      Text → Thought F → Result ThoughtError (Thought F) → Db F J → Call engine (Unit {0})
  note_evolved x before (raised e) db = (db, raised (invalid e))
  note_evolved x before (ok result) db =
      record_mutation engine updates x (some before) (some result) db

  -- The journal's part of a round under ARCHIVE: nothing without a journal, or without a row.
  abbrev pub note_expiry :
      Option (Delta F → J → Result E J)
      → Text
      → Option (Thought F)
      → Db F J
      → Call engine (Unit {0})
  note_expiry none x before db = (db, ok tt)
  note_expiry (some append) x none db = (db, ok tt)
  note_expiry (some append) x (some before) db =
      note_evolved x before (evolve F expiry_changes clock before) db

  -- Whether a round under ARCHIVE gave the journal a row.
  abbrev pub was_noted : Option (Delta F → J → Result E J) → Option (Thought F) → Bool
  was_noted none before = false
  was_noted (some append) none = false
  was_noted (some append) (some before) = true

  -- One round of the loop: whether it wrote anything, the journal's row included, which an expiry
  -- gets that a trigger kept from happening.
  unfoldable pub expire_one : CleanupStrategy → Text → Db F J → Call engine Bool
  unfolding delete_one
  expire_one archive x db = after engine (execute engine (archive_thought x) db) (λ later c.
      let row = get_thought_row F x db.thoughts in
      after engine (note_expiry engine.append x row later)
        (λ last _. (last, ok (ltb 0 c.changes || was_noted engine.append row))))
  expire_one delete x db =
      after engine (delete_one engine deletes x db) (λ later r. (later, ok r.wrote_anything))

  unfoldable pub expire_all : CleanupStrategy → List Text → Bool → Db F J → Call engine Bool
  expire_all strategy [] wrote db = (db, ok wrote)
  expire_all strategy (x ∷ xs) wrote db =
      after engine (expire_one strategy x db) (λ later w. expire_all strategy xs (w || wrote) later)

  unfoldable pub cleanup_expired :
      CleanupStrategy
      → (opened_transaction : Bool) → (exclude_id : Option Text) → (now : Instant) → Db F J
      → Call engine CleanupResult
  unfolding expire_one expire_all
  cleanup_expired strategy opened exclude_id now db =
      let expired = split_expired_by_pinned F exclude_id (expired_rows F now db.thoughts) in
      after engine (in_savepoint engine db (expire_all strategy expired.0 false db)) (λ later wrote.
        (
          settled opened wrote db later,
          ok (record {
            expired_count = length expired.0;
            strategy_applied = strategy;
            timestamp = now;
            pinned_kept_count = expired.1;
          }),
        ))
