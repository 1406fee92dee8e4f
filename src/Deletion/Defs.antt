-- ===== src/Deletion/Defs.antt =====
-- `delete_thought` down to its statements (src/engrava/infrastructure/sqlite/engrava_core.py). A
-- connection that cannot unwind a savepoint, and cancellation, are left out.
use engrava.Prelude.{ℕ, ◌+◌, Bool, false, ◌||◌, not, Option, none, some, ltb, any, if◌then◌else◌}
use engrava.Prelude.Result.{Result, ok, raised}
use engrava.Prelude.Text.{Text}
use engrava.Floats.{Floats}
use engrava.Thought.Defs.{Thought}
use engrava.Hygiene.Archive.{get_thought_row}
use engrava.Deletion.Tables.{
  Counts, Db, DeleteAtomicResult, Delta, Engine, MutationType, Statement, delete_actions,
  delete_edges, delete_embeddings, delete_thought_row, delete_vector, deletes, effect, first_rowid,
  identified, settled,
}

module _ {F : Floats} {J E : Type 0} (engine : Engine F J E) where
  -- A call that may write, whether it returns or raises.
  abbrev pub Call : Type 0 → Type 0
  Call A = Db F J × Result E A

  abbrev pub after : {A B : Type 0} → Call A → (Db F J → A → Call B) → Call B
  after (db, raised e) next = (db, raised e)
  after (db, ok a) next = next db a

  -- A body in a savepoint opened on `db`, which an error unwinds.
  abbrev pub in_savepoint : {A : Type 0} → Db F J → Call A → Call A
  in_savepoint db (later, ok a) = (later, ok a)
  in_savepoint db (later, raised e) = (db, raised e)

  abbrev pub executed : Option E → Db F J → Db F J × Counts → Call Counts
  executed none db (later, n) = (later, ok n)
  executed (some e) db (later, n) = (db, raised e)

  abbrev pub execute : Statement → Db F J → Call Counts
  execute s db = executed (engine.fails s db) db (effect engine s db)

  -- `_delete_thought_children_explicit`: by how much `total_changes` rose, of which the source asks
  -- whether it is more than nothing.
  unfoldable pub delete_thought_children_explicit : Text → Db F J → Call ℕ
  delete_thought_children_explicit x db = in_savepoint db (
      after (execute (delete_edges x) db) (λ db1 a.
        after (execute (delete_embeddings x) db1) (λ db2 b.
          after (execute (delete_actions x) db2)
            (λ db3 c. (db3, ok (a.changes + b.changes + c.changes))))))

  -- What follows the DELETE of the parent: the children go if it went or was not there, and else the
  -- savepoint is rolled back.
  abbrev pub after_parent : Text → Db F J → Bool → Db F J → Counts → Call DeleteAtomicResult
  after_parent x db existed_before db1 n =
      if ltb 0 n.rowcount || not existed_before
      then after (delete_thought_children_explicit x db1) (λ db2 m.
        (db2, ok (record { deleted = ltb 0 n.rowcount; wrote_anything = ltb 0 (n.changes + m) })))
      else (db, ok (record { deleted = ltb 0 n.rowcount; wrote_anything = false }))

  unfoldable pub delete_thought_atomic : Text → Db F J → Call DeleteAtomicResult
  unfolding delete_thought_children_explicit
  delete_thought_atomic x db = in_savepoint db (
      after (execute (delete_thought_row x) db)
        (after_parent x db (any (identified x) db.thoughts)))

  abbrev pub embedding_rowid_for_thought : Text → Db F J → Option ℕ
  embedding_rowid_for_thought x db =
      if engine.vector_backend then first_rowid x db.embeddings else none

  abbrev pub purge_orphan_vector : Option ℕ → Db F J → Call (Unit {0})
  purge_orphan_vector none db = (db, ok tt)
  purge_orphan_vector (some n) db = after (execute (delete_vector n) db) (λ later c. (later, ok tt))

  abbrev pub journalled : Db F J → Result E J → Call (Unit {0})
  journalled db (raised e) = (db, raised e)
  journalled db (ok j) = (record db { journal = j }, ok tt)

  abbrev pub appended : Option (Delta F → J → Result E J) → Delta F → Db F J → Call (Unit {0})
  appended none delta db = (db, ok tt)
  appended (some append) delta db = journalled db (append delta db.journal)

  -- `self._journal.append(...)`, where there is a journal and there was a row.
  abbrev pub record_mutation :
      MutationType → Text → Option (Thought F) → Option (Thought F) → Db F J → Call (Unit {0})
  record_mutation kind x none result db = (db, ok tt)
  record_mutation kind x (some t) result db =
      appended engine.append
        (record { mutation_type = kind; target_id = x; before = t; after = result }) db

  -- What follows a delete that took a row away.
  abbrev pub after_deleted :
      MutationType → Text → Option ℕ → Option (Thought F) → Db F J → Call (Unit {0})
  after_deleted kind x rowid before db =
      after (purge_orphan_vector rowid db) (λ later _. record_mutation kind x before none later)

  -- The savepoint's body of `delete_thought`, which a round of an expiry and one of hygiene share.
  unfoldable pub delete_one : MutationType → Text → Db F J → Call DeleteAtomicResult
  unfolding delete_thought_atomic
  delete_one kind x db = after (delete_thought_atomic x db) (λ later r.
      if r.deleted
      then after
          (after_deleted kind x (embedding_rowid_for_thought x db) (get_thought_row F x db.thoughts)
            later)
          (λ last _. (last, ok r))
      else (later, ok r))

  unfoldable pub delete_thought : (opened_transaction : Bool) → Text → Db F J → Call Bool
  unfolding delete_one
  delete_thought opened x db =
      after (in_savepoint db (delete_one deletes x db))
        (λ later r. (settled opened r.wrote_anything db later, ok r.deleted))
