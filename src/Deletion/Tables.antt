-- ===== src/Deletion/Tables.antt =====
-- The tables that a deletion reaches (src/engrava/infrastructure/sqlite/schema_core.sql), and what
-- each of its statements (src/engrava/infrastructure/sqlite/engrava_core.py) does to them. SQLite is a
-- parameter where it decides: whether foreign keys are enforced, which deletes and which expiries of a
-- thought a trigger turns into nothing by RAISE(IGNORE), and which statements raise. A trigger that
-- writes, and one that keeps an edge, an embedding, an action or a vector, are left out.
use engrava.Prelude.{
  ℕ, suc, ◌+◌, ◌==◌, Bool, true, false, ◌||◌, not, Option, none, some, List, [], ◌∷◌, filter,
  length, if◌then◌else◌,
}
use engrava.Prelude.Result.{Result}
use engrava.Prelude.Text.{Text, text, text_eq}
use engrava.Floats.{Floats}
use engrava.Thought.Defs.{Thought, Instant, archived}
use engrava.Hygiene.Archive.{Store, update_where}

pub record Edge : Type 0 where
  pub edge_id : Text
  pub from_thought_id : Text
  pub to_thought_id : Text

pub record Embedding : Type 0 where
  pub rowid : ℕ
  pub owner_type : Text
  pub owner_id : Text

pub record Action : Type 0 where
  pub action_id : Text
  pub source_thought_id : Text

-- The tables, with the rows of the vector index by their `rowid`, and the journal.
pub record Db (F : Floats) (J : Type 0) : Type 0 where
  pub thoughts : Store F
  pub edges : List Edge
  pub embeddings : List Embedding
  pub actions : List Action
  pub vectors : List ℕ
  pub journal : J

pub data Statement : Type 0 where
  archive_thought delete_thought_row delete_edges delete_embeddings delete_actions :
      Text → Statement
  delete_vector : ℕ → Statement

-- The reason that the second stage of hygiene gives the journal.
pub record GcReason : Type 0 where
  pub archived_at_cycle : Option ℕ
  pub gc_min_archive_age_cycles : ℕ
  pub archived_at : Option Instant
  pub gc_restore_window_seconds : ℕ

-- UPDATE_THOUGHT, or DELETE_THOUGHT without and with a reason.
pub data MutationType : Type 0 where
  updates deletes : MutationType
  evicts : GcReason → MutationType

-- What the journal is given of a deletion or of an expiry.
pub record Delta (F : Floats) : Type 0 where
  pub mutation_type : MutationType
  pub target_id : Text
  pub before : Thought F
  pub after : Option (Thought F)

-- What SQLite, the vector backend and the journal do; `journal` and `vector_backend` are there or not.
pub record Engine (F : Floats) (J E : Type 0) : Type 0 where
  pub foreign_keys : Bool
  pub ignores : Text → Bool
  pub ignores_update : Text → Bool
  pub fails : Statement → Db F J → Option E
  pub vector_backend : Bool
  pub append : Option (Delta F → J → Result E J)

-- What DELETE FROM ... WHERE leaves.
abbrev pub without {ℓ} : {A : Type ℓ} → (A → Bool) → List A → List A
without p xs = filter (λ x. not (p x)) xs

abbrev pub touches : Text → Edge → Bool
touches x e = text_eq e.from_thought_id x || text_eq e.to_thought_id x

abbrev pub owned : Text → Embedding → Bool
owned x e = text_eq e.owner_id x

abbrev pub sourced : Text → Action → Bool
sourced x a = text_eq a.source_thought_id x

-- What a statement did: `rowcount`, and by how much `total_changes` rose.
pub record Counts : Type 0 where
  pub rowcount : ℕ
  pub changes : ℕ

abbrev pub counts : ℕ → Counts
counts n = record { rowcount = n; changes = n }

pub record DeleteAtomicResult : Type 0 where
  pub deleted : Bool
  pub wrote_anything : Bool

-- The rowid of the thought's embedding, the first there is.
unfoldable pub first_rowid : Text → List Embedding → Option ℕ
first_rowid x [] = none
first_rowid x (e ∷ es) =
    if text_eq e.owner_type (text "THOUGHT")
    then (if text_eq e.owner_id x then some e.rowid else first_rowid x es)
    else first_rowid x es

module _ {F : Floats} where
  abbrev pub identified : Text → Thought F → Bool
  identified x t = text_eq t.thought_id x

  -- The SET clause of an expiry under the ARCHIVE strategy.
  abbrev pub expire_row : Thought F → Thought F
  expire_row t = record t {
    lifecycle_status = archived;
    expires_at = none;
    archived_at_cycle = none;
    archived_at = none;
    revision = suc t.revision;
  }

module _ {F : Floats} {J : Type 0} where
  -- The rows that hang on a thought, gone.
  abbrev pub swept : Text → Db F J → Db F J
  swept x db = record db {
    edges = without (touches x) db.edges;
    embeddings = without (owned x) db.embeddings;
    actions = without (sourced x) db.actions;
  }

  abbrev pub hanging : Text → Db F J → ℕ
  hanging x db =
      length (filter (touches x) db.edges)
      + length (filter (owned x) db.embeddings)
      + length (filter (sourced x) db.actions)

  abbrev pub dropped : Text → Db F J → Db F J
  dropped x db = record db { thoughts = without (identified x) db.thoughts }

  -- `DELETE FROM thought`, with ON DELETE CASCADE where foreign keys are enforced and a row went.
  abbrev pub delete_cascading : Bool → Text → Db F J → Db F J × Counts
  delete_cascading false x db = (dropped x db, counts (length (filter (identified x) db.thoughts)))
  delete_cascading true x db =
      let gone = length (filter (identified x) db.thoughts) in
      if gone == 0
      then (dropped x db, counts gone)
      else (dropped x (swept x db), record { rowcount = gone; changes = gone + hanging x db })

  -- The commit, or the rollback of a transaction that the call opened on `db` and wrote nothing in.
  abbrev pub settled : Bool → Bool → Db F J → Db F J → Db F J
  settled opened wrote db later = if wrote then later else if opened then db else later

module _ {F : Floats} {J E : Type 0} (engine : Engine F J E) where
  -- What each statement does where it does not raise.
  abbrev pub effect : Statement → Db F J → Db F J × Counts
  effect (archive_thought x) db =
      let written = update_where F (identified x) expire_row db.thoughts in
      if engine.ignores_update x
      then (db, counts 0)
      else (record db { thoughts = written.1 }, counts written.0)
  effect (delete_thought_row x) db =
      if engine.ignores x then (db, counts 0) else delete_cascading engine.foreign_keys x db
  effect (delete_edges x) db = (
    record db { edges = without (touches x) db.edges },
    counts (length (filter (touches x) db.edges)),
  )
  effect (delete_embeddings x) db = (
    record db { embeddings = without (owned x) db.embeddings },
    counts (length (filter (owned x) db.embeddings)),
  )
  effect (delete_actions x) db = (
    record db { actions = without (sourced x) db.actions },
    counts (length (filter (sourced x) db.actions)),
  )
  effect (delete_vector n) db = (
    record db { vectors = without (◌==◌ n) db.vectors },
    counts (length (filter (◌==◌ n) db.vectors)),
  )
