-- ===== src/Deletion/Gc.antt =====
-- The deletions of the second stage of hygiene, `_hygiene_gc` after the rows are chosen
-- (src/engrava/infrastructure/sqlite/engrava_core.py).
use engrava.Prelude.{ℕ, suc, Bool, ◌||◌, Option, none, some, List, [], ◌∷◌, if◌then◌else◌}
use engrava.Prelude.Order.{text_order}
use engrava.Prelude.Result.{ok}
use engrava.Floats.{Floats}
use engrava.Thought.Defs.{Thought}
use engrava.Hygiene.Select.{HygienePolicy}
use engrava.Hygiene.Archive.{get_thought_row}
use engrava.Deletion.Tables.{Db, evicts, Engine, GcReason, DeleteAtomicResult}
use engrava.Deletion.Defs.{Call, after, delete_one}

-- What the loop answers: `gc_count`, and whether it wrote anything.
pub record GcOutcome : Type 0 where
  pub gc_count : ℕ
  pub wrote_anything : Bool

module _ {F : Floats} {J E : Type 0} (engine : Engine F J E) (policy : HygienePolicy F) where
  abbrev pub gc_reason : Thought F → GcReason
  gc_reason t = record {
    archived_at_cycle = t.archived_at_cycle;
    gc_min_archive_age_cycles = policy.gc_min_archive_age_cycles;
    archived_at = t.archived_at;
    gc_restore_window_seconds = policy.gc_restore_window_seconds;
  }

  abbrev pub counted : GcOutcome → DeleteAtomicResult → GcOutcome
  counted o r = record {
    gc_count = if r.deleted then suc o.gc_count else o.gc_count;
    wrote_anything = r.wrote_anything || o.wrote_anything;
  }

  -- One pass, by the fresh row: a row that is gone is skipped.
  abbrev pub gc_found : Thought F → Option (Thought F) → GcOutcome → Db F J → Call engine GcOutcome
  gc_found t none o db = (db, ok o)
  gc_found t (some before) o db =
      after engine (delete_one engine (evicts (gc_reason t)) t.thought_id db)
        (λ later r. (later, ok (counted o r)))

  -- The loop over the eligible rows, from the outcome so far.
  unfoldable pub hygiene_gc : List (Thought F) → GcOutcome → Db F J → Call engine GcOutcome
  unfolding delete_one get_thought_row
  hygiene_gc [] o db = (db, ok o)
  hygiene_gc (t ∷ ts) o db =
      after engine (gc_found t (get_thought_row F t.thought_id db.thoughts) o db)
        (λ later o'. hygiene_gc ts o' later)
