-- ===== src/Deletion/Tests.antt =====
-- Deletions, an expiry and a run of the second stage of hygiene
-- (src/engrava/infrastructure/sqlite/engrava_core.py) on a small store.
use engrava.Prelude.{
  ℕ, ◌≡◌, ◌≢◌, refl, Bool, true, false, Option, none, some, List, [], ◌∷◌, length,
}
use engrava.Prelude.Order.{text_order}
use engrava.Prelude.Sort.{HasDistinctKeys, sort, insert}
use engrava.Prelude.Result.{ok}
use Prim.Native.String.{String}
use engrava.Prelude.Text.{Text, text, text_eq, text_eq_iff}
use engrava.Floats.{thousandths}
use engrava.Thought.Defs.{
  Thought, Instant, note, p1, p3, active, archived, LifecycleStatus, model_validate,
}
use engrava.Hygiene.Select.{HygienePolicy}
use engrava.Hygiene.Archive.{get_thought_row, update_where}
use engrava.Hygiene.Gc.{hygiene_gc_eligible}
use engrava.Deletion.Tables.{Edge, Db, Delta, Engine, first_rowid}
use engrava.Deletion.Defs.{delete_thought}
use engrava.Deletion.Integrity.{IsIntact}
use engrava.Deletion.Delete.{Deletes, delete_thought-Deletes, delete_thought-IsIntact}
use engrava.Deletion.Expire.{archive, delete, cleanup_expired}
use engrava.Deletion.Effects.{is_stored}
use engrava.Deletion.Gc.{GcOutcome, hygiene_gc}
use engrava.Deletion.Reaped.{Reaped, hygiene_gc-Reaped}
use engrava.Expiry.Defs.{expired_rows, split_expired_by_pinned}
use engrava.Thought.Lifecycle.{evolve}
use engrava.Deletion.Cleanup.{Cleaned, cleanup_expired-Cleaned}

abbrev row : String → Bool → Option Instant → LifecycleStatus → Option ℕ → Thought thousandths
row name pinned until status at_cycle = record {
  thought_id = text name;
  thought_type = note;
  essence = text name;
  content = text name;
  priority = p3;
  lifecycle_status = status;
  created_cycle = 1;
  updated_cycle = 1;
  source = text "t";
  confidence = none;
  confirmation_count = 0;
  access_count = 0;
  action_outcome_score = none;
  last_accessed_at = none;
  created_at = none;
  updated_at = none;
  expires_at = until;
  valid_from = none;
  valid_until = none;
  pinned = pinned;
  archived_at_cycle = at_cycle;
  archived_at = none;
  revision = 1;
}

abbrev edge : String → String → String → Edge
edge name from to = record {
  edge_id = text name;
  from_thought_id = text from;
  to_thought_id = text to;
}

abbrev stored : Db thousandths (List (Delta thousandths))
stored = record {
  thoughts =
      row "a" false (some 5) active none
      ∷ row "b" true (some 5) active none
      ∷ row "c" false none archived (some 1)
      ∷ [];
  edges = edge "e" "a" "b" ∷ edge "f" "c" "b" ∷ [];
  embeddings = record { rowid = 7; owner_type = text "THOUGHT"; owner_id = text "a" } ∷ [];
  actions = record { action_id = text "x"; source_thought_id = text "b" } ∷ [];
  vectors = 7 ∷ [];
  journal = [];
}

-- No trigger and no failure, foreign keys enforced, and a journal that keeps what it is given.
abbrev engine : Engine thousandths (List (Delta thousandths)) ℕ
engine = record {
  foreign_keys = true;
  ignores = λ x. false;
  ignores_update = λ x. false;
  fails = λ s db. none;
  vector_backend = true;
  append = some (λ delta journal. ok (delta ∷ journal));
}

stored-IsIntact : IsIntact stored
unfolding text_eq
stored-IsIntact = record {
  edge_ends = ((refl, refl), ((refl, refl), tt));
  owners = (refl, tt);
  sources = (refl, tt);
}

apart : (x y : Text) → text_eq x y ≡ false → x ≢ y
apart x y h e = absurd (cc (h, (text_eq_iff x y).1 e))

stored_distinct : HasDistinctKeys text_order (λ t. t.thought_id) stored.thoughts
unfolding text_eq
stored_distinct = (
  (apart (text "a") (text "b") refl, (apart (text "a") (text "c") refl, tt)),
  ((apart (text "b") (text "c") refl, tt), (tt, tt)),
)

delete_thought-Deletes_example :
    Deletes engine (text "a") stored (delete_thought engine true (text "a") stored)
delete_thought-Deletes_example = delete_thought-Deletes engine true (text "a") stored

delete_thought-IsIntact_example :
    IsIntact (delete_thought engine true (text "a") stored).0
    × ((delete_thought engine true (text "a") stored).1 ≡ ok true
        → is_stored (text "a") (delete_thought engine true (text "a") stored).0 ≡ false)
delete_thought-IsIntact_example =
    delete_thought-IsIntact engine true (text "a") stored stored-IsIntact

cleanup_expired-Cleaned_example :
    Cleaned engine 9
      (λ e. 0)
      delete
      none
      6
      stored
      (cleanup_expired engine 9 (λ e. 0) delete true none 6 stored)
cleanup_expired-Cleaned_example =
    cleanup_expired-Cleaned engine 9 (λ e. 0) delete true none 6 stored stored_distinct
      stored-IsIntact

-- One edge, no vector and one entry are left of the deletion of "a".
a_deleted :
    (length (delete_thought engine true (text "a") stored).0.edges ≡ 1)
    × ((delete_thought engine true (text "a") stored).0.vectors ≡ [])
    × (length (delete_thought engine true (text "a") stored).0.journal ≡ 1)
    × ((delete_thought engine true (text "a") stored).1 ≡ ok true)
unfolding delete_thought text_eq first_rowid get_thought_row
a_deleted = (refl, refl, refl, refl)

abbrev policy : HygienePolicy thousandths
policy = record {
  enabled = true;
  eviction_threshold = 300;
  protected_priorities = p1 ∷ [];
  signal_weights = [];
  check_every_n_cycles = 1;
  max_evictions_per_run = 2;
  auto_gc_enabled = true;
  gc_min_archive_age_cycles = 2;
  dry_run = false;
  min_inactivity_age_seconds = 1;
  gc_restore_window_seconds = 0;
}

abbrev none_yet : GcOutcome
none_yet = record { gc_count = 0; wrote_anything = false }

hygiene_gc-Reaped_example : Reaped engine policy 5 9 stored.thoughts stored (
    hygiene_gc engine policy
      (hygiene_gc_eligible thousandths policy 5 9 stored.thoughts)
      none_yet
      stored)
hygiene_gc-Reaped_example =
    hygiene_gc-Reaped engine policy 5 9 stored.thoughts stored stored_distinct stored-IsIntact

-- The row "c" is reaped.
c_reaped :
    (hygiene_gc engine policy
      (hygiene_gc_eligible thousandths policy 5 9 stored.thoughts)
      none_yet
      stored).1
    ≡ ok (record { gc_count = 1; wrote_anything = true })
unfolding hygiene_gc hygiene_gc_eligible text_eq first_rowid get_thought_row sort insert
c_reaped = refl

-- A row that a trigger kept from being archived is counted, and in the journal.
kept_but_counted :
    (cleanup_expired
      (record engine { ignores_update = λ x. true })
      9
      (λ e. 0)
      archive
      false
      none
      6
      stored).1
    ≡ ok (record {
      expired_count = 1;
      strategy_applied = archive;
      timestamp = 6;
      pinned_kept_count = 1;
    })
unfolding cleanup_expired text_eq get_thought_row split_expired_by_pinned expired_rows update_where
    evolve model_validate
kept_but_counted = refl

-- One row is archived, and the pinned one is kept.
one_expired :
    (cleanup_expired engine 9 (λ e. 0) archive false none 6 stored).1
    ≡ ok (record {
      expired_count = 1;
      strategy_applied = archive;
      timestamp = 6;
      pinned_kept_count = 1;
    })
unfolding cleanup_expired text_eq get_thought_row split_expired_by_pinned expired_rows update_where
    evolve model_validate
one_expired = refl
