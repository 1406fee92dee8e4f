-- ===== src/Hygiene/Archive.antt =====
-- `_hygiene_archive` (src/engrava/infrastructure/sqlite/engrava_core.py): Stage 1, with its check on
-- a fresh row, its guarded UPDATE, and what another writer may do between the two.
use engrava.Prelude.{
  ℕ, suc, ◌+◌, ◌==◌, Bool, true, false, ◌&&◌, not, Option, none, some, List, [], ◌∷◌, any,
  if◌then◌else◌,
}
use engrava.Prelude.Text.{Text, text_eq}
use engrava.Prelude.Result.{Result, ok, raised, ◌>>=◌}
use engrava.Floats.{Floats}
use engrava.Thought.Defs.{
  Thought, LifecycleStatus, created, active, done, archived, priority_eq, Instant, ThoughtError,
}
use engrava.Thought.Lifecycle.{Changes, text_value, evolve}
use engrava.Hygiene.Select.{
  HygienePolicy, EvictionReason, old_enough, last_contact, hygiene_protected,
  hygiene_inactive_enough,
}

-- ACTIVE or CREATED.
abbrev pub is_candidate_status : LifecycleStatus → Bool
is_candidate_status created = true
is_candidate_status active = true
is_candidate_status done = false
is_candidate_status archived = false

module _ (F : Floats) where
  -- The rows of the table `thought`.
  abbrev pub Store : Type 0
  Store = List (Thought F)

  -- `_get_thought_row`.
  unfoldable pub get_thought_row : Text → Store → Option (Thought F)
  get_thought_row x [] = none
  get_thought_row x (t ∷ s) = if text_eq t.thought_id x then some t else get_thought_row x s

  -- The check in Python on the row that was just read: whether it is skipped.
  unfoldable pub is_skipped : HygienePolicy F → Instant → Thought F → Bool
  unfolding hygiene_protected hygiene_inactive_enough
  is_skipped policy now t =
      if hygiene_protected F t policy
      then true
      else if hygiene_inactive_enough F t policy now
      then not (is_candidate_status t.lifecycle_status)
      else true

  -- The WHERE clause of the UPDATE, but for the identity.
  unfoldable pub write_guard : HygienePolicy F → Instant → Thought F → Bool
  write_guard policy now t =
      is_candidate_status t.lifecycle_status
      && not t.pinned
      && not (any (priority_eq t.priority) policy.protected_priorities)
      && (if policy.min_inactivity_age_seconds == 0
          then true
          else old_enough F (last_contact F t) policy.min_inactivity_age_seconds now)

  -- The SET clause.
  unfoldable pub archive_row : ℕ → Instant → Thought F → Thought F
  archive_row current_cycle now t = record t {
    lifecycle_status = archived;
    expires_at = none;
    archived_at_cycle = some current_cycle;
    archived_at = some now;
    revision = suc t.revision;
  }

  -- UPDATE ... WHERE: the number of rows written, and the rows.
  unfoldable pub update_where : (Thought F → Bool) → (Thought F → Thought F) → Store → ℕ × Store
  update_where p f [] = (0, [])
  update_where p f (t ∷ s) =
      let rest = update_where p f s in
      if p t then (suc rest.0, f t ∷ rest.1) else (rest.0, t ∷ rest.1)

  -- The journal's delta of an archival.
  pub record Archival : Type 0 where
    pub target_id : Text
    pub before : Thought F
    pub after : Thought F
    pub eviction_reason : EvictionReason F

  pub data ArchiveError (E : Type 0) : Type 0 where
    evolve_failed : ThoughtError → ArchiveError E
    journal_failed : E → ArchiveError E

  abbrev blame_evolve :
      {E : Type 0} → Result ThoughtError (Thought F) → Result (ArchiveError E) (Thought F)
  blame_evolve (ok t) = ok t
  blame_evolve (raised e) = raised (evolve_failed e)

  abbrev blame_journal : {J E : Type 0} → Result E J → Result (ArchiveError E) J
  blame_journal (ok j) = ok j
  blame_journal (raised e) = raised (journal_failed e)

  -- The keywords of `before.evolve(...)`.
  abbrev pub archive_changes : ℕ → Instant → Changes F
  archive_changes current_cycle now = record {
    new_created_at = none;
    new_status = some (text_value archived);
    new_updated_at = none;
    others = λ t. record t {
      expires_at = none;
      archived_at_cycle = some current_cycle;
      archived_at = some now;
    };
  }

  -- `append` is the journal's, where there is one; `clock` is the time at which `evolve` runs; and
  -- `race` is what other writers do between the check of a row and its UPDATE.
  module _ {J E : Type 0} (append : Option (Archival → J → Result E J)) (clock : Instant)
      (race : Text → Store → Store) (policy : HygienePolicy F) (current_cycle : ℕ)
      (now : Instant) where
    -- The journal entry of one archival.
    abbrev pub record_archival : EvictionReason F → Thought F → J → Result (ArchiveError E) J
    record_archival reason before j = elim append [
      | none ↦ ok j
      | some write ↦
          blame_evolve (evolve F (archive_changes current_cycle now) clock before) >>= λ after.
          blame_journal (
            write
              (record {
                target_id = reason.thought_id;
                before = before;
                after = after;
                eviction_reason = reason;
              })
              j)
    ]

    abbrev pub matched : EvictionReason F → Thought F → Bool
    matched reason t = text_eq t.thought_id reason.thought_id && write_guard policy now t

    -- The UPDATE, and what follows from its row count.
    abbrev pub after_update :
        EvictionReason F → Thought F → J → ℕ × Store → Result (ArchiveError E) (ℕ × Store × J)
    after_update reason before j (rowcount, s) =
        if rowcount == 0
        then ok (0, s, j)
        else record_archival reason before j >>= λ j'. ok (1, s, j')

    abbrev pub archive_found :
        EvictionReason F → Option (Thought F) → Store → J → Result (ArchiveError E) (ℕ × Store × J)
    archive_found reason none s j = ok (0, s, j)
    archive_found reason (some before) s j =
        if is_skipped policy now before
        then ok (0, s, j)
        else after_update reason before j (
            update_where (matched reason) (archive_row current_cycle now)
              (race reason.thought_id s))

    -- One round of the loop.
    unfoldable pub archive_one :
        EvictionReason F → Store → J → Result (ArchiveError E) (ℕ × Store × J)
    unfolding get_thought_row is_skipped update_where write_guard archive_row evolve
    archive_one reason s j = archive_found reason (get_thought_row reason.thought_id s) s j

    -- The loop, from the count so far.
    unfoldable pub hygiene_archive :
        ℕ → List (EvictionReason F) → Store → J → Result (ArchiveError E) (ℕ × Store × J)
    unfolding archive_one
    hygiene_archive count [] s j = ok (count, s, j)
    hygiene_archive count (reason ∷ rest) s j =
        archive_one reason s j >>= λ (n, s', j'). hygiene_archive (count + n) rest s' j'
