-- ===== src/Journal/Defs.antt =====
-- The rows of `journal_entry`, `JournalWriter.compute_hash`, `append`, `verify_integrity` and
-- `get_entries` (src/engrava/infrastructure/sqlite/journal_writer.py), with the table's UNIQUE
-- constraints (schema_core.sql).
use engrava.Prelude.{
  ℕ, zero, suc, ◌+◌, Bool, true, false, ◌&&◌, Option, none, some, List, [], ◌∷◌, ◌++◌,
  if◌then◌else◌, take, filter,
}
use engrava.Prelude.Order.{◌≤?◌, text_order}
use engrava.Prelude.Text.{Text, text_eq}
use engrava.Prelude.Decimal.{decimal}
use engrava.Journal.Table.{
  Row, Table, inserted, sequence_taken, entry_id_taken, insert_row, latest_entry_state,
}
use engrava.Prelude.Result.{Result, ok, raised}

-- `json.dumps(delta, sort_keys=True)`, `json.loads` and the digest of `hashlib.sha256`.
pub record Codec : Type 1 where
  pub Delta : Type 0
  pub dumps : Delta → Text
  pub loads : Text → Delta
  pub sha256 : Text → Text

abbrev pub bar : ℕ
bar = 124

abbrev pub option_text_eq : Option Text → Option Text → Bool
option_text_eq none none = true
option_text_eq none (some b) = false
option_text_eq (some a) none = false
option_text_eq (some a) (some b) = text_eq a b

-- `x or ''`.
abbrev pub or_empty : Option Text → Text
or_empty none = []
or_empty (some t) = t

pub data JournalError : Type 0 where
  connection_quarantined integrity_error sequence_contention : JournalError

-- The revocation token, if the writer has one.
abbrev pub check_revoked : Option Bool → Bool
check_revoked none = false
check_revoked (some revoked) = revoked

pub data Problem : Type 0 where
  parent_hash_mismatch : (seq : ℕ) → (expected got : Option Text) → Problem
  hash_mismatch : (seq : ℕ) → (stored computed : Text) → Problem

pub record IntegrityResult : Type 0 where
  pub valid : Bool
  pub entries_checked : ℕ
  pub first_invalid_sequence : Option ℕ
  pub error_message : Option Problem

-- The text that is hashed.
unfoldable pub canonical : ℕ → Text → Option Text → Text → Option Text → Text
canonical seq mutation_type target_id delta parent_hash =
    decimal seq
    ++ bar
      ∷ (mutation_type ++ bar ∷ (or_empty target_id ++ bar ∷ (delta ++ bar ∷ or_empty parent_hash)))

-- What other connections do to the table between the read and the insert of an attempt, and the
-- values that `uuid4` and the clock give in it. Attempts are numbered by those that remain.
pub record Surroundings : Type 0 where
  pub race : ℕ → Table → Table
  pub uuid4 : ℕ → Text
  pub now : ℕ → Text

abbrev pub passes : Option Text → Option Text → Bool
passes none _ = true
passes (some wanted) found = option_text_eq found (some wanted)

abbrev pub since_passes : Option Text → Text → Bool
since_passes none _ = true
since_passes (some bound) created_at = bound ≤? created_at

-- The WHERE clause: a filter that is not given lets every row through.
abbrev pub matches : Option Text → Option Text → Option Text → Row → Bool
matches target_id mutation_type since r =
    passes target_id r.target_id
    && passes mutation_type (some r.mutation_type)
    && since_passes since r.created_at

module _ (c : Codec) where
  pub record JournalEntry : Type 0 where
    pub entry_id : Text
    pub sequence_number : ℕ
    pub mutation_type : Text
    pub target_id : Option Text
    pub delta : c.Delta
    pub parent_hash : Option Text
    pub entry_hash : Text
    pub created_at : Text

  unfoldable pub compute_hash : ℕ → Text → Option Text → c.Delta → Option Text → Text
  compute_hash seq mutation_type target_id delta parent_hash =
      c.sha256 (canonical seq mutation_type target_id (c.dumps delta) parent_hash)

  -- The row of one attempt, linked to the tail that it read.
  unfoldable pub next_row : Text → Option Text → c.Delta → Text → Text → Table → Row
  unfolding compute_hash latest_entry_state
  next_row mutation_type target_id delta entry_id now t =
      let (last_sequence, parent_hash) = latest_entry_state t in
      record {
        entry_id = entry_id;
        sequence_number = last_sequence + 1;
        mutation_type = mutation_type;
        target_id = target_id;
        delta = c.dumps delta;
        parent_hash = parent_hash;
        entry_hash = compute_hash (last_sequence + 1) mutation_type target_id delta parent_hash;
        created_at = now;
      }

  abbrev pub entry_of : Row → c.Delta → JournalEntry
  entry_of r delta = record {
    entry_id = r.entry_id;
    sequence_number = r.sequence_number;
    mutation_type = r.mutation_type;
    target_id = r.target_id;
    delta = delta;
    parent_hash = r.parent_hash;
    entry_hash = r.entry_hash;
    created_at = r.created_at;
  }

  -- The loop `for _attempt in range(5)`, by the attempts that remain.
  unfoldable pub append_attempts :
      Surroundings
      → Text
      → Option Text
      → c.Delta
      → ℕ
      → Table
      → Result JournalError JournalEntry × Table
  append_attempts e mutation_type target_id delta zero t = (raised sequence_contention, t)
  append_attempts e mutation_type target_id delta (suc n) t =
      let row = next_row mutation_type target_id delta (e.uuid4 n) (e.now n) t in
      let seen = e.race n t in
      elim (insert_row row seen) [
        | inserted t' ↦ (ok (entry_of row delta), t')
        | sequence_taken ↦ append_attempts e mutation_type target_id delta n seen
        | entry_id_taken ↦ (raised integrity_error, seen)
      ]

  unfoldable pub append :
      Option Bool
      → Surroundings
      → Text
      → Option Text
      → c.Delta
      → Table
      → Result JournalError JournalEntry × Table
  append revocation e mutation_type target_id delta t =
      if check_revoked revocation
      then (raised connection_quarantined, t)
      else append_attempts e mutation_type target_id delta 5 t

  -- The loop of `verify_integrity`, from the hash of the row before.
  unfoldable pub verify_from : Option Text → ℕ → Table → IntegrityResult
  unfolding compute_hash
  verify_from prev checked [] = record {
    valid = true;
    entries_checked = checked;
    first_invalid_sequence = none;
    error_message = none;
  }
  verify_from prev checked (r ∷ t) =
      let expected =
        compute_hash r.sequence_number r.mutation_type r.target_id (c.loads r.delta)
          r.parent_hash in
      let rest = verify_from (some r.entry_hash) (suc checked) t in
      if option_text_eq r.parent_hash prev
      then (if text_eq r.entry_hash expected then rest else record {
        valid = false;
        entries_checked = suc checked;
        first_invalid_sequence = some r.sequence_number;
        error_message = some (hash_mismatch r.sequence_number r.entry_hash expected);
      })
      else record {
        valid = false;
        entries_checked = suc checked;
        first_invalid_sequence = some r.sequence_number;
        error_message = some (parent_hash_mismatch r.sequence_number prev r.parent_hash);
      }

  unfoldable pub verify_integrity : Option Bool → Table → Result JournalError IntegrityResult
  unfolding verify_from
  verify_integrity revocation t =
      if check_revoked revocation then raised connection_quarantined else ok (verify_from none 0 t)

  unfoldable pub entries : Table → List JournalEntry
  entries [] = []
  entries (r ∷ rest) = entry_of r (c.loads r.delta) ∷ entries rest

  -- `since` is the canonical form that `canonical_timestamp` gives.
  unfoldable pub get_entries :
      Option Bool
      → Option Text
      → Option Text
      → Option Text
      → ℕ
      → Table
      → Result JournalError (List JournalEntry)
  unfolding entries
  get_entries revocation target_id mutation_type since limit t =
      if check_revoked revocation
      then raised connection_quarantined
      else ok (entries (take limit (filter (matches target_id mutation_type since) t)))
