-- ===== src/Journal/Table.antt =====
-- The table `journal_entry` with its UNIQUE constraints (schema_core.sql), and the read of its tail
-- (src/engrava/infrastructure/sqlite/journal_writer.py).
use engrava.Prelude.{ℕ, Option, none, some, List, [], ◌∷◌, ltb, ◌==◌, if◌then◌else◌, any}
use engrava.Prelude.Text.{Text, text_eq}

pub record Row : Type 0 where
  pub entry_id : Text
  pub sequence_number : ℕ
  pub mutation_type : Text
  pub target_id : Option Text
  pub delta : Text
  pub parent_hash : Option Text
  pub entry_hash : Text
  pub created_at : Text

-- The rows in the order of the unique index on `sequence_number`.
abbrev pub Table : Type 0
Table = List Row

pub data InsertOutcome : Type 0 where
  inserted : Table → InsertOutcome
  sequence_taken entry_id_taken : InsertOutcome

abbrev prepend : Row → InsertOutcome → InsertOutcome
prepend s (inserted t) = inserted (s ∷ t)
prepend s sequence_taken = sequence_taken
prepend s entry_id_taken = entry_id_taken

-- Where the row goes in the index, if its number is free.
unfoldable pub place : Row → Table → InsertOutcome
place r [] = inserted (r ∷ [])
place r (s ∷ t) =
    if r.sequence_number == s.sequence_number
    then sequence_taken
    else if ltb r.sequence_number s.sequence_number
    then inserted (r ∷ s ∷ t)
    else prepend s (place r t)

-- INSERT INTO journal_entry, with its PRIMARY KEY and its UNIQUE column.
unfoldable pub insert_row : Row → Table → InsertOutcome
unfolding place
insert_row r t = if any (λ s. text_eq s.entry_id r.entry_id) t then entry_id_taken else place r t

-- `_get_latest_entry_state`.
unfoldable pub latest_entry_state : Table → ℕ × Option Text
latest_entry_state [] = (0, none)
latest_entry_state (r ∷ []) = (r.sequence_number, some r.entry_hash)
latest_entry_state (r ∷ s ∷ t) = latest_entry_state (s ∷ t)
