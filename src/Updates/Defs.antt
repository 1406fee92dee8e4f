-- ===== src/Updates/Defs.antt =====
-- `update_thought` and `restore_thought` (src/engrava/infrastructure/sqlite/engrava_core.py), from the
-- read of the row to the write and its readback. Other connections may write between the two: the
-- table that the write meets is an argument. The record of a row is its columns. A database that
-- stays busy, and the journal row and the embedding that follow the write, are left out.
use engrava.Prelude.{
  ℕ, suc, Bool, true, false, ◌==◌, ◌≡◌, Option, none, some, List, [], ◌∷◌, if◌then◌else◌,
}
use engrava.Prelude.Result.{Result, ok, raised}
use engrava.Prelude.Text.{Text, text, text_eq}

-- A row of the table `thought`: its key, its revision, and its other columns by their names.
pub record Row (V : Type 0) : Type 0 where
  pub thought_id : Text
  pub revision : ℕ
  pub columns : Text → V

pub data UpdateError : Type 0 where
  thought_not_found stale_data : UpdateError
  refused : (reason : Text) → UpdateError

abbrev pub Table : Type 0 → Type 0
Table V = List (Row V)

-- `_get_thought_row`: `thought_id` is the primary key.
unfoldable pub get_row : {V : Type 0} → Text → Table V → Option (Row V)
get_row x [] = none
get_row x (r ∷ t) = elim (text_eq r.thought_id x) [ true ↦ some r | false ↦ get_row x t ]

-- What the SET clause makes of a row, with `revision = revision + 1`.
abbrev pub bumped : {V : Type 0} → ((Text → V) → Text → V) → Row V → Row V
bumped set r = record {
  thought_id = r.thought_id;
  revision = suc r.revision;
  columns = set r.columns;
}

-- `UPDATE thought SET … WHERE thought_id = ? AND revision = ?`: none if no row matches.
unfoldable pub guarded_update :
    {V : Type 0} → Text → ℕ → ((Text → V) → Text → V) → Table V → Option (Table V)
guarded_update x expected set [] = none
guarded_update x expected set (r ∷ t) = elim (text_eq r.thought_id x) [
  | true ↦ elim (r.revision == expected) [ true ↦ some (bumped set r ∷ t) | false ↦ none ]
  | false ↦ elim (guarded_update x expected set t) [ none ↦ none | some t' ↦ some (r ∷ t') ]
]

-- `UPDATE thought SET … WHERE thought_id = ?`, which leaves the revision as it is: the accesses of
-- `record_access` and `flush_access_buffer`, the confirmations of `increment_confirmation`, and the
-- scores of actions.
abbrev pub touched : {V : Type 0} → ((Text → V) → Text → V) → Row V → Row V
touched set r = record r { columns = set r.columns }

unfoldable pub touch_row : {V : Type 0} → Text → ((Text → V) → Text → V) → Table V → Table V
touch_row x set [] = []
touch_row x set (r ∷ t) = elim (text_eq r.thought_id x) [
  | true ↦ touched set r ∷ t
  | false ↦ r ∷ touch_row x set t
]

module _ {V : Type 0} (same : V → V → Bool) where
  -- `_thought_update_columns`: the columns that differ, and always `updated_at`.
  unfoldable pub thought_update_columns : (before after : Text → V) → Text → Option V
  thought_update_columns before after name =
      if text_eq name (text "updated_at")
      then some (after name)
      else if same (before name) (after name)
      then none
      else some (after name)

  abbrev assigned : Option V → V → V
  assigned (some v) old = v
  assigned none old = old

  -- The assignments of an UPDATE, on the columns of a row.
  abbrev pub set_columns : (Text → Option V) → (Text → V) → Text → V
  set_columns assignments columns name = assigned (assignments name) (columns name)

  abbrev pub Answer : Type 0
  Answer = Table V × Result UpdateError (Text → V)

  abbrev pub read_back : Table V → Option (Row V) → Answer
  read_back t none = (t, raised thought_not_found)
  read_back t (some r) = (t, ok r.columns)

  abbrev pub written : Text → Table V → Option (Table V) → Answer
  written x later none = (later, raised stale_data)
  written x later (some t) = read_back t (get_row x t)

  -- The write of the row that was read, on the table as the other connections have left it.
  abbrev pub write_updated : Text → Table V → Row V → Result UpdateError (Text → V) → Answer
  write_updated x later r (raised e) = (later, raised e)
  write_updated x later r (ok updated) =
      written x later
        (guarded_update x r.revision (set_columns (thought_update_columns r.columns updated)) later)

  abbrev pub update_row :
      Text → ((Text → V) → Result UpdateError (Text → V)) → Table V → Option (Row V) → Answer
  update_row x evolve later none = (later, raised thought_not_found)
  update_row x evolve later (some r) = write_updated x later r (evolve r.columns)

  -- `update_thought`; `evolve` stands for `ThoughtRecord.evolve` with the caller's changes and the
  -- checks of the metadata and the provenance.
  unfoldable pub update_thought :
      Text → ((Text → V) → Result UpdateError (Text → V)) → (now later : Table V) → Answer
  update_thought x evolve now later = update_row x evolve later (get_row x now)

  -- `restore_thought`: only an archived thought is restored.
  unfoldable pub restore_thought :
      (is_archived : V → Bool)
      → Text
      → ((Text → V) → Result UpdateError (Text → V))
      → (now later : Table V) → Answer
  restore_thought is_archived x evolve now later =
      update_thought x
        (λ columns.
          if is_archived (columns (text "lifecycle_status"))
          then evolve columns
          else raised (refused (text "lifecycle_status")))
        now later

-- What other connections do to the table: their own guarded writes, writes that leave the revision
-- as it is, deletions, and new rows, whose key is not this one.
abbrev pub or_same : {V : Type 0} → Table V → Option (Table V) → Table V
or_same t none = t
or_same t (some t') = t'

unfoldable pub delete_row : {V : Type 0} → Text → Table V → Table V
delete_row x [] = []
delete_row x (r ∷ t) = elim (text_eq r.thought_id x) [
  | true ↦ delete_row x t
  | false ↦ r ∷ delete_row x t
]

pub data Others {V : Type 0} (x : Text) : Table V → Table V → Type 0 where
  rest : (t : Table V) → Others x t t
  writes :
      (y : Text) (expected : ℕ) (set : (Text → V) → Text → V) (t later : Table V)
      → Others x (or_same t (guarded_update y expected set t)) later
      → Others x t later
  touches :
      (y : Text) (set : (Text → V) → Text → V) (t later : Table V)
      → Others x (touch_row y set t) later
      → Others x t later
  deletes : (y : Text) (t later : Table V) → Others x (delete_row y t) later → Others x t later
  inserts :
      (r : Row V) (t later : Table V)
      → text_eq r.thought_id x ≡ false
      → Others x (r ∷ t) later
      → Others x t later
