-- ===== src/Thought/Defs.antt =====
-- `ThoughtRecord` (src/engrava/domain/models/thought.py), with the `revision` column of its row, the
-- enumerations it uses (src/engrava/domain/enums.py), and the validators that relate two fields.
-- Timestamps are canonical UTC texts, whose text order is that of the instants they name
-- (src/engrava/domain/models/_temporal.py): an instant is a number of microseconds.
use engrava.Prelude.{ℕ, Bool, true, false, ◌||◌, Option, none, some, ltb, leb, ◌==◌, if◌then◌else◌}
use engrava.Prelude.Text.{Text}
use engrava.Prelude.Result.{Result, ok, raised}
use engrava.Floats.{Floats}

pub data ThoughtType : Type 0 where
  task observation belief reflection output_draft note : ThoughtType

pub data Priority : Type 0 where
  p1 p2 p3 p4 : Priority

pub data LifecycleStatus : Type 0 where
  created active done archived : LifecycleStatus

abbrev pub Instant : Type 0
Instant = ℕ

-- The position in `list(Priority)`.
abbrev pub priority_index : Priority → ℕ
priority_index p1 = 0
priority_index p2 = 1
priority_index p3 = 2
priority_index p4 = 3

abbrev pub priority_eq : Priority → Priority → Bool
priority_eq p q = priority_index p == priority_index q

-- `Priority.__lt__`, `__le__`, `__gt__`, `__ge__`.
unfoldable pub priority_lt : Priority → Priority → Bool
priority_lt p q = ltb (priority_index p) (priority_index q)

unfoldable pub priority_le : Priority → Priority → Bool
unfolding priority_lt
priority_le p q = priority_eq p q || priority_lt p q

unfoldable pub priority_gt : Priority → Priority → Bool
unfolding priority_le
priority_gt p q = if priority_le p q then false else true

unfoldable pub priority_ge : Priority → Priority → Bool
unfolding priority_lt
priority_ge p q = if priority_lt p q then false else true

pub record Thought (F : Floats) : Type 0 where
  pub thought_id : Text
  pub thought_type : ThoughtType
  pub essence : Text
  pub content : Text
  pub priority : Priority
  pub lifecycle_status : LifecycleStatus
  pub created_cycle : ℕ
  pub updated_cycle : ℕ
  pub source : Text
  pub confidence : Option F.Num
  pub confirmation_count : ℕ
  pub access_count : ℕ
  pub action_outcome_score : Option F.Num
  pub last_accessed_at : Option Instant
  pub created_at : Option Instant
  pub updated_at : Option Instant
  pub expires_at : Option Instant
  pub valid_from : Option Instant
  pub valid_until : Option Instant
  pub pinned : Bool
  pub archived_at_cycle : Option ℕ
  pub archived_at : Option Instant
  pub revision : ℕ

pub data ThoughtError : Type 0 where
  cycle_ordering inverted_interval created_at_immutable : ThoughtError
  invalid_transition : LifecycleStatus → LifecycleStatus → ThoughtError

-- `validate_interval_ordering`: an open bound is always accepted.
unfoldable pub interval_ordered : Option Instant → Option Instant → Bool
interval_ordered none until = true
interval_ordered (some from) none = true
interval_ordered (some from) (some until) = leb from until

-- The two validators that run after the fields are set.
unfoldable pub model_validate : (F : Floats) → Thought F → Result ThoughtError (Thought F)
unfolding interval_ordered
model_validate F t =
    if ltb t.updated_cycle t.created_cycle
    then raised cycle_ordering
    else if interval_ordered t.valid_from t.valid_until
    then ok t
    else raised inverted_interval
