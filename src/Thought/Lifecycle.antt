-- ===== src/Thought/Lifecycle.antt =====
-- The state machines of src/engrava/domain/enums.py and `ThoughtRecord.evolve`
-- (src/engrava/domain/models/thought.py).
use engrava.Prelude.{
  ℕ, ◌≤◌, ◌≡◌, ◌⊎◌, inl, inr, refl, sym, subst, Bool, true, false, Option, none, some, List, [],
  ◌∷◌, arith, ◌==◌, if◌then◌else◌, any,
}
use engrava.Prelude.Result.{Result, ok, raised}
use engrava.Floats.{Floats}
use engrava.Thought.Defs.{
  Thought, LifecycleStatus, created, active, done, archived, Instant, ThoughtError,
  created_at_immutable, invalid_transition, interval_ordered, model_validate,
}

pub data ActionStatus : Type 0 where
  planned executing confirmed failed blocked : ActionStatus

unfoldable pub allowed_transitions : LifecycleStatus → List LifecycleStatus
allowed_transitions created = active ∷ []
allowed_transitions active = done ∷ archived ∷ []
allowed_transitions done = archived ∷ []
allowed_transitions archived = active ∷ []

abbrev pub status_index : LifecycleStatus → ℕ
status_index created = 0
status_index active = 1
status_index done = 2
status_index archived = 3

unfoldable pub can_transition_to : LifecycleStatus → LifecycleStatus → Bool
unfolding allowed_transitions
can_transition_to s target =
    any (λ r. status_index r == status_index target) (allowed_transitions s)

unfoldable pub action_transitions : ActionStatus → List ActionStatus
action_transitions planned = executing ∷ blocked ∷ []
action_transitions executing = confirmed ∷ failed ∷ []
action_transitions confirmed = []
action_transitions failed = []
action_transitions blocked = planned ∷ []

abbrev pub action_index : ActionStatus → ℕ
action_index planned = 0
action_index executing = 1
action_index confirmed = 2
action_index failed = 3
action_index blocked = 4

unfoldable pub action_can_transition_to : ActionStatus → ActionStatus → Bool
unfolding action_transitions
action_can_transition_to s target =
    any (λ r. action_index r == action_index target) (action_transitions s)

-- A `lifecycle_status` keyword holds an enum member, which is checked, or its text, which is not.
pub data StatusChange : Type 0 where
  member text_value : LifecycleStatus → StatusChange

-- The keywords of `evolve`: those that it looks at, and what the others do to the record.
pub record Changes (F : Floats) : Type 0 where
  pub new_created_at : Option (Option Instant)
  pub new_status : Option StatusChange
  pub new_updated_at : Option (Option Instant)
  pub others : Thought F → Thought F

abbrev instant_eq : Option Instant → Option Instant → Bool
instant_eq none none = true
instant_eq none (some b) = false
instant_eq (some a) none = false
instant_eq (some a) (some b) = a == b

-- `"created_at" in changes and self.created_at is not None`, and the value is another instant.
abbrev rewrites_created_at : Option Instant → Option (Option Instant) → Bool
rewrites_created_at stored none = false
rewrites_created_at none (some value) = false
rewrites_created_at (some stored) (some value) =
    if instant_eq value (some stored) then false else true

abbrev forbidden_target : LifecycleStatus → Option StatusChange → Option LifecycleStatus
forbidden_target s none = none
forbidden_target s (some (text_value target)) = none
forbidden_target s (some (member target)) = if can_transition_to s target then none else some target

abbrev changed_status : LifecycleStatus → Option StatusChange → LifecycleStatus
changed_status s none = s
changed_status s (some (member target)) = target
changed_status s (some (text_value target)) = target

abbrev pub changed {ℓ} : {A : Type ℓ} → A → Option A → A
changed old none = old
changed old (some new) = new

-- How a status may come from another.
abbrev StatusFrom : LifecycleStatus → Option StatusChange → LifecycleStatus → Type 0
StatusFrom s change s' =
    (s' ≡ s) ⊎ (change ≡ some (text_value s')) ⊎ (can_transition_to s s' ≡ true)

created_kept :
    (stored : Option Instant) (change : Option (Option Instant))
    → rewrites_created_at stored change ≡ false
    → (stored ≡ none) ⊎ (changed stored change ≡ stored)
created_kept none change h = inl refl
created_kept (some a) none h = inr refl
created_kept (some a) (some none) h = cc
created_kept (some a) (some (some b)) h = ground arith

status_allowed :
    (s : LifecycleStatus) (change : Option StatusChange)
    → forbidden_target s change ≡ none
    → StatusFrom s change (changed_status s change)
status_allowed s none h = inl refl
status_allowed s (some (text_value target)) h = inr (inl refl)
status_allowed s (some (member target)) h = inr (inr (ground arith))

module _ (F : Floats) where
  -- `model_dump`, `update(changes)`; the revision is a column and no field of the model.
  abbrev pub apply_changes : Changes F → Instant → Thought F → Thought F
  apply_changes c now t =
      let other = c.others t in
      record other {
        created_at = changed t.created_at c.new_created_at;
        lifecycle_status = changed_status t.lifecycle_status c.new_status;
        updated_at = changed (some now) c.new_updated_at;
        revision = t.revision;
      }

  -- The two checks that come before the record is built again.
  abbrev pub guarded :
      Bool
      → LifecycleStatus
      → Option LifecycleStatus
      → Result ThoughtError (Thought F)
      → Result ThoughtError (Thought F)
  guarded true s forbidden built = raised created_at_immutable
  guarded false s (some target) built = raised (invalid_transition s target)
  guarded false s none built = built

  unfoldable pub evolve : Changes F → Instant → Thought F → Result ThoughtError (Thought F)
  evolve c now t =
      guarded (rewrites_created_at t.created_at c.new_created_at) t.lifecycle_status
        (forbidden_target t.lifecycle_status c.new_status)
        (model_validate F (apply_changes c now t))

  guarded_parts :
      (b : Bool) (s : LifecycleStatus) (o : Option LifecycleStatus)
      (r : Result ThoughtError (Thought F)) {u : Thought F}
      → guarded b s o r ≡ ok u
      → (b ≡ false) × (o ≡ none) × (r ≡ ok u)
  guarded_parts true s o r h = cc
  guarded_parts false s (some target) r h = cc
  guarded_parts false s none r h = (refl, refl, h)

  -- The model's invariants over two fields.
  pub record IsValid (t : Thought F) : Type 0 where
    pub cycles : t.created_cycle ≤ t.updated_cycle
    pub interval : interval_ordered t.valid_from t.valid_until ≡ true

  model_validate-IsValid : (t u : Thought F) → model_validate F t ≡ ok u → IsValid u × (u ≡ t)
  unfolding model_validate
  model_validate-IsValid t u h = (ground (arith, IsValid), ground arith)

  -- A record that `evolve` returns satisfies the two invariants; its creation time is the old one
  -- where that was set; its status is the old one, a text the caller gave, or a member that the
  -- state machine allows from the old one; and it was last updated when the caller said, or now.
  pub evolve_sound :
      (c : Changes F) (now : Instant) (t u : Thought F)
      → evolve c now t ≡ ok u
      → IsValid u
        × ((t.created_at ≡ none) ⊎ (u.created_at ≡ t.created_at))
        × ((u.lifecycle_status ≡ t.lifecycle_status)
            ⊎ (c.new_status ≡ some (text_value u.lifecycle_status))
            ⊎ (can_transition_to t.lifecycle_status u.lifecycle_status ≡ true))
        × (u.updated_at ≡ changed (some now) c.new_updated_at)
  unfolding evolve
  evolve_sound c now t u h =
      let (kept, allowed, validated) =
        guarded_parts (rewrites_created_at t.created_at c.new_created_at) t.lifecycle_status
          (forbidden_target t.lifecycle_status c.new_status)
          (model_validate F (apply_changes c now t)) h in
      let (valid, same) = model_validate-IsValid (apply_changes c now t) u validated in
      (
        valid,
        subst (λ v. (t.created_at ≡ none) ⊎ (v.created_at ≡ t.created_at)) (sym same)
            (created_kept t.created_at c.new_created_at kept),
        subst (λ v. StatusFrom t.lifecycle_status c.new_status v.lifecycle_status) (sym same)
            (status_allowed t.lifecycle_status c.new_status allowed),
        subst (λ v. v.updated_at ≡ changed (some now) c.new_updated_at) (sym same) refl,
      )
