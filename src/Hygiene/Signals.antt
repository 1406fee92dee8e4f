-- ===== src/Hygiene/Signals.antt =====
-- The keep-signals (src/engrava/domain/dreaming.py) and the weights of a run
-- (src/engrava/infrastructure/sqlite/hygiene.py).
use engrava.Prelude.{
  ℕ, ◌-◌, Bool, true, false, ◌&&◌, ◌||◌, Option, none, some, List, [], ◌∷◌, ◌++◌, ltb,
  if◌then◌else◌, any,
}
use engrava.Prelude.Order.{text_order}
use engrava.Prelude.Sort.{sort}
use engrava.Prelude.Text.{Text, text, text_eq}
use engrava.Floats.{Floats, num_eq, num_min}
use engrava.Thought.Defs.{Thought}

abbrev pub DreamingContext : Type 0
DreamingContext = ℕ

abbrev pub recency : Text
recency = text "recency"

abbrev pub staleness : Text
staleness = text "staleness"

abbrev pub confirmation : Text
confirmation = text "confirmation"

abbrev pub confidence : Text
confidence = text "confidence"

abbrev pub frequency : Text
frequency = text "frequency"

abbrev pub action_outcome : Text
action_outcome = text "action_outcome"

-- The names of the registry `DEFAULT_SIGNALS`.
abbrev pub default_signals : List Text
default_signals = recency ∷ staleness ∷ confirmation ∷ confidence ∷ frequency ∷ action_outcome ∷ []

unfoldable pub is_default_signal : Text → Bool
is_default_signal name = any (text_eq name) default_signals

abbrev pub is_some {ℓ} : {A : Type ℓ} → Option A → Bool
is_some none = false
is_some (some a) = true

abbrev or_else {ℓ} : {A : Type ℓ} → A → Option A → A
or_else a none = a
or_else a (some b) = b

module _ (F : Floats) where
  -- `RecencySignal`, `StalenessSignal`, `ConfirmationSignal`, `FrequencySignal`, `ConfidenceSignal`
  -- and `ActionOutcomeSignal` at their default parameters.
  unfoldable pub recency_signal : Thought F → DreamingContext → F.Num
  recency_signal t current_cycle = F.exp_decay (current_cycle - t.updated_cycle)

  unfoldable pub staleness_signal : Thought F → DreamingContext → F.Num
  staleness_signal t ctx = num_min F F.one_num (F.ratio (t.updated_cycle - t.created_cycle) 100)

  unfoldable pub confirmation_signal : Thought F → DreamingContext → F.Num
  confirmation_signal t ctx = num_min F F.one_num (F.ratio t.confirmation_count 5)

  unfoldable pub frequency_signal : Thought F → DreamingContext → F.Num
  frequency_signal t ctx = num_min F F.one_num (F.ratio t.access_count 10)

  unfoldable pub confidence_signal : Thought F → DreamingContext → F.Num
  confidence_signal t ctx = or_else F.half_num t.confidence

  unfoldable pub action_outcome_signal : Thought F → DreamingContext → F.Num
  action_outcome_signal t ctx = or_else F.zero_num t.action_outcome_score

  -- `DEFAULT_SIGNALS.get(name)`.
  unfoldable pub signal_named : Text → Option (Thought F → DreamingContext → F.Num)
  signal_named name =
      if text_eq name recency
      then some recency_signal
      else if text_eq name staleness
      then some staleness_signal
      else if text_eq name confirmation
      then some confirmation_signal
      else if text_eq name confidence
      then some confidence_signal
      else if text_eq name frequency
      then some frequency_signal
      else if text_eq name action_outcome
      then some action_outcome_signal
      else none

  -- `default_signal_active`, `none` for the `KeyError` on a name outside the registry. In a hygiene
  -- run the cycle is always known.
  unfoldable pub default_signal_active : Text → List (Thought F) → Option ℕ → Bool → Option Bool
  unfolding is_default_signal
  default_signal_active name candidates current_cycle access_tracking_enabled =
      if is_default_signal name
      then some (
          if text_eq name recency || text_eq name staleness
          then is_some current_cycle
          else if text_eq name confirmation
          then any (λ t. ltb 0 t.confirmation_count) candidates
          else if text_eq name confidence
          then any (λ t. is_some t.confidence) candidates
          else if text_eq name action_outcome
          then any (λ t. is_some t.action_outcome_score) candidates
          else access_tracking_enabled && any (λ t. ltb 0 t.access_count) candidates)
      else none

  abbrev pub Weights : Type 0
  Weights = List (Text × F.Num)

  -- `name in DEFAULT_SIGNALS and default_signal_active(...)`.
  unfoldable pub signal_active : List (Thought F) → ℕ → Bool → Text → Bool
  signal_active candidates current_cycle tracking name =
      or_else false (default_signal_active name candidates (some current_cycle) tracking)

  -- `sum(signal_weights[name] for name in active_names)`, from the sum so far.
  unfoldable pub active_sum : (Text → Bool) → F.Num → Weights → F.Num
  active_sum active sum [] = sum
  active_sum active sum ((name, weight) ∷ rest) =
      active_sum active (if active name then F.add sum weight else sum) rest

  unfoldable pub effective_weights : (Text → Bool) → F.Num → Weights → Weights
  effective_weights active total [] = []
  effective_weights active total ((name, weight) ∷ rest) =
      (name, if active name then F.div weight total else F.zero_num)
      ∷ effective_weights active total rest

  unfoldable pub flat_names : (Text → Bool) → Weights → List Text
  flat_names active [] = []
  flat_names active ((name, weight) ∷ rest) =
      if active name then flat_names active rest else name ∷ flat_names active rest

  -- `compute_active_hygiene_weights`.
  unfoldable pub compute_active_hygiene_weights :
      Weights → List (Thought F) → ℕ → Bool → Weights × List Text
  unfolding active_sum effective_weights flat_names
  compute_active_hygiene_weights signal_weights candidates current_cycle tracking =
      let active = signal_active candidates current_cycle tracking in
      let total = active_sum active F.zero_num signal_weights in
      let flat = sort text_order (λ name. name) (flat_names active signal_weights) in
      if num_eq F total F.zero_num
      then (effective_weights (λ name. false) total signal_weights, flat)
      else (effective_weights active total signal_weights, flat)

  -- `has_active_usage_signal`, over `USAGE_HISTORY_SIGNALS`.
  unfoldable pub has_active_usage_signal : List (Thought F) → ℕ → Bool → Bool
  has_active_usage_signal candidates current_cycle tracking =
      any (signal_active candidates current_cycle tracking)
        (frequency ∷ confirmation ∷ action_outcome ∷ [])

  -- One round of the loop of `compute_keep_score`, on the total and the breakdown so far.
  unfoldable pub score_step :
      Thought F → DreamingContext → F.Num × Weights → Text × F.Num → F.Num × Weights
  score_step t ctx (total, per_signal) (name, weight) =
      if num_eq F weight F.zero_num then (total, per_signal) else elim (signal_named name) [
        | none ↦ (total, per_signal)
        | some signal ↦
            (F.add total (F.mul (signal t ctx) weight), per_signal ++ (name, signal t ctx) ∷ [])
      ]

  unfoldable pub keep_score_from :
      Thought F → DreamingContext → F.Num × Weights → Weights → F.Num × Weights
  unfolding score_step
  keep_score_from t ctx scored [] = scored
  keep_score_from t ctx scored (entry ∷ rest) =
      keep_score_from t ctx (score_step t ctx scored entry) rest

  unfoldable pub compute_keep_score : Thought F → DreamingContext → Weights → F.Num × Weights
  unfolding keep_score_from
  compute_keep_score t ctx active_weights = keep_score_from t ctx (F.zero_num, []) active_weights
