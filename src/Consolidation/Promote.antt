-- ===== src/Consolidation/Promote.antt =====
-- Which thoughts a consolidation promotes to P1 (src/engrava/extensions/dreaming.py). The store's own
-- update of a promoted row is the identity in `promoted`.
use engrava.Prelude.{
  ℕ, suc, ◌+◌, ◌-◌, ◌%◌, ◌==◌, Bool, true, false, ◌&&◌, not, Option, none, some, List, [], ◌∷◌,
  ◌++◌, ltb, leb, any, length, max, if◌then◌else◌,
}
use engrava.Prelude.Order.{text_order}
use engrava.Prelude.Sort.{sort}
use engrava.Prelude.Text.{Text, text, text_eq}
use engrava.Floats.{Floats, num_eq, num_lt}
use engrava.Thought.Defs.{Thought, ThoughtType, observation, reflection, p1, priority_eq}
use engrava.Hygiene.Signals.{
  Weights, is_default_signal, signal_active, active_sum, effective_weights, flat_names,
}

-- A value of a thought's metadata, as far as the filter looks at it.
pub data Json : Type 0 where
  null other_value : Json
  boolean : Bool → Json
  string : Text → Json

-- `metadata["source"]`, where it is a dictionary.
pub record Source : Type 0 where
  pub is_self : Json
  pub confidence : Option Json

-- A metadata that is not empty; a key that is missing reads as `null`.
pub record Metadata : Type 0 where
  pub perspective : Json
  pub content_type : Json
  pub source : Option Source

pub data SelfFilter : Type 0 where
  any_source external_only self_only : SelfFilter

pub data PromoteTargets : Type 0 where
  obs_only refl_only all_targets : PromoteTargets

pub record DreamingGates : Type 0 where
  pub min_confirmations : ℕ
  pub min_age_cycles : ℕ
  pub max_promoted_per_run : ℕ
  pub allow_zero_confirmation : Bool

pub record DreamingConfig (F : Floats) : Type 0 where
  pub enabled : Bool
  pub schedule_every_n_cycles : ℕ
  pub promote_threshold : F.Num
  pub max_p1_fraction : F.Num
  pub access_tracking_enabled : Bool
  pub promote_targets : PromoteTargets
  pub eligible_perspectives : Option (List Text)
  pub self_filter_mode : SelfFilter
  pub min_source_confidence : ℕ
  pub excluded_content_types : List Text
  pub eligible_content_types : Option (List Text)
  pub gates : DreamingGates

-- `value in names`, for a set of strings.
abbrev pub json_in : Json → List Text → Bool
json_in (string t) names = any (text_eq t) names
json_in null names = false
json_in other_value names = false
json_in (boolean b) names = false

abbrev pub is_null : Json → Bool
is_null null = true
is_null other_value = false
is_null (boolean b) = false
is_null (string t) = false

-- `_CONFIDENCE_RANK`, and 0 for everything else.
abbrev pub confidence_rank : Option Json → ℕ
confidence_rank none = 0
confidence_rank (some null) = 0
confidence_rank (some other_value) = 0
confidence_rank (some (boolean b)) = 0
confidence_rank (some (string t)) =
    if text_eq t (text "medium") then 1 else if text_eq t (text "high") then 2 else 0

abbrev pub source_or_empty : Option Source → Source
source_or_empty none = record { is_self = null; confidence = none }
source_or_empty (some s) = s

abbrev pub self_refused : SelfFilter → Json → Bool
self_refused any_source v = false
self_refused external_only (boolean true) = true
self_refused external_only (boolean false) = false
self_refused external_only null = false
self_refused external_only other_value = false
self_refused external_only (string t) = false
self_refused self_only (boolean true) = false
self_refused self_only (boolean false) = true
self_refused self_only null = false
self_refused self_only other_value = false
self_refused self_only (string t) = false

abbrev pub outside : Option (List Text) → Json → Bool
outside none v = false
outside (some names) v = not (is_null v) && not (json_in v names)

-- `_build_promote_type_filter`.
abbrev pub in_promote_type_filter : PromoteTargets → ThoughtType → Bool
in_promote_type_filter obs_only observation = true
in_promote_type_filter obs_only _ = false
in_promote_type_filter refl_only reflection = true
in_promote_type_filter refl_only _ = false
in_promote_type_filter all_targets observation = true
in_promote_type_filter all_targets reflection = true
in_promote_type_filter all_targets _ = false

-- What the loop does with a candidate, in the order of its tests.
pub data Verdict : Type 0 where
  skipped filtered below_threshold stopped already_p1 capped wrong_type promote : Verdict

-- The variables of the loop.
pub record Promotions (F : Floats) : Type 0 where
  pub promoted : List Text
  pub scores : List (Text × F.Num)
  pub skipped_gate : ℕ
  pub promotion_capped : Bool

abbrev pub is_stop : Verdict → Bool
is_stop stopped = true
is_stop skipped = false
is_stop filtered = false
is_stop below_threshold = false
is_stop already_p1 = false
is_stop capped = false
is_stop wrong_type = false
is_stop promote = false

module _ {F : Floats} where
  abbrev pub applied : Verdict → Thought F → Promotions F → Promotions F
  applied skipped t s = record s { skipped_gate = suc s.skipped_gate }
  applied filtered t s = s
  applied below_threshold t s = s
  applied stopped t s = s
  applied already_p1 t s = s
  applied capped t s = record s { promotion_capped = true }
  applied wrong_type t s = s
  applied promote t s = record s { promoted = s.promoted ++ t.thought_id ∷ [] }

module _ {F : Floats} (config : DreamingConfig F) where
  -- `is_due`, for a natural number.
  unfoldable pub is_due : ℕ → Bool
  is_due current_cycle =
      config.enabled && ltb 0 current_cycle && current_cycle % config.schedule_every_n_cycles == 0

  -- `_is_eligible_for_dreaming`, by the thought's metadata.
  unfoldable pub is_eligible_for_dreaming : Option Metadata → Bool
  is_eligible_for_dreaming none = true
  is_eligible_for_dreaming (some m) =
      let source = source_or_empty m.source in
      if outside config.eligible_perspectives m.perspective
      then false
      else if self_refused config.self_filter_mode source.is_self
      then false
      else if ltb (confidence_rank source.confidence) config.min_source_confidence
      then false
      else if json_in m.content_type config.excluded_content_types
      then false
      else not (outside config.eligible_content_types m.content_type)

  -- `_passes_gates`; a thought that was created after the cycle has a negative age.
  unfoldable pub passes_gates : Thought F → ℕ → Bool
  passes_gates t current_cycle =
      if ltb current_cycle (t.created_cycle + config.gates.min_age_cycles)
      then false
      else if config.gates.allow_zero_confirmation
      then true
      else leb config.gates.min_confirmations t.confirmation_count

  -- `_compute_active_weights`: the weights of the signals, and the names of the flat ones.
  abbrev pub dreaming_active : List (Thought F) → ℕ → Text → Bool
  dreaming_active candidates current_cycle name =
      if is_default_signal name
      then signal_active F candidates current_cycle config.access_tracking_enabled name
      else true

  unfoldable pub compute_active_weights : Weights F → List (Thought F) → ℕ → Weights F × List Text
  unfolding is_default_signal signal_active active_sum effective_weights flat_names
  compute_active_weights signals candidates current_cycle =
      let active = dreaming_active candidates current_cycle in
      let total = active_sum F active F.zero_num signals in
      let flat = sort text_order (λ name. name) (flat_names F active signals) in
      if num_eq F total F.zero_num
      then (effective_weights F (λ name. false) F.one_num signals, flat)
      else (effective_weights F active total signals, flat)

  -- `available_slots`; `truncated` is `int` on a number that is not negative.
  abbrev pub max_p1_count : (truncated : F.Num → ℕ) → ℕ → ℕ
  max_p1_count truncated total_thoughts =
      max 1 (truncated (F.mul (F.ratio total_thoughts 1) config.max_p1_fraction))

  abbrev pub available_slots : (truncated : F.Num → ℕ) → ℕ → ℕ → ℕ
  available_slots truncated total_thoughts current_p1_count =
      max_p1_count truncated total_thoughts - current_p1_count

  module _ (metadata : Thought F → Option Metadata) (score : Thought F → F.Num)
      (current_cycle slots : ℕ) where
    unfoldable pub verdict : Thought F → List Text → Verdict
    unfolding passes_gates is_eligible_for_dreaming
    verdict t promoted =
        if not (passes_gates t current_cycle)
        then skipped
        else if not (is_eligible_for_dreaming (metadata t))
        then filtered
        else if not (num_lt F config.promote_threshold (score t))
        then below_threshold
        else if leb config.gates.max_promoted_per_run (length promoted)
        then stopped
        else if priority_eq t.priority p1
        then already_p1
        else if leb slots (length promoted)
        then capped
        else if not (in_promote_type_filter config.promote_targets t.thought_type)
        then wrong_type
        else promote

    abbrev pub scored : Thought F → Promotions F → Promotions F
    scored t s = record s { scores = s.scores ++ (t.thought_id, score t) ∷ [] }

    -- The loop of `_apply_promotions`.
    unfoldable pub promotions_from : List (Thought F) → Promotions F → Promotions F
    unfolding verdict
    promotions_from [] s = s
    promotions_from (t ∷ ts) s =
        let v = verdict t s.promoted in
        elim (is_stop v) [
          | true ↦ scored t s
          | false ↦ promotions_from ts (applied v t (scored t s))
        ]

    unfoldable pub apply_promotions : List (Thought F) → Promotions F
    unfolding promotions_from
    apply_promotions candidates =
        promotions_from candidates
          (record { promoted = []; scores = []; skipped_gate = 0; promotion_capped = false })
