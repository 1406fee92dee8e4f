-- ===== src/Hygiene/Select.antt =====
-- Protection, the inactivity gate, the decay hook and `_select_archive_candidates`
-- (src/engrava/infrastructure/sqlite/engrava_core.py).
use engrava.Prelude.{
  ℕ, ◌+◌, ◌-◌, ◌*◌, Bool, true, false, ◌||◌, Option, none, some, List, [], ◌∷◌, map, leb, ◌==◌,
  if◌then◌else◌, any, take,
}
use engrava.Prelude.Order.{Order, nat_order, text_order, pair_order}
use engrava.Prelude.Sort.{sort}
use engrava.Prelude.Text.{Text}
use engrava.Floats.{Floats, Raw, finite, nan, infinity, minus_infinity, num_min, num_max, num_lt}
use engrava.Thought.Defs.{Thought, Priority, priority_eq, Instant}
use engrava.Hygiene.Signals.{DreamingContext, Weights, compute_keep_score}

-- The fields of `HygienePolicyConfig` (src/engrava/config.py).
pub record HygienePolicy (F : Floats) : Type 0 where
  pub enabled : Bool
  pub eviction_threshold : F.Num
  pub protected_priorities : List Priority
  pub signal_weights : Weights F
  pub check_every_n_cycles : ℕ
  pub max_evictions_per_run : ℕ
  pub auto_gc_enabled : Bool
  pub gc_min_archive_age_cycles : ℕ
  pub dry_run : Bool
  pub min_inactivity_age_seconds : ℕ
  pub gc_restore_window_seconds : ℕ

abbrev pub microseconds : ℕ → ℕ
microseconds seconds = 1_000_000 * seconds

pub record EvictionReason (F : Floats) : Type 0 where
  pub thought_id : Text
  pub keep_score : F.Num
  pub eviction_score : F.Num
  pub decay_multiplier : F.Num
  pub threshold : F.Num
  pub signals : Weights F

pub record HygieneResult (F : Floats) : Type 0 where
  pub archived_count : ℕ
  pub gc_count : ℕ
  pub candidates_evaluated : ℕ
  pub dry_run : Bool
  pub would_evict : List (EvictionReason F)
  pub flat_signals : List Text

-- The first that is present: `last_accessed_at or updated_at or created_at`.
abbrev pub first_of_three : Option Instant → Option Instant → Option Instant → Option Instant
first_of_three (some a) b c = some a
first_of_three none (some b) c = some b
first_of_three none none c = c

module _ (F : Floats) where
  unfoldable pub clamp_decay : Raw F → F.Num
  clamp_decay (finite raw) = num_max F F.zero_num (num_min F F.one_num raw)
  clamp_decay nan = F.one_num
  clamp_decay infinity = F.one_num
  clamp_decay minus_infinity = F.one_num

  unfoldable pub hygiene_protected : Thought F → HygienePolicy F → Bool
  hygiene_protected t policy = t.pinned || any (priority_eq t.priority) policy.protected_priorities

  abbrev pub last_contact : Thought F → Option Instant
  last_contact t = first_of_three t.last_accessed_at t.updated_at t.created_at

  -- `now - contact` may be negative, so the age test is written as a sum.
  abbrev pub old_enough : Option Instant → ℕ → Instant → Bool
  old_enough none seconds now = false
  old_enough (some contact) seconds now = leb (contact + microseconds seconds) now

  unfoldable pub hygiene_inactive_enough : Thought F → HygienePolicy F → Instant → Bool
  hygiene_inactive_enough t policy now =
      if policy.min_inactivity_age_seconds == 0
      then true
      else old_enough (last_contact t) policy.min_inactivity_age_seconds now

  -- `_hygiene_decay_multipliers`: the hook's answer for each thought, clamped. The identities of the
  -- candidates are distinct, so the dictionary is read at the thought itself.
  unfoldable pub decay_multiplier : (Thought F → ℕ → Raw F) → ℕ → Thought F → F.Num
  unfolding clamp_decay
  decay_multiplier decay_function current_cycle t =
      clamp_decay (decay_function t (current_cycle - t.updated_cycle))

  -- A scored candidate: the sort key and the reason.
  abbrev pub Scored : Type 0
  Scored = F.Num × (ℕ × Text) × EvictionReason F

  abbrev pub sort_key : Scored → F.Num × (ℕ × Text)
  sort_key (score, key, reason) = (score, key)

  abbrev pub key_order : Order (F.Num × (ℕ × Text))
  key_order = pair_order F.order (pair_order nat_order text_order)

  module _ (policy : HygienePolicy F) (now : Instant) (ctx : DreamingContext)
      (active_weights : Weights F) (multiplier : Thought F → F.Num) where
    unfoldable pub eviction_reason : Thought F → EvictionReason F
    unfolding compute_keep_score
    eviction_reason t =
        let (keep_score, per_signal) = compute_keep_score F t ctx active_weights in
        record {
          thought_id = t.thought_id;
          keep_score = keep_score;
          eviction_score = F.mul keep_score (multiplier t);
          decay_multiplier = multiplier t;
          threshold = policy.eviction_threshold;
          signals = per_signal;
        }

    -- The `continue`s of the loop: whether a candidate is left out.
    unfoldable pub is_kept : Thought F → Bool
    unfolding hygiene_protected hygiene_inactive_enough
    is_kept t =
        if hygiene_protected t policy
        then true
        else if hygiene_inactive_enough t policy now
        then (if num_lt F (eviction_reason t).eviction_score policy.eviction_threshold
            then false
            else true)
        else true

    abbrev pub entry : Thought F → Scored
    entry t =
        ((eviction_reason t).eviction_score, (t.updated_cycle, t.thought_id), eviction_reason t)

    unfoldable pub scored : List (Thought F) → List Scored
    scored [] = []
    scored (t ∷ rest) = if is_kept t then scored rest else entry t ∷ scored rest

    -- The survivors in their order, cut at the cap.
    unfoldable pub chosen : List (Thought F) → List Scored
    unfolding scored
    chosen candidates =
        take policy.max_evictions_per_run (sort key_order sort_key (scored candidates))

    unfoldable pub select_archive_candidates : List (Thought F) → List (EvictionReason F)
    unfolding chosen
    select_archive_candidates candidates = map (λ s. s.2) (chosen candidates)
