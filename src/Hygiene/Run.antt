-- ===== src/Hygiene/Run.antt =====
-- The decisions of `run_hygiene` (src/engrava/infrastructure/sqlite/engrava_core.py) before its
-- writes: the refusals, the master switch, the two fail-safes, and the preview.
use engrava.Prelude.{
  ℕ, ◌≡◌, refl, ◌∙◌, ◌⊎◌, inl, inr, Bool, true, false, ◌&&◌, ◌||◌, ltb, Option, none, some, List,
  [], ◌∷◌, arith, any, length, if◌then◌else◌, Bool-cases,
}
use engrava.Prelude.Result.{Result, ok, raised}
use engrava.Prelude.Text.{Text, text_eq}
use engrava.Floats.{Floats, Raw, num_lt}
use engrava.Thought.Defs.{Thought, Instant}
use engrava.Hygiene.Signals.{
  Weights, is_some, frequency, confirmation, action_outcome, signal_active, default_signal_active,
  is_default_signal, compute_active_hygiene_weights, has_active_usage_signal,
}
use engrava.Hygiene.Select.{
  HygienePolicy, HygieneResult, EvictionReason, decay_multiplier, select_archive_candidates,
}

pub data RunError : Type 0 where
  no_policy no_cycle : RunError

-- `current_cycle` as the caller passed it, or as the configured provider gives it.
unfoldable pub resolve_current_cycle : Option ℕ → Option ℕ → Option ℕ
resolve_current_cycle (some cycle) provider = some cycle
resolve_current_cycle none provider = provider

module _ (F : Floats) where
  -- `HygieneResult()`.
  abbrev pub no_op : HygieneResult F
  no_op = record {
    archived_count = 0;
    gc_count = 0;
    candidates_evaluated = 0;
    dry_run = false;
    would_evict = [];
    flat_signals = [];
  }

  -- What a run does next: it returns, or it goes on to write, with the reasons and the cycle.
  pub data Plan : Type 0 where
    returns : HygieneResult F → Plan
    writes : List (EvictionReason F) → ℕ → Plan

  -- `any(weight > 0.0 for weight in active_weights.values())`.
  abbrev has_active_signal : Weights F → Bool
  has_active_signal weights = any (λ w. num_lt F F.zero_num w.1) weights

  module _ (decay_function : Thought F → ℕ → Raw F) (access_tracking_enabled : Bool)
      (candidates : List (Thought F)) (now : Instant) where
    unfoldable pub would_evict_of : HygienePolicy F → ℕ → List (EvictionReason F)
    unfolding compute_active_hygiene_weights has_active_usage_signal select_archive_candidates
        decay_multiplier
    would_evict_of policy cycle =
        let weights =
          (compute_active_hygiene_weights F policy.signal_weights candidates cycle
            access_tracking_enabled).0 in
        if has_active_signal weights
          && has_active_usage_signal F candidates cycle access_tracking_enabled
        then select_archive_candidates F policy now cycle weights
            (decay_multiplier F decay_function cycle) candidates
        else []

    abbrev plan_at : HygienePolicy F → ℕ → Plan
    plan_at policy cycle =
        if policy.dry_run
        then returns (record {
          archived_count = 0;
          gc_count = 0;
          candidates_evaluated = length candidates;
          dry_run = true;
          would_evict = would_evict_of policy cycle;
          flat_signals =
              (compute_active_hygiene_weights F policy.signal_weights candidates cycle
                access_tracking_enabled).1;
        })
        else writes (would_evict_of policy cycle) cycle

    abbrev plan_for : HygienePolicy F → Option ℕ → Result RunError Plan
    plan_for policy none = raised no_cycle
    plan_for policy (some cycle) = ok (plan_at policy cycle)

    unfoldable pub run_hygiene :
        Option (HygienePolicy F) → Option ℕ → Option ℕ → Result RunError Plan
    unfolding would_evict_of resolve_current_cycle
    run_hygiene none current_cycle provider = raised no_policy
    run_hygiene (some policy) current_cycle provider =
        if policy.enabled
        then plan_for policy (resolve_current_cycle current_cycle provider)
        else ok (returns no_op)

    -- A candidate that was ever accessed, confirmed, or scored for an action's outcome.
    abbrev pub has_history : Thought F → Bool
    has_history t =
        ltb 0 t.access_count || ltb 0 t.confirmation_count || is_some t.action_outcome_score

    no_counts :
        (cs : List (Thought F))
        → any has_history cs ≡ false
        → (any (λ t. ltb 0 t.access_count) cs ≡ false)
          × (any (λ t. ltb 0 t.confirmation_count) cs ≡ false)
          × (any (λ t. is_some t.action_outcome_score) cs ≡ false)
    no_counts [] h = (refl, refl, refl)
    no_counts (t ∷ cs) h =
        (ground (arith, no_counts cs), ground (arith, no_counts cs), ground (arith, no_counts cs))

    module _ (cycle : ℕ) where
      abbrev is_active : Text → Bool
      is_active = signal_active F candidates cycle access_tracking_enabled

      active_frequency :
          is_active frequency
          ≡ (access_tracking_enabled && any (λ t. ltb 0 t.access_count) candidates)
      unfolding signal_active default_signal_active is_default_signal text_eq
      active_frequency = refl

      active_confirmation :
          is_active confirmation ≡ any (λ t. ltb 0 t.confirmation_count) candidates
      unfolding signal_active default_signal_active is_default_signal text_eq
      active_confirmation = refl

      active_action_outcome :
          is_active action_outcome ≡ any (λ t. is_some t.action_outcome_score) candidates
      unfolding signal_active default_signal_active is_default_signal text_eq
      active_action_outcome = refl

      usage_of_history :
          any has_history candidates ≡ false
          → has_active_usage_signal F candidates cycle access_tracking_enabled ≡ false
      unfolding has_active_usage_signal
      usage_of_history h =
          let (accessed, confirmed, scored) = no_counts candidates h in
          ground (
            arith, accessed, confirmed, scored, active_frequency, active_confirmation,
            active_action_outcome,
          )

    evict_of_history :
        (p : HygienePolicy F) (cycle : ℕ)
        → (would_evict_of p cycle ≡ []) ⊎ (any has_history candidates ≡ true)
    unfolding would_evict_of
    evict_of_history p cycle = elim (Bool-cases (any has_history candidates)) [
      | inl e ↦ inr e
      | inr e ↦ inl (ground (arith, usage_of_history cycle e))
    ]

    plan_writes :
        (p : HygienePolicy F) (o : Option ℕ) (reasons : List (EvictionReason F)) (cycle : ℕ)
        → plan_for p o ≡ ok (writes reasons cycle)
        → (o ≡ some cycle) × (p.dry_run ≡ false) × (reasons ≡ would_evict_of p cycle)
    plan_writes p none reasons cycle h = cc
    plan_writes p (some c) reasons cycle h = elim (Bool-cases p.dry_run) [
      | inl e ↦ cc (rw e at h)
      | inr e ↦ (cc (rw e at h), e, cc (rw e at h))
    ]

    -- A run goes on to write only with a policy that is enabled and no dry run, at the cycle that
    -- was passed or else provided; and it then archives nothing unless some candidate was accessed,
    -- confirmed, or scored for an action's outcome.
    pub run_writes :
        (policy : Option (HygienePolicy F)) (current_cycle provider : Option ℕ)
        (reasons : List (EvictionReason F)) (cycle : ℕ)
        → run_hygiene policy current_cycle provider ≡ ok (writes reasons cycle)
        → ((p : HygienePolicy F) × (policy ≡ some p)
            × (p.enabled ≡ true)
            × (p.dry_run ≡ false)
            × (reasons ≡ would_evict_of p cycle))
          × (resolve_current_cycle current_cycle provider ≡ some cycle)
          × ((reasons ≡ []) ⊎ (any has_history candidates ≡ true))
    unfolding run_hygiene
    run_writes none current_cycle provider reasons cycle h = cc
    run_writes (some p) current_cycle provider reasons cycle h = elim (Bool-cases p.enabled) [
      | inl e ↦
          let (resolved, wet, same) =
            plan_writes p (resolve_current_cycle current_cycle provider) reasons cycle
              (ground arith) in
          (
            (p, refl, e, wet, same),
            resolved,
            elim (evict_of_history p cycle) [ inl q ↦ inl (same ∙ q) | inr q ↦ inr q ],
          )
      | inr e ↦ cc (rw e at h)
    ]
