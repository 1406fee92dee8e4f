-- ===== src/Hygiene/Tests.antt =====
-- Runs of the forgetting loop (src/engrava/infrastructure/sqlite/engrava_core.py) in thousandths, and
-- its theorems at concrete inputs.
use engrava.Prelude.{
  ℕ, ◌+◌, ◌≤◌, ◌≡◌, ◌≢◌, refl, sym, ap, ◌⊎◌, inl, inr, Bool, true, false, Option, none, some, List,
  [], ◌∷◌, arith, All, any, length, ◌∙◌, Bool-cases, if◌then◌else◌,
}
use Prim.Native.String.{String}
use engrava.Prelude.Text.{Text, text, text_eq, text_eq_iff}
use engrava.Prelude.Result.{Result, ok}
use engrava.Floats.{thousandths, Raw, finite}
use engrava.Thought.Defs.{
  Thought, observation, p1, p3, LifecycleStatus, active, archived, Instant, interval_ordered,
  model_validate,
}
use engrava.Thought.Lifecycle.{IsValid}
use engrava.Hygiene.Signals.{Weights, frequency, signal_named, frequency_signal}
use engrava.Hygiene.Select.{
  HygienePolicy, EvictionReason, eviction_reason, hygiene_protected, hygiene_inactive_enough,
  select_archive_candidates,
}
use engrava.Hygiene.Selection.{IsEligible, select_sound, select_ranked}
use engrava.Hygiene.Stability.{DistinctIds, select_order_free}
use engrava.Hygiene.Archive.{Store, Archival, archive_row, update_where, hygiene_archive}
use engrava.Hygiene.Archival.{Stays, protected, archive_spares}
use engrava.Hygiene.OneUpdate.{targeted, Appends, archive_one_update}
use engrava.Hygiene.Gc.{IsReapable, hygiene_gc_eligible, gc_sound}
use engrava.Hygiene.Run.{
  would_evict_of, resolve_current_cycle, run_hygiene, has_history, run_writes,
}
use mathlib.Core.List.{Memᴰ, Permᴰ}

abbrev thought : String → LifecycleStatus → Bool → ℕ → Thought thousandths
thought name status pinned accesses = record {
  thought_id = text name;
  thought_type = observation;
  essence = text name;
  content = text name;
  priority = p3;
  lifecycle_status = status;
  created_cycle = 1;
  updated_cycle = 1;
  source = text "t";
  confidence = none;
  confirmation_count = 0;
  access_count = accesses;
  action_outcome_score = none;
  last_accessed_at = none;
  created_at = some 5;
  updated_at = some 5;
  expires_at = none;
  valid_from = none;
  valid_until = none;
  pinned = pinned;
  archived_at_cycle = none;
  archived_at = none;
  revision = 1;
}

abbrev cold : Thought thousandths
cold = thought "a" active false 0

abbrev warm : Thought thousandths
warm = thought "b" active false 10

abbrev pinned_cold : Thought thousandths
pinned_cold = thought "c" active true 0

abbrev pool : List (Thought thousandths)
pool = pinned_cold ∷ warm ∷ cold ∷ []

abbrev policy : HygienePolicy thousandths
policy = record {
  enabled = true;
  eviction_threshold = 300;
  protected_priorities = p1 ∷ [];
  signal_weights = (frequency, 1000) ∷ [];
  check_every_n_cycles = 1;
  max_evictions_per_run = 1;
  auto_gc_enabled = true;
  gc_min_archive_age_cycles = 2;
  dry_run = false;
  min_inactivity_age_seconds = 1;
  gc_restore_window_seconds = 1;
}

abbrev now : Instant
now = 5_000_000

abbrev weights : Weights thousandths
weights = (frequency, 1000) ∷ []

abbrev hook : Thought thousandths → ℕ → Raw thousandths
hook t elapsed = finite 1000

abbrev multiplier : Thought thousandths → ℕ
multiplier t = 1000

select_sound_example :
    All
      (λ r.
        (t : Thought thousandths) × Memᴰ t pool
        × IsEligible thousandths policy now 10 weights multiplier t
        × (r ≡ eviction_reason thousandths policy now 10 weights multiplier t))
      (select_archive_candidates thousandths policy now 10 weights multiplier pool)
    × (length (select_archive_candidates thousandths policy now 10 weights multiplier pool) ≤ 1)
select_sound_example = select_sound thousandths policy now 10 weights multiplier pool

cold-IsEligible : IsEligible thousandths policy now 10 weights multiplier cold
unfolding hygiene_protected hygiene_inactive_enough eviction_reason signal_named text_eq
    frequency_signal
cold-IsEligible = record { unprotected = refl; inactive = refl; below = refl }

select_ranked_example :
    Memᴰ
      (eviction_reason thousandths policy now 10 weights multiplier cold)
      (select_archive_candidates thousandths policy now 10 weights multiplier pool)
    ⊎ (length (select_archive_candidates thousandths policy now 10 weights multiplier pool) ≡ 1)
      × All
          (λ r.
            thousandths.order.leq r.eviction_score
              (eviction_reason thousandths policy now 10 weights multiplier cold).eviction_score
            ≡ true)
          (select_archive_candidates thousandths policy now 10 weights multiplier pool)
select_ranked_example =
    select_ranked thousandths policy now 10 weights multiplier pool cold
      (Memᴰ.tail (Memᴰ.tail (Memᴰ.head refl))) cold-IsEligible

-- Texts that the program's test tells apart.
differ : (a b : Text) → text_eq a b ≡ false → a ≢ b
differ a b e p = cc (e, (text_eq_iff a b).1 p)

pair-DistinctIds : DistinctIds thousandths (warm ∷ cold ∷ [])
unfolding text_eq
pair-DistinctIds = ((differ (text "b") (text "a") refl, tt), (tt, tt))

select_order_free_example :
    select_archive_candidates thousandths policy now 10 weights multiplier (warm ∷ cold ∷ [])
    ≡ select_archive_candidates thousandths policy now 10 weights multiplier (cold ∷ warm ∷ [])
select_order_free_example =
    select_order_free thousandths policy now 10 weights multiplier (Permᴰ.swap refl refl)
      pair-DistinctIds

abbrev reason_for : String → EvictionReason thousandths
reason_for name = record {
  thought_id = text name;
  keep_score = 0;
  eviction_score = 0;
  decay_multiplier = 1000;
  threshold = 300;
  signals = [];
}

abbrev log : Archival thousandths → List Text → Result ℕ (List Text)
log a j = ok (a.target_id ∷ j)

abbrev quiet : Text → Store thousandths → Store thousandths
quiet x s = s

valid : (name : String) (pinned : Bool) (n : ℕ) → IsValid thousandths (thought name active pinned n)
unfolding interval_ordered
valid name pinned n = record { cycles = omega arith; interval = refl }

abbrev writer :
    Option (Archival thousandths → List Text → Result ℕ (List Text))
    → Archival thousandths
    → List Text
    → Result ℕ (List Text)
writer none = log
writer (some write) = write

log-Appends : Appends thousandths (some log) now quiet policy 10 now
log-Appends write e a j = (a.target_id ∷ j, sym (ap (λ o. writer o a j) e))

archive_one_update_example :
    (j' : List Text) × (hygiene_archive thousandths
        (some log)
        now
        quiet
        policy
        10
        now
        0
        (reason_for "a" ∷ reason_for "c" ∷ [])
        (warm ∷ cold ∷ [])
        []
      ≡ ok (
        0
            + (update_where thousandths
                (targeted thousandths
                  (some log)
                  now
                  quiet
                  policy
                  10
                  now
                  (reason_for "a" ∷ reason_for "c" ∷ []))
                (archive_row thousandths 10 now)
                (warm ∷ cold ∷ [])).0,
        (update_where thousandths
            (targeted thousandths
              (some log)
              now
              quiet
              policy
              10
              now
              (reason_for "a" ∷ reason_for "c" ∷ []))
            (archive_row thousandths 10 now)
            (warm ∷ cold ∷ [])).1,
        j',
      ))
archive_one_update_example =
    archive_one_update thousandths (some log) now quiet policy 10 now log-Appends (λ x u. refl) 0
      (reason_for "a" ∷ reason_for "c" ∷ []) (warm ∷ cold ∷ []) [] pair-DistinctIds
      (valid "b" false 10, (valid "a" false 0, tt))

-- Another writer archives `b` when the loop is about to write `a`.
abbrev meddler : Text → Store thousandths → Store thousandths
meddler x [] = []
meddler x (t ∷ s) =
    if text_eq t.thought_id (text "b")
    then record t { lifecycle_status = archived } ∷ meddler x s
    else t ∷ meddler x s

b_is_not_c : text "b" ≢ text "c"
unfolding text_eq
b_is_not_c = differ (text "b") (text "c") refl

meddler_mem :
    (x : Text) (s : Store thousandths) → Memᴰ pinned_cold s → Memᴰ pinned_cold (meddler x s)
unfolding text_eq
meddler_mem x [] m = elim m [ ]
meddler_mem x (t ∷ s) (Memᴰ.head q) =
    let c : text_eq t.thought_id (text "b") ≡ false =
      ap (λ u. text_eq u.thought_id (text "b")) (sym q) in
    rw c (Memᴰ.head q)
meddler_mem x (t ∷ s) (Memᴰ.tail m) = elim (Bool-cases (text_eq t.thought_id (text "b"))) [
  | inl e ↦ rw e (Memᴰ.tail (meddler_mem x s m))
  | inr e ↦ rw e (Memᴰ.tail (meddler_mem x s m))
]

meddler_alone :
    (x : Text) (s : Store thousandths)
    → All (λ t. (t.thought_id ≡ text "c") → t ≡ pinned_cold) s
    → All (λ t. (t.thought_id ≡ text "c") → t ≡ pinned_cold) (meddler x s)
unfolding text_eq
meddler_alone x [] h = tt
meddler_alone x (t ∷ s) h = elim (Bool-cases (text_eq t.thought_id (text "b"))) [
  | inl e ↦ rw e (
    (λ q. absurd (b_is_not_c (sym ((text_eq_iff t.thought_id (text "b")).0 e) ∙ q))),
    meddler_alone x s h.1,
  )
  | inr e ↦ rw e (h.0, meddler_alone x s h.1)
]

archive_spares_example : Stays thousandths pinned_cold (
    record cold {
      lifecycle_status = archived;
      archived_at_cycle = some 10;
      archived_at = some now;
      revision = 2;
    }
    ∷ record warm { lifecycle_status = archived }
    ∷ pinned_cold
    ∷ [])
unfolding hygiene_archive hygiene_protected archive_row update_where text_eq interval_ordered
    model_validate
archive_spares_example =
    archive_spares thousandths (some log) now meddler policy 10 now pinned_cold 0
      (reason_for "a" ∷ reason_for "c" ∷ []) (cold ∷ warm ∷ pinned_cold ∷ []) [] 1 _ (text "a" ∷ [])
      (protected refl) (λ x u h. (meddler_mem x u h.0, meddler_alone x u h.1)) refl
      (
        Memᴰ.tail (Memᴰ.tail (Memᴰ.head refl)),
        (
          (λ q. absurd (differ (text "a") (text "c") refl q)),
          ((λ q. absurd (differ (text "b") (text "c") refl q)), ((λ q. refl), tt)),
        ),
      )

abbrev long_gone : Thought thousandths
long_gone = record cold {
  lifecycle_status = archived;
  archived_at_cycle = some 3;
  archived_at = some 7;
}

two_examined :
    All
      (λ t. Memᴰ t (warm ∷ long_gone ∷ []) × IsReapable thousandths policy 10 now t)
      (hygiene_gc_eligible thousandths policy 10 now (warm ∷ long_gone ∷ []))
    × (length (hygiene_gc_eligible thousandths policy 10 now (warm ∷ long_gone ∷ [])) ≤ 1)
two_examined = gc_sound thousandths policy 10 now (warm ∷ long_gone ∷ [])

run_writes_example :
    ((p : HygienePolicy thousandths) × (some policy ≡ some p)
      × (p.enabled ≡ true)
      × (p.dry_run ≡ false)
      × (would_evict_of thousandths hook true pool now policy 10
          ≡ would_evict_of thousandths hook true pool now p 10))
    × (resolve_current_cycle none (some 10) ≡ some 10)
    × ((would_evict_of thousandths hook true pool now policy 10 ≡ [])
        ⊎ (any (has_history thousandths hook true pool now) pool ≡ true))
unfolding run_hygiene resolve_current_cycle
run_writes_example =
    run_writes thousandths hook true pool now (some policy) none (some 10)
      (would_evict_of thousandths hook true pool now policy 10) 10 refl
