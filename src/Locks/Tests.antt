-- ===== src/Locks/Tests.antt =====
-- Runs of the locks (src/engrava/infrastructure/sqlite/engrava_core.py), and their theorems at
-- concrete inputs.
use engrava.Prelude.{ℕ, ◌≡◌, refl, true, Option, none, some, [], ◌∷◌, arith}
use engrava.Prelude.Result.{ok, raised}
use engrava.Locks.Defs.{
  LockState, unlocked, acquire, release, same_task, dedup_acquire, dedup_release, not_the_holder,
  dedup_lock_reentry, acquired, Step, Run,
}
use engrava.Locks.Exclusion.{mutual_exclusion, acquire_free, dedup_held}

abbrev held_by : ℕ → ℕ → LockState
held_by task n = record { owner = some task; depth = n; locked = true }

twice : Run unlocked (acquired (some 7) ∷ acquired (some 7) ∷ []) (held_by 7 2)
unfolding acquire same_task
twice =
    Run.then_step _ (Run.then_step _ Run.start (Step.enters (some 7) unlocked (held_by 7 1) refl))
      (Step.enters (some 7) (held_by 7 1) (held_by 7 2) refl)

mutual_exclusion_example : (◌≡◌ {A = Option ℕ} (some 7) (some 7)) × (◌≡◌ {A = ℕ} 2 2)
unfolding same_task
mutual_exclusion_example =
    mutual_exclusion (acquired (some 7) ∷ acquired (some 7) ∷ []) (held_by 7 2) (some 7) (some 7)
      twice (omega arith) (omega arith)

acquire_free_example :
    (acquire (some 3) unlocked ≡ some (held_by 3 1))
    × (release (some 3) unlocked ≡ raised not_the_holder)
acquire_free_example = acquire_free [] unlocked (some 3) Run.start (λ d. refl)

second_writer_refused :
    (dedup_acquire (some 1) (held_by 1 0) ≡ some (raised dedup_lock_reentry))
    × (dedup_acquire (some 2) (held_by 1 0) ≡ none)
    × (dedup_release (held_by 1 0) ≡ ok unlocked)
unfolding dedup_acquire same_task
second_writer_refused = dedup_held 1 (some 2) unlocked (held_by 1 0) (λ e. cc) refl
