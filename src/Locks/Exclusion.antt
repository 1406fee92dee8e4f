-- ===== src/Locks/Exclusion.antt =====
-- What `_TaskReentrantLock` (src/engrava/infrastructure/sqlite/engrava_core.py) keeps apart.
use engrava.Prelude.{
  ℕ, suc, ◌-◌, ◌<◌, ◌≡◌, ◌≢◌, ◌↔◌, refl, true, none, some, List, [], ◌∷◌, arith, ltb, if◌then◌else◌,
}
use engrava.Prelude.Result.{ok, raised}
use engrava.Locks.Defs.{
  Caller, same_task, LockState, unlocked, acquire, release, Event, acquired, timed_out, released,
  refused, not_the_holder, dedup_lock_reentry, dedup_acquire, dedup_release, Step, Run,
}

same_task_iff : (a b : Caller) → (same_task a b ≡ true) ↔ (a ≡ b)
unfolding same_task
same_task_iff none none = (λ h. refl, λ h. refl)
same_task_iff none (some b) = (λ h. cc, λ h. cc)
same_task_iff (some a) none = (λ h. cc, λ h. cc)
same_task_iff (some a) (some b) = ground arith

-- How many more times the caller has acquired the lock than released it.
abbrev pub holds : Caller → List Event → ℕ
holds c [] = 0
holds c (acquired d ∷ es) = if same_task c d then suc (holds c es) else holds c es
holds c (released d ∷ es) = if same_task c d then holds c es - 1 else holds c es
holds c (timed_out d ∷ es) = holds c es
holds c (refused d ∷ es) = holds c es

-- The depth is what the owner holds, and nobody else holds anything.
pub record IsCounted (es : List Event) (s : LockState) : Type 0 where
  pub flag : s.locked ≡ ltb 0 s.depth
  pub idle : s.depth ≡ 0 → s.owner ≡ none
  pub counts : (c : Caller) → holds c es ≡ (if same_task c s.owner then s.depth else 0)

acquired-IsCounted :
    (c : Caller) (es : List Event) (s s' : LockState)
    → IsCounted es s
    → acquire c s ≡ some s'
    → IsCounted (acquired c ∷ es) s'
unfolding acquire
acquired-IsCounted c es s s' k h = record {
  flag = ground (arith, k.flag, k.idle, same_task_iff c s.owner);
  idle = λ z. ground (arith, k.flag, k.idle, same_task_iff c s.owner);
  counts = λ d. ground (
    arith,
    k.flag,
    k.idle,
    k.counts d,
    same_task_iff d c,
    same_task_iff c s.owner,
    same_task_iff d s.owner,
  );
}

released-IsCounted :
    (c : Caller) (es : List Event) (s s' : LockState)
    → IsCounted es s
    → release c s ≡ ok s'
    → IsCounted (released c ∷ es) s'
unfolding release
released-IsCounted c es s s' k h = record {
  flag = ground (arith, k.flag, k.idle, same_task_iff c s.owner);
  idle = λ z. ground (arith, k.flag, k.idle, same_task_iff c s.owner);
  counts = λ d. ground (
    arith,
    k.flag,
    k.idle,
    k.counts d,
    same_task_iff d c,
    same_task_iff c s.owner,
    same_task_iff d s.owner,
    same_task_iff d none,
  );
}

Run-IsCounted : (es : List Event) (s : LockState) → Run unlocked es s → IsCounted es s
unfolding same_task
Run-IsCounted [] s Run.start = record {
  flag = ground arith;
  idle = λ h. refl;
  counts = λ c. ground arith;
}
Run-IsCounted (e ∷ es) s (Run.then_step {s' = s'} _ r step) =
    after es s' s step (Run-IsCounted es s' r)
  where
    after :
        {e : Event} (es : List Event) (s' s : LockState)
        → Step s' e s
        → IsCounted es s'
        → IsCounted (e ∷ es) s
    after es s' s (Step.enters c _ _ h) k = acquired-IsCounted c es s' s k h
    after es s' s (Step.gives_up c _ h) k = record {
      flag = k.flag;
      idle = k.idle;
      counts = k.counts;
    }
    after es s' s (Step.leaves c _ _ h) k = released-IsCounted c es s' s k h
    after es s' s (Step.fails c _ h) k = record { flag = k.flag; idle = k.idle; counts = k.counts }

-- In every run from the unlocked state, two callers that both hold the lock are one caller, and the
-- depth is the number of times it holds it.
pub mutual_exclusion :
    (es : List Event) (s : LockState) (c d : Caller)
    → Run unlocked es s
    → 0 < holds c es
    → 0 < holds d es
    → (c ≡ d) × (s.depth ≡ holds c es)
mutual_exclusion es s c d r h k =
    let counted = Run-IsCounted es s r in
    ground
      (arith, counted.counts c, counted.counts d, same_task_iff c s.owner, same_task_iff d s.owner)

-- In every run from the unlocked state, once nobody holds the lock, whoever calls `acquire` gets it at
-- depth 1, and a `release` is refused.
pub acquire_free :
    (es : List Event) (s : LockState) (c : Caller)
    → Run unlocked es s
    → ((d : Caller) → holds d es ≡ 0)
    → (acquire c s ≡ some (record { owner = c; depth = 1; locked = true }))
      × (release c s ≡ raised not_the_holder)
unfolding acquire release
acquire_free es s c r h =
    let counted = Run-IsCounted es s r in
    let none_held : s.depth ≡ 0 =
      ground (arith, counted.counts s.owner, same_task_iff s.owner s.owner, h s.owner) in
    ground (arith, none_held, counted.flag, counted.idle, same_task_iff c s.owner)

-- While a task holds the dedup lock, a second `acquire` of its own raises at once, any other task's
-- waits, and a release leaves the lock free.
pub dedup_held :
    (task : ℕ) (other : Caller) (s s' : LockState)
    → other ≢ some task
    → dedup_acquire (some task) s ≡ some (ok s')
    → (dedup_acquire (some task) s' ≡ some (raised dedup_lock_reentry))
      × (dedup_acquire other s' ≡ none)
      × (dedup_release s' ≡ ok unlocked)
unfolding dedup_acquire dedup_release
dedup_held task other s s' d h = ground (
  arith,
  same_task_iff other (some task),
  same_task_iff (some task) (some task),
  same_task_iff (some task) s.owner,
  d,
)
