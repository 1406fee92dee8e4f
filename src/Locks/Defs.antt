-- ===== src/Locks/Defs.antt =====
-- `_TaskReentrantLock` and `_DedupLock` (src/engrava/infrastructure/sqlite/engrava_core.py). A task
-- is a number, and `current_task()` is `none` outside of any task. The inner lock is that of asyncio:
-- a flag, which `acquire` waits for and sets and `release` clears; a task that got it goes on without
-- another in between.
use engrava.Prelude.{
  ℕ, suc, ◌-◌, ◌==◌, ◌≡◌, Bool, true, false, ◌&&◌, ◌||◌, not, Option, none, some, List, [], ◌∷◌,
  leb, if◌then◌else◌,
}
use engrava.Prelude.Result.{Result, ok, raised}

abbrev pub Caller : Type 0
Caller = Option ℕ

-- `a is b`.
unfoldable pub same_task : Caller → Caller → Bool
same_task none none = true
same_task none (some b) = false
same_task (some a) none = false
same_task (some a) (some b) = a == b

abbrev pub is_task : Caller → Bool
is_task none = false
is_task (some a) = true

pub record LockState : Type 0 where
  pub owner : Caller
  pub depth : ℕ
  pub locked : Bool

abbrev pub unlocked : LockState
unlocked = record { owner = none; depth = 0; locked = false }

pub data LockError : Type 0 where
  write_lock_timeout not_the_holder dedup_lock_reentry lock_not_acquired : LockError

-- `acquire` of the reentrant lock: `none` while it has to wait.
unfoldable pub acquire : Caller → LockState → Option LockState
acquire current s =
    if is_task current && same_task current s.owner
    then some (record s { depth = suc s.depth })
    else if s.locked
    then none
    else some (record { owner = current; depth = 1; locked = true })

unfoldable pub release : Caller → LockState → Result LockError LockState
release current s =
    if leb s.depth 0 || not (same_task current s.owner)
    then raised not_the_holder
    else if s.depth - 1 == 0
    then ok (record { owner = none; depth = 0; locked = false })
    else ok (record s { depth = s.depth - 1 })

-- `acquire` of the dedup lock: the error, or `none` while it has to wait.
unfoldable pub dedup_acquire : Caller → LockState → Option (Result LockError LockState)
dedup_acquire current s =
    if is_task current && same_task current s.owner
    then some (raised dedup_lock_reentry)
    else if s.locked
    then none
    else some (ok (record { owner = current; depth = 0; locked = true }))

-- `release` of the dedup lock clears the owner before the inner lock refuses.
unfoldable pub dedup_release : LockState → Result LockError LockState
dedup_release s =
    if s.locked
    then ok (record { owner = none; depth = 0; locked = false })
    else raised lock_not_acquired

pub data Event : Type 0 where
  acquired timed_out released refused : Caller → Event

-- What may happen to the reentrant lock: a call of `acquire` that returns, or that gives up after it
-- found the lock taken; a call of `release` that returns, or that raises.
pub data Step : LockState → Event → LockState → Type 0 where
  enters : (c : Caller) (s s' : LockState) → acquire c s ≡ some s' → Step s (acquired c) s'
  gives_up : (c : Caller) (s : LockState) → acquire c s ≡ none → Step s (timed_out c) s
  leaves : (c : Caller) (s s' : LockState) → release c s ≡ ok s' → Step s (released c) s'
  fails : (c : Caller) (s : LockState) → release c s ≡ raised not_the_holder → Step s (refused c) s

-- The events that lead from one state to another, the last one first.
pub data Run (s : LockState) : List Event → LockState → Type 0 where
  start : Run s [] s
  then_step :
      {es : List Event} {s' s'' : LockState} (e : Event)
      → Run s es s'
      → Step s' e s''
      → Run s (e ∷ es) s''
