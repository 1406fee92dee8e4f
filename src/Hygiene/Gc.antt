-- ===== src/Hygiene/Gc.antt =====
-- `_hygiene_gc_eligible` (src/engrava/infrastructure/sqlite/engrava_core.py): which rows Stage 2 may
-- delete.
use engrava.Prelude.{
  ℕ, ◌+◌, ◌==◌, ◌≤◌, ◌≡◌, refl, ◌⊎◌, inl, inr, Bool, true, false, ◌&&◌, not, Option, none, some,
  List, [], ◌∷◌, any, arith, leb, leb→le, length, length-take, take, filter, All, All-take,
  All-filter, All-filter_self, if◌then◌else◌, Bool-cases,
}
use engrava.Prelude.Members.{All-of_mem}
use engrava.Prelude.Order.{Order, nat_order, text_order, pair_order}
use engrava.Prelude.Sort.{sort, All-sort}
use engrava.Prelude.Text.{Text}
use engrava.Floats.{Floats}
use engrava.Thought.Defs.{
  Thought, LifecycleStatus, created, active, done, archived, Instant, priority_eq,
}
use engrava.Hygiene.Select.{HygienePolicy, microseconds, hygiene_protected}
use engrava.Hygiene.Archive.{Store}
use mathlib.Core.List.{Memᴰ}

abbrev is_archived : LifecycleStatus → Bool
is_archived created = false
is_archived active = false
is_archived done = false
is_archived archived = true

-- `archived_at_cycle IS NOT NULL AND archived_at_cycle <= current_cycle - n`, where the difference
-- may be negative.
abbrev cycle_window : Option ℕ → ℕ → ℕ → Bool
cycle_window none n current_cycle = false
cycle_window (some at_cycle) n current_cycle = leb (at_cycle + n) current_cycle

-- `archived_at IS NOT NULL AND archived_at <= now - window`.
abbrev clock_window : Option Instant → ℕ → Instant → Bool
clock_window none seconds now = false
clock_window (some at) seconds now = leb (at + microseconds seconds) now

-- The key of ORDER BY, of a row that has a cycle.
abbrev gc_key : Option ℕ → ℕ
gc_key none = 0
gc_key (some n) = n

module _ (F : Floats) (policy : HygienePolicy F) (current_cycle : ℕ) (now : Instant) where
  -- The WHERE clause.
  unfoldable pub gc_where : Thought F → Bool
  gc_where t =
      is_archived t.lifecycle_status
      && cycle_window t.archived_at_cycle policy.gc_min_archive_age_cycles current_cycle
      && not t.pinned
      && (if policy.gc_restore_window_seconds == 0
          then true
          else clock_window t.archived_at policy.gc_restore_window_seconds now)
      && not (any (priority_eq t.priority) policy.protected_priorities)

  abbrev pub delete_key : Thought F → ℕ × Text
  delete_key t = (gc_key t.archived_at_cycle, t.thought_id)

  abbrev pub delete_order : Order (ℕ × Text)
  delete_order = pair_order nat_order text_order

  -- ORDER BY ... LIMIT, and the check in Python after it.
  unfoldable pub hygiene_gc_eligible : Store F → List (Thought F)
  unfolding gc_where hygiene_protected
  hygiene_gc_eligible rows =
      filter (λ t. not (hygiene_protected F t policy))
        (take policy.max_evictions_per_run (sort delete_order delete_key (filter gc_where rows)))

  -- A row that may be deleted.
  pub record IsReapable (t : Thought F) : Type 0 where
    pub was_archived : t.lifecycle_status ≡ archived
    pub unprotected : hygiene_protected F t policy ≡ false
    pub cycles :
        (n : ℕ) × (t.archived_at_cycle ≡ some n)
        × (n + policy.gc_min_archive_age_cycles ≤ current_cycle)
    pub clock :
        (policy.gc_restore_window_seconds ≡ 0)
        ⊎ ((at : Instant) × (t.archived_at ≡ some at)
            × (at + microseconds policy.gc_restore_window_seconds ≤ now))

  status_of : (s : LifecycleStatus) → is_archived s ≡ true → s ≡ archived
  status_of created h = cc
  status_of active h = cc
  status_of done h = cc
  status_of archived h = refl

  cycles_of :
      (o : Option ℕ) (n c : ℕ) → cycle_window o n c ≡ true → (m : ℕ) × (o ≡ some m) × (m + n ≤ c)
  cycles_of none n c h = cc
  cycles_of (some m) n c h = (m, refl, leb→le (m + n) c h)

  clock_of :
      (o : Option Instant) (seconds : ℕ) (t : Instant)
      → clock_window o seconds t ≡ true
      → (m : Instant) × (o ≡ some m) × (m + microseconds seconds ≤ t)
  clock_of none seconds t h = cc
  clock_of (some m) seconds t h = (m, refl, leb→le (m + microseconds seconds) t h)

  clock_case :
      (o : Option Instant) (seconds : ℕ) (t : Instant)
      → (if seconds == 0 then true else clock_window o seconds t) ≡ true
      → (seconds ≡ 0) ⊎ ((m : Instant) × (o ≡ some m) × (m + microseconds seconds ≤ t))
  clock_case o seconds t h = elim (Bool-cases (seconds == 0)) [
    | inl e ↦ inl (ground arith)
    | inr e ↦ inr (clock_of o seconds t (rw e at h))
  ]

  IsReapable-of_where : (t : Thought F) → gc_where t ≡ true → IsReapable t
  unfolding gc_where hygiene_protected
  IsReapable-of_where t h = record {
    was_archived = status_of t.lifecycle_status (ground arith);
    unprotected = ground arith;
    cycles = cycles_of t.archived_at_cycle _ current_cycle (ground arith);
    clock = clock_case t.archived_at _ now (ground arith);
  }

  length-filter_le : (p : Thought F → Bool) (xs : Store F) → length (filter p xs) ≤ length xs
  length-filter_le p [] = omega arith
  length-filter_le p (x ∷ xs) = ground (arith, length-filter_le p xs)

  IsReapable-rows : (rows : Store F) → All (λ t. Memᴰ t rows × IsReapable t) (filter gc_where rows)
  IsReapable-rows rows =
      let from = All-filter (λ t. Memᴰ t rows) gc_where rows (All-of_mem _ rows (λ t m. m)) in
      both (filter gc_where rows) from (All-filter_self gc_where rows)
    where
      both :
          (xs : Store F)
          → All (λ t. Memᴰ t rows) xs
          → All (λ t. gc_where t ≡ true) xs
          → All (λ t. Memᴰ t rows × IsReapable t) xs
      both [] h k = tt
      both (x ∷ xs) h k = ((h.0, IsReapable-of_where x k.0), both xs h.1 k.1)

  -- Every row that Stage 2 would delete is a stored row that hygiene archived, is not protected, and
  -- is past the cycle window and past the wall-clock window, if there is one; and there are at most
  -- `max_evictions_per_run` of them.
  pub gc_sound :
      (rows : Store F)
      → All (λ t. Memᴰ t rows × IsReapable t) (hygiene_gc_eligible rows)
        × (length (hygiene_gc_eligible rows) ≤ policy.max_evictions_per_run)
  unfolding hygiene_gc_eligible
  gc_sound rows =
      let ranked = sort delete_order delete_key (filter gc_where rows) in
      let cut = take policy.max_evictions_per_run ranked in
      (
        All-filter _ (λ t. not (hygiene_protected F t policy)) cut
            (All-take _ policy.max_evictions_per_run ranked
              (All-sort delete_order delete_key _ (filter gc_where rows) (IsReapable-rows rows))),
        omega (
          arith,
          length-filter_le (λ t. not (hygiene_protected F t policy)) cut,
          length-take policy.max_evictions_per_run ranked,
        ),
      )
