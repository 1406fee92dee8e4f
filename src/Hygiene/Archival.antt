-- ===== src/Hygiene/Archival.antt =====
-- What `_hygiene_archive` (src/engrava/infrastructure/sqlite/engrava_core.py) does to the rows,
-- alone and against other writers.
use engrava.Prelude.{
  ℕ, ◌+◌, ◌==◌, ◌≡◌, sym, ap, subst, ◌∙◌, ◌⊎◌, inl, inr, Bool, true, false, not, Option, none, some,
  List, [], ◌∷◌, arith, All, Bool-cases, Option-cases, if◌then◌else◌,
}
use engrava.Prelude.Text.{Text}
use mathlib.Core.List.{Memᴰ}
use engrava.Prelude.Result.{Result, ok, raised, ◌>>=◌, >>=-Returned}
use engrava.Floats.{Floats}
use engrava.Thought.Defs.{Thought, Instant}
use engrava.Hygiene.Select.{
  HygienePolicy, EvictionReason, hygiene_protected, hygiene_inactive_enough,
}
use engrava.Hygiene.Archive.{
  Store, get_thought_row, is_skipped, write_guard, archive_row, update_where, Archival,
  ArchiveError, matched, after_update, archive_found, archive_one, hygiene_archive,
  is_candidate_status,
}

module _ (F : Floats) where
  -- The check in Python and the WHERE clause of the UPDATE agree on a row.
  pub is_skipped_eq :
      (policy : HygienePolicy F) (now : Instant) (t : Thought F)
      → is_skipped F policy now t ≡ not (write_guard F policy now t)
  unfolding is_skipped write_guard hygiene_protected hygiene_inactive_enough
  is_skipped_eq policy now t = ground arith

  -- What the archival must leave alone.
  pub data IsSpared (policy : HygienePolicy F) (now : Instant) (t : Thought F) : Type 0 where
    protected : hygiene_protected F t policy ≡ true → IsSpared policy now t
    recent : hygiene_inactive_enough F t policy now ≡ false → IsSpared policy now t
    settled : is_candidate_status t.lifecycle_status ≡ false → IsSpared policy now t

  guard_IsSpared :
      (policy : HygienePolicy F) (now : Instant) (t : Thought F)
      → IsSpared policy now t
      → write_guard F policy now t ≡ false
  unfolding write_guard hygiene_protected hygiene_inactive_enough
  guard_IsSpared policy now t (protected h) = ground arith
  guard_IsSpared policy now t (recent h) = ground arith
  guard_IsSpared policy now t (settled h) = ground arith

  pub All-update_where :
      (P : Thought F → Type 0) (p : Thought F → Bool) (f : Thought F → Thought F) (s : Store F)
      → ((t : Thought F) → p t ≡ true → P t → P (f t))
      → All P s
      → All P (update_where F p f s).1
  unfolding update_where
  All-update_where P p f [] k h = tt
  All-update_where P p f (t ∷ s) k h = elim (Bool-cases (p t)) [
    | inl e ↦ rw e (k t e h.0, All-update_where P p f s k h.1)
    | inr e ↦ rw e (h.0, All-update_where P p f s k h.1)
  ]

  -- A row is in the table, and every row with its identity is it.
  abbrev pub Stays : Thought F → Store F → Type 0
  Stays v s = Memᴰ v s × All (λ t. (t.thought_id ≡ v.thought_id) → t ≡ v) s

  mem-update_where :
      (p : Thought F → Bool) (f : Thought F → Thought F) (v : Thought F) (s : Store F)
      → p v ≡ false
      → Memᴰ v s
      → Memᴰ v (update_where F p f s).1
  unfolding update_where
  mem-update_where p f v [] e m = elim m [ ]
  mem-update_where p f v (t ∷ s) e (Memᴰ.head q) =
      let here : p t ≡ false = ap p (sym q) ∙ e in rw here (Memᴰ.head q)
  mem-update_where p f v (t ∷ s) e (Memᴰ.tail m) = elim (Bool-cases (p t)) [
    | inl k ↦ rw k (Memᴰ.tail (mem-update_where p f v s e m))
    | inr k ↦ rw k (Memᴰ.tail (mem-update_where p f v s e m))
  ]

  module _ {J E : Type 0} (append : Option (Archival F → J → Result E J)) (clock : Instant)
      (race : Text → Store F → Store F) (policy : HygienePolicy F) (current_cycle : ℕ)
      (now : Instant) where
    abbrev step : EvictionReason F → Store F → J → Result (ArchiveError F E) (ℕ × Store F × J)
    step = archive_one F append clock race policy current_cycle now

    abbrev matches : EvictionReason F → Thought F → Bool
    matches = matched F append clock race policy current_cycle now

    finish_rows :
        (b : Bool) (r : Result (ArchiveError F E) J) (s : Store F) (j : J) (n : ℕ) (s' : Store F)
        (j' : J)
        → if◌then◌else◌ {A = Result (ArchiveError F E) (ℕ × Store F × J)} b
            (ok (0, s, j))
            (r >>= λ k. ok (1, s, k))
          ≡ ok (n, s', j')
        → s' ≡ s
    finish_rows true r s j n s' j' h = cc
    finish_rows false (ok k) s j n s' j' h = cc
    finish_rows false (raised e) s j n s' j' h = cc

    after_update_rows :
        (reason : EvictionReason F) (before : Thought F) (j : J) (u : ℕ × Store F) (n : ℕ)
        (s' : Store F) (j' : J)
        → after_update F append clock race policy current_cycle now reason before j u
          ≡ ok (n, s', j')
        → s' ≡ u.1
    after_update_rows reason before j (rowcount, s) n s' j' h =
        finish_rows (rowcount == 0) _ s j n s' j' h

    abbrev updated : EvictionReason F → Store F → Store F
    updated reason s =
        (update_where F (matches reason) (archive_row F current_cycle now)
          (race reason.thought_id s)).1

    -- Why a round wrote nothing: no row, or a row that the check in Python skips.
    abbrev NothingToDo : EvictionReason F → Store F → Type 0
    NothingToDo reason s =
        (get_thought_row F reason.thought_id s ≡ none)
        ⊎ ((before : Thought F) × (get_thought_row F reason.thought_id s ≡ some before)
            × (is_skipped F policy now before ≡ true))

    step_rows :
        (reason : EvictionReason F) (s : Store F) (j : J) (n : ℕ) (s' : Store F) (j' : J)
        → step reason s j ≡ ok (n, s', j')
        → (NothingToDo reason s × (s' ≡ s)) ⊎ (s' ≡ updated reason s)
    unfolding archive_one
    step_rows reason s j n s' j' h = elim (Option-cases (get_thought_row F reason.thought_id s)) [
      | inl p ↦ inl (inl p, cc (rw p at h))
      | inr (before, p) ↦ elim (Bool-cases (is_skipped F policy now before)) [
        | inl q ↦ inl (inr (before, p, q), cc (rw (p, q) at h))
        | inr q ↦ inr (after_update_rows reason before j _ n s' j' (rw (p, archive_found, q) at h))
      ]
    ]

    round-Stays :
        (v : Thought F) (reason : EvictionReason F) (s : Store F)
        → IsSpared policy now v
        → Stays v s
        → Stays v (update_where F (matches reason) (archive_row F current_cycle now) s).1
    unfolding archive_row
    round-Stays v reason s g h = (
      mem-update_where (matches reason) (archive_row F current_cycle now) v s
          (elim (Bool-cases (matches reason v)) [
            | inl w ↦ absurd (guard_of v w (guard_IsSpared policy now v g))
            | inr w ↦ w
          ])
          h.0,
      All-update_where _ (matches reason) (archive_row F current_cycle now) s
          (λ t w i e'.
            absurd
              (guard_of t w (ap (write_guard F policy now) (i e') ∙ guard_IsSpared policy now v g)))
          h.1,
    )
      where
        guard_of :
            (t : Thought F) → matches reason t ≡ true → write_guard F policy now t ≡ false → ⊥
        guard_of t w f = ground arith

    -- A row that is pinned, or of a protected priority, or was in contact too recently, or is neither
    -- ACTIVE nor CREATED, is still in the table after the run, as it was, and no row with its
    -- identity is another, as long as no other writer changes or deletes it.
    pub archive_spares :
        (v : Thought F) (count : ℕ) (reasons : List (EvictionReason F)) (s : Store F) (j : J)
        (n : ℕ) (s' : Store F) (j' : J)
        → IsSpared policy now v
        → ((x : Text) (u : Store F) → Stays v u → Stays v (race x u))
        → hygiene_archive F append clock race policy current_cycle now count reasons s j
          ≡ ok (n, s', j')
        → Stays v s
        → Stays v s'
    unfolding hygiene_archive
    archive_spares v count [] s j n s' j' g quiet h k = subst (Stays v) (cc h) k
    archive_spares v count (reason ∷ rest) s j n s' j' g quiet h k =
        let round = >>=-Returned (step reason s j) _ (n, s', j') h in
        let (m, s1, j1) = round.between in
        let p = round.first_returned in
        let q = round.then_returned in
        archive_spares v (count + m) rest s1 j1 n s' j' g quiet q
          (elim (step_rows reason s j m s1 j1 p) [
            | inl (_, e) ↦ subst (Stays v) (sym e) k
            | inr e ↦
                subst (Stays v) (sym e)
                  (round-Stays v reason (race reason.thought_id s) g (quiet reason.thought_id s k))
          ])
