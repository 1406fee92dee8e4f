-- ===== src/Hygiene/OneUpdate.antt =====
-- `_hygiene_archive` (src/engrava/infrastructure/sqlite/engrava_core.py) without other writers is a
-- single UPDATE.
use engrava.Prelude.{
  ℕ, zero, suc, ◌+◌, ◌≤◌, ◌≡◌, refl, ap, inl, inr, Bool, true, false, ◌&&◌, Option, some, List, [],
  ◌∷◌, any, arith, All, All-mono, Bool-cases, Option-cases,
}
use engrava.Prelude.Text.{Text, text_eq, text_eq_iff}
use engrava.Prelude.Result.{Result, ok}
use engrava.Floats.{Floats}
use engrava.Thought.Defs.{Thought, Instant}
use engrava.Thought.Lifecycle.{IsValid}
use engrava.Hygiene.Select.{HygienePolicy, EvictionReason}
use engrava.Hygiene.Archive.{
  Store, get_thought_row, write_guard, archive_row, update_where, Archival, record_archival,
  matched, after_update, archive_found, archive_one, hygiene_archive,
}
use engrava.Hygiene.Archival.{is_skipped_eq, All-update_where}
use engrava.Hygiene.Stability.{DistinctIds}
use engrava.Hygiene.Rows.{
  update_none, update_at_most_one, row_none, row_only, row-All, update-DistinctIds, evolve_archived,
}

module _ (F : Floats) where
  module _ {J E : Type 0} (append : Option (Archival F → J → Result E J)) (clock : Instant)
      (race : Text → Store F → Store F) (policy : HygienePolicy F) (current_cycle : ℕ)
      (now : Instant) where
    abbrev pub targeted : List (EvictionReason F) → Thought F → Bool
    targeted reasons t =
        any (λ r. text_eq t.thought_id r.thought_id) reasons && write_guard F policy now t

    abbrev matches : EvictionReason F → Thought F → Bool
    matches = matched F append clock race policy current_cycle now

    abbrev pub set : Thought F → Thought F
    set = archive_row F current_cycle now

    -- A row that was archived is not archived again.
    archived_once : (t : Thought F) → write_guard F policy now (set t) ≡ false
    unfolding write_guard archive_row
    archived_once t = refl

    -- The UPDATE for one reason after the other is the UPDATE for all.
    update_compose :
        (r : EvictionReason F) (rest : List (EvictionReason F)) (s : Store F)
        → update_where F (targeted (r ∷ rest)) set s ≡ (
          (update_where F (matches r) set s).0
              + (update_where F (targeted rest) set (update_where F (matches r) set s).1).0,
          (update_where F (targeted rest) set (update_where F (matches r) set s).1).1,
        )
    unfolding update_where
    update_compose r rest [] = refl
    update_compose r rest (t ∷ s) = ground (arith, archived_once t, update_compose r rest s)

    -- Where the journal, if there is one, takes every entry.
    abbrev pub Appends : Type 0
    Appends =
        (write : Archival F → J → Result E J)
        → append ≡ some write
        → (a : Archival F) (j : J) → (j' : J) × (write a j ≡ ok j')

    record-ok :
        Appends
        → (r : EvictionReason F) (before : Thought F) (j : J) → IsValid F before
        → (j' : J) × (record_archival F append clock race policy current_cycle now r before j
            ≡ ok j')
    record-ok takes r before j v = elim (Option-cases append) [
      | inl e ↦ (j, rw e refl)
      | inr (write, e) ↦
          let (after, p) = evolve_archived F current_cycle now clock before v in
          let (j', q) =
            takes write e
              (record {
                target_id = r.thought_id;
                before = before;
                after = after;
                eviction_reason = r;
              })
              j in
          (j', rw (e, p, q))
    ]

    -- What one round does.
    abbrev Round : EvictionReason F → Store F → J → Type 0
    Round r s j =
        (j' : J) × (archive_one F append clock race policy current_cycle now r s j
          ≡ ok ((update_where F (matches r) set s).0, (update_where F (matches r) set s).1, j'))

    matches-id :
        (r : EvictionReason F) (t : Thought F) → matches r t ≡ true → t.thought_id ≡ r.thought_id
    matches-id r t h = (text_eq_iff t.thought_id r.thought_id).0 (ground arith)

    matches_row :
        (r : EvictionReason F) (s : Store F) (b : Thought F)
        → All (λ t. text_eq t.thought_id r.thought_id ≡ true → t ≡ b) s
        → write_guard F policy now b ≡ false
        → All (λ t. matches r t ≡ false) s
    matches_row r s b h g =
        All-mono s
          (λ t k. elim (Bool-cases (text_eq t.thought_id r.thought_id)) [
            | inl e ↦ rw (e, ap (write_guard F policy now) (k e), g)
            | inr e ↦ rw e
          ])
          h

    -- `rowcount` is one where it is not nought.
    finish :
        Appends
        → (r : EvictionReason F) (before : Thought F) (s : Store F) (j : J) (u : ℕ × Store F)
        → IsValid F before
        → u.0 ≤ 1
        → (j' : J) × (after_update F append clock race policy current_cycle now r before j u
            ≡ ok (u.0, u.1, j'))
    finish takes r before s j (zero, s') v h = (j, refl)
    finish takes r before s j (suc n, s') v h =
        let (j', p) = record-ok takes r before j v in (j', ground (arith, p))

    Round-alone :
        Appends
        → ((x : Text) (u : Store F) → race x u ≡ u)
        → (r : EvictionReason F) (s : Store F) (j : J) → DistinctIds F s
        → All (IsValid F) s
        → Round r s j
    unfolding archive_one
    Round-alone takes quiet r s j d v = elim (Option-cases (get_thought_row F r.thought_id s)) [
      | inl p ↦ (
        j,
        rw
            (
              p,
              update_none F (matches r) set s
                  (All-mono s (λ t e. rw e) (row_none F r.thought_id s p)),
            )
            refl,
      )
      | inr (b, p) ↦ elim (Bool-cases (write_guard F policy now b)) [
        | inl g ↦
            let (j', q) =
              finish takes r b s j (update_where F (matches r) set s)
                (row-All F (IsValid F) r.thought_id b s v p)
                (update_at_most_one F r.thought_id (matches r) set s (matches-id r) d) in
            (j', rw (p, archive_found, is_skipped_eq F policy now b, g, quiet r.thought_id s) q)
        | inr g ↦ (
          j,
          rw
              (
                p,
                archive_found,
                is_skipped_eq F policy now b,
                g,
                update_none F (matches r) set s
                    (matches_row r s b (row_only F r.thought_id b s d p) g),
              )
              refl,
        )
      ]
    ]

    set-IsValid : (t : Thought F) → IsValid F t → IsValid F (set t)
    unfolding archive_row
    set-IsValid t v = record { cycles = v.cycles; interval = v.interval }

    set_id : (t : Thought F) → (set t).thought_id ≡ t.thought_id
    unfolding archive_row
    set_id t = refl

    -- Without other writers, where the journal takes every entry, archiving a list of reasons
    -- succeeds, and is one UPDATE of the rows that the list names and that the WHERE clause admits:
    -- the count that is returned is the number of rows it writes.
    pub archive_one_update :
        Appends
        → ((x : Text) (u : Store F) → race x u ≡ u)
        → (count : ℕ) (reasons : List (EvictionReason F)) (s : Store F) (j : J) → DistinctIds F s
        → All (IsValid F) s
        → (j' : J) × (hygiene_archive F append clock race policy current_cycle now count reasons s j
            ≡ ok (
              count + (update_where F (targeted reasons) set s).0,
              (update_where F (targeted reasons) set s).1,
              j',
            ))
    unfolding hygiene_archive
    archive_one_update takes quiet count [] s j d v = (
      j,
      rw (update_none F (targeted []) set s (All-mono s (λ t _. refl) v))
          (ap (λ k. ok (k, s, j)) (omega arith)),
    )
    archive_one_update takes quiet count (r ∷ rest) s j d v =
        let (j1, p) = Round-alone takes quiet r s j d v in
        let u = update_where F (matches r) set s in
        let (j', q) =
          archive_one_update takes quiet (count + u.0) rest u.1 j1
            (update-DistinctIds F (matches r) set s set_id d)
            (All-update_where F (IsValid F) (matches r) set s (λ t _. set-IsValid t) v) in
        (
          j',
          rw (p, q, update_compose r rest s)
              (ap (λ k. ok (k, (update_where F (targeted rest) set u.1).1, j')) (omega arith)),
        )
