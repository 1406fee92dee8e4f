-- ===== src/Journal/Append.antt =====
-- What `JournalWriter.append` (src/engrava/infrastructure/sqlite/journal_writer.py) does to the
-- chain, alone and against other writers.
use engrava.Prelude.{
  ℕ, zero, suc, ◌+◌, ◌<◌, ◌≤◌, ◌≡◌, refl, ap, sym, subst, ◌∙◌, Bool, false, Option, none, some, [],
  ◌∷◌, ◌++◌, arith, length, any, Bool-cases, inl, inr, length-append,
}
use engrava.Prelude.Text.{Text, text_eq}
use mathlib.Core.List.{append-nil}
use mathlib.Core.Logic.{◌≢◌}
use engrava.Prelude.Result.{ok, raised}
use engrava.Journal.Table.{
  Row, Table, inserted, sequence_taken, entry_id_taken, place, insert_row, latest_entry_state,
}
use engrava.Journal.Defs.{
  Codec, Surroundings, sequence_contention, next_row, append_attempts, append, entry_of,
  check_revoked,
}
use engrava.Journal.Chain.{last_hash, hash_of, Chain}

-- The sequence numbers run on from `n` without a gap.
abbrev pub IsGapless : ℕ → Table → Type 0
IsGapless n [] = Unit
IsGapless n (r ∷ t) = (r.sequence_number ≡ suc n) × IsGapless (suc n) t

latest-IsGapless :
    (n : ℕ) (prev : Option Text) (r : Row) (t : Table)
    → IsGapless n (r ∷ t)
    → latest_entry_state (r ∷ t) ≡ (n + length (r ∷ t), last_hash prev (r ∷ t))
unfolding latest_entry_state last_hash
latest-IsGapless n prev r [] h = ground arith
latest-IsGapless n prev r (s ∷ t) h =
    latest-IsGapless (suc n) (some r.entry_hash) s t h.1
    ∙ ap (λ k. (k, last_hash (some s.entry_hash) t)) (omega arith)

place_next :
    (n : ℕ) (r : Row) (t : Table)
    → IsGapless n t
    → r.sequence_number ≡ n + length t + 1
    → place r t ≡ inserted (t ++ r ∷ [])
unfolding place
place_next n r [] g h = refl
place_next n r (s ∷ t) g h = ground (arith, place_next (suc n) r t g.1)

place_used :
    (n : ℕ) (r : Row) (t : Table)
    → IsGapless n t
    → n < r.sequence_number
    → r.sequence_number ≤ n + length t
    → place r t ≡ sequence_taken
unfolding place
place_used n r [] g lo hi = absurd (omega arith)
place_used n r (s ∷ t) g lo hi = ground (arith, place_used (suc n) r t g.1)

-- How the insert of a row numbered after `t` ends, where the table has become `seen`.
data Outcome (r : Row) (t seen : Table) : Type 0 where
  duplicate_id : insert_row r seen ≡ entry_id_taken → Outcome r t seen
  lost : insert_row r seen ≡ sequence_taken → seen ≢ t → Outcome r t seen
  won : insert_row r seen ≡ inserted (t ++ r ∷ []) → seen ≡ t → Outcome r t seen

longer : (t : Table) (s : Row) (more : Table) → t ++ s ∷ more ≢ t
longer t s more e = omega (arith, length-append t (s ∷ more), ap length e)

Outcome-appended :
    (r : Row) (t more : Table)
    → IsGapless 0 (t ++ more)
    → r.sequence_number ≡ length t + 1
    → Outcome r t (t ++ more)
unfolding insert_row
Outcome-appended r t [] g h =
    rw (append-nil t) (elim (Bool-cases (any (λ s. text_eq s.entry_id r.entry_id) t)) [
      | inl e ↦ duplicate_id (rw e)
      | inr e ↦ won (rw e (place_next 0 r t (rw (append-nil t) at g) (omega arith))) refl
    ])
Outcome-appended r t (s ∷ more) g h =
    elim (Bool-cases (any (λ s'. text_eq s'.entry_id r.entry_id) (t ++ s ∷ more))) [
      | inl e ↦ duplicate_id (rw e)
      | inr e ↦
          lost
            (rw e (
              place_used 0 r (t ++ s ∷ more) g (omega arith)
                (omega (arith, length-append t (s ∷ more)))))
            (longer t s more)
    ]

IsGapless-append :
    (n : ℕ) (r : Row) (t : Table)
    → IsGapless n t
    → r.sequence_number ≡ n + length t + 1
    → IsGapless n (t ++ r ∷ [])
IsGapless-append n r [] g h = (omega arith, tt)
IsGapless-append n r (s ∷ t) g h = (g.0, IsGapless-append (suc n) r t g.1 (omega arith))

earlier : (n k : ℕ) → k < suc n → n ≢ k → k < n
earlier n k h d = omega arith

module _ (c : Codec) where
  -- A journal as `append` leaves it.
  pub record IsJournal (t : Table) : Type 0 where
    pub chain : Chain c none t
    pub gapless : IsGapless 0 t

  Chain-append :
      (prev : Option Text) (t : Table) (r : Row)
      → Chain c prev t
      → r.parent_hash ≡ last_hash prev t
      → r.entry_hash ≡ hash_of c r
      → Chain c prev (t ++ r ∷ [])
  unfolding last_hash
  Chain-append prev [] r h p q = ((p, q), tt)
  Chain-append prev (s ∷ t) r h p q = (h.0, Chain-append (some s.entry_hash) t r h.1 p q)

  pub latest_of_IsJournal :
      (t : Table) → IsJournal t → latest_entry_state t ≡ (length t, last_hash none t)
  unfolding latest_entry_state last_hash
  latest_of_IsJournal [] j = refl
  latest_of_IsJournal (r ∷ t) j =
      latest-IsGapless 0 none r t j.gapless ∙ ap (λ k. (k, last_hash none (r ∷ t))) (omega arith)

  -- Reading back what was dumped gives the delta.
  module _ (loads_dumps : (d : c.Delta) → c.loads (c.dumps d) ≡ d) where
    IsJournal-append :
        (mutation_type : Text) (target_id : Option Text) (delta : c.Delta) (entry_id now : Text)
        (t : Table)
        → IsJournal t
        → IsJournal (t ++ next_row c mutation_type target_id delta entry_id now t ∷ [])
    unfolding next_row
    IsJournal-append mutation_type target_id delta entry_id now t j =
        rw (latest_of_IsJournal t j) (record {
          chain = Chain-append none t _ j.chain refl (rw loads_dumps refl);
          gapless = IsGapless-append 0 _ t j.gapless (omega arith);
        })

    next_number :
        (mutation_type : Text) (target_id : Option Text) (delta : c.Delta) (entry_id now : Text)
        (t : Table)
        → IsJournal t
        → (next_row c mutation_type target_id delta entry_id now t).sequence_number ≡ length t + 1
    unfolding next_row
    next_number mutation_type target_id delta entry_id now t j = rw (latest_of_IsJournal t j)

    -- Other writers only add rows, and leave a journal.
    abbrev pub OnlyAppends : Surroundings → Type 0
    OnlyAppends e =
        (n : ℕ) (t : Table)
        → IsJournal t
        → IsJournal (e.race n t) × ((more : Table) × (e.race n t ≡ t ++ more))

    module _ (e : Surroundings) (others : OnlyAppends e) (mutation_type : Text)
        (target_id : Option Text) (delta : c.Delta) where
      abbrev row_of : ℕ → Table → Row
      row_of n t = next_row c mutation_type target_id delta (e.uuid4 n) (e.now n) t

      raced : (n : ℕ) (t : Table) → IsJournal t → Outcome (row_of n t) t (e.race n t)
      raced n t j =
          let (journal, (more, added)) = others n t j in
          subst (Outcome (row_of n t) t) (sym added) (
            Outcome-appended (row_of n t) t more (subst (IsGapless 0) added journal.gapless)
              (next_number mutation_type target_id delta (e.uuid4 n) (e.now n) t j))

      attempts-IsJournal :
          (n : ℕ) (t : Table)
          → IsJournal t
          → IsJournal (append_attempts c e mutation_type target_id delta n t).1
      unfolding append_attempts
      attempts-IsJournal zero t j = j
      attempts-IsJournal (suc n) t j = elim (raced n t j) [
        | duplicate_id p ↦ rw (p, append_attempts) (others n t j).0
        | lost p _ ↦ rw (p, append_attempts) (attempts-IsJournal n (e.race n t) (others n t j).0)
        | won p _ ↦
            rw (p, append_attempts)
              (IsJournal-append mutation_type target_id delta (e.uuid4 n) (e.now n) t j)
      ]

      -- Against writers that only add rows, `append` leaves a journal: a chain of linked rows
      -- numbered 1, 2, 3, ... without a gap, whether it returns or raises.
      pub append-IsJournal :
          (revocation : Option Bool) (t : Table)
          → IsJournal t
          → IsJournal (append c revocation e mutation_type target_id delta t).1
      unfolding append
      append-IsJournal revocation t j = elim (Bool-cases (check_revoked revocation)) [
        | inl p ↦ rw p j
        | inr p ↦ rw p (attempts-IsJournal 5 t j)
      ]

      attempts_end :
          (n k : ℕ) (t : Table)
          → IsJournal t
          → k < n
          → ((u : Table) → e.race k u ≡ u)
          → (append_attempts c e mutation_type target_id delta n t).0 ≢ raised sequence_contention
      unfolding append_attempts
      attempts_end zero k t j h quiet = absurd (omega arith)
      attempts_end (suc n) k t j h quiet = elim (raced n t j) [
        | duplicate_id p ↦ rw (p, append_attempts) (λ q. cc)
        | lost p moved ↦
            rw (p, append_attempts)
              (attempts_end n k (e.race n t) (others n t j).0
                (earlier n k h (λ q. moved (rw q (quiet t)))) quiet)
        | won p _ ↦ rw (p, append_attempts) (λ q. cc)
      ]

      -- `append` does not give up for contention when other writers leave the table alone during
      -- one of its five attempts.
      pub append_retries :
          (revocation : Option Bool) (k : ℕ) (t : Table)
          → IsJournal t
          → k < 5
          → ((u : Table) → e.race k u ≡ u)
          → (append c revocation e mutation_type target_id delta t).0 ≢ raised sequence_contention
      unfolding append
      append_retries revocation k t j h quiet = elim (Bool-cases (check_revoked revocation)) [
        | inl p ↦ rw p (λ q. cc)
        | inr p ↦ rw p (attempts_end 5 k t j h quiet)
      ]

      first_attempt :
          (t : Table) {u : Table}
          → insert_row (row_of 4 t) (e.race 4 t) ≡ inserted u
          → append_attempts c e mutation_type target_id delta 5 t
            ≡ (ok (entry_of c (row_of 4 t) delta), u)
      unfolding append_attempts
      first_attempt t p = rw (p, append_attempts)

      -- With the connection usable, no other writer and a new `entry_id`, `append` returns the
      -- entry of one row added at the end, numbered one more than the rows there were.
      pub append_alone :
          (t : Table)
          → IsJournal t
          → e.race 4 t ≡ t
          → any (λ s. text_eq s.entry_id (e.uuid4 4)) t ≡ false
          → (row : Row) × (append c (some false) e mutation_type target_id delta t
              ≡ (ok (entry_of c row delta), t ++ row ∷ []))
            × (row.sequence_number ≡ length t + 1)
            × (row.parent_hash ≡ last_hash none t)
            × (row.mutation_type ≡ mutation_type)
            × (row.target_id ≡ target_id)
            × (c.loads row.delta ≡ delta)
      unfolding append next_row insert_row
      append_alone t j quiet fresh = (
        row_of 4 t,
        first_attempt t (
            rw quiet (
              rw fresh (
                place_next 0 (row_of 4 t) t j.gapless (
                  omega (
                    arith,
                    next_number mutation_type target_id delta (e.uuid4 4) (e.now 4) t j,
                  ))))),
        next_number mutation_type target_id delta (e.uuid4 4) (e.now 4) t j,
        rw (latest_of_IsJournal t j),
        refl,
        refl,
        loads_dumps delta,
      )
