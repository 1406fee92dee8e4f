-- ===== src/Migrations/Runs.antt =====
-- Whole runs of the migrations (src/engrava/infrastructure/sqlite/extension_migrations.py).
use engrava.Prelude.{
  ℕ, suc, ◌≡◌, ◌≤◌, refl, sym, ap, subst, ◌∙◌, ◌⊎◌, inl, inr, false, ◌==◌, ==_iff, ltb, Bool-cases,
  Option, some, List, [], ◌∷◌, ◌++◌, length, length-append, length-take, take, drop,
  take-append-drop, arith, min,
}
use engrava.Prelude.Result.{Result, ok, raised, ◌>>=◌, Yields, >>=-Yields}
use engrava.Prelude.Order.{text_order}
use engrava.Prelude.Text.{Text}
use engrava.Migrations.Defs.{
  MigrationError, MigrationPath, Applied, Prepared, Summary, no_row, version, negative_version,
  Database, Call, recorded_version, reject_duplicates, verify_summary, refuse_downgrade, insert_all,
  baseline_from, verify_no_drift, adopt_baseline, adopt_legacy_history, history_or_adopted,
  prepare_from, checked_steps, run_steps, apply_sorted,
}
use engrava.Migrations.Recorded.{
  Records, Records-length, verify_no_drift-Records, StepsOf, prepare_from-StepsOf,
  baseline_from-Records, insert_all-Records,
}
use engrava.Migrations.Recorded.Steps.{
  Leaves, after-Leaves, Kept, Complete, Outcome, run_steps-Leaves, weaker-Outcome,
}

pub of_Leaves :
    {S A : Type 0} (R : Database S → Type 0) (P : Database S → A → Type 0) (m : Call S A)
    (db : Database S) (a : A)
    → Leaves R P m
    → m ≡ (db, ok a)
    → P db a
of_Leaves R P m db a h e = subst (Leaves R P) e h

refuse_downgrade-Yields :
    (current total : ℕ) → Yields (λ _. current ≤ total) (refuse_downgrade current total)
refuse_downgrade-Yields current total = elim (Bool-cases (ltb total current)) [
  | inl e ↦ rw e tt
  | inr e ↦ rw e (ground arith)
]

module _ (read : MigrationPath → Option Text) (digest : Text → Text)
    (split : Text → Option (List Text)) (leading_keyword : Text → Text) where
  -- What the checks before the steps have found.
  abbrev pub Checked : List MigrationPath → List Applied → List Prepared → Type 0
  Checked files applied steps =
      (length applied ≤ length files)
      × Records read digest 1 (take (length applied) files) applied
      × StepsOf read digest split (suc (length applied)) (drop (length applied) files) steps

  pub checked_steps-Checked :
      (files : List MigrationPath) (applied : List Applied)
      → Yields
          (Checked files applied)
          (checked_steps read digest split leading_keyword files applied)
  checked_steps-Checked files applied =
      let n = length applied in
      >>=-Yields (λ _. n ≤ length files) (Checked files applied) (refuse_downgrade n (length files))
        _ (refuse_downgrade-Yields n (length files))
        (λ _ bound.
          >>=-Yields (λ _. Records read digest 1 (take n files) applied) (Checked files applied)
            (verify_no_drift read digest 1 files applied) _
            (verify_no_drift-Records read digest 1 files applied)
            (λ _ h.
              steps_of bound h
                (prepare_from read digest split leading_keyword (suc n) (drop n files))
                (prepare_from-StepsOf read digest split leading_keyword (suc n) (drop n files))))
    where
      steps_of :
          length applied ≤ length files
          → Records read digest 1 (take (length applied) files) applied
          → (m : Result MigrationError (List Prepared))
          → Yields
              (StepsOf read digest split (suc (length applied)) (drop (length applied) files))
              m
          → Yields (Checked files applied) m
      steps_of b h (ok steps) k = (b, h, k)
      steps_of b h (raised e) k = tt

  module _ {S : Type 0} (exec : Text → S → Option S) where
    -- The steps that the checks let through, from a database that holds the applied rows.
    pub Checked-Outcome :
        (Q : List MigrationPath → Database S → Type 0)
        → Kept read digest split exec Q
        → (files : List MigrationPath) (db : Database S) (applied : List Applied)
          (steps : List Prepared)
        → db.history ≡ applied
        → Q (take (length applied) files) db
        → Checked files applied steps
        → Outcome read digest split exec Q files (length applied) (run_steps exec steps db)
    Checked-Outcome Q kept files db applied steps e q (bound, h, k) =
        let n = length applied in
        let done = take n files in
        let records = subst (Records read digest 1 done) (sym e) h in
        let count = length-take n files in
        subst (λ fs. Outcome read digest split exec Q fs n (run_steps exec steps db))
          (take-append-drop n files)
          (weaker-Outcome read digest split exec Q (done ++ drop n files) (length done) n
            (run_steps exec steps db) (omega (arith, bound, count))
            (run_steps-Leaves read digest split exec Q kept done (drop n files) steps db records q (
              subst (λ i. StepsOf read digest split i (drop n files) steps)
                (omega (arith, bound, count)) k)))

    -- Complete: every file recorded, and the summary is their number.
    abbrev pub Summed : List MigrationPath → Database S → Type 0
    Summed done db = (db.summary ≡ version (length done)) ⊎ (done ≡ [])

    Summed-Kept : Kept read digest split exec Summed
    Summed-Kept done p step db s q k e =
        inl (ap version (omega (arith, k.0, length-append done (p ∷ []))))

    -- The history that the run goes on with, and its summary.
    abbrev Begun : Database S → List Applied → Type 0
    Begun db applied =
        (db.history ≡ applied) × ((db.summary ≡ version (length applied)) ⊎ (applied ≡ []))

    abbrev Anything : Database S → Type 0
    Anything db = Unit

    adopted-Begun :
        (files : List MigrationPath) (db : Database S)
        → db.history ≡ []
        → Leaves Anything Begun (adopt_legacy_history read digest files db)
    unfolding adopt_legacy_history
    adopted-Begun files db e =
        elim (Bool-cases (ltb (length files) (recorded_version db.summary))) [
          | inl q ↦ rw (q, adopt_legacy_history) tt
          | inr q ↦
              rw (q, adopt_legacy_history)
                (adopts (baseline_from read digest 1 (take (recorded_version db.summary) files))
                  (baseline_from-Records read digest 1 (take (recorded_version db.summary) files))
                  q)
        ]
      where
        enough : (v total : ℕ) → ltb total v ≡ false → min v total ≡ v
        enough v total k = ground arith

        summed :
            (s : Summary) (baseline : List Applied)
            → length baseline ≡ recorded_version s
            → (s ≡ version (length baseline)) ⊎ (baseline ≡ [])
        summed no_row [] k = inr refl
        summed no_row (x ∷ xs) k = absurd (omega arith)
        summed (negative_version n) [] k = inr refl
        summed (negative_version n) (x ∷ xs) k = absurd (omega arith)
        summed (version n) baseline k = inl (ap version (sym k))

        adopts :
            (m : Result MigrationError (List Applied))
            → Yields (λ es. Records read digest 1 (take (recorded_version db.summary) files) es) m
            → ltb (length files) (recorded_version db.summary) ≡ false
            → Leaves Anything Begun (adopt_baseline read digest db m)
        adopts (raised x) h q = tt
        adopts (ok baseline) h q =
            let v = recorded_version db.summary in
            let count = Records-length read digest 1 (take v files) baseline h in
            let rows = insert_all-Records read digest 1 (take v files) baseline [] h tt in
            rw (subst (λ hs. insert_all baseline hs ≡ some baseline) (sym e) rows) (
              refl,
              summed db.summary baseline
                  (count ∙ (length-take v files ∙ enough v (length files) q)),
            )

    begins :
        (files : List MigrationPath) (db : Database S) (h : List Applied)
        → db.history ≡ h
        → Leaves Anything Begun (history_or_adopted read digest files db h)
    unfolding verify_summary
    begins files db [] e = adopted-Begun files db e
    begins files db (x ∷ xs) e = from db.summary refl
      where
        from :
            (s : Summary)
            → db.summary ≡ s
            → Leaves Anything Begun (db, verify_summary s (length (x ∷ xs)) >>= λ _. ok (x ∷ xs))
        from no_row q = elim (Bool-cases (length (x ∷ xs) == 0)) [
          | inl k ↦ absurd (omega (arith, (==_iff (length (x ∷ xs)) 0).0 k))
          | inr k ↦ rw k tt
        ]
        from (negative_version n) q = tt
        from (version n) q = elim (Bool-cases (n == length (x ∷ xs))) [
          | inl k ↦ rw k (e, inl (q ∙ ap version ((==_iff n (length (x ∷ xs))).0 k)))
          | inr k ↦ rw k tt
        ]

    Begun-Summed :
        (db : Database S) (applied : List Applied)
        → Begun db applied
        → (done : List MigrationPath) → Records read digest 1 done db.history
        → Summed done db
    Begun-Summed db applied (e, inl summed) done h =
        inl
          (summed ∙ ap version (ap length (sym e) ∙ Records-length read digest 1 done db.history h))
    Begun-Summed db applied (e, inr none_yet) [] h = inr refl
    Begun-Summed db applied (e, inr none_yet) (p ∷ ps) h = absurd (
        omega (arith, Records-length read digest 1 (p ∷ ps) db.history h, ap length (e ∙ none_yet)))

    Checked-Leaves :
        (files : List MigrationPath) (db : Database S) (applied : List Applied)
        (m : Result MigrationError (List Prepared))
        → Begun db applied
        → Yields (Checked files applied) m
        → Leaves Anything (λ db' steps. Begun db' applied × Checked files applied steps) (db, m)
    Checked-Leaves files db applied (raised e) b h = tt
    Checked-Leaves files db applied (ok steps) b h = (b, h)

    returned-Leaves :
        (files : List MigrationPath) (m : Call S (Unit {0})) (n : ℕ)
        → Outcome read digest split exec Summed files n m
        → Leaves Anything (λ db _. Complete read digest split exec Summed files db) m
    returned-Leaves files (db, raised e) n h = tt
    returned-Leaves files (db, ok a) n h = h

    pub apply_sorted-Complete :
        (files : List MigrationPath) (db : Database S)
        → Leaves Anything
            (λ db' _. Complete read digest split exec Summed files db')
            (apply_sorted read digest split leading_keyword exec files db)
    apply_sorted-Complete files db =
        after-Leaves Anything (λ db' _. Unit) Goal (db, reject_duplicates [] files) _
          (distinct (reject_duplicates [] files))
          (λ db1 _ _.
            after-Leaves Anything Begun Goal (history_or_adopted read digest files db1 db1.history)
              _ (begins files db1 db1.history refl)
              (λ db2 applied begun.
                after-Leaves Anything (λ db' steps. Begun db' applied × Checked files applied steps)
                  Goal (db2, checked_steps read digest split leading_keyword files applied) _
                  (Checked-Leaves files db2 applied _ begun (checked_steps-Checked files applied))
                  (λ db3 steps (begun', checked).
                    returned-Leaves files (run_steps exec steps db3) (length applied) (
                      Checked-Outcome Summed Summed-Kept files db3 applied steps begun'.0
                        (Begun-Summed db3 applied begun' (take (length applied) files) (
                          subst (Records read digest 1 (take (length applied) files)) (sym begun'.0)
                            checked.1))
                        checked))))
      where
        Goal : Database S → Unit {0} → Type 0
        Goal db' _ = Complete read digest split exec Summed files db'

        distinct : (m : Result MigrationError (Unit {0})) → Leaves Anything (λ db' _. Unit) (db, m)
        distinct (ok a) = tt
        distinct (raised e) = tt
