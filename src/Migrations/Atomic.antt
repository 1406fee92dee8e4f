-- ===== src/Migrations/Atomic.antt =====
-- What a run of the migrations (src/engrava/infrastructure/sqlite/extension_migrations.py) leaves
-- behind when it raises half-way.
use engrava.Prelude.{
  ℕ, zero, suc, ◌≡◌, refl, sym, ap, subst, ◌∙◌, false, ltb, Option, none, some, List, [], ◌∷◌, ◌++◌,
  length, length-append, take, arith,
}
use engrava.Prelude.Result.{Result, ok, raised, ◌>>=◌, Yields}
use engrava.Prelude.Text.{Text}
use engrava.Migrations.Defs.{
  MigrationError, MigrationPath, Applied, Prepared, Summary, no_row, version, Database,
  recorded_version, sorted_files, reject_duplicates, verify_summary, insert_all, baseline_from,
  adopt_legacy_history, history_or_adopted, checked_steps, exec_all, run_steps, apply_sorted,
  apply_pending,
}
use engrava.Migrations.Recorded.{Records, Records-length}
use engrava.Migrations.Recorded.Steps.{
  Leaves, after-Leaves, Kept, Reached, Complete, Outcome, weaker-Outcome,
}
use engrava.Migrations.Runs.{Checked, checked_steps-Checked, Checked-Outcome}

module _ {S : Type 0} (read : MigrationPath → Option Text) (digest : Text → Text)
    (split : Text → Option (List Text)) (exec : Text → S → Option S) where
  abbrev script : Option Text → Option (List Text)
  script none = none
  script (some sql) = split sql

  abbrev execute : Option (List Text) → S → Option S
  execute none s = none
  execute (some statements) s = exec_all exec statements s

  abbrev then_on : Option S → (S → Option S) → Option S
  then_on none f = none
  then_on (some s) f = f s

  -- The tables after the scripts of the files, one after another, from `base` on.
  abbrev pub exec_files : List MigrationPath → S → Option S
  exec_files [] base = some base
  exec_files (p ∷ ps) base = then_on (execute (script (read p)) base) (exec_files ps)

  abbrev pub summary_of : ℕ → Summary
  summary_of zero = no_row
  summary_of (suc n) = version (suc n)

  -- The tables are what the recorded files make of `base`, and the summary is their number.
  abbrev pub Made : S → List MigrationPath → Database S → Type 0
  Made base done db =
      (db.summary ≡ summary_of (length done)) × (exec_files done base ≡ some db.schema)

  exec_files-append :
      (done : List MigrationPath) (p : MigrationPath) (base s s' : S)
      → exec_files done base ≡ some s
      → execute (script (read p)) s ≡ some s'
      → exec_files (done ++ p ∷ []) base ≡ some s'
  exec_files-append [] p base s s' h k = cc (h, k)
  exec_files-append (q ∷ done) p base s s' h k =
      from (execute (script (read q)) base) (λ b e. exec_files-append done p b s s' e k) h
    where
      from :
          (o : Option S)
          → ((b : S) → exec_files done b ≡ some s → exec_files (done ++ p ∷ []) b ≡ some s')
          → then_on o (exec_files done) ≡ some s
          → then_on o (exec_files (done ++ p ∷ [])) ≡ some s'
      from none more e = absurd (cc e)
      from (some b) more e = more b e

  Made-Kept : (base : S) → Kept read digest split exec (Made base)
  Made-Kept base done p step db s (summary, made) k e = (
    numbered,
    exec_files-append done p base db.schema s made (
        subst (λ o. execute (script o) db.schema ≡ some s) (sym k.2.1)
          (subst (λ o. execute o db.schema ≡ some s) (sym k.2.3) e)),
  )
    where
      numbered : version step.index ≡ summary_of (length (done ++ p ∷ []))
      numbered =
          let more = length-append done (p ∷ []) in
          let count : length (done ++ p ∷ []) ≡ suc (length done) = omega (arith, more) in
          ap version k.0 ∙ sym (ap summary_of count)

  -- The recorded files are a prefix of all of them, and the database is what they make of `base`.
  abbrev pub Consistent : S → List MigrationPath → ℕ → Database S → Type 0
  Consistent base files least db = Reached read digest split exec (Made base) files least db

  -- The history that a consistent run goes on with is the recorded one.
  abbrev Unchanged : S → List MigrationPath → ℕ → Database S → List Applied → Type 0
  Unchanged base files least db applied = Consistent base files least db × (db.history ≡ applied)

  fresh :
      (base : S) (files : List MigrationPath) (least : ℕ) (db : Database S)
      → Consistent base files least db
      → db.history ≡ []
      → adopt_legacy_history read digest files db ≡ (db, ok [])
  unfolding adopt_legacy_history baseline_from insert_all
  fresh base files least db c e =
      let none_recorded : recorded_version db.summary ≡ 0 =
        ap recorded_version (unsummed c.recorded c.records c.keeps.0) in
      rw (none_recorded, never_less (length files), adopt_legacy_history) (rw none_recorded refl)
    where
      never_less : (n : ℕ) → ltb n 0 ≡ false
      never_less n = ground arith

      unsummed :
          (done : List MigrationPath)
          → Records read digest 1 done db.history
          → db.summary ≡ summary_of (length done)
          → db.summary ≡ no_row
      unsummed [] h q = q
      unsummed (p ∷ ps) h q =
          absurd (omega (arith, Records-length read digest 1 (p ∷ ps) db.history h, ap length e))

  history-Unchanged :
      (base : S) (files : List MigrationPath) (least : ℕ) (db : Database S) (h : List Applied)
      → db.history ≡ h
      → Consistent base files least db
      → Leaves
          (Consistent base files least)
          (Unchanged base files least)
          (history_or_adopted read digest files db h)
  history-Unchanged base files least db [] e c = rw (fresh base files least db c e) (c, e)
  history-Unchanged base files least db (x ∷ xs) e c =
      from (verify_summary db.summary (length (x ∷ xs)))
    where
      from :
          (m : Result MigrationError (Unit {0}))
          → Leaves
              (Consistent base files least)
              (Unchanged base files least)
              (db, m >>= λ _. ok (x ∷ xs))
      from (raised _) = c
      from (ok _) = (c, e)

  module _ (leading_keyword : Text → Text) where
    Checked-Unchanged :
        (base : S) (files : List MigrationPath) (least : ℕ) (db : Database S)
        (applied : List Applied) (m : Result MigrationError (List Prepared))
        → Unchanged base files least db applied
        → Yields (Checked read digest split leading_keyword files applied) m
        → Leaves
            (Consistent base files least)
            (λ db' steps.
              Unchanged base files least db' applied
              × Checked read digest split leading_keyword files applied steps)
            (db, m)
    Checked-Unchanged base files least db applied (raised e) (c, u) h = c
    Checked-Unchanged base files least db applied (ok steps) u h = (u, h)

    -- The recorded prefix is the one that the checks compared.
    prefix_taken :
        (files recorded left_over : List MigrationPath) (n : ℕ)
        → files ≡ recorded ++ left_over
        → length recorded ≡ n
        → take n files ≡ recorded
    prefix_taken files recorded left_over n parts count =
        rw (parts, sym count) (take_prefix recorded)
      where
        take_prefix : (xs : List MigrationPath) → take (length xs) (xs ++ left_over) ≡ xs
        take_prefix [] = refl
        take_prefix (x ∷ xs) = ap (◌∷◌ x) (take_prefix xs)

    apply_sorted-Outcome :
        (base : S) (files : List MigrationPath) (least : ℕ) (db : Database S)
        → Consistent base files least db
        → Outcome read digest split exec
            (Made base)
            files
            least
            (apply_sorted read digest split leading_keyword exec files db)
    apply_sorted-Outcome base files least db c =
        after-Leaves R (λ db' _. R db') Goal (db, reject_duplicates [] files) _
          (distinct (reject_duplicates [] files))
          (λ db1 _ c1.
            after-Leaves R (Unchanged base files least) Goal
              (history_or_adopted read digest files db1 db1.history) _
              (history-Unchanged base files least db1 db1.history refl c1)
              (λ db2 applied u.
                after-Leaves R
                  (λ db' steps.
                    Unchanged base files least db' applied
                    × Checked read digest split leading_keyword files applied steps)
                  Goal (db2, checked_steps read digest split leading_keyword files applied) _
                  (Checked-Unchanged base files least db2 applied _ u
                    (checked_steps-Checked read digest split leading_keyword files applied))
                  (λ db3 steps ((c3, u3), checked). runs db3 applied steps c3 u3 checked)))
      where
        R : Database S → Type 0
        R db' = Consistent base files least db'

        Goal : Database S → Unit {0} → Type 0
        Goal db' _ = Complete read digest split exec (Made base) files db'

        distinct :
            (m : Result MigrationError (Unit {0})) → Leaves R (λ db' (_ : Unit {0}). R db') (db, m)
        distinct (ok a) = c
        distinct (raised e) = c

        runs :
            (db3 : Database S) (applied : List Applied) (steps : List Prepared)
            → R db3
            → db3.history ≡ applied
            → Checked read digest split leading_keyword files applied steps
            → Outcome read digest split exec (Made base) files least (run_steps exec steps db3)
        runs db3 applied steps r u checked =
            let count =
              ap length (sym u) ∙ Records-length read digest 1 r.recorded db3.history r.records in
            let taken =
              prefix_taken files r.recorded r.left_over (length applied) r.parts (sym count) in
            weaker-Outcome read digest split exec (Made base) files (length applied) least
              (run_steps exec steps db3) (omega (arith, r.at_least, count))
              (Checked-Outcome read digest split leading_keyword exec (Made base) (Made-Kept base)
                files db3 applied steps u (subst (λ done. Made base done db3) (sym taken) r.keeps)
                checked)

    -- A run that starts where the recorded files are the first ones of the manifest by name, and the
    -- extension's tables what their scripts made, ends in such a state with no fewer files recorded,
    -- whether it returns or raises: a migration that fails half-way leaves its tables, the history
    -- and the summary as they were, and those before it stay. If it returns, every file is recorded
    -- and has run, once and in order.
    pub apply_pending-Outcome :
        (base : S) (path : MigrationPath) (paths : List MigrationPath) (db : Database S)
        → Consistent base (sorted_files (path ∷ paths)) 0 db
        → Outcome read digest split exec
            (Made base)
            (sorted_files (path ∷ paths))
            (length db.history)
            (apply_pending read digest split leading_keyword exec (path ∷ paths) db)
    unfolding apply_pending
    apply_pending-Outcome base path paths db c =
        let files = sorted_files (path ∷ paths) in
        apply_sorted-Outcome base files (length db.history) db record {
          recorded = c.recorded;
          left_over = c.left_over;
          parts = c.parts;
          at_least = omega (arith, Records-length read digest 1 c.recorded db.history c.records);
          records = c.records;
          keeps = c.keeps;
        }
