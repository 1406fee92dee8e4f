-- ===== src/Migrations/Again.antt =====
-- A run that returns, and the run after it (src/engrava/infrastructure/sqlite/extension_migrations.py).
use engrava.Prelude.{
  ℕ, suc, ◌≡◌, refl, ap, ◌∙◌, inl, inr, true, false, ◌==◌, ltb, Option, List, [], ◌∷◌, length, drop,
  arith,
}
use engrava.Prelude.Result.{Result, ok, raised}
use engrava.Prelude.Order.{text_order}
use engrava.Prelude.Sort.{length-sort}
use engrava.Prelude.Text.{Text}
use engrava.Migrations.Defs.{
  MigrationError, MigrationPath, Applied, version, Database, Call, after, sorted_files,
  reject_duplicates, verify_summary, history_or_adopted, prepare_from, checked_steps, run_steps,
  apply_sorted, apply_pending,
}
use engrava.Migrations.Recorded.{Records, Records-length, verify_no_drift-of_Records}
use engrava.Migrations.Recorded.Steps.{Complete}
use engrava.Migrations.Runs.{Summed, apply_sorted-Complete, of_Leaves}

first_returned :
    {S : Type 0} {A B : Type 0} (db db' : Database S) (b : B) (m : Result MigrationError A)
    (next : Database S → A → Call S B)
    → after (db, m) next ≡ (db', ok b)
    → (a : A) × (m ≡ ok a)
first_returned db db' b (ok a) next e = (a, refl)
first_returned db db' b (raised x) next e = absurd (cc (ap (λ r. r.1) e))

drop_all : (files : List MigrationPath) → drop (length files) files ≡ []
drop_all [] = refl
drop_all (p ∷ ps) = drop_all ps

module _ (read : MigrationPath → Option Text) (digest : Text → Text)
    (split : Text → Option (List Text)) (leading_keyword : Text → Text) where
  nothing_left :
      (files : List MigrationPath) (applied : List Applied)
      → Records read digest 1 files applied
      → checked_steps read digest split leading_keyword files applied ≡ ok []
  unfolding prepare_from
  nothing_left files applied h =
      let count = Records-length read digest 1 files applied h in
      rw
        (
          count,
          not_more (length files),
          verify_no_drift-of_Records read digest 1 files applied h,
          drop_all files,
        )
        refl
    where
      not_more : (n : ℕ) → ltb n n ≡ false
      not_more n = ground arith

  module _ {S : Type 0} (exec : Text → S → Option S) where
    same_history :
        (files : List MigrationPath) (db : Database S) (h : List Applied) (n : ℕ)
        → length h ≡ suc n
        → db.summary ≡ version (suc n)
        → history_or_adopted read digest files db h ≡ (db, ok h)
    unfolding verify_summary
    same_history files db [] n k q = absurd (omega (arith, k))
    same_history files db (x ∷ xs) n k q = rw (q, k, same (suc n)) refl
      where
        same : (n : ℕ) → (n == n) ≡ true
        same n = ground arith

    settled :
        (files : List MigrationPath) (db : Database S) (n : ℕ)
        → length files ≡ suc n
        → reject_duplicates [] files ≡ ok tt
        → Records read digest 1 files db.history
        → db.summary ≡ version (suc n)
        → apply_sorted read digest split leading_keyword exec files db ≡ (db, ok tt)
    unfolding run_steps
    settled files db n k distinct h q =
        let count = Records-length read digest 1 files db.history h in
        rw
          (
            distinct,
            same_history files db db.history n (count ∙ k) q,
            nothing_left files db.history h,
          )
          refl

    unit : (m : Result MigrationError (Unit {0})) → (a : Unit {0}) × (m ≡ ok a) → m ≡ ok tt
    unit m (a, e) = e

    -- A run that returns, from whatever database, has recorded every file of the manifest, in the
    -- order of the names, with the checksum that its content has now, under the numbers from 1 on;
    -- the summary is their number; and a second run changes nothing and returns.
    pub apply_pending_complete :
        (path : MigrationPath) (paths : List MigrationPath) (db db' : Database S)
        → apply_pending read digest split leading_keyword exec (path ∷ paths) db ≡ (db', ok tt)
        → Records read digest 1 (sorted_files (path ∷ paths)) db'.history
          × (db'.summary ≡ version (suc (length paths)))
          × (apply_pending read digest split leading_keyword exec (path ∷ paths) db' ≡ (db', ok tt))
    unfolding apply_pending
    apply_pending_complete path paths db db' e =
        let files = sorted_files (path ∷ paths) in
        let count = length-sort text_order (λ p. p.name) (path ∷ paths) in
        let Q = Summed read digest split leading_keyword exec in
        let whole : Complete read digest split exec Q files db' =
          of_Leaves (λ db. Unit) (λ db _. Complete read digest split exec Q files db)
            (apply_sorted read digest split leading_keyword exec files db) db' tt
            (apply_sorted-Complete read digest split leading_keyword exec files db) e in
        let distinct =
          unit (reject_duplicates [] files)
            (first_returned db db' tt (reject_duplicates [] files) _ e) in
        let summary = numbered files db' whole.1 count in
        (whole.0, summary, settled files db' (length paths) count distinct whole.0 summary)
      where
        numbered :
            (files : List MigrationPath) (db' : Database S)
            → Summed read digest split leading_keyword exec files db'
            → length files ≡ suc (length paths)
            → db'.summary ≡ version (suc (length paths))
        numbered files db' (inl q) count = q ∙ ap version count
        numbered files db' (inr q) count = absurd (omega (arith, count, ap length q))
