-- ===== src/Migrations/Recorded.antt =====
-- The history against the files (src/engrava/infrastructure/sqlite/extension_migrations.py): what
-- the drift check, the adoption and the steps of a run have to do with it.
pub mod Steps
use engrava.Prelude.{
  ℕ, zero, suc, ◌+◌, ◌≡◌, ◌<◌, ◌≤◌, refl, sym, ap, subst, ◌∙◌, ◌⊎◌, ◌↔◌, inl, inr, Bool, true,
  false, ◌==◌, ==_iff, ltb, ltb→lt, Option, none, some, Option-cases, Bool-cases, List, [], ◌∷◌,
  ◌++◌, length, take, All, All-mono, All-append, arith,
}
use mathlib.Core.List.{append-nil, append_assoc}
use engrava.Prelude.Result.{Result, ok, raised, ◌>>=◌, Yields, >>=-Yields}
use engrava.Prelude.Text.{Text, text_eq, text_eq_iff, text_eq_refl}
use engrava.Migrations.Defs.{
  MigrationError, MigrationPath, Applied, Prepared, Summary, Database, insert_history, insert_all,
  read_sql, split_sql, split_or_raise, text_or_raise, baseline_from, verify_no_drift,
  reject_transaction_control, prepare_one, prepare_from,
}

-- A test that decides what a call returns.
Bool-Yields {ℓ} :
    {A : Type 0} (P : A → Type ℓ) (b : Bool) (x y : Result MigrationError A)
    → (b ≡ true → Yields P x)
    → (b ≡ false → Yields P y)
    → Yields P (elim b [ true ↦ x | false ↦ y ])
Bool-Yields P true x y h k = h refl
Bool-Yields P false x y h k = k refl

abbrev pub Below : ℕ → List Applied → Type 0
Below n rows = All (λ row. row.index < n) rows

pub insert_history-Below :
    (entry : Applied) (rows : List Applied)
    → Below entry.index rows
    → insert_history entry rows ≡ some (rows ++ entry ∷ [])
unfolding insert_history
insert_history-Below entry [] h = refl
insert_history-Below entry (row ∷ rows) h = cc (
  not_less entry.index row.index h.0,
  not_equal entry.index row.index h.0,
  insert_history-Below entry rows h.1,
)
  where
    not_less : (a b : ℕ) → b < a → ltb a b ≡ false
    not_less a b k = ground arith

    not_equal : (a b : ℕ) → b < a → (a == b) ≡ false
    not_equal a b k = ground arith

any-Yields : (m : Result MigrationError (Unit {0})) → Yields (λ _. Unit {0}) m
any-Yields (ok _) = tt
any-Yields (raised e) = tt

module _ (read : MigrationPath → Option Text) (digest : Text → Text) where
  -- The entry has the number, and the name and the content of the file as they are now.
  abbrev pub IsOf : ℕ → MigrationPath → Applied → Type 0
  IsOf i path entry =
      (entry.index ≡ i)
      × (path.name ≡ entry.migration_file)
      × ((sql : Text) × (read path ≡ some sql) × (digest sql ≡ entry.checksum))

  -- One entry for each file, numbered from `i` on, in the order of the files.
  abbrev pub Records : ℕ → List MigrationPath → List Applied → Type 0
  Records i [] [] = Unit
  Records i [] (e ∷ es) = ⊥
  Records i (p ∷ ps) [] = ⊥
  Records i (p ∷ ps) (e ∷ es) = IsOf i p e × Records (suc i) ps es

  pub Records-length :
      (i : ℕ) (ps : List MigrationPath) (es : List Applied)
      → Records i ps es
      → length es ≡ length ps
  Records-length i [] [] h = refl
  Records-length i [] (e ∷ es) h = absurd h
  Records-length i (p ∷ ps) [] h = absurd h
  Records-length i (p ∷ ps) (e ∷ es) h = ap suc (Records-length (suc i) ps es h.1)

  pub Records-append :
      (i : ℕ) (ps : List MigrationPath) (es : List Applied) (p : MigrationPath) (e : Applied)
      → Records i ps es
      → IsOf (i + length ps) p e
      → Records i (ps ++ p ∷ []) (es ++ e ∷ [])
  Records-append i [] [] p e h k = (subst (λ n. IsOf n p e) (omega arith) k, tt)
  Records-append i [] (x ∷ es) p e h k = absurd h
  Records-append i (q ∷ ps) [] p e h k = absurd h
  Records-append i (q ∷ ps) (x ∷ es) p e h k =
      (h.0, Records-append (suc i) ps es p e h.1 (subst (λ n. IsOf n p e) (omega arith) k))

  pub Records-Below :
      (i : ℕ) (ps : List MigrationPath) (es : List Applied)
      → Records i ps es
      → Below (i + length ps) es
  Records-Below i [] [] h = tt
  Records-Below i [] (e ∷ es) h = absurd h
  Records-Below i (p ∷ ps) [] h = absurd h
  Records-Below i (p ∷ ps) (e ∷ es) h = (
    omega (arith, h.0.0),
    subst (λ n. Below n es) (omega arith) (Records-Below (suc i) ps es h.1),
  )

  pub insert_all-Records :
      (i : ℕ) (ps : List MigrationPath) (es rows : List Applied)
      → Records i ps es
      → Below i rows
      → insert_all es rows ≡ some (rows ++ es)
  unfolding insert_all
  insert_all-Records i [] [] rows h b = ap some (sym (append-nil rows))
  insert_all-Records i [] (e ∷ es) rows h b = absurd h
  insert_all-Records i (p ∷ ps) [] rows h b = absurd h
  insert_all-Records i (p ∷ ps) (e ∷ es) rows h b =
      let first = insert_history-Below e rows (subst (λ n. Below n rows) (sym h.0.0) b) in
      let grown : Below (suc i) (rows ++ e ∷ []) =
        All-append _ rows (e ∷ []) (All-mono rows (λ r k. omega (arith, k)) b)
          (omega (arith, h.0.0), tt) in
      cc (
        first,
        insert_all-Records (suc i) ps es (rows ++ e ∷ []) h.1 grown,
        append_assoc rows (e ∷ []) es,
      )

  read_sql-Yields :
      (path : MigrationPath) → Yields (λ sql. read path ≡ some sql) (read_sql read path)
  read_sql-Yields path = from (read path) refl
    where
      from :
          (o : Option Text) → read path ≡ o → Yields (λ sql. read path ≡ some sql) (text_or_raise o)
      from none e = tt
      from (some sql) e = e

  -- The drift check passes only if the entries are those of the first files.
  pub verify_no_drift-Records :
      (i : ℕ) (ps : List MigrationPath) (es : List Applied)
      → Yields (λ _. Records i (take (length es) ps) es) (verify_no_drift read digest i ps es)
  unfolding verify_no_drift
  verify_no_drift-Records i [] [] = tt
  verify_no_drift-Records i (p ∷ ps) [] = tt
  verify_no_drift-Records i [] (e ∷ es) = tt
  verify_no_drift-Records i (p ∷ ps) (e ∷ es) =
      let Goal = λ (_ : Unit {0}). IsOf i p e × Records (suc i) (take (length es) ps) es in
      Bool-Yields Goal (e.index == i) _ _
        (λ number.
          Bool-Yields Goal (text_eq p.name e.migration_file) _ _
            (λ named.
              >>=-Yields (λ sql. read p ≡ some sql) Goal (read_sql read p) _ (read_sql-Yields p)
                (λ sql found.
                  Bool-Yields Goal (text_eq (digest sql) e.checksum) _ _
                    (λ same.
                      rest
                        (
                          (==_iff e.index i).0 number,
                          (text_eq_iff p.name e.migration_file).0 named,
                          (sql, found, (text_eq_iff (digest sql) e.checksum).0 same),
                        )
                        (verify_no_drift read digest (suc i) ps es)
                        (verify_no_drift-Records (suc i) ps es))
                    (λ _. tt)))
            (λ _. tt))
        (λ _. tt)
    where
      rest :
          IsOf i p e
          → (r : Result MigrationError (Unit {0}))
          → Yields (λ _. Records (suc i) (take (length es) ps) es) r
          → Yields (λ (_ : Unit {0}). IsOf i p e × Records (suc i) (take (length es) ps) es) r
      rest k (ok _) h = (k, h)
      rest k (raised x) h = tt

  -- Entries of the files that they record pass the drift check.
  pub verify_no_drift-of_Records :
      (i : ℕ) (ps : List MigrationPath) (es : List Applied)
      → Records i ps es
      → verify_no_drift read digest i ps es ≡ ok tt
  unfolding verify_no_drift
  verify_no_drift-of_Records i [] [] h = refl
  verify_no_drift-of_Records i [] (e ∷ es) h = absurd h
  verify_no_drift-of_Records i (p ∷ ps) [] h = absurd h
  verify_no_drift-of_Records i (p ∷ ps) (e ∷ es) ((number, named, (sql, found, same)), h) = cc (
    (==_iff e.index i).1 number,
    (text_eq_iff p.name e.migration_file).1 named,
    found,
    (text_eq_iff (digest sql) e.checksum).1 same,
    verify_no_drift-of_Records (suc i) ps es h,
  )

  pub baseline_from-Records :
      (i : ℕ) (ps : List MigrationPath)
      → Yields (λ es. Records i ps es) (baseline_from read digest i ps)
  unfolding baseline_from
  baseline_from-Records i [] = tt
  baseline_from-Records i (p ∷ ps) =
      >>=-Yields (λ sql. read p ≡ some sql) (λ es. Records i (p ∷ ps) es) (read_sql read p) _
        (read_sql-Yields p)
        (λ sql found.
          >>=-Yields (λ es. Records (suc i) ps es) (λ es. Records i (p ∷ ps) es)
            (baseline_from read digest (suc i) ps) _ (baseline_from-Records (suc i) ps)
            (λ es h. ((refl, refl, (sql, found, refl)), h)))

  module _ (split : Text → Option (List Text)) where
    -- A step of a run: the number, the name and the content of its file, cut into statements.
    abbrev pub StepOf : ℕ → MigrationPath → Prepared → Type 0
    StepOf i path step =
        (step.index ≡ i)
        × (path.name ≡ step.basename)
        × ((sql : Text) × (read path ≡ some sql)
            × (digest sql ≡ step.checksum)
            × (split sql ≡ some step.statements))

    abbrev pub StepsOf : ℕ → List MigrationPath → List Prepared → Type 0
    StepsOf i [] [] = Unit
    StepsOf i [] (s ∷ ss) = ⊥
    StepsOf i (p ∷ ps) [] = ⊥
    StepsOf i (p ∷ ps) (s ∷ ss) = StepOf i p s × StepsOf (suc i) ps ss

    split_sql-Yields : (sql : Text) → Yields (λ stmts. split sql ≡ some stmts) (split_sql split sql)
    split_sql-Yields sql = from (split sql) refl
      where
        from :
            (o : Option (List Text))
            → split sql ≡ o
            → Yields (λ stmts. split sql ≡ some stmts) (split_or_raise o)
        from none e = tt
        from (some stmts) e = e

    module _ (leading_keyword : Text → Text) where
      prepare_one-StepOf :
          (i : ℕ) (p : MigrationPath)
          → Yields (StepOf i p) (prepare_one read digest split leading_keyword i p)
      prepare_one-StepOf i p =
          >>=-Yields (λ sql. read p ≡ some sql) (StepOf i p) (read_sql read p) _ (read_sql-Yields p)
            (λ sql found.
              >>=-Yields (λ stmts. split sql ≡ some stmts) (StepOf i p) (split_sql split sql) _
                (split_sql-Yields sql)
                (λ stmts cut.
                  >>=-Yields (λ _. Unit {0}) (StepOf i p)
                    (reject_transaction_control leading_keyword stmts) _
                    (any-Yields (reject_transaction_control leading_keyword stmts))
                    (λ _ _. (refl, refl, (sql, found, refl, cut)))))

      pub prepare_from-StepsOf :
          (i : ℕ) (ps : List MigrationPath)
          → Yields (StepsOf i ps) (prepare_from read digest split leading_keyword i ps)
      unfolding prepare_from
      prepare_from-StepsOf i [] = tt
      prepare_from-StepsOf i (p ∷ ps) =
          >>=-Yields (StepOf i p) (StepsOf i (p ∷ ps))
            (prepare_one read digest split leading_keyword i p) _ (prepare_one-StepOf i p)
            (λ step h.
              >>=-Yields (StepsOf (suc i) ps) (StepsOf i (p ∷ ps))
                (prepare_from read digest split leading_keyword (suc i) ps) _
                (prepare_from-StepsOf (suc i) ps) (λ steps k. (h, k)))
