-- ===== src/Migrations/Recorded/Steps.antt =====
-- What the steps of a run (src/engrava/infrastructure/sqlite/extension_migrations.py) leave behind.
use engrava.Prelude.{
  ℕ, suc, ◌≡◌, ◌≤◌, refl, sym, subst, Option, none, some, Option-cases, inl, inr, List, [], ◌∷◌,
  ◌++◌, length, length-append, arith,
}
use mathlib.Core.List.{append-nil, append_assoc}
use engrava.Prelude.Result.{ok, raised}
use engrava.Prelude.Text.{Text}
use engrava.Migrations.Defs.{
  MigrationError, MigrationPath, Prepared, version, Database, Call, entry_of, after, exec_all,
  run_step, run_steps,
}
use engrava.Migrations.Recorded.{
  Records, Records-append, Records-Below, StepOf, StepsOf, Below, insert_history-Below,
}

-- What holds of the database when a call raises, and of the database and the result when it returns.
abbrev pub Leaves {ℓ κ μ} :
    {S : Type ℓ} {A : Type κ}
    → (Database S → Type μ)
    → (Database S → A → Type μ)
    → Call S A
    → Type μ
Leaves R P (db, raised e) = R db
Leaves R P (db, ok a) = P db a

pub after-Leaves {ℓ κ μ ξ} :
    {S : Type ℓ} {A : Type κ} {B : Type μ} (R : Database S → Type ξ) (P : Database S → A → Type ξ)
    (Q : Database S → B → Type ξ) (m : Call S A) (next : Database S → A → Call S B)
    → Leaves R P m
    → ((db : Database S) (a : A) → P db a → Leaves R Q (next db a))
    → Leaves R Q (after m next)
after-Leaves R P Q (db, raised e) next h k = h
after-Leaves R P Q (db, ok a) next h k = k db a h

-- The database after one migration.
abbrev pub stepped {ℓ} : {S : Type ℓ} → Prepared → Database S → S → Database S
stepped step db s = record {
  schema = s;
  history = db.history ++ entry_of step ∷ [];
  summary = version step.index;
}

module _ {S : Type 0} (read : MigrationPath → Option Text) (digest : Text → Text)
    (split : Text → Option (List Text)) (exec : Text → S → Option S) where
  step_none :
      (step : Prepared) (db : Database S)
      → exec_all exec step.statements db.schema ≡ none
      → run_step exec step db ≡ none
  unfolding run_step
  step_none step db e = rw (e, run_step) refl

  step_some :
      (step : Prepared) (db : Database S) (s : S)
      → Below step.index db.history
      → exec_all exec step.statements db.schema ≡ some s
      → run_step exec step db ≡ some (stepped step db s)
  unfolding run_step
  step_some step db s h e = cc (e, insert_history-Below (entry_of step) db.history h)

  -- `Q` is kept by a migration that runs.
  abbrev pub Kept : (List MigrationPath → Database S → Type 0) → Type 0
  Kept Q =
      (done : List MigrationPath) (p : MigrationPath) (step : Prepared) (db : Database S) (s : S)
      → Q done db
      → StepOf read digest split (suc (length done)) p step
      → exec_all exec step.statements db.schema ≡ some s
      → Q (done ++ p ∷ []) (stepped step db s)

  -- The files that are recorded, of all the files.
  pub record Reached (Q : List MigrationPath → Database S → Type 0) (files : List MigrationPath)
      (least : ℕ) (db : Database S) : Type 0 where
    pub recorded : List MigrationPath
    pub left_over : List MigrationPath
    pub parts : files ≡ recorded ++ left_over
    pub at_least : least ≤ length recorded
    pub records : Records read digest 1 recorded db.history
    pub keeps : Q recorded db

  abbrev pub Complete :
      (List MigrationPath → Database S → Type 0) → List MigrationPath → Database S → Type 0
  Complete Q files db = Records read digest 1 files db.history × Q files db

  -- What a run leaves behind, whether it raises or returns.
  abbrev pub Outcome :
      (List MigrationPath → Database S → Type 0)
      → List MigrationPath
      → ℕ
      → Call S (Unit {0})
      → Type 0
  Outcome Q files least m = Leaves (Reached Q files least) (λ db _. Complete Q files db) m

  pub weaker-Outcome :
      (Q : List MigrationPath → Database S → Type 0) (files : List MigrationPath) (n n' : ℕ)
      (m : Call S (Unit {0}))
      → n' ≤ n
      → Outcome Q files n m
      → Outcome Q files n' m
  weaker-Outcome Q files n n' (db, raised e) k r = record {
    recorded = r.recorded;
    left_over = r.left_over;
    parts = r.parts;
    at_least = omega (arith, k, r.at_least);
    records = r.records;
    keeps = r.keeps;
  }
  weaker-Outcome Q files n n' (db, ok a) k c = c

  failed_step :
      (step : Prepared) (steps : List Prepared) (db : Database S)
      → run_step exec step db ≡ none
      → run_steps exec (step ∷ steps) db ≡ (db, raised MigrationError.execution_failed)
  unfolding run_steps
  failed_step step steps db e = rw (e, run_steps) refl

  passed_step :
      (step : Prepared) (steps : List Prepared) (db db' : Database S)
      → run_step exec step db ≡ some db'
      → run_steps exec (step ∷ steps) db ≡ run_steps exec steps db'
  unfolding run_steps
  passed_step step steps db db' e = rw (e, run_steps) refl

  -- Every step that runs is recorded; one that fails leaves no trace, and ends the run.
  pub run_steps-Leaves :
      (Q : List MigrationPath → Database S → Type 0)
      → Kept Q
      → (done rest : List MigrationPath) (steps : List Prepared) (db : Database S)
      → Records read digest 1 done db.history
      → Q done db
      → StepsOf read digest split (suc (length done)) rest steps
      → Outcome Q (done ++ rest) (length done) (run_steps exec steps db)
  unfolding run_steps
  run_steps-Leaves Q kept done [] [] db h q k = rw (append-nil done) (h, q)
  run_steps-Leaves Q kept done [] (s ∷ ss) db h q k = absurd k
  run_steps-Leaves Q kept done (p ∷ ps) [] db h q k = absurd k
  run_steps-Leaves Q kept done (p ∷ ps) (step ∷ steps) db h q k =
      elim (Option-cases (exec_all exec step.statements db.schema)) [
        | inl e ↦
            subst (Outcome Q (done ++ p ∷ ps) (length done))
              (sym (failed_step step steps db (step_none step db e)))
              record {
                recorded = done;
                left_over = p ∷ ps;
                parts = refl;
                at_least = omega arith;
                records = h;
                keeps = q;
              }
        | inr (s, e) ↦
            let lower : Below step.index db.history =
              subst (λ n. Below n db.history) (omega (arith, k.0.0))
                (Records-Below read digest 1 done db.history h) in
            let more = length-append done (p ∷ []) in
            let longer =
              Records-append read digest 1 done db.history p (entry_of step) h
                (omega (arith, k.0.0), k.0.1, (k.0.2.0, k.0.2.1, k.0.2.2)) in
            let left : StepsOf read digest split (suc (length (done ++ p ∷ []))) ps steps =
              subst (λ n. StepsOf read digest split n ps steps) (omega (arith, more)) k.1 in
            subst (Outcome Q (done ++ p ∷ ps) (length done))
              (sym (passed_step step steps db (stepped step db s) (step_some step db s lower e)))
              (subst (λ fs. Outcome Q fs (length done) (run_steps exec steps (stepped step db s)))
                (append_assoc done (p ∷ []) ps)
                (weaker-Outcome Q (done ++ p ∷ [] ++ ps) (length (done ++ p ∷ [])) (length done)
                  (run_steps exec steps (stepped step db s)) (omega (arith, more))
                  (run_steps-Leaves Q kept (done ++ p ∷ []) ps steps (stepped step db s) longer
                    (kept done p step db s q k.0 e) left)))
      ]
