-- ===== src/Deletion/Effects.antt =====
-- What `_delete_thought_children_explicit` and `_delete_thought_atomic`
-- (src/engrava/infrastructure/sqlite/engrava_core.py) leave, in every case.
use engrava.Prelude.{
  ℕ, ◌+◌, ◌==◌, ◌≡◌, refl, ap, inl, inr, Bool, true, false, List, [], ◌∷◌, ltb, any, filter, length,
  arith, Bool-cases, Option-cases,
}
use engrava.Prelude.Result.{ok, raised}
use engrava.Prelude.Text.{Text}
use engrava.Floats.{Floats}
use engrava.Deletion.Tables.{
  Db, Engine, DeleteAtomicResult, without, touches, owned, sourced, identified, swept, hanging,
  dropped, delete_edges, delete_embeddings, delete_actions, delete_thought_row, delete_cascading,
}
use engrava.Deletion.Defs.{
  after, Call, in_savepoint, delete_thought_children_explicit, after_parent, delete_thought_atomic,
}

module _ {ℓ} {A : Type ℓ} (p : A → Bool) where
  pub any-length : (xs : List A) → any p xs ≡ ltb 0 (length (filter p xs))
  any-length [] = refl
  any-length (x ∷ xs) = ground (arith, any-length xs)

  pub without_nothing : (xs : List A) → length (filter p xs) ≡ 0 → without p xs ≡ xs
  without_nothing [] h = refl
  without_nothing (x ∷ xs) h = elim (Bool-cases (p x)) [
    | inl e ↦ absurd (ground arith)
    | inr e ↦ rw (e, filter) (ap (◌∷◌ x) (without_nothing xs (ground arith)))
  ]

  pub without-without : (xs : List A) → without p (without p xs) ≡ without p xs
  without-without [] = refl
  without-without (x ∷ xs) = elim (Bool-cases (p x)) [
    | inl e ↦ rw (e, filter) (without-without xs)
    | inr e ↦ rw (e, filter, e, filter) (ap (◌∷◌ x) (without-without xs))
  ]

module _ {F : Floats} {J : Type 0} where
  -- The thought and what hangs on it, gone.
  abbrev pub removed : Text → Db F J → Db F J
  removed x db = dropped x (swept x db)

  abbrev pub is_stored : Text → Db F J → Bool
  is_stored x db = any (identified x) db.thoughts

  swept_nothing : (x : Text) (db : Db F J) → hanging x db ≡ 0 → swept x db ≡ db
  swept_nothing x db h i = record db {
    edges = without_nothing (touches x) db.edges (omega (arith, h)) i;
    embeddings = without_nothing (owned x) db.embeddings (omega (arith, h)) i;
    actions = without_nothing (sourced x) db.actions (omega (arith, h)) i;
  }

  swept-swept : (x : Text) (db : Db F J) → swept x (removed x db) ≡ removed x db
  swept-swept x db i = record (removed x db) {
    edges = without-without (touches x) db.edges i;
    embeddings = without-without (owned x) db.embeddings i;
    actions = without-without (sourced x) db.actions i;
  }

  pub dropped_nothing : (x : Text) (db : Db F J) → is_stored x db ≡ false → dropped x db ≡ db
  dropped_nothing x db h i = record db {
    thoughts =
        without_nothing (identified x) db.thoughts
          (ground (arith, h, any-length (identified x) db.thoughts)) i;
  }

module _ {F : Floats} {J E : Type 0} (engine : Engine F J E) where
  pub data Sweeps (x : Text) (db : Db F J) : Call engine ℕ → Type 0 where
    failed : (e : E) → Sweeps x db (db, raised e)
    done : Sweeps x db (swept x db, ok (hanging x db))

  pub delete_thought_children_explicit-Sweeps :
      (x : Text) (db : Db F J) → Sweeps x db (delete_thought_children_explicit engine x db)
  unfolding delete_thought_children_explicit
  delete_thought_children_explicit-Sweeps x db =
      let db1 : Db F J = record db { edges = without (touches x) db.edges } in
      let db2 : Db F J = record db1 { embeddings = without (owned x) db.embeddings } in
      elim (Option-cases (engine.fails (delete_edges x) db)) [
        | inr (e, h) ↦ rw h (Sweeps.failed e)
        | inl h ↦ elim (Option-cases (engine.fails (delete_embeddings x) db1)) [
          | inr (e, k) ↦ rw (h, k) (Sweeps.failed e)
          | inl k ↦ elim (Option-cases (engine.fails (delete_actions x) db2)) [
            | inr (e, l) ↦ rw (h, k, l) (Sweeps.failed e)
            | inl l ↦ rw (h, k, l) Sweeps.done
          ]
        ]
      ]

  pub data Removes (x : Text) (db : Db F J) : Call engine DeleteAtomicResult → Type 0 where
    failed : (e : E) → Removes x db (db, raised e)
    vetoed :
        is_stored x db ≡ true
        → engine.ignores x ≡ true
        → Removes x db (db, ok (record { deleted = false; wrote_anything = false }))
    removes :
        is_stored x db ≡ true
        → engine.ignores x ≡ false
        → Removes x db (removed x db, ok (record { deleted = true; wrote_anything = true }))
    not_there :
        (wrote : Bool)
        → is_stored x db ≡ false
        → (wrote ≡ false → swept x db ≡ db)
        → Removes x db (swept x db, ok (record { deleted = false; wrote_anything = wrote }))

  abbrev after_children : Db F J → Bool → ℕ → Call engine ℕ → Call engine DeleteAtomicResult
  after_children db deleted changes call = in_savepoint engine db (
      after engine call
        (λ db2 m. (db2, ok (record { deleted = deleted; wrote_anything = ltb 0 (changes + m) }))))

  stored_case :
      (x : Text) (db db1 : Db F J) (changes : ℕ) (call : Call engine ℕ)
      → is_stored x db ≡ true
      → engine.ignores x ≡ false
      → ltb 0 changes ≡ true
      → swept x db1 ≡ removed x db
      → Sweeps x db1 call
      → Removes x db (after_children db true changes call)
  stored_case x db db1 n _ stored passed change same (Sweeps.failed e) = Removes.failed e
  stored_case x db db1 n _ stored passed change same Sweeps.done =
      let more : ltb 0 (n + hanging x db1) ≡ true = ground arith in
      rw (more, same) (Removes.removes stored passed)

  absent_case :
      (x : Text) (db : Db F J) (call : Call engine ℕ)
      → is_stored x db ≡ false
      → Sweeps x db call
      → Removes x db (after_children db false 0 call)
  absent_case x db _ absent (Sweeps.failed e) = Removes.failed e
  absent_case x db _ absent Sweeps.done =
      Removes.not_there (ltb 0 (0 + hanging x db)) absent (λ e. swept_nothing x db (ground arith))

  delete_cascading-Removes :
      (keys : Bool) (x : Text) (db : Db F J)
      → engine.ignores x ≡ false
      → Removes x db (
          in_savepoint engine db (
            after_parent engine x db
              (is_stored x db)
              (delete_cascading keys x db).0
              (delete_cascading keys x db).1))
  delete_cascading-Removes keys x db passed = elim (Bool-cases (is_stored x db)) [
    | inl k ↦ stored keys k (ground (arith, k, any-length (identified x) db.thoughts))
    | inr k ↦ absent keys k (ground (arith, k, any-length (identified x) db.thoughts))
  ]
    where
      gone : ℕ
      gone = length (filter (identified x) db.thoughts)

      stored :
          (keys : Bool)
          → is_stored x db ≡ true
          → ltb 0 gone ≡ true
          → Removes x db (
              in_savepoint engine db (
                after_parent engine x db
                  (is_stored x db)
                  (delete_cascading keys x db).0
                  (delete_cascading keys x db).1))
      stored false k e = rw e (
          stored_case x db (dropped x db) gone _ k passed e refl
            (delete_thought_children_explicit-Sweeps x (dropped x db)))
      stored true k e =
          let some_gone : (gone == 0) ≡ false = ground arith in
          rw (some_gone, e)
            (stored_case x db (removed x db) (gone + hanging x db) _ k passed (ground arith)
              (swept-swept x db) (delete_thought_children_explicit-Sweeps x (removed x db)))

      absent :
          (keys : Bool)
          → is_stored x db ≡ false
          → gone ≡ 0
          → Removes x db (
              in_savepoint engine db (
                after_parent engine x db
                  (is_stored x db)
                  (delete_cascading keys x db).0
                  (delete_cascading keys x db).1))
      absent false k e =
          rw (k, e, dropped_nothing x db k)
            (absent_case x db _ k (delete_thought_children_explicit-Sweeps x db))
      absent true k e =
          rw (k, e, dropped_nothing x db k)
            (absent_case x db _ k (delete_thought_children_explicit-Sweeps x db))

  pub delete_thought_atomic-Removes :
      (x : Text) (db : Db F J) → Removes x db (delete_thought_atomic engine x db)
  unfolding delete_thought_atomic
  delete_thought_atomic-Removes x db =
      elim (Option-cases (engine.fails (delete_thought_row x) db)) [
        | inr (e, h) ↦ rw h (Removes.failed e)
        | inl h ↦ elim (Bool-cases (engine.ignores x)) [
          | inl v ↦ elim (Bool-cases (is_stored x db)) [
            | inl k ↦ rw (h, v, k) (Removes.vetoed k v)
            | inr k ↦
                rw (h, v, k) (absent_case x db _ k (delete_thought_children_explicit-Sweeps x db))
          ]
          | inr v ↦ rw (h, v) (delete_cascading-Removes engine.foreign_keys x db v)
        ]
      ]
