-- ===== src/Deletion/Rounds.antt =====
-- The rounds of an expiry (src/engrava/infrastructure/sqlite/engrava_core.py), one by one and together.
use engrava.Prelude.{
  ℕ, ◌≡◌, refl, ap, ◌∙◌, inl, inr, Bool, true, false, ◌||◌, Option, none, some, List, [], ◌∷◌, ltb,
  any, arith, All-mono, Option-cases, if◌then◌else◌,
}
use engrava.Prelude.Order.{text_order}
use engrava.Prelude.Result.{Result, ok, raised}
use engrava.Prelude.Text.{Text}
use engrava.Floats.{Floats}
use engrava.Thought.Defs.{Thought, Instant, ThoughtError}
use engrava.Hygiene.Archive.{get_thought_row, update_where}
use engrava.Deletion.Tables.{
  Db, Delta, updates, deletes, Engine, DeleteAtomicResult, archive_thought, Counts, counts,
  identified, expire_row, swept,
}
use engrava.Deletion.Defs.{after, Call}
use engrava.Deletion.Integrity.{IsIntact, swept-IsIntact}
use engrava.Deletion.Delete.{taken-IsIntact, Notes, record_mutation-Notes, Takes, delete_one-Takes}
use engrava.Deletion.Expire.{
  CleanupStrategy, archive, delete, note_evolved, note_expiry, was_noted, expire_one, expire_all,
}
use engrava.Deletion.Rows.{
  update_where-hit, any-update, update_nothing, without-hit, vetoed-hit, absent-hit,
}
use engrava.Deletion.Due.{filter_map, filter_map-some, hit, hits, filter_map-hits}

module _ {F : Floats} {J E : Type 0} (engine : Engine F J E) (clock : Instant)
    (invalid : ThoughtError → E) where
  -- Of which rows a trigger turns the statement of a round into nothing.
  abbrev pub vetoes : CleanupStrategy → Text → Bool
  vetoes archive = engine.ignores_update
  vetoes delete = engine.ignores

  -- A round: the rows that it leaves, and that it leaves the database as it was where it wrote nothing.
  data Rounds (strategy : CleanupStrategy) (x : Text) (db : Db F J)
      : Call engine Bool → Type 0 where
    failed : (later : Db F J) (e : E) → Rounds strategy x db (later, raised e)
    done :
        (later : Db F J) (wrote : Bool)
        → later.thoughts ≡ filter_map (hit (vetoes strategy) strategy x) db.thoughts
        → (IsIntact db → IsIntact later)
        → (wrote ≡ false → later ≡ db)
        → Rounds strategy x db (later, ok wrote)

  -- The journal's part of a round: nothing else is touched.
  data NotesExpiry (append : Option (Delta F → J → Result E J)) (db : Db F J)
      (before : Option (Thought F)) : Call engine (Unit {0}) → Type 0 where
    failed : (e : E) → NotesExpiry append db before (db, raised e)
    noted :
        (j : J)
        → (was_noted engine clock invalid append before ≡ false → j ≡ db.journal)
        → NotesExpiry append db before (record db { journal = j }, ok tt)

  note_expiry-NotesExpiry :
      (append : Option (Delta F → J → Result E J)) (x : Text) (before : Option (Thought F))
      (db : Db F J)
      → NotesExpiry append db before (note_expiry engine clock invalid append x before db)
  note_expiry-NotesExpiry none x before db = NotesExpiry.noted db.journal (λ _. refl)
  note_expiry-NotesExpiry (some append) x none db = NotesExpiry.noted db.journal (λ _. refl)
  note_expiry-NotesExpiry (some append) x (some before) db = at _
    where
      of_notes :
          {result : Thought F} {call : Call engine (Unit {0})}
          → Notes engine updates x before (some result) db call
          → NotesExpiry (some append) db (some before) call
      of_notes (Notes.failed e) = NotesExpiry.failed e
      of_notes (Notes.noted j r) = NotesExpiry.noted j (λ e. absurd (cc e))

      at :
          (o : Result ThoughtError (Thought F))
          → NotesExpiry
              (some append)
              db
              (some before)
              (note_evolved engine clock invalid x before o db)
      at (raised e) = NotesExpiry.failed (invalid e)
      at (ok result) = of_notes (record_mutation-Notes engine updates x before (some result) db)

  delete-Rounds :
      (x : Text) (db : Db F J) (call : Call engine DeleteAtomicResult)
      → Takes engine deletes x db call
      → Rounds delete x db (after engine call (λ later r. (later, ok r.wrote_anything)))
  delete-Rounds x db _ (Takes.failed later e) = Rounds.failed later e
  delete-Rounds x db _ (Takes.vetoed h k) =
      Rounds.done db false (vetoed-hit engine.ignores delete x db.thoughts k) (λ i. i) (λ _. refl)
  delete-Rounds x db _ (Takes.takes t j h k r) =
      Rounds.done _ true (without-hit engine.ignores x db.thoughts k) (taken-IsIntact engine x db j)
        (λ e. absurd (cc e))
  delete-Rounds x db _ (Takes.not_there wrote h k) =
      Rounds.done (swept x db) wrote (absent-hit engine.ignores delete x db.thoughts h)
        (swept-IsIntact x db) k

  -- The UPDATE of a round under ARCHIVE.
  abbrev archived_in : Text → Db F J → Db F J
  archived_in x db = record db {
    thoughts = (update_where F (identified x) expire_row db.thoughts).1;
  }

  archived-IsIntact :
      (x : Text) (db : Db F J) (j : J)
      → IsIntact db
      → IsIntact (record (archived_in x db) { journal = j })
  archived-IsIntact x db j h = record {
    edge_ends =
        All-mono db.edges (λ e k. (same e.from_thought_id ∙ k.0, same e.to_thought_id ∙ k.1))
          h.edge_ends;
    owners = All-mono db.embeddings (λ e k. same e.owner_id ∙ k) h.owners;
    sources = All-mono db.actions (λ a k. same a.source_thought_id ∙ k) h.sources;
  }
    where
      same :
          (y : Text)
          → any (identified y) (archived_in x db).thoughts ≡ any (identified y) db.thoughts
      same y = any-update x y db.thoughts

  was_noted-none :
      (append : Option (Delta F → J → Result E J)) (before : Option (Thought F))
      → before ≡ none
      → was_noted engine clock invalid append before ≡ false
  was_noted-none none before h = refl
  was_noted-none (some append) none h = refl
  was_noted-none (some append) (some before) h = absurd (cc h)

  archive-Rounds :
      (x : Text) (db : Db F J) → Rounds archive x db (expire_one engine clock invalid archive x db)
  unfolding expire_one
  archive-Rounds x db = elim (Option-cases (engine.fails (archive_thought x) db)) [
    | inr (e, h) ↦ rw h (Rounds.failed db e)
    | inl h ↦ rw h (by_veto (engine.ignores_update x) refl)
  ]
    where
      row : Option (Thought F)
      row = get_thought_row F x db.thoughts

      noted : Bool
      noted = was_noted engine clock invalid engine.append row

      changes : ℕ
      changes = (update_where F (identified x) expire_row db.thoughts).0

      untouched :
          (j : J)
          → (noted ≡ false → j ≡ db.journal)
          → (ltb 0 changes || noted) ≡ false
          → record (archived_in x db) { journal = j } ≡ db
      untouched j h k =
          let nothing = update_nothing x db.thoughts (ground (arith, k)) in
          λ i. record db {
            thoughts = nothing.0 i;
            journal = h (was_noted-none engine.append row nothing.1) i;
          }

      of_noted :
          {call : Call engine (Unit {0})}
          → engine.ignores_update x ≡ false
          → NotesExpiry engine.append (archived_in x db) row call
          → Rounds archive x db (after engine call (λ last _. (last, ok (ltb 0 changes || noted))))
      of_noted v (NotesExpiry.failed e) = Rounds.failed _ e
      of_noted v (NotesExpiry.noted j h) =
          Rounds.done _ (ltb 0 changes || noted)
            (update_where-hit engine.ignores_update x db.thoughts v) (archived-IsIntact x db j)
            (untouched j h)

      of_vetoed :
          {call : Call engine (Unit {0})}
          → engine.ignores_update x ≡ true
          → NotesExpiry engine.append db row call
          → Rounds archive x db (after engine call (λ last _. (last, ok noted)))
      of_vetoed v (NotesExpiry.failed e) = Rounds.failed _ e
      of_vetoed v (NotesExpiry.noted j h) =
          Rounds.done (record db { journal = j }) noted
            (vetoed-hit engine.ignores_update archive x db.thoughts v)
            (λ k. record { edge_ends = k.edge_ends; owners = k.owners; sources = k.sources })
            (λ k i. record db { journal = h k i })

      call_of : Bool → Call engine Bool
      call_of b =
          let done =
            if◌then◌else◌ {A = Db F J × Counts} b (db, counts 0)
              (archived_in x db, counts changes) in
          after engine (note_expiry engine clock invalid engine.append x row done.0)
            (λ last _. (last, ok (ltb 0 done.1.changes || noted)))

      by_veto : (b : Bool) → engine.ignores_update x ≡ b → Rounds archive x db (call_of b)
      by_veto true v = of_vetoed v (note_expiry-NotesExpiry engine.append x row db)
      by_veto false v = of_noted v (note_expiry-NotesExpiry engine.append x row (archived_in x db))

  expire_one-Rounds :
      (strategy : CleanupStrategy) (x : Text) (db : Db F J)
      → Rounds strategy x db (expire_one engine clock invalid strategy x db)
  unfolding expire_one
  expire_one-Rounds archive x db = archive-Rounds x db
  expire_one-Rounds delete x db = delete-Rounds x db _ (delete_one-Takes engine deletes x db)

  pub data Loops (strategy : CleanupStrategy) (xs : List Text) (wrote : Bool) (db : Db F J)
      : Call engine Bool → Type 0 where
    failed : (later : Db F J) (e : E) → Loops strategy xs wrote db (later, raised e)
    done :
        (later : Db F J) (wrote' : Bool)
        → later.thoughts ≡ filter_map (hits (vetoes strategy) strategy xs) db.thoughts
        → (IsIntact db → IsIntact later)
        → (wrote' ≡ false → later ≡ db)
        → (wrote' ≡ false → wrote ≡ false)
        → Loops strategy xs wrote db (later, ok wrote')

  pub expire_all-Loops :
      (strategy : CleanupStrategy) (xs : List Text) (wrote : Bool) (db : Db F J)
      → Loops strategy xs wrote db (expire_all engine clock invalid strategy xs wrote db)
  unfolding expire_all
  expire_all-Loops strategy [] wrote db =
      Loops.done db wrote (filter_map-some db.thoughts) (λ i. i) (λ _. refl) (λ e. e)
  expire_all-Loops strategy (x ∷ xs) wrote db =
      step _ (expire_one-Rounds strategy x db)
        (λ w later. expire_all-Loops strategy xs (w || wrote) later)
    where
      step :
          (call : Call engine Bool)
          → Rounds strategy x db call
          → ((w : Bool) (later : Db F J)
              → Loops strategy xs
                  (w || wrote)
                  later
                  (expire_all engine clock invalid strategy xs (w || wrote) later))
          → Loops strategy (x ∷ xs) wrote db (
              after engine call
                (λ later w. expire_all engine clock invalid strategy xs (w || wrote) later))
      step _ (Rounds.failed later e) k = Loops.failed later e
      step _ (Rounds.done later w rows intact same) k = joined (k w later)
        where
          joined :
              {rest : Call engine Bool}
              → Loops strategy xs (w || wrote) later rest
              → Loops strategy (x ∷ xs) wrote db rest
          joined (Loops.failed last e) = Loops.failed last e
          joined (Loops.done last w' rows' intact' same' sofar) =
              Loops.done last w'
                (rows'
                  ∙ (ap (filter_map (hits (vetoes strategy) strategy xs)) rows
                      ∙ filter_map-hits (vetoes strategy) strategy x xs db.thoughts))
                (λ i. intact' (intact i)) (λ e. same' e ∙ same (ground (arith, sofar e)))
                (λ e. ground (arith, sofar e))
