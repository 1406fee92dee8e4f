-- ===== src/Deletion/Delete.antt =====
-- The call `delete_thought` (src/engrava/infrastructure/sqlite/engrava_core.py) as a whole.
use engrava.Prelude.{
  ℕ, ◌==◌, ◌≡◌, refl, inl, inr, Bool, true, false, Option, none, some, List, Option-cases,
  if◌then◌else◌,
}
use engrava.Prelude.Result.{Result, ok, raised}
use engrava.Prelude.Text.{Text}
use engrava.Floats.{Floats}
use engrava.Thought.Defs.{Thought}
use engrava.Hygiene.Archive.{get_thought_row}
use engrava.Deletion.Tables.{
  Db, Delta, MutationType, deletes, Engine, DeleteAtomicResult, without, swept, delete_vector,
  settled,
}
use engrava.Deletion.Defs.{
  after, Call, in_savepoint, journalled, appended, embedding_rowid_for_thought, purge_orphan_vector,
  record_mutation, after_deleted, delete_one, delete_thought,
}
use engrava.Deletion.Effects.{removed, is_stored, Removes, delete_thought_atomic-Removes}
use engrava.Deletion.Integrity.{
  IsIntact, removed-IsIntact, swept-IsIntact, settled_same, get_thought_row-stored, any-gone,
}

abbrev pub purged : Option ℕ → List ℕ → List ℕ
purged none rows = rows
purged (some n) rows = without (◌==◌ n) rows

module _ {F : Floats} {J E : Type 0} (engine : Engine F J E) where
  -- What the journal holds after a mutation of the row `t`.
  pub data Records (kind : MutationType) (x : Text) (t : Thought F) (result : Option (Thought F))
      (j : J) : J → Type 0 where
    no_journal : engine.append ≡ none → Records kind x t result j j
    written :
        (append : Delta F → J → Result E J) (j' : J)
        → engine.append ≡ some append
        → append (record { mutation_type = kind; target_id = x; before = t; after = result }) j
          ≡ ok j'
        → Records kind x t result j j'

  -- A row taken away, its vector and its entry in the journal included.
  abbrev pub taken : Text → Db F J → J → Db F J
  taken x db j = record (removed x db) {
    vectors = purged (embedding_rowid_for_thought engine x db) db.vectors;
    journal = j;
  }

  pub taken-IsIntact : (x : Text) (db : Db F J) (j : J) → IsIntact db → IsIntact (taken x db j)
  taken-IsIntact x db j h =
      let i = removed-IsIntact x db h in
      record { edge_ends = i.edge_ends; owners = i.owners; sources = i.sources }

  pub data Takes (kind : MutationType) (x : Text) (db : Db F J)
      : Call engine DeleteAtomicResult → Type 0 where
    failed : (later : Db F J) (e : E) → Takes kind x db (later, raised e)
    vetoed :
        is_stored x db ≡ true
        → engine.ignores x ≡ true
        → Takes kind x db (db, ok (record { deleted = false; wrote_anything = false }))
    takes :
        (t : Thought F) (j : J)
        → get_thought_row F x db.thoughts ≡ some t
        → engine.ignores x ≡ false
        → Records kind x t none db.journal j
        → Takes kind x db (taken x db j, ok (record { deleted = true; wrote_anything = true }))
    not_there :
        (wrote : Bool)
        → is_stored x db ≡ false
        → (wrote ≡ false → swept x db ≡ db)
        → Takes kind x db (swept x db, ok (record { deleted = false; wrote_anything = wrote }))

  data Purges (rowid : Option ℕ) (db : Db F J) : Call engine (Unit {0}) → Type 0 where
    failed : (e : E) → Purges rowid db (db, raised e)
    done : Purges rowid db (record db { vectors = purged rowid db.vectors }, ok tt)

  purge-Purges :
      (rowid : Option ℕ) (db : Db F J) → Purges rowid db (purge_orphan_vector engine rowid db)
  purge-Purges none db = Purges.done
  purge-Purges (some n) db = elim (Option-cases (engine.fails (delete_vector n) db)) [
    | inr (e, h) ↦ rw h (Purges.failed e)
    | inl h ↦ rw h Purges.done
  ]

  -- The journal's part of a mutation of the row `t`.
  pub data Notes (kind : MutationType) (x : Text) (t : Thought F) (result : Option (Thought F))
      (db : Db F J) : Call engine (Unit {0}) → Type 0 where
    failed : (e : E) → Notes kind x t result db (db, raised e)
    noted :
        (j : J)
        → Records kind x t result db.journal j
        → Notes kind x t result db (record db { journal = j }, ok tt)

  pub record_mutation-Notes :
      (kind : MutationType) (x : Text) (t : Thought F) (result : Option (Thought F)) (db : Db F J)
      → Notes kind x t result db (record_mutation engine kind x (some t) result db)
  record_mutation-Notes kind x t result db = by_append engine.append refl
    where
      delta : Delta F
      delta = record { mutation_type = kind; target_id = x; before = t; after = result }

      attempt :
          (append : Delta F → J → Result E J)
          → engine.append ≡ some append
          → (o : Result E J) → append delta db.journal ≡ o
          → Notes kind x t result db (journalled engine db o)
      attempt append h (raised e) k = Notes.failed e
      attempt append h (ok j) k = Notes.noted j (Records.written append j h k)

      by_append :
          (o : Option (Delta F → J → Result E J))
          → engine.append ≡ o
          → Notes kind x t result db (appended engine o delta db)
      by_append none h = Notes.noted db.journal (Records.no_journal h)
      by_append (some append) h = attempt append h (append delta db.journal) refl

  -- What follows the delete in `delete_one`.
  abbrev followed :
      MutationType → Text → Db F J → Db F J → DeleteAtomicResult → Call engine DeleteAtomicResult
  followed kind x db later r =
      if r.deleted
      then after engine
          (after_deleted engine kind x (embedding_rowid_for_thought engine x db)
            (get_thought_row F x db.thoughts) later)
          (λ last _. (last, ok r))
      else (later, ok r)

  abbrev row_taken : DeleteAtomicResult
  row_taken = record { deleted = true; wrote_anything = true }

  note_case :
      (kind : MutationType) (x : Text) (db : Db F J) (t : Thought F) (call : Call engine (Unit {0}))
      → get_thought_row F x db.thoughts ≡ some t
      → engine.ignores x ≡ false
      → Notes kind x t none (taken x db db.journal) call
      → Takes kind x db (after engine call (λ last _. (last, ok row_taken)))
  note_case kind x db t _ h k (Notes.failed e) = Takes.failed _ e
  note_case kind x db t _ h k (Notes.noted j r) = Takes.takes t j h k r

  purge_case :
      (kind : MutationType) (x : Text) (db : Db F J) (t : Thought F) (call : Call engine (Unit {0}))
      → get_thought_row F x db.thoughts ≡ some t
      → engine.ignores x ≡ false
      → Purges (embedding_rowid_for_thought engine x db) (removed x db) call
      → Takes kind x db (
          after engine
            (after engine call (λ later _. record_mutation engine kind x (some t) none later))
            (λ last _. (last, ok row_taken)))
  purge_case kind x db t _ h k (Purges.failed e) = Takes.failed _ e
  purge_case kind x db t _ h k Purges.done =
      note_case kind x db t _ h k (record_mutation-Notes kind x t none (taken x db db.journal))

  pub delete_one-Takes :
      (kind : MutationType) (x : Text) (db : Db F J) → Takes kind x db (delete_one engine kind x db)
  unfolding delete_one
  delete_one-Takes kind x db = from_removes (delete_thought_atomic-Removes engine x db)
    where
      found : is_stored x db ≡ true → (t : Thought F) × (get_thought_row F x db.thoughts ≡ some t)
      found = get_thought_row-stored x db.thoughts

      from_removes :
          {call : Call engine DeleteAtomicResult}
          → Removes engine x db call
          → Takes kind x db (after engine call (followed kind x db))
      from_removes (Removes.failed e) = Takes.failed db e
      from_removes (Removes.vetoed h k) = Takes.vetoed h k
      from_removes (Removes.not_there wrote h k) = Takes.not_there wrote h k
      from_removes (Removes.removes h k) =
          let t = (found h).0 in
          rw ((found h).1) (
            purge_case kind x db t _ (found h).1 k
              (purge-Purges (embedding_rowid_for_thought engine x db) (removed x db)))

  -- What `delete_thought` may come to.
  pub data Deletes (x : Text) (db : Db F J) : Call engine Bool → Type 0 where
    failed : (e : E) → Deletes x db (db, raised e)
    vetoed : is_stored x db ≡ true → engine.ignores x ≡ true → Deletes x db (db, ok false)
    deleted :
        (t : Thought F) (j : J)
        → get_thought_row F x db.thoughts ≡ some t
        → engine.ignores x ≡ false
        → Records deletes x t none db.journal j
        → Deletes x db (taken x db j, ok true)
    not_there : is_stored x db ≡ false → Deletes x db (swept x db, ok false)

  -- A call of `delete_thought`, whether foreign keys are enforced or not, ends in one of these ways.
  -- Some statement or the journal raised, and everything is as before. A trigger kept the row, and
  -- everything is as before. The row is gone, with every edge, embedding and action that named it and
  -- with its vector, nothing else is changed but the journal, and the journal, if there is one, was
  -- given the row as it was. Or there was no such row, and what hung on its identity is gone.
  pub delete_thought-Deletes :
      (opened : Bool) (x : Text) (db : Db F J) → Deletes x db (delete_thought engine opened x db)
  unfolding delete_thought
  delete_thought-Deletes opened x db = finished (delete_one-Takes deletes x db)
    where
      finished :
          {call : Call engine DeleteAtomicResult}
          → Takes deletes x db call
          → Deletes x db (
              after engine
                (in_savepoint engine db call)
                (λ later r. (settled opened r.wrote_anything db later, ok r.deleted)))
      finished (Takes.failed later e) = Deletes.failed e
      finished (Takes.vetoed h k) =
          rw (settled_same opened false db db (λ _. refl)) (Deletes.vetoed h k)
      finished (Takes.takes t j h k r) = Deletes.deleted t j h k r
      finished (Takes.not_there wrote h k) =
          rw (settled_same opened wrote db (swept x db) k) (Deletes.not_there h)

  -- If every edge, embedding and action names a thought that is stored, then so it is after a call of
  -- `delete_thought`, whether foreign keys are enforced or not and however the call ends; and where the
  -- call answers that it deleted, the thought is no longer stored.
  pub delete_thought-IsIntact :
      (opened : Bool) (x : Text) (db : Db F J)
      → IsIntact db
      → IsIntact (delete_thought engine opened x db).0
        × ((delete_thought engine opened x db).1 ≡ ok true
            → is_stored x (delete_thought engine opened x db).0 ≡ false)
  delete_thought-IsIntact opened x db h = both (delete_thought-Deletes opened x db)
    where
      both :
          {call : Call engine Bool}
          → Deletes x db call
          → IsIntact call.0 × (call.1 ≡ ok true → is_stored x call.0 ≡ false)
      both (Deletes.failed e) = (h, λ k. absurd (cc k))
      both (Deletes.vetoed k l) = (h, λ k. absurd (cc k))
      both (Deletes.not_there k) = (swept-IsIntact x db h, λ k. absurd (cc k))
      both (Deletes.deleted t j k l r) = (taken-IsIntact x db j h, λ _. any-gone x db.thoughts)
