-- ===== src/Deletion/Cleanup.antt =====
-- `cleanup_expired` (src/engrava/infrastructure/sqlite/engrava_core.py) as a whole: the rows it leaves,
-- the references between the tables, and its answer.
use engrava.Prelude.{
  ℕ, ◌≡◌, refl, sym, subst, ◌∙◌, Bool, true, false, Option, List, [], ◌∷◌, map, filter, length,
  arith, All,
}
use engrava.Prelude.Order.{text_order}
use engrava.Prelude.Sort.{HasDistinctKeys}
use engrava.Prelude.Result.{ok, raised}
use engrava.Prelude.Text.{Text}
use engrava.Floats.{Floats}
use engrava.Thought.Defs.{Thought, Instant, ThoughtError}
use engrava.Expiry.Split.{expires, is_kept_pinned, ids_of, split_expired_lem}
use engrava.Deletion.Tables.{Db, Engine, settled}
use engrava.Deletion.Defs.{after, Call, in_savepoint}
use engrava.Deletion.Integrity.{IsIntact, settled_same}
use engrava.Deletion.Expire.{CleanupStrategy, CleanupResult, cleanup_expired}
use engrava.Deletion.Due.{filter_map, due, filter_map-expiring, filter_map-due}
use engrava.Deletion.Rounds.{vetoes, Loops, expire_all-Loops}

length-map {ℓ κ} :
    {A : Type ℓ} {B : Type κ} (f : A → B) (xs : List A) → length (map f xs) ≡ length xs
length-map f [] = refl
length-map f (x ∷ xs) = omega (arith, length-map f xs)

module _ {F : Floats} {J E : Type 0} (engine : Engine F J E) (clock : Instant)
    (invalid : ThoughtError → E) where
  -- What a cleanup may come to.
  pub data Cleaned (strategy : CleanupStrategy) (exclude_id : Option Text) (now : Instant)
      (db : Db F J) : Call engine CleanupResult → Type 0 where
    failed : (e : E) → Cleaned strategy exclude_id now db (db, raised e)
    cleaned :
        (later : Db F J)
        → later.thoughts
          ≡ filter_map
              (due (vetoes engine clock invalid strategy) strategy exclude_id now)
              db.thoughts
        → All
            (λ t.
              expires F exclude_id now t ≡ true
              → vetoes engine clock invalid strategy t.thought_id ≡ true)
            later.thoughts
        → IsIntact later
        → Cleaned strategy exclude_id now db (
          later,
          ok (record {
            expired_count = length (filter (expires F exclude_id now) db.thoughts);
            strategy_applied = strategy;
            timestamp = now;
            pinned_kept_count = length (filter (is_kept_pinned F exclude_id now) db.thoughts);
          }),
        )

  -- A cleanup of a store whose identities are distinct, and whose edges, embeddings and actions name
  -- stored thoughts, ends in one of two ways. It raised, and everything is as before. Or it returned:
  -- each row whose time is over, that is neither pinned nor the excluded one, is archived, or is
  -- deleted, unless a trigger kept it as it was, and every other row is as it was and in its place; no
  -- such row is left but those that a trigger kept; every edge, embedding and action still names a
  -- stored thought; and the answer counts all the rows whose time was over, those that a trigger kept
  -- among them, and the pinned ones apart.
  pub cleanup_expired-Cleaned :
      (strategy : CleanupStrategy) (opened : Bool) (exclude_id : Option Text) (now : Instant)
      (db : Db F J)
      → HasDistinctKeys text_order (λ t. t.thought_id) db.thoughts
      → IsIntact db
      → Cleaned strategy exclude_id now db
          (cleanup_expired engine clock invalid strategy opened exclude_id now db)
  unfolding cleanup_expired
  cleanup_expired-Cleaned strategy opened exclude_id now db distinct intact =
      rw (split_expired_lem F exclude_id now db.thoughts) (
        finished (
          expire_all-Loops engine clock invalid strategy (ids_of F exclude_id now overdue) false
            db))
    where
      overdue : List (Thought F)
      overdue = filter (expires F exclude_id now) db.thoughts

      answer : ℕ → CleanupResult
      answer n = record {
        expired_count = n;
        strategy_applied = strategy;
        timestamp = now;
        pinned_kept_count = length (filter (is_kept_pinned F exclude_id now) db.thoughts);
      }

      finished :
          {call : Call engine Bool}
          → Loops engine clock invalid strategy (ids_of F exclude_id now overdue) false db call
          → Cleaned strategy exclude_id now db (
              after engine (in_savepoint engine db call) (λ later wrote. (
                settled opened wrote db later,
                ok (answer (length (ids_of F exclude_id now overdue))),
              )))
      finished (Loops.failed later e) = Cleaned.failed e
      finished (Loops.done later wrote rows kept same start) =
          let now_due =
            rows
            ∙ filter_map-expiring (vetoes engine clock invalid strategy) strategy exclude_id now
                db.thoughts distinct in
          rw (length-map (λ t. t.thought_id) overdue, settled_same opened wrote db later same)
            (Cleaned.cleaned later now_due
              (subst (All _) (sym now_due) (
                filter_map-due (vetoes engine clock invalid strategy) strategy exclude_id now
                  db.thoughts))
              (kept intact))
