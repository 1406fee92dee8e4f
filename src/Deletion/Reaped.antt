-- ===== src/Deletion/Reaped.antt =====
-- What the deletions of the second stage of hygiene
-- (src/engrava/infrastructure/sqlite/engrava_core.py) leave.
use engrava.Prelude.{
  ℕ, suc, ◌+◌, ◌≤◌, ◌≡◌, refl, sym, ap, subst, ◌∙◌, ◌⊎◌, inl, inr, Bool, true, false, ◌||◌, ◌&&◌,
  not, Option, none, some, List, [], ◌∷◌, any, length, arith, All, All-mono, Bool-cases,
}
use engrava.Prelude.Members.{All-lookup, All-of_mem}
use engrava.Prelude.Order.{text_order}
use engrava.Prelude.Sort.{HasDistinctKeys}
use engrava.Prelude.Result.{ok, raised}
use engrava.Prelude.Text.{Text, text_eq, text_eq_iff}
use engrava.Floats.{Floats}
use engrava.Thought.Defs.{Thought, Instant}
use engrava.Hygiene.Select.{HygienePolicy}
use engrava.Hygiene.Archive.{Store, get_thought_row}
use engrava.Hygiene.Gc.{hygiene_gc_eligible, IsReapable, gc_sound}
use engrava.Deletion.Tables.{Db, Engine, DeleteAtomicResult, without, identified, evicts}
use engrava.Deletion.Defs.{Call, after}
use engrava.Deletion.Integrity.{IsIntact, swept-IsIntact}
use engrava.Deletion.Delete.{Takes, delete_one-Takes, taken-IsIntact}
use engrava.Deletion.Gc.{GcOutcome, gc_reason, counted, gc_found, hygiene_gc}
use mathlib.Core.List.{Memᴰ}
use engrava.Deletion.Gone.{
  without-ext, without_missing, without-or, mem-without, any_absent, get_thought_row-none,
  any-named, length-without, HasDistinctKeys-without,
}

module _ {F : Floats} {J E : Type 0} (engine : Engine F J E) where
  -- The rows that a pass for one identity takes, and a loop over many.
  abbrev pub goes : Text → Thought F → Bool
  goes x t = text_eq t.thought_id x && not (engine.ignores t.thought_id)

  abbrev pub go : List (Thought F) → Thought F → Bool
  go ts t = any (λ u. text_eq t.thought_id u.thought_id) ts && not (engine.ignores t.thought_id)

  goes_none :
      (x : Text) (rows : Store F)
      → All (λ t. text_eq t.thought_id x ≡ false) rows
      → rows ≡ without (goes x) rows
  goes_none x rows h =
      sym (without_missing (goes x) rows (All-mono rows (λ t e. ground (arith, e)) h))

  goes_taken :
      (x : Text) (rows : Store F)
      → engine.ignores x ≡ false
      → without (identified x) rows ≡ without (goes x) rows
  goes_taken x rows h = without-ext (identified x) (goes x) rows same
    where
      same : (t : Thought F) → text_eq t.thought_id x ≡ goes x t
      same t = elim (Bool-cases (text_eq t.thought_id x)) [
        | inl e ↦
            let passed : engine.ignores t.thought_id ≡ false =
              ap engine.ignores ((text_eq_iff t.thought_id x).0 e) ∙ h in
            rw (e, passed) refl
        | inr e ↦ rw e refl
      ]

  goes_vetoed : (x : Text) (rows : Store F) → engine.ignores x ≡ true → rows ≡ without (goes x) rows
  goes_vetoed x rows h = sym (without_missing (goes x) rows (All-of_mem _ rows (λ t m. kept t)))
    where
      kept : (t : Thought F) → goes x t ≡ false
      kept t = elim (Bool-cases (text_eq t.thought_id x)) [
        | inl e ↦
            let stopped : engine.ignores t.thought_id ≡ true =
              ap engine.ignores ((text_eq_iff t.thought_id x).0 e) ∙ h in
            rw (e, stopped) refl
        | inr e ↦ rw e refl
      ]

  module _ (policy : HygienePolicy F) where
    -- A call from the outcome `o`: the rows that it leaves, how many went, and the references.
    pub data Reaps (gone : Thought F → Bool) (n : ℕ) (o : GcOutcome) (db : Db F J)
        : Call engine GcOutcome → Type 0 where
      failed : (later : Db F J) (e : E) → Reaps gone n o db (later, raised e)
      done :
          (later : Db F J) (o' : GcOutcome)
          → later.thoughts ≡ without gone db.thoughts
          → o'.gc_count + length later.thoughts ≡ o.gc_count + length db.thoughts
          → o'.gc_count ≤ o.gc_count + n
          → IsIntact later
          → Reaps gone n o db (later, ok o')

    of_Takes :
        (t before : Thought F) (o : GcOutcome) (db : Db F J) (call : Call engine DeleteAtomicResult)
        → get_thought_row F t.thought_id db.thoughts ≡ some before
        → HasDistinctKeys text_order (λ t. t.thought_id) db.thoughts
        → IsIntact db
        → Takes engine (evicts (gc_reason engine policy t)) t.thought_id db call
        → Reaps
            (goes t.thought_id)
            1
            o
            db
            (after engine call (λ later r. (later, ok (counted engine policy o r))))
    of_Takes t before o db _ found d i (Takes.failed later e) = Reaps.failed later e
    of_Takes t before o db _ found d i (Takes.vetoed h k) =
        Reaps.done db _ (goes_vetoed t.thought_id db.thoughts k) refl (omega arith) i
    of_Takes t before o db _ found d i (Takes.not_there wrote h k) =
        Reaps.done _ _ (goes_none t.thought_id db.thoughts (any_absent t.thought_id db.thoughts h))
          refl (omega arith) (swept-IsIntact t.thought_id db i)
    of_Takes t before o db _ found d i (Takes.takes u j h k r) =
        Reaps.done _ _ (goes_taken t.thought_id db.thoughts k)
          (omega (arith, length-without t.thought_id before db.thoughts d found)) (omega arith)
          (taken-IsIntact engine t.thought_id db j i)

    gc_found-Reaps :
        (t : Thought F) (o : GcOutcome) (db : Db F J)
        → HasDistinctKeys text_order (λ t. t.thought_id) db.thoughts
        → IsIntact db
        → Reaps
            (goes t.thought_id)
            1
            o
            db
            (gc_found engine policy t (get_thought_row F t.thought_id db.thoughts) o db)
    gc_found-Reaps t o db d i = at (get_thought_row F t.thought_id db.thoughts) refl
      where
        at :
            (row : Option (Thought F))
            → get_thought_row F t.thought_id db.thoughts ≡ row
            → Reaps (goes t.thought_id) 1 o db (gc_found engine policy t row o db)
        at none e =
            Reaps.done db o
              (goes_none t.thought_id db.thoughts (get_thought_row-none t.thought_id db.thoughts e))
              refl (omega arith) i
        at (some before) e =
            of_Takes t before o db _ e d i (delete_one-Takes engine _ t.thought_id db)

    hygiene_gc-Reaps :
        (ts : List (Thought F)) (o : GcOutcome) (db : Db F J)
        → HasDistinctKeys text_order (λ t. t.thought_id) db.thoughts
        → IsIntact db
        → Reaps (go ts) (length ts) o db (hygiene_gc engine policy ts o db)
    unfolding hygiene_gc
    hygiene_gc-Reaps [] o db d i =
        Reaps.done db o
          (sym (without_missing (go []) db.thoughts (All-of_mem _ db.thoughts (λ t m. refl)))) refl
          (omega arith) i
    hygiene_gc-Reaps (t ∷ ts) o db d i =
        step _ (gc_found-Reaps t o db d i) (λ o' later d' i'. hygiene_gc-Reaps ts o' later d' i')
      where
        both : (a : Thought F) → (goes t.thought_id a || go ts a) ≡ go (t ∷ ts) a
        both a = elim (Bool-cases (text_eq a.thought_id t.thought_id)) [
          | inl e ↦ elim (Bool-cases (engine.ignores a.thought_id)) [
            | inl k ↦ rw (e, any, k) (ground arith)
            | inr k ↦ rw (e, any, k) (ground arith)
          ]
          | inr e ↦ rw (e, any) refl
        ]

        step :
            (call : Call engine GcOutcome)
            → Reaps (goes t.thought_id) 1 o db call
            → ((o' : GcOutcome) (later : Db F J)
                → HasDistinctKeys text_order (λ t. t.thought_id) later.thoughts
                → IsIntact later
                → Reaps (go ts) (length ts) o' later (hygiene_gc engine policy ts o' later))
            → Reaps
                (go (t ∷ ts))
                (suc (length ts))
                o
                db
                (after engine call (λ later o'. hygiene_gc engine policy ts o' later))
        step _ (Reaps.failed later e) k = Reaps.failed later e
        step _ (Reaps.done later o' rows count most kept) k = joined (
            k o' later
              (subst (HasDistinctKeys text_order (λ t. t.thought_id)) (sym rows)
                (HasDistinctKeys-without (goes t.thought_id) db.thoughts d))
              kept)
          where
            joined :
                {rest : Call engine GcOutcome}
                → Reaps (go ts) (length ts) o' later rest
                → Reaps (go (t ∷ ts)) (suc (length ts)) o db rest
            joined (Reaps.failed last e) = Reaps.failed last e
            joined (Reaps.done last o'' rows' count' most' kept') =
                Reaps.done last o''
                  (rows'
                    ∙ (ap (without (go ts)) rows
                        ∙ (without-or (goes t.thought_id) (go ts) db.thoughts
                            ∙ without-ext _ _ db.thoughts both)))
                  (count' ∙ count) (omega (arith, most, most')) kept'

    -- What the second stage may come to, for rows chosen on the table `chosen_on`.
    pub data Reaped (current_cycle : ℕ) (now : Instant) (chosen_on : Store F) (db : Db F J)
        : Call engine GcOutcome → Type 0 where
      failed : (later : Db F J) (e : E) → Reaped current_cycle now chosen_on db (later, raised e)
      reaped :
          (later : Db F J) (o : GcOutcome)
          → ((t : Thought F)
              → Memᴰ t db.thoughts
              → Memᴰ t later.thoughts
                ⊎ ((u : Thought F) × Memᴰ u chosen_on
                    × IsReapable F policy current_cycle now u
                    × (t.thought_id ≡ u.thought_id)))
          → o.gc_count + length later.thoughts ≡ length db.thoughts
          → o.gc_count ≤ policy.max_evictions_per_run
          → IsIntact later
          → Reaped current_cycle now chosen_on db (later, ok o)

    -- The second stage on rows that were chosen on a table `chosen_on`, which may have changed since,
    -- against a store whose identities are distinct and whose references hold: if it returns, then each
    -- row that was there is still there, unless its identity is that of a row which was in `chosen_on`,
    -- archived, unprotected and past the restore windows; `gc_count` is the number of rows that went,
    -- and at most `max_evictions_per_run`; and every edge, embedding and action still names a stored
    -- thought.
    pub hygiene_gc-Reaped :
        (current_cycle : ℕ) (now : Instant) (chosen_on : Store F) (db : Db F J)
        → HasDistinctKeys text_order (λ t. t.thought_id) db.thoughts
        → IsIntact db
        → Reaped current_cycle now chosen_on db (
            hygiene_gc engine policy
              (hygiene_gc_eligible F policy current_cycle now chosen_on)
              (record { gc_count = 0; wrote_anything = false })
              db)
    hygiene_gc-Reaped current_cycle now chosen_on db d i =
        finished
          (hygiene_gc-Reaps (hygiene_gc_eligible F policy current_cycle now chosen_on) _ db d i)
      where
        eligible : List (Thought F)
        eligible = hygiene_gc_eligible F policy current_cycle now chosen_on

        sound :
            All (λ u. Memᴰ u chosen_on × IsReapable F policy current_cycle now u) eligible
            × (length eligible ≤ policy.max_evictions_per_run)
        sound = gc_sound F policy current_cycle now chosen_on

        why :
            (later : Db F J) (t : Thought F)
            → later.thoughts ≡ without (go eligible) db.thoughts
            → Memᴰ t db.thoughts
            → Memᴰ t later.thoughts
              ⊎ ((u : Thought F) × Memᴰ u chosen_on
                  × IsReapable F policy current_cycle now u
                  × (t.thought_id ≡ u.thought_id))
        why later t rows m = elim (mem-without (go eligible) db.thoughts t m) [
          | inl k ↦ inl (subst (Memᴰ t) (sym rows) k)
          | inr k ↦
              let u = any-named t eligible (ground (arith, k)) in
              let both = All-lookup _ eligible sound.0 u.1 in inr (u.0, both.0, both.1, u.2)
        ]

        finished :
            {call : Call engine GcOutcome}
            → Reaps
                (go eligible)
                (length eligible)
                (record { gc_count = 0; wrote_anything = false })
                db
                call
            → Reaped current_cycle now chosen_on db call
        finished (Reaps.failed later e) = Reaped.failed later e
        finished (Reaps.done later o rows count most kept) =
            Reaped.reaped later o (λ t m. why later t rows m) (omega (arith, count))
              (omega (arith, most, sound.1)) kept
