-- ===== src/Updates/Guarded.antt =====
-- An update against the writes of other connections
-- (src/engrava/infrastructure/sqlite/engrava_core.py).
use engrava.Prelude.{
  suc, ◌<◌, ◌≡◌, ◌≢◌, ◌⊎◌, refl, sym, ap, subst, ◌∙◌, inl, inr, Bool, true, false, ==_iff, Option,
  some, arith, Bool-cases,
}
use engrava.Prelude.Result.{Result, ok, raised}
use engrava.Prelude.Text.{Text, text, text_eq, text_eq_iff}
use engrava.Updates.Defs.{
  Row, Table, UpdateError, stale_data, get_row, thought_update_columns, set_columns, Answer,
  read_back, written, update_thought, Others,
}
use engrava.Updates.Rows.{revision_of, Reaches, guarded_update-Reaches, Tracks, Others-Tracks}

module _ {V : Type 0} (same : V → V → Bool) (same_eq : (v w : V) → same v w ≡ true → v ≡ w) where
  -- The columns that differ are enough: on the row that was read, they make the updated record.
  set-update :
      (before after : Text → V)
      → set_columns same (thought_update_columns same before after) before ≡ after
  unfolding thought_update_columns
  set-update before after i name = at name i
    where
      at :
          (name : Text)
          → set_columns same (thought_update_columns same before after) before name ≡ after name
      at name = elim (Bool-cases (text_eq name (text "updated_at"))) [
        | inl e ↦ rw (e, thought_update_columns) refl
        | inr e ↦ elim (Bool-cases (same (before name) (after name))) [
          | inl k ↦ rw (e, k, thought_update_columns) (same_eq (before name) (after name) k)
          | inr k ↦ rw (e, k, thought_update_columns) refl
        ]
      ]

  -- The answer of an update of the row `r`, to the record `updated`, on a table.
  pub data Answers (x : Text) (r : Row V) (updated : Text → V) (later : Table V)
      : Answer same → Type 0 where
    persisted :
        (q : Row V) (columns : Text → V) (t' : Table V)
        → get_row x later ≡ some q
        → q.revision ≡ r.revision
        → get_row x t'
          ≡ some record { thought_id = q.thought_id; revision = suc r.revision; columns = columns }
        → ((name : Text)
            → (name ≡ text "updated_at") ⊎ (same (r.columns name) (updated name) ≡ false)
            → columns name ≡ updated name)
        → ((name : Text)
            → name ≢ text "updated_at"
            → same (r.columns name) (updated name) ≡ true
            → columns name ≡ q.columns name)
        → (q ≡ r → columns ≡ updated)
        → ((y : Text) → text_eq x y ≡ false → get_row y t' ≡ get_row y later)
        → Answers x r updated later (t', ok columns)
    refused :
        ((q : Row V) → get_row x later ≡ some q → q.revision ≢ r.revision)
        → Answers x r updated later (later, raised stale_data)

  -- What the assignments make of the columns that stand in the row.
  set-changed :
      (before after found : Text → V) (name : Text)
      → (name ≡ text "updated_at") ⊎ (same (before name) (after name) ≡ false)
      → set_columns same (thought_update_columns same before after) found name ≡ after name
  unfolding thought_update_columns
  set-changed before after found name (inl e) =
      rw ((text_eq_iff name (text "updated_at")).1 e, thought_update_columns) refl
  set-changed before after found name (inr k) =
      elim (Bool-cases (text_eq name (text "updated_at"))) [
        | inl e ↦ rw (e, thought_update_columns) refl
        | inr e ↦ rw (e, k, thought_update_columns) refl
      ]

  set-kept :
      (before after found : Text → V) (name : Text)
      → name ≢ text "updated_at"
      → same (before name) (after name) ≡ true
      → set_columns same (thought_update_columns same before after) found name ≡ found name
  unfolding thought_update_columns
  set-kept before after found name d k = elim (Bool-cases (text_eq name (text "updated_at"))) [
    | inl e ↦ absurd (d ((text_eq_iff name (text "updated_at")).0 e))
    | inr e ↦ rw (e, k, thought_update_columns) refl
  ]

  written-Answers :
      (x : Text) (r : Row V) (updated : Text → V) (later : Table V) (o : Option (Table V))
      → Reaches x r.revision
          (set_columns same (thought_update_columns same r.columns updated))
          later
          o
      → Tracks x r later
      → Answers x r updated later (written same x later o)
  written-Answers x r updated later _ (Reaches.misses h) k =
      Answers.refused (λ q e l. absurd (cc (h q e, (==_iff q.revision r.revision).1 l)))
  written-Answers x r updated later _ (Reaches.hits q t' found at_revision now others) k = hit k
    where
      set : (Text → V) → Text → V
      set = set_columns same (thought_update_columns same r.columns updated)

      hit : Tracks x r later → Answers x r updated later (read_back same t' (get_row x t'))
      hit (Tracks.gone e) = absurd (cc (e, found))
      hit (Tracks.moved p e less) = absurd (later_one p (cc (e, found)) less)
        where
          later_one : (p : Row V) → some p ≡ some q → r.revision < p.revision → ⊥
          later_one p h less = omega (arith, less, at_revision, ap revision_of h)
      hit (Tracks.stands p e level) =
          let at_next : get_row x t'
              ≡ some record {
                thought_id = q.thought_id;
                revision = suc r.revision;
                columns = set q.columns;
              } =
            now
            ∙ ap
                (λ n.
                  some
                    record { thought_id = q.thought_id; revision = suc n; columns = set q.columns })
                at_revision in
          subst (λ o. Answers x r updated later (read_back same t' o)) (sym at_next)
            (Answers.persisted q (set q.columns) t' found at_revision at_next
              (set-changed r.columns updated q.columns) (set-kept r.columns updated q.columns)
              (λ same_row. ap (λ z. set z.columns) same_row ∙ set-update r.columns updated) others)

  -- An update that reads a row while other connections write, delete and insert other rows before
  -- its own write, also with writes that leave the revision as it is: if the record it makes is
  -- accepted, then either the row is still at the revision that was read, and afterwards it has the
  -- next one, `updated_at` and each column in which the record differs from the row that was read are
  -- those of the record, every other column is as the others left it, so that the row is the record
  -- where nobody has changed it, every other row is as the others left it, and the answer is the row;
  -- or the row is gone or at another revision, the caller is told that the data is stale, and the
  -- table stays as the others left it.
  pub update_thought-Answers :
      (x : Text) (evolve : (Text → V) → Result UpdateError (Text → V)) (now later : Table V)
      (r : Row V) (updated : Text → V)
      → get_row x now ≡ some r
      → Others x now later
      → evolve r.columns ≡ ok updated
      → Answers x r updated later (update_thought same x evolve now later)
  unfolding update_thought
  update_thought-Answers x evolve now later r updated found others accepted =
      rw (found, accepted)
        (written-Answers x r updated later _
          (guarded_update-Reaches x r.revision
            (set_columns same (thought_update_columns same r.columns updated)) later)
          (Others-Tracks x r now later others (Tracks.stands r found refl)))
