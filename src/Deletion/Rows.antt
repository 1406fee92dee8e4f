-- ===== src/Deletion/Rows.antt =====
-- One statement of an expiry or a deletion on the rows of the table `thought`
-- (src/engrava/infrastructure/sqlite/engrava_core.py), read off each row.
use engrava.Prelude.{
  ◌≡◌, refl, ap, inl, inr, Bool, true, false, none, [], ◌∷◌, any, filter, arith, Bool-cases,
}
use engrava.Prelude.Text.{Text, text_eq}
use engrava.Floats.{Floats}
use engrava.Hygiene.Archive.{Store, get_thought_row, update_where}
use engrava.Deletion.Tables.{without, identified, expire_row}
use engrava.Deletion.Expire.{CleanupStrategy, archive, delete}
use engrava.Deletion.Due.{filter_map, hit}

module _ {F : Floats} where
  -- The rows after an UPDATE of the row under a key, read off each row.
  pub update_where-hit :
      (ignores : Text → Bool) (x : Text) (rows : Store F)
      → ignores x ≡ false
      → (update_where F (identified x) expire_row rows).1 ≡ filter_map (hit ignores archive x) rows
  unfolding update_where
  update_where-hit ignores x [] h = refl
  update_where-hit ignores x (t ∷ rows) h = elim (Bool-cases (text_eq t.thought_id x)) [
    | inl e ↦ rw (e, h) (ap (◌∷◌ (expire_row t)) (update_where-hit ignores x rows h))
    | inr e ↦ rw e (ap (◌∷◌ t) (update_where-hit ignores x rows h))
  ]

  pub any-update :
      (x y : Text) (rows : Store F)
      → any (identified y) (update_where F (identified x) expire_row rows).1
        ≡ any (identified y) rows
  unfolding update_where
  any-update x y [] = refl
  any-update x y (t ∷ rows) = elim (Bool-cases (text_eq t.thought_id x)) [
    | inl e ↦ rw e (either (text_eq t.thought_id y) (any-update x y rows))
    | inr e ↦ rw e (either (text_eq t.thought_id y) (any-update x y rows))
  ]
    where
      either :
          {a b : Bool} (c : Bool)
          → a ≡ b
          → (elim c [ true ↦ true | false ↦ a ]) ≡ (elim c [ true ↦ true | false ↦ b ])
      either true h = refl
      either false h = h

  pub update_nothing :
      (x : Text) (rows : Store F)
      → (update_where F (identified x) expire_row rows).0 ≡ 0
      → ((update_where F (identified x) expire_row rows).1 ≡ rows)
        × (get_thought_row F x rows ≡ none)
  unfolding update_where get_thought_row
  update_nothing x [] h = (refl, refl)
  update_nothing x (t ∷ rows) h = elim (Bool-cases (text_eq t.thought_id x)) [
    | inl e ↦ absurd (ground (arith, e, h))
    | inr e ↦
        let rest = update_nothing x rows (ground (arith, e, h)) in
        rw (e, get_thought_row) (ap (◌∷◌ t) rest.0, rest.1)
  ]

  -- The rows after a DELETE of the row under a key.
  pub without-hit :
      (ignores : Text → Bool) (x : Text) (rows : Store F)
      → ignores x ≡ false
      → without (identified x) rows ≡ filter_map (hit ignores delete x) rows
  without-hit ignores x [] h = refl
  without-hit ignores x (t ∷ rows) h = elim (Bool-cases (text_eq t.thought_id x)) [
    | inl e ↦ rw (e, filter, h) (without-hit ignores x rows h)
    | inr e ↦ rw (e, filter) (ap (◌∷◌ t) (without-hit ignores x rows h))
  ]

  -- The rows where a trigger kept the row under a key.
  pub vetoed-hit :
      (ignores : Text → Bool) (strategy : CleanupStrategy) (x : Text) (rows : Store F)
      → ignores x ≡ true
      → rows ≡ filter_map (hit ignores strategy x) rows
  vetoed-hit ignores strategy x [] h = refl
  vetoed-hit ignores archive x (t ∷ rows) h = elim (Bool-cases (text_eq t.thought_id x)) [
    | inl e ↦ rw (e, h) (ap (◌∷◌ t) (vetoed-hit ignores archive x rows h))
    | inr e ↦ rw e (ap (◌∷◌ t) (vetoed-hit ignores archive x rows h))
  ]
  vetoed-hit ignores delete x (t ∷ rows) h = elim (Bool-cases (text_eq t.thought_id x)) [
    | inl e ↦ rw (e, h) (ap (◌∷◌ t) (vetoed-hit ignores delete x rows h))
    | inr e ↦ rw e (ap (◌∷◌ t) (vetoed-hit ignores delete x rows h))
  ]

  pub absent-hit :
      (ignores : Text → Bool) (strategy : CleanupStrategy) (x : Text) (rows : Store F)
      → any (identified x) rows ≡ false
      → rows ≡ filter_map (hit ignores strategy x) rows
  absent-hit ignores strategy x [] h = refl
  absent-hit ignores strategy x (t ∷ rows) h = elim (Bool-cases (text_eq t.thought_id x)) [
    | inl e ↦ absurd (ground (arith, e, h))
    | inr e ↦ rw e (ap (◌∷◌ t) (absent-hit ignores strategy x rows (ground (arith, e, h))))
  ]
