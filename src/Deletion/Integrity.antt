-- ===== src/Deletion/Integrity.antt =====
-- References between the tables of src/engrava/infrastructure/sqlite/schema_core.sql, across the
-- removal of rows.
use engrava.Prelude.{
  ◌≡◌, refl, sym, ◌∙◌, inl, inr, Bool, true, false, some, List, [], ◌∷◌, any, filter, arith, All,
  All-filter, Bool-cases,
}
use engrava.Prelude.Text.{Text, text_eq, text_eq_iff}
use engrava.Floats.{Floats}
use engrava.Thought.Defs.{Thought}
use engrava.Hygiene.Archive.{Store, get_thought_row}
use engrava.Deletion.Tables.{Db, without, touches, owned, sourced, identified, swept, settled}
use engrava.Deletion.Effects.{removed}

module _ {ℓ κ μ} {A : Type ℓ} (p : A → Bool) (P : A → Type κ) (Q : A → Type μ) where
  All-without :
      ((a : A) → p a ≡ false → P a → Q a) → (xs : List A) → All P xs → All Q (without p xs)
  All-without f [] h = tt
  All-without f (x ∷ xs) h = elim (Bool-cases (p x)) [
    | inl e ↦ rw (e, filter) (All-without f xs h.1)
    | inr e ↦ rw (e, filter) (f x e h.0, All-without f xs h.1)
  ]

module _ {F : Floats} where
  any-without :
      (x y : Text) (rows : Store F)
      → text_eq y x ≡ false
      → any (identified y) (without (identified x) rows) ≡ any (identified y) rows
  any-without x y [] d = refl
  any-without x y (t ∷ rows) d = elim (Bool-cases (text_eq t.thought_id x)) [
    | inl e ↦
        let other : text_eq t.thought_id y ≡ false =
          ground (arith, text_eq_iff t.thought_id x, text_eq_iff t.thought_id y, text_eq_iff y x) in
        rw (e, filter, other, any) (any-without x y rows d)
    | inr e ↦ elim (Bool-cases (text_eq t.thought_id y)) [
      | inl k ↦ rw (e, filter, k, any) refl
      | inr k ↦ rw (e, filter, k, any) (any-without x y rows d)
    ]
  ]

  pub any-gone :
      (x : Text) (rows : Store F) → any (identified x) (without (identified x) rows) ≡ false
  any-gone x [] = refl
  any-gone x (t ∷ rows) = elim (Bool-cases (text_eq t.thought_id x)) [
    | inl e ↦ rw (e, filter) (any-gone x rows)
    | inr e ↦ rw (e, filter, e, any) (any-gone x rows)
  ]

  still :
      (x y : Text) (rows : Store F)
      → text_eq y x ≡ false
      → any (identified y) rows ≡ true
      → any (identified y) (without (identified x) rows) ≡ true
  still x y rows d h = any-without x y rows d ∙ h

  -- A row that is there is found.
  pub get_thought_row-stored :
      (x : Text) (rows : Store F)
      → any (identified x) rows ≡ true
      → (t : Thought F) × (get_thought_row F x rows ≡ some t)
  unfolding get_thought_row
  get_thought_row-stored x [] h = cc
  get_thought_row-stored x (t ∷ rows) h = elim (Bool-cases (text_eq t.thought_id x)) [
    | inl e ↦ (t, rw e refl)
    | inr e ↦ rw e (get_thought_row-stored x rows (ground arith))
  ]

module _ {F : Floats} {J : Type 0} where
  -- Every edge, embedding and action names a thought that is stored.
  pub record IsIntact (db : Db F J) : Type 0 where
    pub edge_ends :
        All
          (λ e.
            (any (identified e.from_thought_id) db.thoughts ≡ true)
            × (any (identified e.to_thought_id) db.thoughts ≡ true))
          db.edges
    pub owners : All (λ e. any (identified e.owner_id) db.thoughts ≡ true) db.embeddings
    pub sources : All (λ a. any (identified a.source_thought_id) db.thoughts ≡ true) db.actions

  pub removed-IsIntact : (x : Text) (db : Db F J) → IsIntact db → IsIntact (removed x db)
  removed-IsIntact x db h = record {
    edge_ends =
        All-without (touches x) _ _
          (λ e k s. (
            still x e.from_thought_id db.thoughts (ground arith) s.0,
            still x e.to_thought_id db.thoughts (ground arith) s.1,
          ))
          db.edges h.edge_ends;
    owners =
        All-without (owned x) _ _ (λ e k s. still x e.owner_id db.thoughts k s) db.embeddings
          h.owners;
    sources =
        All-without (sourced x) _ _ (λ a k s. still x a.source_thought_id db.thoughts k s)
          db.actions h.sources;
  }

  pub swept-IsIntact : (x : Text) (db : Db F J) → IsIntact db → IsIntact (swept x db)
  swept-IsIntact x db h = record {
    edge_ends = All-filter _ _ db.edges h.edge_ends;
    owners = All-filter _ _ db.embeddings h.owners;
    sources = All-filter _ _ db.actions h.sources;
  }

  pub settled_same :
      (opened wrote : Bool) (db later : Db F J)
      → (wrote ≡ false → later ≡ db)
      → settled opened wrote db later ≡ later
  settled_same opened true db later h = refl
  settled_same false false db later h = refl
  settled_same true false db later h = sym (h refl)
