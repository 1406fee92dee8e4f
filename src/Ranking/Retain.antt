-- ===== src/Ranking/Retain.antt =====
-- What `_retain_ranked_by_unit` (src/engrava/infrastructure/sqlite/engrava_core.py) keeps.
use engrava.Prelude.{
  ℕ, suc, ◌+◌, ◌≤◌, ◌≡◌, refl, inl, inr, Bool, true, false, Option, none, some, List, [], ◌∷◌, ◌++◌,
  arith, leb, ltb, min, if◌then◌else◌, Bool-cases, Option-cases,
}
use engrava.Prelude.Text.{Text}
use engrava.Floats.{Floats}
use engrava.Ranking.Defs.{Units, Ranked, Counts, bump, retain_from, retain_ranked_by_unit}

module _ (F : Floats) (u : Units) (unit_keys : Text → Option u.Unit_key) (max_per_unit : ℕ) where
  -- How many rows are of the unit.
  abbrev pub in_unit : u.Unit_key → List (Ranked F) → ℕ
  in_unit k [] = 0
  in_unit k (row ∷ rest) = elim (unit_keys row.0) [
    | none ↦ in_unit k rest
    | some unit ↦ if u.key_eq k unit then suc (in_unit k rest) else in_unit k rest
  ]

  -- A row stays if it has no unit, or fewer than `max_per_unit` rows above it are of its unit.
  abbrev stays : List (Ranked F) → Ranked F → Bool
  stays above row = elim (unit_keys row.0) [
    | none ↦ true
    | some unit ↦ ltb (in_unit unit above) max_per_unit
  ]

  -- The rows that stay, of those below the given ones.
  abbrev pub retained_below : List (Ranked F) → List (Ranked F) → List (Ranked F)
  retained_below above [] = []
  retained_below above (row ∷ rest) =
      if stays above row
      then row ∷ retained_below (above ++ row ∷ []) rest
      else retained_below (above ++ row ∷ []) rest

  in_unit-append :
      (k : u.Unit_key) (xs : List (Ranked F)) (row : Ranked F)
      → in_unit k (xs ++ row ∷ []) ≡ in_unit k xs + in_unit k (row ∷ [])
  in_unit-append k [] row = omega arith
  in_unit-append k (x ∷ xs) row = elim (Option-cases (unit_keys x.0)) [
    | inl e ↦ rw (e, in_unit) (in_unit-append k xs row)
    | inr (unit, e) ↦ rw (e, in_unit) (ground (arith, in_unit-append k xs row))
  ]

  -- The counts of the loop: the rows above that were admitted.
  abbrev Admitted : Counts F u → List (Ranked F) → Type 0
  Admitted counts above = (k : u.Unit_key) → counts k ≡ min (in_unit k above) max_per_unit

  in_unit_one :
      (k unit : u.Unit_key) (row : Ranked F)
      → unit_keys row.0 ≡ some unit
      → in_unit k (row ∷ []) ≡ (if u.key_eq k unit then 1 else 0)
  in_unit_one k unit row e = rw (e, in_unit) refl

  keyless :
      (counts : Counts F u) (above : List (Ranked F)) (row : Ranked F)
      → unit_keys row.0 ≡ none
      → Admitted counts above
      → Admitted counts (above ++ row ∷ [])
  keyless counts above row e h k =
      let none_here : in_unit k (row ∷ []) ≡ 0 = rw (e, in_unit) refl in
      omega (arith, h k, in_unit-append k above row, none_here)

  dropped :
      (counts : Counts F u) (above : List (Ranked F)) (row : Ranked F) (unit : u.Unit_key)
      → unit_keys row.0 ≡ some unit
      → leb max_per_unit (counts unit) ≡ true
      → Admitted counts above
      → Admitted counts (above ++ row ∷ [])
  dropped counts above row unit e full h k = ground (
    arith,
    h k,
    h unit,
    in_unit-append k above row,
    in_unit_one k unit row e,
    (u.key_eq_iff k unit).0,
  )

  admitted :
      (counts : Counts F u) (above : List (Ranked F)) (row : Ranked F) (unit : u.Unit_key)
      → unit_keys row.0 ≡ some unit
      → leb max_per_unit (counts unit) ≡ false
      → Admitted counts above
      → Admitted (bump F u unit counts) (above ++ row ∷ [])
  admitted counts above row unit e open_unit h k = ground (
    arith,
    h k,
    h unit,
    in_unit-append k above row,
    in_unit_one k unit row e,
    (u.key_eq_iff k unit).0,
  )

  retain_from_below :
      (counts : Counts F u) (above rest : List (Ranked F))
      → Admitted counts above
      → retain_from F u unit_keys max_per_unit counts rest ≡ retained_below above rest
  unfolding retain_from
  retain_from_below counts above [] h = refl
  retain_from_below counts above (row ∷ rest) h = elim (Option-cases (unit_keys row.0)) [
    | inl e ↦
        let later =
          retain_from_below counts (above ++ row ∷ []) rest (keyless counts above row e h) in
        ground (arith, e, later)
    | inr (unit, e) ↦ elim (Bool-cases (leb max_per_unit (counts unit))) [
      | inl full ↦
          let later =
            retain_from_below counts (above ++ row ∷ []) rest
              (dropped counts above row unit e full h) in
          ground (arith, e, full, h unit, later)
      | inr free ↦
          let later =
            retain_from_below (bump F u unit counts) (above ++ row ∷ []) rest
              (admitted counts above row unit e free h) in
          ground (arith, e, free, h unit, later)
    ]
  ]

  -- The rows that are kept are, in their order, those that have no unit or have fewer than
  -- `max_per_unit` rows of their unit anywhere above them in the ranked list.
  pub retain-retained_below :
      (ranked : List (Ranked F))
      → retain_ranked_by_unit F u ranked unit_keys max_per_unit ≡ retained_below [] ranked
  unfolding retain_ranked_by_unit
  retain-retained_below ranked = retain_from_below (λ k. 0) [] ranked (λ k. omega arith)

  -- How many rows of a unit are left.
  retained-in_unit :
      (k : u.Unit_key) (counts : Counts F u) (rest : List (Ranked F))
      → counts k ≤ max_per_unit
      → counts k + in_unit k (retain_from F u unit_keys max_per_unit counts rest)
        ≡ min (counts k + in_unit k rest) max_per_unit
  unfolding retain_from
  retained-in_unit k counts [] h = omega arith
  retained-in_unit k counts (row ∷ rest) h = elim (Option-cases (unit_keys row.0)) [
    | inl e ↦ ground (arith, e, retained-in_unit k counts rest h)
    | inr (unit, e) ↦ elim (Bool-cases (leb max_per_unit (counts unit))) [
      | inl full ↦
          ground (arith, e, full, (u.key_eq_iff k unit).0, retained-in_unit k counts rest h)
      | inr free ↦
          let below : bump F u unit counts k ≤ max_per_unit =
            ground (arith, (u.key_eq_iff k unit).0) in
          ground (
            arith,
            e,
            free,
            (u.key_eq_iff k unit).0,
            retained-in_unit k (bump F u unit counts) rest below,
          )
    ]
  ]

  -- Of each unit exactly as many rows are kept as there are, or `max_per_unit` if there are more.
  pub in_unit-retain :
      (ranked : List (Ranked F)) (k : u.Unit_key)
      → in_unit k (retain_ranked_by_unit F u ranked unit_keys max_per_unit)
        ≡ min (in_unit k ranked) max_per_unit
  unfolding retain_ranked_by_unit
  in_unit-retain ranked k = omega (arith, retained-in_unit k (λ k. 0) ranked (omega arith))
