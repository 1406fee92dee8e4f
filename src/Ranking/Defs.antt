-- ===== src/Ranking/Defs.antt =====
-- `_sort_scored_descending`, `_retain_ranked_by_unit` and `_collapse_ranked_by_unit`
-- (src/engrava/infrastructure/sqlite/engrava_core.py).
use engrava.Prelude.{
  ℕ, suc, ◌≡◌, ◌↔◌, Bool, true, Option, none, some, List, [], ◌∷◌, leb, if◌then◌else◌,
}
use engrava.Prelude.Order.{Order, dual, text_order, pair_order}
use engrava.Prelude.Sort.{sort}
use engrava.Prelude.Text.{Text}
use engrava.Floats.{Floats}

-- The unit keys, which are tuples of JSON scalars, and their equality.
pub record Units : Type 1 where
  pub Unit_key : Type 0
  pub key_eq : Unit_key → Unit_key → Bool
  pub key_eq_iff : (a b : Unit_key) → (key_eq a b ≡ true) ↔ (a ≡ b)

module _ (F : Floats) where
  -- A `(thought_id, score)` pair.
  abbrev pub Ranked : Type 0
  Ranked = Text × F.Num

  abbrev pub rank_order : Order (F.Num × Text)
  rank_order = pair_order (dual F.order) text_order

  abbrev pub rank_key : Ranked → F.Num × Text
  rank_key (thought_id, score) = (score, thought_id)

  unfoldable pub sort_scored_descending : List Ranked → List Ranked
  unfolding sort
  sort_scored_descending results = sort rank_order rank_key results

  module _ (u : Units) where
    -- `unit_counts.get(unit, 0)`, as a function.
    abbrev pub Counts : Type 0
    Counts = u.Unit_key → ℕ

    abbrev pub bump : u.Unit_key → Counts → Counts
    bump k counts x = if u.key_eq x k then suc (counts x) else counts x

    -- The loop of `_retain_ranked_by_unit`, from the counts so far.
    unfoldable pub retain_from : (Text → Option u.Unit_key) → ℕ → Counts → List Ranked → List Ranked
    retain_from unit_keys max_per_unit counts [] = []
    retain_from unit_keys max_per_unit counts (row ∷ rest) = elim (unit_keys row.0) [
      | none ↦ row ∷ retain_from unit_keys max_per_unit counts rest
      | some unit ↦
          if leb max_per_unit (counts unit)
          then retain_from unit_keys max_per_unit counts rest
          else row ∷ retain_from unit_keys max_per_unit (bump unit counts) rest
    ]

    unfoldable pub retain_ranked_by_unit :
        List Ranked → (Text → Option u.Unit_key) → ℕ → List Ranked
    unfolding retain_from
    retain_ranked_by_unit ranked unit_keys max_per_unit =
        retain_from unit_keys max_per_unit (λ k. 0) ranked

    unfoldable pub collapse_ranked_by_unit : List Ranked → (Text → Option u.Unit_key) → List Ranked
    unfolding retain_ranked_by_unit
    collapse_ranked_by_unit ranked unit_keys = retain_ranked_by_unit ranked unit_keys 1
