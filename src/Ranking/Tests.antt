-- ===== src/Ranking/Tests.antt =====
-- Runs of the ranking (src/engrava/infrastructure/sqlite/engrava_core.py), and its theorems at
-- concrete inputs.
use engrava.Prelude.{
  ℕ, ◌≡◌, ◌≢◌, ◌==◌, ==_iff, refl, Option, none, some, List, [], ◌∷◌, min, false, if◌then◌else◌,
}
use engrava.Prelude.Text.{Text, text, text_eq, text_eq_iff}
use engrava.Floats.{thousandths}
use engrava.Ranking.Defs.{Units, Ranked, sort_scored_descending, retain_ranked_by_unit}
use engrava.Ranking.Retain.{in_unit, retained_below, retain-retained_below, in_unit-retain}
use engrava.Ranking.Order.{IsRanked, DistinctRows, sort_scored-IsRanked, sort_scored_order_free}
use mathlib.Core.List.{Permᴰ}

abbrev sessions : Units
sessions = record { Unit_key = ℕ; key_eq = ◌==◌; key_eq_iff = ==_iff }

-- Two thoughts of session 1, and one without a session.
unfoldable session_of : Text → Option ℕ
unfolding text_eq
session_of x = if text_eq x (text "n") then none else some 1

abbrev rows : List (Ranked thousandths)
rows = (text "a", 900) ∷ (text "n", 800) ∷ (text "b", 700) ∷ []

retained_rows :
    retain_ranked_by_unit thousandths sessions rows session_of 1
    ≡ ((text "a", 900) ∷ (text "n", 800) ∷ [])
unfolding retain_ranked_by_unit session_of
retained_rows = refl

retain-retained_below_example :
    retain_ranked_by_unit thousandths sessions rows session_of 1
    ≡ retained_below thousandths sessions session_of 1 [] rows
retain-retained_below_example = retain-retained_below thousandths sessions session_of 1 rows

one_of_a_session :
    in_unit thousandths sessions session_of 1 1
      (retain_ranked_by_unit thousandths sessions rows session_of 1)
    ≡ min (in_unit thousandths sessions session_of 1 1 rows) 1
one_of_a_session = in_unit-retain thousandths sessions session_of 1 rows 1

best_first :
    Permᴰ (sort_scored_descending thousandths rows) rows
    × IsRanked thousandths (sort_scored_descending thousandths rows)
best_first = sort_scored-IsRanked thousandths rows

abbrev tied : List (Ranked thousandths)
tied = (text "b", 900) ∷ (text "a", 900) ∷ []

differ : (a b : Text) → text_eq a b ≡ false → a ≢ b
differ a b e p = cc (e, (text_eq_iff a b).1 p)

tied-DistinctRows : DistinctRows thousandths tied
unfolding text_eq
tied-DistinctRows = ((differ (text "b") (text "a") refl, tt), (tt, tt))

either_order :
    sort_scored_descending thousandths tied
    ≡ sort_scored_descending thousandths ((text "a", 900) ∷ (text "b", 900) ∷ [])
either_order =
    sort_scored_order_free thousandths tied ((text "a", 900) ∷ (text "b", 900) ∷ [])
      (Permᴰ.swap refl refl) tied-DistinctRows
