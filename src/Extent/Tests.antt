-- ===== src/Extent/Tests.antt =====
-- `derive_reflection_extent` (src/engrava/extensions/dreaming_reflection_extent.py) at concrete
-- members.
use engrava.Prelude.{◌≡◌, ◌↔◌, refl, true, none, some, [], ◌∷◌, All}
use engrava.Prelude.Order.{lex_leq}
use engrava.Prelude.Text.{text}
use engrava.Prelude.Result.{ok}
use engrava.Extent.Defs.{Bounds, derive_reflection_extent, see}
use engrava.Extent.Hull.{covers, extent_hull}

abbrev january : Bounds
january = (some (text "2024-01"), some (text "2024-03"))

abbrev february : Bounds
february = (some (text "2024-02"), none)

spans_both : derive_reflection_extent (february ∷ january ∷ []) ≡ ok (some (text "2024-01"), none)
unfolding derive_reflection_extent see lex_leq
spans_both = refl

extent_hull_example :
    (extent : Bounds) × (derive_reflection_extent (february ∷ january ∷ []) ≡ ok extent)
    × ((b : Bounds)
        → (covers b extent ≡ true) ↔ All (λ x. covers b x ≡ true) (february ∷ january ∷ []))
extent_hull_example = extent_hull february (january ∷ [])
