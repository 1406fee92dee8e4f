-- ===== src/Extent/Defs.antt =====
-- `derive_reflection_extent` (src/engrava/extensions/dreaming_reflection_extent.py).
use engrava.Prelude.{Bool, true, false, Option, none, some, List, [], ◌∷◌, ◌++◌, if◌then◌else◌}
use engrava.Prelude.Order.{Order, text_order, dual}
use engrava.Prelude.Result.{Result, ok, raised, ◌>>=◌}
use engrava.Prelude.Text.{Text}

-- A `(valid_from, valid_until)` pair.
abbrev pub Bounds : Type 0
Bounds = Option Text × Option Text

-- The local variables of the loop.
pub record Seen : Type 0 where
  pub lower_bounds : List Text
  pub upper_bounds : List Text
  pub open_lower : Bool
  pub open_upper : Bool
  pub saw_member : Bool

abbrev pub nothing_seen : Seen
nothing_seen = record {
  lower_bounds = [];
  upper_bounds = [];
  open_lower = false;
  open_upper = false;
  saw_member = false;
}

-- What one bound adds to its list and to its flag.
abbrev pub collected : Option Text → List Text → List Text
collected none bounds = bounds
collected (some b) bounds = bounds ++ b ∷ []

abbrev pub opened : Option Text → Bool → Bool
opened none flag = true
opened (some b) flag = flag

unfoldable pub see : List Bounds → Seen → Seen
see [] seen = seen
see ((valid_from, valid_until) ∷ rest) seen = see rest (record {
  lower_bounds = collected valid_from seen.lower_bounds;
  upper_bounds = collected valid_until seen.upper_bounds;
  open_lower = opened valid_from seen.open_lower;
  open_upper = opened valid_until seen.open_upper;
  saw_member = true;
})

pub data ExtentError : Type 0 where
  empty_sequence : ExtentError

-- `min`, of the elements so far and the others; `max` is that of the dual order.
abbrev pub least : Order Text → Text → List Text → Text
least o x [] = x
least o x (y ∷ ys) = least o (if o.leq x y then x else y) ys

abbrev pub least_of : Order Text → List Text → Result ExtentError Text
least_of o [] = raised empty_sequence
least_of o (x ∷ xs) = ok (least o x xs)

-- `None if open else min(bounds)`.
abbrev pub derived : Order Text → Bool → List Text → Result ExtentError (Option Text)
derived o true bounds = ok none
derived o false bounds = least_of o bounds >>= λ b. ok (some b)

unfoldable pub derive_reflection_extent : List Bounds → Result ExtentError Bounds
unfolding see
derive_reflection_extent member_bounds =
    let seen = see member_bounds nothing_seen in
    if seen.saw_member
    then (derived text_order seen.open_lower seen.lower_bounds >>= λ derived_from.
        derived (dual text_order) seen.open_upper seen.upper_bounds >>= λ derived_until.
        ok (derived_from, derived_until))
    else ok (none, none)
