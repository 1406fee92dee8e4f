-- ===== src/Extent/Hull.antt =====
-- `derive_reflection_extent` (src/engrava/extensions/dreaming_reflection_extent.py) gives the tightest
-- interval that covers every member.
use engrava.Prelude.{
  ◌≡◌, ◌↔◌, inl, inr, refl, Bool, true, false, ◌&&◌, ◌||◌, Option, none, some, List, [], ◌∷◌, ◌++◌,
  arith, All, Bool-cases,
}
use engrava.Prelude.Order.{Order, text_order, dual}
use engrava.Prelude.Result.{ok}
use engrava.Prelude.Text.{Text}
use mathlib.Core.List.{append-nil, append_assoc}
use engrava.Extent.Defs.{
  Bounds, Seen, nothing_seen, collected, opened, see, least, derived, derive_reflection_extent,
}

-- No bound is the farthest out.
abbrev pub is_outside : Order Text → Option Text → Option Text → Bool
is_outside o none b = true
is_outside o (some a) none = false
is_outside o (some a) (some b) = o.leq a b

-- The first interval covers the second.
abbrev pub covers : Bounds → Bounds → Bool
covers (from, until) (from', until') =
    is_outside text_order from from' && is_outside (dual text_order) until until'

-- The bounds of one side that are set, and whether one is not.
abbrev set_bounds : List (Option Text) → List Text
set_bounds [] = []
set_bounds (none ∷ bs) = set_bounds bs
set_bounds (some b ∷ bs) = b ∷ set_bounds bs

abbrev any_open : List (Option Text) → Bool
any_open [] = false
any_open (none ∷ bs) = true
any_open (some b ∷ bs) = any_open bs

abbrev lowers : List Bounds → List (Option Text)
lowers [] = []
lowers (m ∷ ms) = m.0 ∷ lowers ms

abbrev uppers : List Bounds → List (Option Text)
uppers [] = []
uppers (m ∷ ms) = m.1 ∷ uppers ms

-- `a` is at most each one.
abbrev BelowAll : Order Text → Option Text → List (Option Text) → Type 0
BelowAll o a bs = All (λ b. is_outside o a b ≡ true) bs

least_iff :
    (o : Order Text) (a x : Text) (xs : List Text)
    → (o.leq a (least o x xs) ≡ true) ↔ ((o.leq a x ≡ true) × All (λ y. o.leq a y ≡ true) xs)
least_iff o a x [] = (λ h. (h, tt), λ h. h.0)
least_iff o a x (y ∷ ys) = elim (Bool-cases (o.leq x y)) [
  | inl e ↦
      let rest = least_iff o a x ys in
      rw e (
        (λ h. ((rest.0 h).0, (o.trans a x y (rest.0 h).0 e, (rest.0 h).1))),
        (λ h. rest.1 (h.0, h.1.1)),
      )
  | inr e ↦
      let rest = least_iff o a y ys in
      let back : o.leq y x ≡ true = ground (arith, o.total x y) in
      rw e
        ((λ h. (o.trans a y x (rest.0 h).0 back, ((rest.0 h).0, (rest.0 h).1))), (λ h. rest.1 h.1))
]

open_iff :
    (o : Order Text) (a : Option Text) (bs : List (Option Text))
    → any_open bs ≡ true
    → (is_outside o a none ≡ true) ↔ BelowAll o a bs
open_iff o a bs h = (outside bs, inside bs h)
  where
    outside : (bs : List (Option Text)) → is_outside o a none ≡ true → BelowAll o a bs
    outside [] k = tt
    outside (b ∷ bs) k = (ground arith, outside bs k)

    inside :
        (bs : List (Option Text))
        → any_open bs ≡ true
        → BelowAll o a bs
        → is_outside o a none ≡ true
    inside [] h k = cc
    inside (none ∷ bs) h k = k.0
    inside (some b ∷ bs) h k = inside bs h k.1

set_iff :
    (o : Order Text) (a : Text) (bs : List (Option Text))
    → any_open bs ≡ false
    → All (λ y. o.leq a y ≡ true) (set_bounds bs) ↔ BelowAll o (some a) bs
set_iff o a [] h = (λ k. tt, λ k. tt)
set_iff o a (none ∷ bs) h = cc
set_iff o a (some b ∷ bs) h =
    let rest = set_iff o a bs h in (λ k. (k.0, rest.0 k.1), λ k. (k.0, rest.1 k.1))

BelowAll-none : (o : Order Text) (bs : List (Option Text)) → BelowAll o none bs
BelowAll-none o [] = tt
BelowAll-none o (b ∷ bs) = (refl, BelowAll-none o bs)

-- What one side of the interval comes to.
abbrev Side : Order Text → List (Option Text) → Type 0
Side o bs =
    (d : Option Text) × (derived o (any_open bs) (set_bounds bs) ≡ ok d)
    × ((a : Option Text) → (is_outside o a d ≡ true) ↔ BelowAll o a bs)

side : (o : Order Text) (b : Option Text) (bs : List (Option Text)) → Side o (b ∷ bs)
side o none bs = (none, refl, λ a. open_iff o a (none ∷ bs) refl)
side o (some b) bs = elim (Bool-cases (any_open bs)) [
  | inl e ↦ (none, rw e refl, λ a. open_iff o a (some b ∷ bs) e)
  | inr e ↦ (some (least o b (set_bounds bs)), rw e refl, closed e)
]
  where
    closed :
        any_open bs ≡ false
        → (a : Option Text)
        → (is_outside o a (some (least o b (set_bounds bs))) ≡ true) ↔ BelowAll o a (some b ∷ bs)
    closed e none = (λ h. BelowAll-none o (some b ∷ bs), λ h. refl)
    closed e (some a) =
        let bound = least_iff o a b (set_bounds bs) in
        let rest = set_iff o a bs e in
        ((λ h. ((bound.0 h).0, rest.0 (bound.0 h).1)), (λ h. bound.1 (h.0, rest.1 h.1)))

collected_set :
    (b : Option Text) (xs : List Text) (bs : List (Option Text))
    → collected b xs ++ set_bounds bs ≡ xs ++ set_bounds (b ∷ bs)
collected_set none xs bs = refl
collected_set (some b) xs bs = append_assoc xs (b ∷ []) (set_bounds bs)

opened_any :
    (b : Option Text) (flag : Bool) (bs : List (Option Text))
    → (opened b flag || any_open bs) ≡ (flag || any_open (b ∷ bs))
opened_any none flag bs = ground arith
opened_any (some b) flag bs = refl

or_false : (b : Bool) → (b || false) ≡ b
or_false b = ground arith

-- What the loop has seen at its end.
see_end :
    (ms : List Bounds) (s : Seen)
    → s.saw_member ≡ true
    → see ms s ≡ record {
      lower_bounds = s.lower_bounds ++ set_bounds (lowers ms);
      upper_bounds = s.upper_bounds ++ set_bounds (uppers ms);
      open_lower = s.open_lower || any_open (lowers ms);
      open_upper = s.open_upper || any_open (uppers ms);
      saw_member = s.saw_member;
    }
unfolding see
see_end [] s h =
    rw
      (
        append-nil s.lower_bounds,
        append-nil s.upper_bounds,
        or_false s.open_lower,
        or_false s.open_upper,
      )
      refl
see_end ((f, u) ∷ ms) s h =
    let rest =
      see_end ms
        (record {
          lower_bounds = collected f s.lower_bounds;
          upper_bounds = collected u s.upper_bounds;
          open_lower = opened f s.open_lower;
          open_upper = opened u s.open_upper;
          saw_member = true;
        })
        refl in
    rw
      (
        rest,
        h,
        collected_set f s.lower_bounds (lowers ms),
        collected_set u s.upper_bounds (uppers ms),
        opened_any f s.open_lower (lowers ms),
        opened_any u s.open_upper (uppers ms),
      )
      refl

covers_iff :
    (b : Bounds) (ms : List Bounds)
    → All (λ m. covers b m ≡ true) ms
      ↔ (BelowAll text_order b.0 (lowers ms) × BelowAll (dual text_order) b.1 (uppers ms))
covers_iff b [] = (λ h. (tt, tt), λ h. tt)
covers_iff b (m ∷ ms) =
    let rest = covers_iff b ms in
    (
      (λ h. ((ground (arith, h.0), (rest.0 h.1).0), (ground (arith, h.0), (rest.0 h.1).1))),
      (λ h. (ground (arith, h.0.0, h.1.0), rest.1 (h.0.1, h.1.1))),
    )

see_all :
    (m : Bounds) (ms : List Bounds)
    → see (m ∷ ms) nothing_seen ≡ record {
      lower_bounds = set_bounds (lowers (m ∷ ms));
      upper_bounds = set_bounds (uppers (m ∷ ms));
      open_lower = any_open (lowers (m ∷ ms));
      open_upper = any_open (uppers (m ∷ ms));
      saw_member = true;
    }
unfolding see
see_all (f, u) ms =
    rw
      (
        see_end ms
            (record {
              lower_bounds = collected f [];
              upper_bounds = collected u [];
              open_lower = opened f false;
              open_upper = opened u false;
              saw_member = true;
            })
            refl,
        collected_set f [] (lowers ms),
        collected_set u [] (uppers ms),
        opened_any f false (lowers ms),
        opened_any u false (uppers ms),
      )
      refl

-- The extent of a cluster that has members is an interval that another covers exactly when it covers
-- every member: no narrower one covers them all, and the extent itself does.
pub extent_hull :
    (m : Bounds) (ms : List Bounds)
    → (extent : Bounds) × (derive_reflection_extent (m ∷ ms) ≡ ok extent)
      × ((b : Bounds) → (covers b extent ≡ true) ↔ All (λ x. covers b x ≡ true) (m ∷ ms))
unfolding derive_reflection_extent
extent_hull m ms =
    let (from, from_is, from_iff) = side text_order m.0 (lowers ms) in
    let (until, until_is, until_iff) = side (dual text_order) m.1 (uppers ms) in
    (
      (from, until),
      rw (see_all m ms, from_is, until_is) refl,
      λ b.
          let sides = covers_iff b (m ∷ ms) in
          (
            (λ h.
                sides.1
                  ((from_iff b.0).0 (ground (arith, h)), (until_iff b.1).0 (ground (arith, h)))),
            (λ h.
                let low = (from_iff b.0).1 (sides.0 h).0 in
                let high = (until_iff b.1).1 (sides.0 h).1 in ground (arith, low, high)),
          ),
    )
