-- ===== src/Split/Trimmed.antt =====
-- What the paragraphs of src/engrava/extensions/structural_split.py hold, and that they hold all.
use engrava.Prelude.{
  ℕ, zero, suc, ◌+◌, ◌-◌, ◌≤◌, ◌≡◌, refl, sym, ap, ◌∙◌, inl, inr, Bool, Option, none, some, List,
  [], ◌∷◌, length, take, drop, length-take, length-drop, drop-drop, arith, All, All-append,
  Bool-cases,
}
use engrava.Prelude.Text.{Text}
use engrava.Split.Defs.{slice}
use engrava.Split.Windows.{IsSpan}
use engrava.Split.Words.{Span}
use engrava.Split.Paragraphs.{
  Match, lstrip, before_spaces, rstrip, strip, stripped_at, strip_span, group_segments,
  paragraphs_from,
}

take-nil : (n : ℕ) → take {A = ℕ} n [] ≡ []
take-nil zero = refl
take-nil (suc n) = refl

drop-take : (k m : ℕ) (xs : Text) → drop k (take m xs) ≡ take (m - k) (drop k xs)
drop-take zero m xs = ap (λ j. take j xs) (omega arith)
drop-take (suc k) zero xs = sym (ap (λ j. take j (drop (suc k) xs)) {y = 0} (omega arith))
drop-take (suc k) (suc m) [] = sym (take-nil (suc m - suc k))
drop-take (suc k) (suc m) (x ∷ xs) = drop-take k m xs ∙ ap (λ j. take j (drop k xs)) (omega arith)

take-take : (n m : ℕ) (xs : Text) → n ≤ m → take n (take m xs) ≡ take n xs
take-take zero m xs h = refl
take-take (suc n) zero xs h = absurd (omega (arith, h))
take-take (suc n) (suc m) [] h = refl
take-take (suc n) (suc m) (x ∷ xs) h = ap (◌∷◌ x) (take-take n m xs (omega (arith, h)))

module _ (isspace : ℕ → Bool) where
  pub lstrip_short : (t : Text) → length (lstrip isspace t) ≤ length t
  unfolding lstrip
  lstrip_short [] = omega arith
  lstrip_short (c ∷ cs) = ground (arith, lstrip_short cs)

  pub lstrip_back : (t : Text) → lstrip isspace t ≡ drop (length t - length (lstrip isspace t)) t
  unfolding lstrip
  lstrip_back [] = refl
  lstrip_back (c ∷ cs) = elim (Bool-cases (isspace c)) [
    | inl e ↦
        let one : suc (length cs) - length (lstrip isspace cs)
            ≡ suc (length cs - length (lstrip isspace cs)) =
          omega (arith, lstrip_short cs) in
        rw (e, lstrip, one) (lstrip_back cs)
    | inr e ↦
        let nothing : suc (length cs) - suc (length cs) ≡ 0 = omega arith in
        rw (e, lstrip, nothing) refl
  ]

  rstrip_short : (t : Text) → length (rstrip isspace t) ≤ length t
  unfolding rstrip
  rstrip_short [] = omega arith
  rstrip_short (c ∷ cs) = at (rstrip isspace cs) (rstrip_short cs)
    where
      at : (t : Text) → length t ≤ length cs → length (before_spaces isspace c t) ≤ suc (length cs)
      at [] h = ground arith
      at (d ∷ ds) h = omega (arith, h)

  rstrip_front : (t : Text) → rstrip isspace t ≡ take (length (rstrip isspace t)) t
  unfolding rstrip
  rstrip_front [] = refl
  rstrip_front (c ∷ cs) = at (rstrip isspace cs) (rstrip_front cs)
    where
      at :
          (t : Text)
          → t ≡ take (length t) cs
          → before_spaces isspace c t ≡ take (length (before_spaces isspace c t)) (c ∷ cs)
      at [] h = elim (Bool-cases (isspace c)) [ inl e ↦ rw e refl | inr e ↦ rw e refl ]
      at (d ∷ ds) h = ap (◌∷◌ c) h

  -- Where the text that is left of a slice stands.
  strip-slice :
      (content : Text) (a b : ℕ)
      → strip isspace (slice content a b)
        ≡ take (length (strip isspace (slice content a b))) (
            drop
              (a + (length (slice content a b) - length (lstrip isspace (slice content a b))))
              content)
  strip-slice content a b =
      let raw = slice content a b in
      let left = lstrip isspace raw in
      let lead = length raw - length left in
      let n = length (strip isspace raw) in
      let size : n ≤ b - a - lead =
        omega (arith, rstrip_short left, lstrip_short raw, length-take (b - a) (drop a content)) in
      rstrip_front left
      ∙ (ap (take n) (lstrip_back raw ∙ drop-take lead (b - a) (drop a content))
          ∙ (take-take n (b - a - lead) (drop lead (drop a content)) size
              ∙ ap (take n) (drop-drop lead a content)))

  pub strip_span-IsSpan :
      (content : Text) (a b : ℕ) → All (IsSpan content) (strip_span isspace content a b)
  unfolding strip_span
  strip_span-IsSpan content a b = at (strip isspace (slice content a b)) (strip-slice content a b)
    where
      start : ℕ
      start = a + (length (slice content a b) - length (lstrip isspace (slice content a b)))

      at :
          (t : Text)
          → t ≡ take (length t) (drop start content)
          → All (IsSpan content) (stripped_at isspace start t)
      at [] h = tt
      at (c ∷ cs) h =
          let size : start + length (c ∷ cs) - start ≡ length (c ∷ cs) = omega arith in
          let there = ap length h in
          (
            (
              h ∙ sym (ap (λ n. take n (drop start content)) size),
              omega arith,
              omega (
                arith,
                there,
                length-take (length (c ∷ cs)) (drop start content),
                length-drop start content,
              ),
            ),
            tt,
          )

  groups-IsSpan :
      (content : Text) (groups : List (Option Span))
      → All (IsSpan content) (group_segments isspace content groups)
  unfolding group_segments
  groups-IsSpan content [] = tt
  groups-IsSpan content (none ∷ groups) = groups-IsSpan content groups
  groups-IsSpan content (some span ∷ groups) =
      All-append _ (strip_span isspace content span.0 span.1) _
        (strip_span-IsSpan content span.0 span.1) (groups-IsSpan content groups)

  pub paragraphs-IsSpan :
      (content : Text) (cursor : ℕ) (ms : List Match)
      → All (IsSpan content) (paragraphs_from isspace content cursor ms)
  unfolding paragraphs_from
  paragraphs-IsSpan content cursor [] = strip_span-IsSpan content cursor (length content)
  paragraphs-IsSpan content cursor (m ∷ ms) =
      All-append _ (strip_span isspace content cursor m.start) _
        (strip_span-IsSpan content cursor m.start)
        (All-append _ (group_segments isspace content m.groups) _ (groups-IsSpan content m.groups)
          (paragraphs-IsSpan content m.end ms))
