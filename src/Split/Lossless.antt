-- ===== src/Split/Lossless.antt =====
-- That the paragraphs of src/engrava/extensions/structural_split.py leave no word out.
use engrava.Prelude.{
  ℕ, zero, suc, ◌+◌, ◌-◌, ◌≤◌, ◌<◌, ◌≡◌, ◌⊎◌, refl, sym, ap, subst, ◌∙◌, inl, inr, Bool, false,
  Option, none, some, List, [], ◌∷◌, ◌++◌, leb, leb→le, leb_false→lt, length, take, drop, get_elem?,
  arith, All, Bool-cases,
}
use engrava.Prelude.Text.{Text}
use engrava.Split.Defs.{Segment, slice}
use engrava.Split.Windows.{IsSpan}
use engrava.Split.Words.{Span, IsInside, lt-length-get_elem?}
use engrava.Split.Paragraphs.{
  Match, lstrip, before_spaces, rstrip, strip, stripped_at, strip_span, group_segments,
  paragraphs_from, paragraph_segments,
}
use engrava.Split.Trimmed.{lstrip_short, lstrip_back, paragraphs-IsSpan}

get-drop : (n k : ℕ) (xs : Text) → get_elem? (drop n xs) k ≡ get_elem? xs (n + k)
get-drop zero k xs = ap (get_elem? xs) (omega arith)
get-drop (suc n) k [] = refl
get-drop (suc n) k (x ∷ xs) =
    let next : suc n + k ≡ suc (n + k) = omega arith in
    get-drop n k xs ∙ sym (ap (get_elem? (x ∷ xs)) next)

get-take : (n k : ℕ) (xs : Text) → k < n → get_elem? (take n xs) k ≡ get_elem? xs k
get-take zero k xs h = absurd (omega (arith, h))
get-take (suc n) k [] h = refl
get-take (suc n) zero (x ∷ xs) h = refl
get-take (suc n) (suc k) (x ∷ xs) h = get-take n k xs (omega (arith, h))

some-space :
    (isspace : ℕ → Bool) (c d : ℕ) → some d ≡ some c → isspace c ≡ false → isspace d ≡ false
some-space isspace c d g h = subst (λ o. isspace (or_zero o) ≡ false) (sym g) h
  where
    or_zero : Option ℕ → ℕ
    or_zero none = 0
    or_zero (some n) = n

left-IsInside : (s : Span) (xs ys : List Segment) → IsInside s xs → IsInside s (xs ++ ys)
left-IsInside s [] ys h = absurd h
left-IsInside s (x ∷ xs) ys (inl h) = inl h
left-IsInside s (x ∷ xs) ys (inr h) = inr (left-IsInside s xs ys h)

right-IsInside : (s : Span) (xs ys : List Segment) → IsInside s ys → IsInside s (xs ++ ys)
right-IsInside s [] ys h = h
right-IsInside s (x ∷ xs) ys h = inr (right-IsInside s xs ys h)

-- The matches follow one another.
abbrev pub AreOrdered : ℕ → List Match → Type 0
AreOrdered cursor [] = Unit
AreOrdered cursor (m ∷ ms) = (cursor ≤ m.start) × (m.start ≤ m.end) × AreOrdered m.end ms

-- A position in one of the matches.
abbrev pub IsMatched : ℕ → List Match → Type 0
IsMatched i [] = ⊥
IsMatched i (m ∷ ms) = ((m.start ≤ i) × (i < m.end)) ⊎ IsMatched i ms

module _ (isspace : ℕ → Bool) where
  -- A character that is no space is not stripped.
  lstrip_holds :
      (t : Text) (k c : ℕ)
      → get_elem? t k ≡ some c
      → isspace c ≡ false
      → length t - length (lstrip isspace t) ≤ k
  unfolding lstrip
  lstrip_holds [] k c g h = absurd (cc g)
  lstrip_holds (d ∷ ds) zero c g h =
      let kept = some-space isspace c d g h in rw (kept, lstrip) (omega arith)
  lstrip_holds (d ∷ ds) (suc k) c g h = elim (Bool-cases (isspace d)) [
    | inl e ↦ rw (e, lstrip) (omega (arith, lstrip_holds ds k c g h, lstrip_short isspace ds))
    | inr e ↦ rw (e, lstrip) (omega arith)
  ]

  rstrip_holds :
      (t : Text) (k c : ℕ)
      → get_elem? t k ≡ some c
      → isspace c ≡ false
      → k < length (rstrip isspace t)
  unfolding rstrip
  rstrip_holds [] k c g h = absurd (cc g)
  rstrip_holds (d ∷ ds) zero c g h = at (rstrip isspace ds) (some-space isspace c d g h)
    where
      at : (t : Text) → isspace d ≡ false → 0 < length (before_spaces isspace d t)
      at [] e = rw e (omega arith)
      at (x ∷ xs) e = omega arith
  rstrip_holds (d ∷ ds) (suc k) c g h = at (rstrip isspace ds) (rstrip_holds ds k c g h)
    where
      at : (t : Text) → k < length t → suc k < length (before_spaces isspace d t)
      at [] less = absurd (omega (arith, less))
      at (x ∷ xs) less = omega (arith, less)

  strip_span-holds :
      (content : Text) (a b i c : ℕ)
      → a ≤ i
      → i < b
      → get_elem? content i ≡ some c
      → isspace c ≡ false
      → IsInside (i, suc i) (strip_span isspace content a b)
  unfolding strip_span
  strip_span-holds content a b i c low high g h =
      at (strip isspace raw) (lstrip_holds raw (i - a) c in_raw h)
        (rstrip_holds left (i - a - lead) c in_left h)
    where
      raw : Text
      raw = slice content a b

      left : Text
      left = lstrip isspace raw

      lead : ℕ
      lead = length raw - length left

      in_raw : get_elem? raw (i - a) ≡ some c
      in_raw =
          let back : a + (i - a) ≡ i = omega (arith, low) in
          get-take (b - a) (i - a) (drop a content) (omega (arith, low, high))
          ∙ (get-drop a (i - a) content ∙ (ap (get_elem? content) back ∙ g))

      in_left : get_elem? left (i - a - lead) ≡ some c
      in_left =
          let held = lstrip_holds raw (i - a) c in_raw h in
          let back : lead + (i - a - lead) ≡ i - a = omega (arith, held) in
          ap (λ t. get_elem? t (i - a - lead)) (lstrip_back isspace raw)
          ∙ (get-drop lead (i - a - lead) raw ∙ (ap (get_elem? raw) back ∙ in_raw))

      at :
          (t : Text)
          → lead ≤ i - a
          → i - a - lead < length t
          → IsInside (i, suc i) (stripped_at isspace (a + lead) t)
      at [] held less = absurd (omega (arith, less))
      at (x ∷ xs) held less = inl (omega (arith, held, low), omega (arith, held, less, low))

  paragraphs-holds :
      (content : Text) (cursor : ℕ) (ms : List Match)
      → AreOrdered cursor ms
      → (i c : ℕ) → cursor ≤ i
      → get_elem? content i ≡ some c
      → isspace c ≡ false
      → IsInside (i, suc i) (paragraphs_from isspace content cursor ms) ⊎ IsMatched i ms
  unfolding paragraphs_from
  paragraphs-holds content cursor [] o i c low g h = inl (
      strip_span-holds content cursor (length content) i c low (lt-length-get_elem? i content c g) g
        h)
  paragraphs-holds content cursor (m ∷ ms) o i c low g h = elim (Bool-cases (leb m.start i)) [
    | inr before ↦ inl (
        left-IsInside (i, suc i) (strip_span isspace content cursor m.start) _
          (strip_span-holds content cursor m.start i c low (leb_false→lt m.start i before) g h))
    | inl begun ↦ elim (Bool-cases (leb m.end i)) [
      | inr inside ↦ inr (inl (leb→le m.start i begun, leb_false→lt m.end i inside))
      | inl over ↦ elim (paragraphs-holds content m.end ms o.2 i c (leb→le m.end i over) g h) [
        | inl k ↦ inl (
            right-IsInside (i, suc i) (strip_span isspace content cursor m.start) _
              (right-IsInside (i, suc i) (group_segments isspace content m.groups) _ k))
        | inr k ↦ inr (inr k)
      ]
    ]
  ]

  -- Nothing is lost: where the matches of the boundary follow one another, every character that is no
  -- space lies in a paragraph or in a match. And every paragraph is what stands at its offsets, is not
  -- empty, and lies in the content.
  pub paragraph_segments_cover :
      (finditer : Text → List Match) (content : Text)
      → AreOrdered 0 (finditer content)
      → All (IsSpan content) (paragraph_segments isspace finditer content)
        × ((i c : ℕ)
            → get_elem? content i ≡ some c
            → isspace c ≡ false
            → IsInside (i, suc i) (paragraph_segments isspace finditer content)
              ⊎ IsMatched i (finditer content))
  unfolding paragraph_segments
  paragraph_segments_cover finditer content ordered = (
    paragraphs-IsSpan isspace content 0 (finditer content),
    λ i c g h. paragraphs-holds content 0 (finditer content) ordered i c (omega arith) g h,
  )
