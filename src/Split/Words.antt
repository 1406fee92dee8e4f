-- ===== src/Split/Words.antt =====
-- The windows of words of `StructuralSplitProducer` (src/engrava/extensions/structural_split.py). The
-- spans of the words are what `re.finditer` gives for the pattern of a run without whitespace.
use engrava.Prelude.{
  ℕ, zero, suc, ◌+◌, ◌-◌, ◌==◌, ◌≤◌, ◌<◌, ◌≡◌, ◌⊎◌, inl, inr, refl, Bool, true, false, Option, none,
  some, List, [], ◌∷◌, ltb, leb, leb→le, leb_false→lt, min, arith, length, All, get_elem?,
  if◌then◌else◌, Bool-cases,
}
use engrava.Prelude.Result.{ok}
use engrava.Prelude.Text.{Text}
use engrava.Split.Defs.{Producer, Segment, new_producer, segment_at}
use engrava.Split.Windows.{new_producer-overlap}

abbrev pub Span : Type 0
Span = ℕ × ℕ

abbrev pub both_ends : Option Span → Option Span → Option Span
both_ends none last = none
both_ends (some first) none = none
both_ends (some first) (some last) = some (first.0, last.1)

abbrev pub prepended : Segment → Option (List Segment) → Option (List Segment)
prepended s none = none
prepended s (some rest) = some (s ∷ rest)

-- A window with those after it, if its words are there; `none` is an IndexError.
abbrev pub window_then : Text → Bool → Option Span → Option (List Segment) → Option (List Segment)
window_then content is_last none rest = none
window_then content true (some (start, end)) rest = some (segment_at content start end ∷ [])
window_then content false (some (start, end)) rest = prepended (segment_at content start end) rest

-- The loop, on fuel.
unfoldable pub word_windows : Producer → ℕ → Text → List Span → ℕ → Option (List Segment)
word_windows p zero content words index = some []
word_windows p (suc fuel) content words index =
    let last = min (index + p.window_size) (length words) - 1 in
    let rest = word_windows p fuel content words (index + (p.window_size - p.window_overlap)) in
    if ltb index (length words)
    then window_then content (last == length words - 1)
        (both_ends (get_elem? words index) (get_elem? words last)) rest
    else some []

unfoldable pub fixed_window_word_segments :
    (Text → List Span) → Producer → Text → Option (List Segment)
unfolding word_windows
fixed_window_word_segments word_spans p content =
    word_windows p (length (word_spans content)) content (word_spans content) 0

-- A span lies in one of the segments.
abbrev pub IsInside : Span → List Segment → Type 0
IsInside span [] = ⊥
IsInside span (s ∷ rest) = ((s.char_start ≤ span.0) × (span.1 ≤ s.char_end)) ⊎ IsInside span rest

-- The spans come in their order.
abbrev pub AreInOrder : List Span → Type 0
AreInOrder words =
    (i j : ℕ) (a b : Span)
    → i ≤ j
    → get_elem? words i ≡ some a
    → get_elem? words j ≡ some b
    → (a.0 ≤ b.0) × (a.1 ≤ b.1)

get_elem?-lt-length :
    {A : Type 0} (i : ℕ) (xs : List A) → i < length xs → (x : A) × (get_elem? xs i ≡ some x)
get_elem?-lt-length i [] h = absurd (omega arith)
get_elem?-lt-length zero (x ∷ xs) h = (x, refl)
get_elem?-lt-length (suc i) (x ∷ xs) h = get_elem?-lt-length i xs (omega arith)

pub lt-length-get_elem? :
    {A : Type 0} (i : ℕ) (xs : List A) (x : A) → get_elem? xs i ≡ some x → i < length xs
lt-length-get_elem? i [] x h = cc
lt-length-get_elem? zero (y ∷ xs) x h = omega arith
lt-length-get_elem? (suc i) (y ∷ xs) x h = omega (arith, lt-length-get_elem? i xs x h)

module _ (p : Producer) (advances : p.window_overlap < p.window_size) (content : Text)
    (words : List Span) (in_order : AreInOrder words) where
  -- From `index` on, every word lies in a window.
  abbrev Covered : ℕ → List Segment → Type 0
  Covered index segments =
      (i : ℕ) (span : Span) → index ≤ i → get_elem? words i ≡ some span → IsInside span segments

  words-Covered :
      (fuel index : ℕ)
      → length words ≤ index + fuel
      → (segments : List Segment) × (word_windows p fuel content words index ≡ some segments)
        × Covered index segments
  unfolding word_windows
  words-Covered zero index f =
      ([], refl, λ i span k g. absurd (omega (arith, lt-length-get_elem? i words span g)))
  words-Covered (suc fuel) index f = elim (Bool-cases (ltb index (length words))) [
    | inr e ↦
        ([], rw e refl, λ i span k g. absurd (ground (arith, lt-length-get_elem? i words span g)))
    | inl e ↦
        let last = min (index + p.window_size) (length words) - 1 in
        let here : index < length words = ground arith in
        let (start, gs) = get_elem?-lt-length index words here in
        let (end, ge) = get_elem?-lt-length last words (omega arith) in
        let inside : (i : ℕ) (span : Span)
            → index ≤ i
            → i ≤ last
            → get_elem? words i ≡ some span
            → (start.0 ≤ span.0) × (span.1 ≤ end.1) =
          λ i span k l g.
            ((in_order index i start span k gs g).0, (in_order i last span end l g ge).1) in
        elim (Bool-cases (last == length words - 1)) [
          | inl q ↦ (
            segment_at content start.0 end.1 ∷ [],
            rw (e, gs, ge, q) refl,
            λ i span k g.
                let low : i ≤ last = ground (arith, lt-length-get_elem? i words span g) in
                inl (inside i span k low g),
          )
          | inr q ↦
              let (rest, r, covered) =
                words-Covered fuel (index + (p.window_size - p.window_overlap)) (omega arith) in
              (
                segment_at content start.0 end.1 ∷ rest,
                rw (e, gs, ge, q, r) refl,
                λ i span k g. elim (Bool-cases (leb i last)) [
                  | inl w ↦ inl (inside i span k (leb→le i last w) g)
                  | inr w ↦
                      let past : last < i = leb_false→lt i last w in
                      inr (covered i span (ground (arith, lt-length-get_elem? i words span g)) g)
                ],
              )
        ]
  ]

  All-IsInside :
      (segments : List Segment) → Covered 0 segments → All (λ span. IsInside span segments) words
  All-IsInside segments covered = from words (λ i span g. covered i span (omega arith) g)
    where
      from :
          (ws : List Span)
          → ((i : ℕ) (span : Span) → get_elem? ws i ≡ some span → IsInside span segments)
          → All (λ span. IsInside span segments) ws
      from [] h = tt
      from (w ∷ ws) h = (h 0 w refl, from ws (λ i span g. h (suc i) span g))

-- A producer, as the constructor admits it, cuts a content into windows of words without an error,
-- and every word lies in one of them, where the words come in their order.
pub word_segments_cover :
    (word_spans : Text → List Span) (window_size window_overlap min_chars : ℕ) (p : Producer)
    (content : Text)
    → new_producer window_size window_overlap min_chars ≡ ok p
    → AreInOrder (word_spans content)
    → (segments : List Segment) × (fixed_window_word_segments word_spans p content ≡ some segments)
      × All (λ span. IsInside span segments) (word_spans content)
unfolding fixed_window_word_segments
word_segments_cover word_spans window_size window_overlap min_chars p content h in_order =
    let advances = new_producer-overlap window_size window_overlap min_chars p h in
    let (segments, is, covered) =
      words-Covered p advances content (word_spans content) in_order (length (word_spans content)) 0
        (omega arith) in
    (segments, is, All-IsInside p advances content (word_spans content) in_order segments covered)
