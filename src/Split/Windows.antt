-- ===== src/Split/Windows.antt =====
-- What the character windows of src/engrava/extensions/structural_split.py cover.
use engrava.Prelude.{
  ℕ, zero, suc, ◌+◌, ◌-◌, ◌==◌, ◌≤◌, ◌<◌, ◌≡◌, refl, ap, sym, ◌∙◌, inl, inr, true, false, List, [],
  ◌∷◌, ◌++◌, ltb, min, arith, length, All, drop, take_all, take-append-drop, length-take,
  length-drop, drop-drop, drop-append, Bool-cases,
}
use engrava.Prelude.Text.{Text}
use engrava.Prelude.Result.{ok}
use mathlib.Core.List.{append-nil}
use engrava.Split.Defs.{
  Producer, Segment, new_producer, slice, segment_at, char_windows, fixed_window_char_segments,
}

-- How the windows of a content follow each other from `start` on.
pub data Tiles (p : Producer) (content : Text) : ℕ → List Segment → Type 0 where
  last :
      (start : ℕ)
      → start < length content
      → length content ≤ start + p.window_size
      → Tiles p content start (segment_at content start (length content) ∷ [])
  step :
      (start : ℕ) (rest : List Segment)
      → start + p.window_size < length content
      → Tiles p content (start + (p.window_size - p.window_overlap)) rest
      → Tiles p content start (segment_at content start (start + p.window_size) ∷ rest)

-- The text that the windows give when each drops what it shares with the one before.
abbrev pub without_overlap : Producer → List Segment → Text
without_overlap p [] = []
without_overlap p (s ∷ rest) = drop p.window_overlap s.content ++ without_overlap p rest

abbrev pub rebuilt : Producer → List Segment → Text
rebuilt p [] = []
rebuilt p (s ∷ rest) = s.content ++ without_overlap p rest

windows_tile :
    (p : Producer) (fuel : ℕ) (content : Text) (start : ℕ)
    → p.window_overlap < p.window_size
    → start < length content
    → length content ≤ start + fuel
    → Tiles p content start (char_windows p fuel content start)
unfolding char_windows
windows_tile p zero content start h k f = absurd (omega arith)
windows_tile p (suc fuel) content start h k f =
    let inside : ltb start (length content) ≡ true = ground arith in
    elim (Bool-cases (min (start + p.window_size) (length content) == length content)) [
      | inl e ↦
          let end : min (start + p.window_size) (length content) ≡ length content = ground arith in
          let same : (length content == length content) ≡ true = ground arith in
          rw (inside, end, same) (last start k (omega (arith, end)))
      | inr e ↦
          let end : min (start + p.window_size) (length content) ≡ start + p.window_size =
            ground arith in
          let short : (start + p.window_size == length content) ≡ false = ground arith in
          let more : start + p.window_size < length content = ground arith in
          rw (inside, end, short)
            (step start _ more (
              windows_tile p fuel content (start + (p.window_size - p.window_overlap)) h
                (omega arith) (omega arith)))
    ]

length-slice :
    (content : Text) (start end : ℕ)
    → end ≤ length content
    → length (slice content start end) ≡ end - start
length-slice content start end h =
    omega (arith, length-take (end - start) (drop start content), length-drop start content)

-- The first window is as long as the overlap, so dropping it from the text drops it from there.
without_overlap-rebuilt :
    (p : Producer) (content : Text) (start : ℕ) (segments : List Segment)
    → p.window_overlap < p.window_size
    → start + p.window_overlap ≤ length content
    → Tiles p content start segments
    → without_overlap p segments ≡ drop p.window_overlap (rebuilt p segments)
without_overlap-rebuilt p content start segments h k (last start' f g) = sym (
    drop-append p.window_overlap (slice content start (length content)) []
      (omega (arith, length-slice content start (length content) (omega arith))))
without_overlap-rebuilt p content start segments h k (step start' rest f g) = sym (
    drop-append p.window_overlap (slice content start (start + p.window_size))
      (without_overlap p rest)
      (omega (arith, length-slice content start (start + p.window_size) (omega arith))))

rebuilt-Tiles :
    (p : Producer) (content : Text) (start : ℕ) (segments : List Segment)
    → p.window_overlap < p.window_size
    → Tiles p content start segments
    → rebuilt p segments ≡ drop start content
rebuilt-Tiles p content start segments h (last start' f g) =
    append-nil (slice content start (length content))
    ∙ take_all (length content - start) (drop start content)
        (omega (arith, length-drop start content))
rebuilt-Tiles p content start segments h (step start' rest f g) =
    let next = start + (p.window_size - p.window_overlap) in
    let size : start + p.window_size - start ≡ p.window_size = omega arith in
    let back : next + p.window_overlap ≡ start + p.window_size = omega arith in
    let behind : without_overlap p rest ≡ drop p.window_size (drop start content) =
      without_overlap-rebuilt p content next rest h (omega arith) g
      ∙ ap (drop p.window_overlap) (rebuilt-Tiles p content next rest h g)
      ∙ drop-drop p.window_overlap next content
      ∙ ap (λ k. drop k content) back
      ∙ sym (drop-drop p.window_size start content) in
    rw (size, behind) (take-append-drop p.window_size (drop start content))

-- Every window's text is what stands at its offsets, which lie in the content.
abbrev pub IsSpan : Text → Segment → Type 0
IsSpan content s =
    (s.content ≡ slice content s.char_start s.char_end)
    × (s.char_start < s.char_end)
    × (s.char_end ≤ length content)

Tiles-IsSpan :
    (p : Producer) (content : Text) (start : ℕ) (segments : List Segment)
    → p.window_overlap < p.window_size
    → Tiles p content start segments
    → All (λ s. IsSpan content s × (s.char_end ≤ s.char_start + p.window_size)) segments
Tiles-IsSpan p content start segments h (last start' f g) = (((refl, f, omega arith), g), tt)
Tiles-IsSpan p content start segments h (step start' rest f g) =
    (((refl, omega arith, omega arith), omega arith), Tiles-IsSpan p content _ rest h g)

pub new_producer-overlap :
    (window_size window_overlap min_chars : ℕ) (p : Producer)
    → new_producer window_size window_overlap min_chars ≡ ok p
    → p.window_overlap < p.window_size
unfolding new_producer
new_producer-overlap window_size window_overlap min_chars p h = ground arith

-- The windows that a producer, as the constructor admits it, cuts from a content: each is what stands
-- at its offsets, not empty and no longer than `window_size`; and the first with all the others, less
-- the overlap that each shares with the one before, is the content.
pub char_segments_cover :
    (window_size window_overlap min_chars : ℕ) (p : Producer) (content : Text)
    → new_producer window_size window_overlap min_chars ≡ ok p
    → All
        (λ s. IsSpan content s × (s.char_end ≤ s.char_start + p.window_size))
        (fixed_window_char_segments p content)
      × (rebuilt p (fixed_window_char_segments p content) ≡ content)
unfolding fixed_window_char_segments char_windows
char_segments_cover window_size window_overlap min_chars p [] k = (tt, refl)
char_segments_cover window_size window_overlap min_chars p (ch ∷ content) k =
    let h = new_producer-overlap window_size window_overlap min_chars p k in
    let tiles =
      windows_tile p (length (ch ∷ content)) (ch ∷ content) 0 h (omega arith) (omega arith) in
    (Tiles-IsSpan p (ch ∷ content) 0 _ h tiles, rebuilt-Tiles p (ch ∷ content) 0 _ h tiles)
