-- ===== src/Split/Paragraphs.antt =====
-- The paragraphs of `StructuralSplitProducer` (src/engrava/extensions/structural_split.py), its choice
-- of a mode, and the records that it derives. The matches of the boundary are what `re.finditer`
-- gives; `isspace` is that of `str`.
use engrava.Prelude.{
  ℕ, suc, ◌+◌, ◌-◌, ◌&&◌, Bool, Option, none, some, List, [], ◌∷◌, ◌++◌, ltb, length, if◌then◌else◌,
}
use engrava.Prelude.Text.{Text}
use engrava.Split.Defs.{Producer, Segment, slice, fixed_window_char_segments}
use engrava.Split.Words.{Span, fixed_window_word_segments}

-- A match of the boundary: its span, and those of its groups that took part.
pub record Match : Type 0 where
  pub start : ℕ
  pub end : ℕ
  pub groups : List (Option Span)

pub data SplitMode : Type 0 where
  paragraph char_window word_window : SplitMode

pub record DerivedRecord : Type 0 where
  pub content : Text
  pub split_mode : SplitMode
  pub segment_index : ℕ
  pub char_start : ℕ
  pub char_end : ℕ

module _ (isspace : ℕ → Bool) where
  -- `str.lstrip`, `str.rstrip` and `str.strip`.
  unfoldable pub lstrip : Text → Text
  lstrip [] = []
  lstrip (c ∷ cs) = if isspace c then lstrip cs else c ∷ cs

  abbrev pub before_spaces : ℕ → Text → Text
  before_spaces c [] = if isspace c then [] else c ∷ []
  before_spaces c (d ∷ ds) = c ∷ d ∷ ds

  unfoldable pub rstrip : Text → Text
  rstrip [] = []
  rstrip (c ∷ cs) = before_spaces c (rstrip cs)

  abbrev pub strip : Text → Text
  strip t = rstrip (lstrip t)

  abbrev pub stripped_at : ℕ → Text → List Segment
  stripped_at start [] = []
  stripped_at start (c ∷ cs) =
      record { content = c ∷ cs; char_start = start; char_end = start + length (c ∷ cs) } ∷ []

  -- `_strip_span`.
  unfoldable pub strip_span : Text → ℕ → ℕ → List Segment
  unfolding lstrip rstrip
  strip_span content raw_start raw_end =
      let raw = slice content raw_start raw_end in
      stripped_at (raw_start + (length raw - length (lstrip raw))) (strip raw)

  unfoldable pub group_segments : Text → List (Option Span) → List Segment
  unfolding strip_span
  group_segments content [] = []
  group_segments content (none ∷ groups) = group_segments content groups
  group_segments content (some span ∷ groups) =
      strip_span content span.0 span.1 ++ group_segments content groups

  -- The loop of `_paragraph_segments`, from the cursor on.
  unfoldable pub paragraphs_from : Text → ℕ → List Match → List Segment
  unfolding group_segments strip_span
  paragraphs_from content cursor [] = strip_span content cursor (length content)
  paragraphs_from content cursor (m ∷ ms) =
      strip_span content cursor m.start
      ++ (group_segments content m.groups ++ paragraphs_from content m.end ms)

  unfoldable pub paragraph_segments : (Text → List Match) → Text → List Segment
  unfolding paragraphs_from
  paragraph_segments finditer content = paragraphs_from content 0 (finditer content)

  module _ (finditer : Text → List Match) (word_spans : Text → List Span) (p : Producer) where
    -- `_segment`; `none` is an IndexError.
    abbrev pub segments_of : SplitMode → Text → Option (List Segment)
    segments_of paragraph content = some (paragraph_segments finditer content)
    segments_of char_window content = some (fixed_window_char_segments p content)
    segments_of word_window content = fixed_window_word_segments word_spans p content

    unfoldable pub enumerated : SplitMode → ℕ → List Segment → List DerivedRecord
    enumerated mode index [] = []
    enumerated mode index (s ∷ segments) =
        record {
          content = s.content;
          split_mode = mode;
          segment_index = index;
          char_start = s.char_start;
          char_end = s.char_end;
        }
        ∷ enumerated mode (suc index) segments

    abbrev pub records_of : SplitMode → Option (List Segment) → Option (List DerivedRecord)
    records_of mode none = none
    records_of mode (some segments) =
        if ltb (length segments) 2 then some [] else some (enumerated mode 0 segments)

    -- `derive_records`.
    unfoldable pub derive_records : SplitMode → Text → Option (List DerivedRecord)
    unfolding lstrip rstrip paragraph_segments enumerated
    derive_records mode content =
        if ltb 0 p.min_chars && ltb (length (strip content)) p.min_chars
        then some []
        else records_of mode (segments_of mode content)
