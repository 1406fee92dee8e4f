-- ===== src/Split/Defs.antt =====
-- `StructuralSplitProducer` (src/engrava/extensions/structural_split.py): the checks of its
-- constructor, its fixed windows of characters, and the choice to derive nothing.
use engrava.Prelude.{
  ℕ, zero, suc, ◌+◌, ◌-◌, ◌==◌, List, [], ◌∷◌, ltb, leb, min, length, take, drop, if◌then◌else◌,
}
use engrava.Prelude.Result.{Result, ok, raised}
use engrava.Prelude.Text.{Text}

pub data SplitError : Type 0 where
  window_size_too_small window_overlap_too_large : SplitError

pub record Producer : Type 0 where
  pub window_size : ℕ
  pub window_overlap : ℕ
  pub min_chars : ℕ

-- The bounds of `__init__` on numbers that are not negative.
unfoldable pub new_producer : ℕ → ℕ → ℕ → Result SplitError Producer
new_producer window_size window_overlap min_chars =
    if ltb window_size 1
    then raised window_size_too_small
    else if leb window_size window_overlap
    then raised window_overlap_too_large
    else ok (record {
      window_size = window_size;
      window_overlap = window_overlap;
      min_chars = min_chars;
    })

pub record Segment : Type 0 where
  pub content : Text
  pub char_start : ℕ
  pub char_end : ℕ

-- `content[start:end]`.
abbrev pub slice : Text → ℕ → ℕ → Text
slice content start end = take (end - start) (drop start content)

abbrev pub segment_at : Text → ℕ → ℕ → Segment
segment_at content start end = record {
  content = slice content start end;
  char_start = start;
  char_end = end;
}

-- The loop of `_fixed_window_char_segments`, on fuel.
unfoldable pub char_windows : Producer → ℕ → Text → ℕ → List Segment
char_windows p zero content start = []
char_windows p (suc fuel) content start =
    let end = min (start + p.window_size) (length content) in
    let rest = char_windows p fuel content (start + (p.window_size - p.window_overlap)) in
    if ltb start (length content)
    then segment_at content start end ∷ (if end == length content then [] else rest)
    else []

unfoldable pub fixed_window_char_segments : Producer → Text → List Segment
unfolding char_windows
fixed_window_char_segments p content = char_windows p (length content) content 0
