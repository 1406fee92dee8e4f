-- ===== src/Split/Tests.antt =====
-- The windows of src/engrava/extensions/structural_split.py at a concrete content.
use engrava.Prelude.{
  ℕ, zero, suc, ◌+◌, ◌≤◌, ◌≡◌, ◌⊎◌, refl, Bool, false, ◌==◌, none, some, List, [], ◌∷◌, All,
  get_elem?, arith,
}
use engrava.Prelude.Text.{Text, text}
use engrava.Split.Defs.{Producer, Segment, new_producer, fixed_window_char_segments, char_windows}
use engrava.Split.Words.{
  Span, AreInOrder, IsInside, fixed_window_word_segments, word_segments_cover,
}
use engrava.Split.Paragraphs.{Match, paragraph, paragraph_segments, derive_records}
use engrava.Split.Lossless.{IsMatched, paragraph_segments_cover}
use engrava.Split.Windows.{IsSpan, rebuilt, char_segments_cover}

abbrev fours : Producer
fours = record { window_size = 4; window_overlap = 1; min_chars = 0 }

windows_of_ten : fixed_window_char_segments fours (text "abcdefghij") ≡ (
    record { content = text "abcd"; char_start = 0; char_end = 4 }
    ∷ record { content = text "defg"; char_start = 3; char_end = 7 }
    ∷ record { content = text "ghij"; char_start = 6; char_end = 10 }
    ∷ [])
unfolding fixed_window_char_segments char_windows
windows_of_ten = refl

char_segments_cover_example :
    All
      (λ s. IsSpan (text "abcdefghij") s × (s.char_end ≤ s.char_start + 4))
      (fixed_window_char_segments fours (text "abcdefghij"))
    × (rebuilt fours (fixed_window_char_segments fours (text "abcdefghij")) ≡ text "abcdefghij")
unfolding new_producer
char_segments_cover_example = char_segments_cover 4 1 0 fours (text "abcdefghij") refl

abbrev two_words : Text → List Span
two_words content = (0, 2) ∷ (3, 5) ∷ []

two_words-AreInOrder : AreInOrder (two_words (text "ab cd"))
two_words-AreInOrder zero zero a b h g k = (ground (arith, g, k), ground (arith, g, k))
two_words-AreInOrder zero (suc zero) a b h g k = (ground (arith, g, k), ground (arith, g, k))
two_words-AreInOrder zero (suc (suc j)) a b h g k = cc
two_words-AreInOrder (suc zero) zero a b h g k = absurd (omega arith)
two_words-AreInOrder (suc zero) (suc zero) a b h g k = (ground (arith, g, k), ground (arith, g, k))
two_words-AreInOrder (suc zero) (suc (suc j)) a b h g k = cc
two_words-AreInOrder (suc (suc i)) j a b h g k = cc

word_segments_cover_example :
    (segments : List Segment) × (fixed_window_word_segments two_words fours (text "ab cd")
      ≡ some segments)
    × All (λ span. IsInside span segments) (two_words (text "ab cd"))
unfolding new_producer
word_segments_cover_example =
    word_segments_cover two_words 4 1 0 fours (text "ab cd") refl two_words-AreInOrder

-- A content of two paragraphs, and the blank line between them.
abbrev isspace : ℕ → Bool
isspace c = c == 32

abbrev two_paragraphs : Text
two_paragraphs = text " ab  //c "

abbrev slashes : Text → List Match
slashes content = record { start = 5; end = 7; groups = none ∷ [] } ∷ []

paragraph_segments_cover_example :
    All (IsSpan two_paragraphs) (paragraph_segments isspace slashes two_paragraphs)
    × ((i c : ℕ)
        → get_elem? two_paragraphs i ≡ some c
        → isspace c ≡ false
        → IsInside (i, suc i) (paragraph_segments isspace slashes two_paragraphs)
          ⊎ IsMatched i (slashes two_paragraphs))
paragraph_segments_cover_example =
    paragraph_segments_cover isspace slashes two_paragraphs (omega arith, omega arith, tt)

two_derived :
    derive_records isspace slashes two_words fours paragraph two_paragraphs
    ≡ some (
        record {
          content = text "ab";
          split_mode = paragraph;
          segment_index = 0;
          char_start = 1;
          char_end = 3;
        }
        ∷ record {
          content = text "c";
          split_mode = paragraph;
          segment_index = 1;
          char_start = 7;
          char_end = 8;
        }
        ∷ [])
unfolding derive_records
two_derived = refl
