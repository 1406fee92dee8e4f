-- ===== src/Mindql/Quote.antt =====
-- The scanners that look past single-quoted literals (src/engrava/mindql/parser.py). The index of
-- each loop is the text that is left; its flag `in_str` is an argument.
pub mod Mask
pub mod Escaped
use engrava.Prelude.{ℕ, suc, Bool, true, false, ◌==◌, ◌||◌, not, any, List, [], ◌∷◌, ◌++◌}
use engrava.Prelude.Text.{Text}

-- `'`.
abbrev pub quote : ℕ
quote = 39

-- `_MASK_CHAR`.
abbrev pub mask_char : ℕ
mask_char = 0

-- The loop of `strip_string_literals`.
unfoldable pub strip_from : (in_str : Bool) → Text → Text
strip_from in_str [] = []
strip_from true (c ∷ []) = []
strip_from true (c ∷ d ∷ cs) = elim (c == quote) [
  | true ↦ elim (d == quote) [ true ↦ strip_from true cs | false ↦ strip_from false (d ∷ cs) ]
  | false ↦ strip_from true (d ∷ cs)
]
strip_from false (c ∷ cs) = elim (c == quote) [
  | true ↦ strip_from true cs
  | false ↦ c ∷ strip_from false cs
]

abbrev pub strip_string_literals : Text → Text
strip_string_literals text = strip_from false text

-- The loop of `_has_unterminated_string`.
unfoldable pub open_from : (in_str : Bool) → Text → Bool
open_from in_str [] = in_str
open_from true (c ∷ []) = not (c == quote)
open_from true (c ∷ d ∷ cs) = elim (c == quote) [
  | true ↦ elim (d == quote) [ true ↦ open_from true cs | false ↦ open_from false (d ∷ cs) ]
  | false ↦ open_from true (d ∷ cs)
]
open_from false (c ∷ cs) = elim (c == quote) [
  | true ↦ open_from true cs
  | false ↦ open_from false cs
]

abbrev pub has_unterminated_string : Text → Bool
has_unterminated_string text = open_from false text

-- The loop of `_mask_quoted`.
unfoldable pub mask_from : (in_str : Bool) → Text → Text
mask_from in_str [] = []
mask_from true (c ∷ []) = elim (c == quote) [ true ↦ c ∷ [] | false ↦ mask_char ∷ [] ]
mask_from true (c ∷ d ∷ cs) = elim (c == quote) [
  | true ↦ elim (d == quote) [
    | true ↦ mask_char ∷ mask_char ∷ mask_from true cs
    | false ↦ c ∷ mask_from false (d ∷ cs)
  ]
  | false ↦ mask_char ∷ mask_from true (d ∷ cs)
]
mask_from false (c ∷ cs) = elim (c == quote) [
  | true ↦ c ∷ mask_from true cs
  | false ↦ c ∷ mask_from false cs
]

abbrev pub mask_quoted : Text → Text
mask_quoted text = mask_from false text

-- `_needs_tree`; `has_or_in` is the search for the words OR and IN.
unfoldable pub needs_tree : (has_or_in : Text → Bool) → Text → Bool
needs_tree has_or_in where_text =
    let skeleton = strip_string_literals where_text in
    has_unterminated_string where_text
    || (any (λ c. c == 40) skeleton || any (λ c. c == 41) skeleton)
    || has_or_in skeleton

-- `quoted_value.replace("''", "'")`.
unfoldable pub unescape : Text → Text
unescape [] = []
unescape (c ∷ []) = c ∷ []
unescape (c ∷ d ∷ cs) = elim (c == quote) [
  | true ↦ elim (d == quote) [ true ↦ c ∷ unescape cs | false ↦ c ∷ unescape (d ∷ cs) ]
  | false ↦ c ∷ unescape (d ∷ cs)
]
