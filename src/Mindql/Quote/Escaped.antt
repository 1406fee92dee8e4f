-- ===== src/Mindql/Quote/Escaped.antt =====
-- A value written as a literal, in the scanners' eyes (src/engrava/mindql/parser.py).
use engrava.Prelude.{
  ℕ, ◌≡◌, refl, ap, sym, ◌∙◌, Bool, true, false, ◌==◌, Bool-cases, inl, inr, [], ◌∷◌, ◌++◌,
}
use engrava.Prelude.Text.{Text}
use engrava.Mindql.Quote.{
  quote, strip_from, strip_string_literals, open_from, has_unterminated_string, mask_from,
  needs_tree, unescape,
}
use engrava.Mindql.Quote.Mask.{
  NoQuoteFirst, Masked, mask_from-Masked, strip-closes, strip-inside, strip-outside, open-closes,
  open-inside, open-outside,
}

-- The SQL escape: every `'` of a value is doubled.
unfoldable pub escape : Text → Text
escape [] = []
escape (c ∷ cs) = elim (c == quote) [ true ↦ c ∷ c ∷ escape cs | false ↦ c ∷ escape cs ]

abbrev pub literal : Text → Text
literal value = quote ∷ (escape value ++ quote ∷ [])

escape-quote : (c : ℕ) (cs : Text) → (c == quote) ≡ true → escape (c ∷ cs) ≡ c ∷ c ∷ escape cs
unfolding escape
escape-quote c cs e = cc

escape-other : (c : ℕ) (cs : Text) → (c == quote) ≡ false → escape (c ∷ cs) ≡ c ∷ escape cs
unfolding escape
escape-other c cs e = cc

unescape_pair : (c : ℕ) (t : Text) → (c == quote) ≡ true → unescape (c ∷ c ∷ t) ≡ c ∷ unescape t
unfolding unescape
unescape_pair c t e = cc

unescape-other : (c : ℕ) (t : Text) → (c == quote) ≡ false → unescape (c ∷ t) ≡ c ∷ unescape t
unfolding unescape
unescape-other c [] e = refl
unescape-other c (d ∷ cs) e = cc

unescape-escape : (t : Text) → unescape (escape t) ≡ t
unfolding unescape escape
unescape-escape [] = refl
unescape-escape (c ∷ cs) = elim (Bool-cases (c == quote)) [
  | inl e ↦
      rw (escape-quote c cs e, unescape_pair c (escape cs) e) (ap (◌∷◌ c) (unescape-escape cs))
  | inr e ↦
      rw (escape-other c cs e, unescape-other c (escape cs) e) (ap (◌∷◌ c) (unescape-escape cs))
]

strip-escaped :
    (c : ℕ) (t : Text) → (c == quote) ≡ true → strip_from true (c ∷ c ∷ t) ≡ strip_from true t
unfolding strip_from
strip-escaped c t e = cc

open-escaped :
    (c : ℕ) (t : Text) → (c == quote) ≡ true → open_from true (c ∷ c ∷ t) ≡ open_from true t
unfolding open_from
open-escaped c t e = cc

strip-value :
    (v post : Text)
    → NoQuoteFirst post
    → strip_from true (escape v ++ (quote ∷ post)) ≡ strip_from false post
unfolding escape
strip-value [] post h = strip-closes post h
strip-value (c ∷ cs) post h = elim (Bool-cases (c == quote)) [
  | inl e ↦
      rw (escape-quote c cs e)
        (strip-escaped c (escape cs ++ (quote ∷ post)) e ∙ strip-value cs post h)
  | inr e ↦
      rw (escape-other c cs e)
        (strip-inside c (escape cs ++ (quote ∷ post)) e ∙ strip-value cs post h)
]

open-value :
    (v post : Text)
    → NoQuoteFirst post
    → open_from true (escape v ++ (quote ∷ post)) ≡ open_from false post
unfolding escape
open-value [] post h = open-closes post h
open-value (c ∷ cs) post h = elim (Bool-cases (c == quote)) [
  | inl e ↦
      rw (escape-quote c cs e)
        (open-escaped c (escape cs ++ (quote ∷ post)) e ∙ open-value cs post h)
  | inr e ↦
      rw (escape-other c cs e)
        (open-inside c (escape cs ++ (quote ∷ post)) e ∙ open-value cs post h)
]

append-NoQuoteFirst :
    (t post : Text) → NoQuoteFirst t → NoQuoteFirst post → NoQuoteFirst (t ++ post)
append-NoQuoteFirst [] post h k = k
append-NoQuoteFirst (c ∷ cs) post h k = h

-- The scan of a text that ends outside every literal, and goes on.
strip-append :
    (b : Bool) (pre masked post : Text)
    → Masked b pre masked
    → NoQuoteFirst post
    → open_from b pre ≡ false
    → strip_from b (pre ++ post) ≡ strip_from b pre ++ strip_from false post
unfolding strip_from open_from
strip-append b _ _ post (Masked.done _) q h = rw h refl
strip-append b _ _ post (Masked.inner c t m e k) q h =
    strip-inside c (t ++ post) e
    ∙ (strip-append true t m post k q (sym (open-inside c t e) ∙ h)
        ∙ ap (λ s. s ++ strip_from false post) (sym (strip-inside c t e)))
strip-append b _ _ post (Masked.escape t m k) q h = strip-append true t m post k q h
strip-append b _ _ post (Masked.close t m e k) q h =
    strip-closes (t ++ post) (append-NoQuoteFirst t post e q)
    ∙ (strip-append false t m post k q (sym (open-closes t e) ∙ h)
        ∙ ap (λ s. s ++ strip_from false post) (sym (strip-closes t e)))
strip-append b _ _ post (Masked.enter t m k) q h = strip-append true t m post k q h
strip-append b _ _ post (Masked.outer c t m e k) q h =
    strip-outside c (t ++ post) e
    ∙ (ap (◌∷◌ c) (strip-append false t m post k q (sym (open-outside c t e) ∙ h))
        ∙ ap (λ s. s ++ strip_from false post) (sym (strip-outside c t e)))

open-append :
    (b : Bool) (pre masked post : Text)
    → Masked b pre masked
    → NoQuoteFirst post
    → open_from b pre ≡ false
    → open_from b (pre ++ post) ≡ open_from false post
unfolding open_from
open-append b _ _ post (Masked.done _) q h = rw h refl
open-append b _ _ post (Masked.inner c t m e k) q h =
    open-inside c (t ++ post) e ∙ open-append true t m post k q (sym (open-inside c t e) ∙ h)
open-append b _ _ post (Masked.escape t m k) q h = open-append true t m post k q h
open-append b _ _ post (Masked.close t m e k) q h =
    open-closes (t ++ post) (append-NoQuoteFirst t post e q)
    ∙ open-append false t m post k q (sym (open-closes t e) ∙ h)
open-append b _ _ post (Masked.enter t m k) q h = open-append true t m post k q h
open-append b _ _ post (Masked.outer c t m e k) q h =
    open-outside c (t ++ post) e ∙ open-append false t m post k q (sym (open-outside c t e) ∙ h)

-- A text with a value in it: what stands before, a character that is no quote, the value's literal,
-- and what stands behind.
abbrev pub with_literal : (pre : Text) (c : ℕ) (value post : Text) → Text
with_literal pre c value post = pre ++ (c ∷ quote ∷ (escape value ++ (quote ∷ post)))

strip-literal :
    (pre : Text) (c : ℕ) (value post : Text)
    → (c == quote) ≡ false
    → NoQuoteFirst post
    → has_unterminated_string pre ≡ false
    → strip_string_literals (with_literal pre c value post)
      ≡ strip_string_literals pre ++ (c ∷ strip_string_literals post)
unfolding strip_from
strip-literal pre c value post e q h =
    let tail = quote ∷ (escape value ++ (quote ∷ post)) in
    strip-append false pre (mask_from false pre) (c ∷ tail) (mask_from-Masked false pre) e h
    ∙ ap (λ s. strip_from false pre ++ s)
        (strip-outside c tail e ∙ ap (◌∷◌ c) (strip-value value post q))

open-literal :
    (pre : Text) (c : ℕ) (value post : Text)
    → (c == quote) ≡ false
    → NoQuoteFirst post
    → has_unterminated_string pre ≡ false
    → has_unterminated_string (with_literal pre c value post) ≡ has_unterminated_string post
unfolding open_from
open-literal pre c value post e q h =
    let tail = quote ∷ (escape value ++ (quote ∷ post)) in
    open-append false pre (mask_from false pre) (c ∷ tail) (mask_from-Masked false pre) e h
    ∙ (open-outside c tail e ∙ open-value value post q)

-- However a value is spelled, written out with its quotes doubled it does not change how a WHERE
-- clause is read: not its skeleton, nor the choice of the tree path, nor whether a literal is left
-- open; and the reader's replacement of doubled quotes gives the value back. What stands before
-- the literal closes its own literals and ends in another character; what follows starts with one.
pub needs_tree-literal :
    (has_or_in : Text → Bool) (pre : Text) (c : ℕ) (v w post : Text)
    → (c == quote) ≡ false
    → NoQuoteFirst post
    → has_unterminated_string pre ≡ false
    → (strip_string_literals (with_literal pre c v post)
        ≡ strip_string_literals (with_literal pre c w post))
      × (has_unterminated_string (with_literal pre c v post) ≡ has_unterminated_string post)
      × (needs_tree has_or_in (with_literal pre c v post)
          ≡ needs_tree has_or_in (with_literal pre c w post))
      × (unescape (escape v) ≡ v)
unfolding needs_tree
needs_tree-literal has_or_in pre c v w post e q h =
    let skeleton = strip-literal pre c v post e q h ∙ sym (strip-literal pre c w post e q h) in
    let closed = open-literal pre c v post e q h ∙ sym (open-literal pre c w post e q h) in
    (skeleton, open-literal pre c v post e q h, cc, unescape-escape v)
