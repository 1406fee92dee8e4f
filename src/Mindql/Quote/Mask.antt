-- ===== src/Mindql/Quote/Mask.antt =====
-- The masked text (src/engrava/mindql/parser.py) against the text.
use engrava.Prelude.{
  ℕ, ◌≡◌, ◌⊎◌, refl, ap, sym, subst, Bool, true, false, ◌==◌, ==_iff, arith, Bool-cases, inl, inr,
  [], ◌∷◌, length,
}
use engrava.Prelude.Text.{Text}
use engrava.Mindql.Quote.{
  quote, mask_char, strip_from, strip_string_literals, open_from, has_unterminated_string,
  mask_from, mask_quoted,
}

abbrev pub NoQuoteFirst : Text → Type 0
NoQuoteFirst [] = Unit
NoQuoteFirst (c ∷ cs) = (c == quote) ≡ false

-- What the scan meets: the flag, the text, and the text masked.
pub data Masked : Bool → Text → Text → Type 0 where
  done : (in_str : Bool) → Masked in_str [] []
  inner :
      (c : ℕ) (t m : Text)
      → (c == quote) ≡ false
      → Masked true t m
      → Masked true (c ∷ t) (mask_char ∷ m)
  escape :
      (t m : Text) → Masked true t m → Masked true (quote ∷ quote ∷ t) (mask_char ∷ mask_char ∷ m)
  close : (t m : Text) → NoQuoteFirst t → Masked false t m → Masked true (quote ∷ t) (quote ∷ m)
  enter : (t m : Text) → Masked true t m → Masked false (quote ∷ t) (quote ∷ m)
  outer :
      (c : ℕ) (t m : Text) → (c == quote) ≡ false → Masked false t m → Masked false (c ∷ t) (c ∷ m)

is_quote : (c : ℕ) → (c == quote) ≡ true → quote ≡ c
is_quote c e = sym ((==_iff c quote).0 e)

pub mask_from-Masked : (in_str : Bool) (t : Text) → Masked in_str t (mask_from in_str t)
unfolding mask_from
mask_from-Masked in_str [] = Masked.done in_str
mask_from-Masked true (c ∷ []) = elim (Bool-cases (c == quote)) [
  | inl e ↦
      subst (λ q. Masked true (q ∷ []) (mask_from true (q ∷ []))) (is_quote c e)
        (Masked.close [] [] tt (Masked.done false))
  | inr e ↦ rw (e, mask_from) (Masked.inner c [] [] e (Masked.done true))
]
mask_from-Masked true (c ∷ d ∷ cs) = elim (Bool-cases (c == quote)) [
  | inl e ↦ elim (Bool-cases (d == quote)) [
    | inl e' ↦
        subst (λ q. Masked true (q ∷ d ∷ cs) (mask_from true (q ∷ d ∷ cs))) (is_quote c e)
          (subst (λ q. Masked true (quote ∷ q ∷ cs) (mask_from true (quote ∷ q ∷ cs)))
            (is_quote d e') (Masked.escape cs _ (mask_from-Masked true cs)))
    | inr e' ↦
        subst (λ q. Masked true (q ∷ d ∷ cs) (mask_from true (q ∷ d ∷ cs))) (is_quote c e)
          (rw (e', mask_from) (Masked.close (d ∷ cs) _ e' (mask_from-Masked false (d ∷ cs))))
  ]
  | inr e ↦ rw (e, mask_from) (Masked.inner c (d ∷ cs) _ e (mask_from-Masked true (d ∷ cs)))
]
mask_from-Masked false (c ∷ cs) = elim (Bool-cases (c == quote)) [
  | inl e ↦
      subst (λ q. Masked false (q ∷ cs) (mask_from false (q ∷ cs))) (is_quote c e)
        (Masked.enter cs _ (mask_from-Masked true cs))
  | inr e ↦ rw (e, mask_from) (Masked.outer c cs _ e (mask_from-Masked false cs))
]

Masked-length : (b : Bool) (t m : Text) → Masked b t m → length m ≡ length t
Masked-length b _ _ (Masked.done _) = refl
Masked-length b _ _ (Masked.inner c t m e k) = omega (arith, Masked-length true t m k)
Masked-length b _ _ (Masked.escape t m k) = omega (arith, Masked-length true t m k)
Masked-length b _ _ (Masked.close t m e k) = omega (arith, Masked-length false t m k)
Masked-length b _ _ (Masked.enter t m k) = omega (arith, Masked-length true t m k)
Masked-length b _ _ (Masked.outer c t m e k) = omega (arith, Masked-length false t m k)

-- Outside the literals the masked text starts as the text does.
Masked-NoQuoteFirst : (t m : Text) → Masked false t m → NoQuoteFirst t → NoQuoteFirst m
Masked-NoQuoteFirst _ _ (Masked.done _) h = tt
Masked-NoQuoteFirst _ _ (Masked.enter t m k) h = h
Masked-NoQuoteFirst _ _ (Masked.outer c t m e k) h = e

pub strip-closes : (t : Text) → NoQuoteFirst t → strip_from true (quote ∷ t) ≡ strip_from false t
unfolding strip_from
strip-closes [] h = refl
strip-closes (c ∷ cs) h = cc

pub open-closes : (t : Text) → NoQuoteFirst t → open_from true (quote ∷ t) ≡ open_from false t
unfolding open_from
open-closes [] h = refl
open-closes (c ∷ cs) h = cc

pub strip-inside :
    (c : ℕ) (t : Text) → (c == quote) ≡ false → strip_from true (c ∷ t) ≡ strip_from true t
unfolding strip_from
strip-inside c [] h = refl
strip-inside c (d ∷ cs) h = cc

pub open-inside :
    (c : ℕ) (t : Text) → (c == quote) ≡ false → open_from true (c ∷ t) ≡ open_from true t
unfolding open_from
open-inside c [] h = rw h refl
open-inside c (d ∷ cs) h = cc

pub strip-outside :
    (c : ℕ) (t : Text) → (c == quote) ≡ false → strip_from false (c ∷ t) ≡ c ∷ strip_from false t
unfolding strip_from
strip-outside c t h = cc

pub open-outside :
    (c : ℕ) (t : Text) → (c == quote) ≡ false → open_from false (c ∷ t) ≡ open_from false t
unfolding open_from
open-outside c t h = cc

strip-Masked : (b : Bool) (t m : Text) → Masked b t m → strip_from b m ≡ strip_from b t
unfolding strip_from
strip-Masked b _ _ (Masked.done _) = refl
strip-Masked b _ _ (Masked.inner c t m e k) =
    rw (strip-inside c t e, strip-inside mask_char m refl) (strip-Masked true t m k)
strip-Masked b _ _ (Masked.escape t m k) =
    rw (strip-inside mask_char (mask_char ∷ m) refl, strip-inside mask_char m refl)
      (strip-Masked true t m k)
strip-Masked b _ _ (Masked.close t m e k) =
    rw (strip-closes t e, strip-closes m (Masked-NoQuoteFirst t m k e)) (strip-Masked false t m k)
strip-Masked b _ _ (Masked.enter t m k) = strip-Masked true t m k
strip-Masked b _ _ (Masked.outer c t m e k) =
    rw (strip-outside c t e, strip-outside c m e) (ap (◌∷◌ c) (strip-Masked false t m k))

open-Masked : (b : Bool) (t m : Text) → Masked b t m → open_from b m ≡ open_from b t
unfolding open_from
open-Masked b _ _ (Masked.done _) = refl
open-Masked b _ _ (Masked.inner c t m e k) =
    rw (open-inside c t e, open-inside mask_char m refl) (open-Masked true t m k)
open-Masked b _ _ (Masked.escape t m k) =
    rw (open-inside mask_char (mask_char ∷ m) refl, open-inside mask_char m refl)
      (open-Masked true t m k)
open-Masked b _ _ (Masked.close t m e k) =
    rw (open-closes t e, open-closes m (Masked-NoQuoteFirst t m k e)) (open-Masked false t m k)
open-Masked b _ _ (Masked.enter t m k) = open-Masked true t m k
open-Masked b _ _ (Masked.outer c t m e k) =
    rw (open-outside c t e, open-outside c m e) (open-Masked false t m k)

-- Character by character the text, or the mask character.
abbrev pub IsMaskOf : Text → Text → Type 0
IsMaskOf [] [] = Unit
IsMaskOf [] (m ∷ ms) = ⊥
IsMaskOf (c ∷ cs) [] = ⊥
IsMaskOf (c ∷ cs) (m ∷ ms) = ((m ≡ c) ⊎ (m ≡ mask_char)) × IsMaskOf cs ms

Masked-IsMaskOf : (b : Bool) (t m : Text) → Masked b t m → IsMaskOf t m
Masked-IsMaskOf b _ _ (Masked.done _) = tt
Masked-IsMaskOf b _ _ (Masked.inner c t m e k) = (inr refl, Masked-IsMaskOf true t m k)
Masked-IsMaskOf b _ _ (Masked.escape t m k) = (inr refl, (inr refl, Masked-IsMaskOf true t m k))
Masked-IsMaskOf b _ _ (Masked.close t m e k) = (inl refl, Masked-IsMaskOf false t m k)
Masked-IsMaskOf b _ _ (Masked.enter t m k) = (inl refl, Masked-IsMaskOf true t m k)
Masked-IsMaskOf b _ _ (Masked.outer c t m e k) = (inl refl, Masked-IsMaskOf false t m k)

-- The masked text is as long as the text, each character its own or the mask character, and the
-- other two scanners see no difference: stripped of its literals it is the same skeleton, and it
-- leaves a literal open exactly if the text does.
pub mask_quoted-skeleton :
    (t : Text)
    → (length (mask_quoted t) ≡ length t)
      × IsMaskOf t (mask_quoted t)
      × (strip_string_literals (mask_quoted t) ≡ strip_string_literals t)
      × (has_unterminated_string (mask_quoted t) ≡ has_unterminated_string t)
mask_quoted-skeleton t =
    let scan = mask_from-Masked false t in
    (
      Masked-length false t _ scan,
      Masked-IsMaskOf false t _ scan,
      strip-Masked false t _ scan,
      open-Masked false t _ scan,
    )
