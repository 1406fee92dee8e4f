-- ===== src/Migrations/Script/Ends.antt =====
-- Where the scans of src/engrava/infrastructure/sqlite/extension_migrations.py come to no end.
use engrava.Prelude.{
  ℕ, ◌==◌, ◌&&◌, ◌≡◌, ◌≢◌, refl, sym, ap, subst, ◌∙◌, inl, inr, true, false, ==_iff, [], ◌∷◌, ◌++◌,
  arith, Bool-cases,
}
use engrava.Prelude.Text.{Text}
use mathlib.Core.List.{append_assoc}
use engrava.Migrations.Script.{
  dash, slash, star, open_bracket, close_bracket, is_quote, consume_quoted, through, through_close,
}
use engrava.Migrations.Script.Forms.{Doubled, IsComment, StartsNot, IsLiteral, quote-not_quote}

abbrev pub head_or : ℕ → Text → ℕ
head_or n [] = n
head_or n (c ∷ cs) = c

abbrev behind : Text → Text
behind [] = []
behind (c ∷ cs) = cs

-- A scan comes to its end where there is one.
consume_step :
    (q c : ℕ) (cs : Text)
    → (c == q) ≡ false
    → (consume_quoted q cs).terminated ≡ true
    → (consume_quoted q (c ∷ cs)).terminated ≡ true
unfolding consume_quoted
consume_step q c [] e h = absurd (cc h)
consume_step q c (d ∷ cs) e h = rw (e, consume_quoted) h

consume_pair :
    (q c d : ℕ) (cs : Text)
    → (c == q) ≡ true
    → (d == q) ≡ true
    → (consume_quoted q cs).terminated ≡ true
    → (consume_quoted q (c ∷ d ∷ cs)).terminated ≡ true
unfolding consume_quoted
consume_pair q c d cs e k h = rw (e, k, consume_quoted) h

consume_ends :
    (q : ℕ) (body after : Text)
    → Doubled q body
    → StartsNot q after
    → (consume_quoted q (body ++ q ∷ after)).terminated ≡ true
unfolding consume_quoted
consume_ends q _ [] Doubled.nothing k = (==_iff q q).1 refl
consume_ends q _ (d ∷ cs) Doubled.nothing k =
    let same : (q == q) ≡ true = (==_iff q q).1 refl in rw (same, k, consume_quoted) refl
consume_ends q _ after (Doubled.plain c body e h) k =
    consume_step q c (body ++ q ∷ after) e (consume_ends q body after h k)
consume_ends q _ after (Doubled.pair body h) k =
    let same : (q == q) ≡ true = (==_iff q q).1 refl in
    consume_pair q q q (body ++ q ∷ after) same same (consume_ends q body after h k)

through_ends :
    (stop : ℕ) (body after : Text) → (through stop (body ++ stop ∷ after)).terminated ≡ true
unfolding through
through_ends stop [] after =
    let same : (stop == stop) ≡ true = (==_iff stop stop).1 refl in rw (same, through) refl
through_ends stop (c ∷ body) after = elim (Bool-cases (c == stop)) [
  | inl e ↦ rw (e, through) refl
  | inr e ↦ rw (e, through) (through_ends stop body after)
]

close_step :
    (c : ℕ) (cs : Text)
    → (through_close cs).terminated ≡ true
    → (through_close (c ∷ cs)).terminated ≡ true
unfolding through_close
close_step c [] h = absurd (cc h)
close_step c (d ∷ cs) h = elim (Bool-cases (c == star && d == slash)) [
  | inl e ↦ rw (e, through_close) refl
  | inr e ↦ rw (e, through_close) h
]

close_ends : (body after : Text) → (through_close (body ++ star ∷ slash ∷ after)).terminated ≡ true
unfolding through_close
close_ends [] after = refl
close_ends (c ∷ body) after = close_step c (body ++ star ∷ slash ∷ after) (close_ends body after)

-- The text behind a closing mark, as it stands in the whole.
behind-closed :
    (body mark after cs : Text) → (body ++ mark) ++ after ≡ cs → body ++ (mark ++ after) ≡ cs
behind-closed body mark after cs h = sym (append_assoc body mark after) ∙ h

pub no_block :
    (cs r after : Text)
    → (through_close cs).terminated ≡ false
    → IsComment r after
    → r ++ after ≢ slash ∷ star ∷ cs
no_block cs _ after f (IsComment.line body _ k) e =
    let clash : dash ≡ slash = ap (head_or 0) e in absurd (omega (arith, clash))
no_block cs _ _ f (IsComment.last_line body k) e =
    let clash : dash ≡ slash = ap (head_or 0) e in absurd (omega (arith, clash))
no_block cs _ after f (IsComment.block body _ k) e =
    let rest = behind-closed body (star ∷ slash ∷ []) after cs (ap (λ t. behind (behind t)) e) in
    absurd (cc (rest, close_ends body after, f))

pub no_quoted :
    (c : ℕ) (cs r after : Text)
    → is_quote c ≡ true
    → (consume_quoted c cs).terminated ≡ false
    → IsLiteral r after
    → r ++ after ≢ c ∷ cs
no_quoted c cs _ after i f (IsLiteral.quoted q body _ k d n) e =
    let rest = behind-closed body (q ∷ []) after cs (ap behind e) in
    let mark : q ≡ c = ap (head_or 0) e in
    let ended : (consume_quoted q cs).terminated ≡ true =
      subst (λ t. (consume_quoted q t).terminated ≡ true) rest (consume_ends q body after d n) in
    absurd (cc (ap (λ m. (consume_quoted m cs).terminated) mark, ended, f))
no_quoted c cs _ after i f (IsLiteral.bracketed body _ k) e =
    let mark : open_bracket ≡ c = ap (head_or 0) e in
    let over : is_quote open_bracket ≡ true = subst (λ m. is_quote m ≡ true) (sym mark) i in
    absurd (cc over)

pub no_bracketed :
    (cs r after : Text)
    → (through close_bracket cs).terminated ≡ false
    → IsLiteral r after
    → r ++ after ≢ open_bracket ∷ cs
no_bracketed cs _ after f (IsLiteral.quoted q body _ k d n) e =
    quote-not_quote q k (ap is_quote (ap (head_or 0) e))
no_bracketed cs _ after f (IsLiteral.bracketed body _ k) e =
    let rest = behind-closed body (close_bracket ∷ []) after cs (ap behind e) in
    absurd (cc (rest, through_ends close_bracket body after, f))
