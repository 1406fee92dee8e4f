-- ===== src/Migrations/Script/Forms.antt =====
-- How a comment and a literal are written in SQL, by which the scans of
-- src/engrava/infrastructure/sqlite/extension_migrations.py go.
use engrava.Prelude.{
  ℕ, ◌==◌, ◌&&◌, ◌≡◌, ◌≢◌, inl, inr, true, false, ==_iff, [], ◌∷◌, ◌++◌, All, Bool-cases,
}
use engrava.Prelude.Text.{Text}
use engrava.Migrations.Script.{newline, dash, slash, star, open_bracket, close_bracket, is_quote}

-- A quoted text: its quotes are doubled.
pub data Doubled (q : ℕ) : Text → Type 0 where
  nothing : Doubled q []
  plain : (c : ℕ) (body : Text) → (c == q) ≡ false → Doubled q body → Doubled q (c ∷ body)
  pair : (body : Text) → Doubled q body → Doubled q (q ∷ q ∷ body)

abbrev pub Lacks : ℕ → Text → Type 0
Lacks stop body = All (λ c. (c == stop) ≡ false) body

-- Nowhere in it a star and a slash behind it.
abbrev pub LacksClose : Text → Type 0
LacksClose [] = Unit
LacksClose (c ∷ []) = Unit
LacksClose (c ∷ d ∷ cs) = ((c == star && d == slash) ≡ false) × LacksClose (d ∷ cs)

-- A comment and what follows it.
pub data IsComment : Text → Text → Type 0 where
  line :
      (body after : Text)
      → Lacks newline body
      → IsComment (dash ∷ dash ∷ body ++ newline ∷ []) after
  last_line : (body : Text) → Lacks newline body → IsComment (dash ∷ dash ∷ body) []
  block :
      (body after : Text)
      → LacksClose (body ++ star ∷ [])
      → IsComment (slash ∷ star ∷ body ++ star ∷ slash ∷ []) after

-- The three quotes.
pub data IsQuote : ℕ → Type 0 where
  single_quote : IsQuote 39
  double_quote : IsQuote 34
  backtick : IsQuote 96

abbrev pub StartsNot : ℕ → Text → Type 0
StartsNot q [] = Unit
StartsNot q (c ∷ cs) = (c == q) ≡ false

-- A literal and what follows it.
pub data IsLiteral : Text → Text → Type 0 where
  quoted :
      (q : ℕ) (body after : Text)
      → IsQuote q
      → Doubled q body
      → StartsNot q after
      → IsLiteral (q ∷ body ++ q ∷ []) after
  bracketed :
      (body after : Text)
      → Lacks close_bracket body
      → IsLiteral (open_bracket ∷ body ++ close_bracket ∷ []) after

-- A text that begins with a comment or a literal.
pub data Opens : Text → Type 0 where
  opens_quote : (q : ℕ) (t : Text) → IsQuote q → Opens (q ∷ t)
  opens_bracket : (t : Text) → Opens (open_bracket ∷ t)
  opens_line : (t : Text) → Opens (dash ∷ dash ∷ t)
  opens_block : (t : Text) → Opens (slash ∷ star ∷ t)

pub is_quote-IsQuote : (c : ℕ) → is_quote c ≡ true → IsQuote c
is_quote-IsQuote c h = elim (Bool-cases (c == 39)) [
  | inl e ↦ rw ((==_iff c 39).0 e) IsQuote.single_quote
  | inr e ↦ elim (Bool-cases (c == 34)) [
    | inl k ↦ rw ((==_iff c 34).0 k) IsQuote.double_quote
    | inr k ↦ rw ((==_iff c 96).0 (rw (e, k) at h)) IsQuote.backtick
  ]
]

pub quote-not_quote : (c : ℕ) → IsQuote c → is_quote c ≢ false
quote-not_quote c IsQuote.single_quote e = cc
quote-not_quote c IsQuote.double_quote e = cc
quote-not_quote c IsQuote.backtick e = cc

pub not-Opens_one : (c : ℕ) → is_quote c ≡ false → (c == open_bracket) ≡ false → ¬ Opens (c ∷ [])
not-Opens_one c h k (Opens.opens_quote q t i) = quote-not_quote c i h
not-Opens_one c h k (Opens.opens_bracket t) = cc

pub not-Opens :
    (c d : ℕ) (cs : Text)
    → (c == dash && d == dash) ≡ false
    → (c == slash && d == star) ≡ false
    → is_quote c ≡ false
    → (c == open_bracket) ≡ false
    → ¬ Opens (c ∷ d ∷ cs)
not-Opens c d cs l b h k (Opens.opens_quote q t i) = quote-not_quote c i h
not-Opens c d cs l b h k (Opens.opens_bracket t) = cc
not-Opens c d cs l b h k (Opens.opens_line t) = cc
not-Opens c d cs l b h k (Opens.opens_block t) = cc
