-- ===== src/Migrations/Script/Regions.antt =====
-- What the scans of src/engrava/infrastructure/sqlite/extension_migrations.py take: comments and
-- quoted texts, by how they are written.
use engrava.Prelude.{
  ℕ, ◌<◌, ◌==◌, ◌&&◌, ◌≡◌, ◌≢◌, refl, sym, ap, subst, inl, inr, true, false, ==_iff, [], ◌∷◌, ◌++◌,
  length, length-append, arith, Bool-cases,
}
use engrava.Prelude.Text.{Text}
use engrava.Migrations.Script.{
  Scan, newline, dash, slash, star, open_bracket, close_bracket, is_quote, consume_quoted, through,
  through_close, Region, comment, literal, no_region, ended, scan_quoted, scan_region, past,
}
use engrava.Migrations.Script.Forms.{
  LacksClose, Doubled, Lacks, IsComment, StartsNot, IsLiteral, Opens, is_quote-IsQuote,
  not-Opens_one, not-Opens,
}
use engrava.Migrations.Script.Ends.{head_or, no_block, no_quoted, no_bracketed}

-- A quoted text with its closing quote, and what follows it.
data Quoted (q : ℕ) : Text → Text → Type 0 where
  closed :
      (body after : Text) → Doubled q body → StartsNot q after → Quoted q (body ++ q ∷ []) after

data Stopped (stop : ℕ) : Text → Type 0 where
  stops : (body : Text) → Lacks stop body → Stopped stop (body ++ stop ∷ [])

data Closed : Text → Type 0 where
  closes : (body : Text) → LacksClose (body ++ star ∷ []) → Closed (body ++ star ∷ slash ∷ [])

consume-append :
    (q : ℕ) (cs : Text) → (consume_quoted q cs).taken ++ (consume_quoted q cs).left ≡ cs
unfolding consume_quoted
consume-append q [] = refl
consume-append q (c ∷ []) = refl
consume-append q (c ∷ d ∷ cs) = elim (Bool-cases (c == q)) [
  | inl e ↦ elim (Bool-cases (d == q)) [
    | inl k ↦ rw (e, k, consume_quoted) (ap (λ t. c ∷ d ∷ t) (consume-append q cs))
    | inr k ↦ rw (e, k, consume_quoted) refl
  ]
  | inr e ↦ rw (e, consume_quoted) (ap (◌∷◌ c) (consume-append q (d ∷ cs)))
]

further : {q c : ℕ} {t after : Text} → (c == q) ≡ false → Quoted q t after → Quoted q (c ∷ t) after
further {q} {c} e (Quoted.closed body after h k) =
    Quoted.closed (c ∷ body) after (Doubled.plain c body e h) k

doubled : {q : ℕ} {t after : Text} → Quoted q t after → Quoted q (q ∷ q ∷ t) after
doubled {q} (Quoted.closed body after h k) =
    Quoted.closed (q ∷ q ∷ body) after (Doubled.pair body h) k

consume-Quoted :
    (q : ℕ) (cs : Text)
    → (consume_quoted q cs).terminated ≡ true
    → Quoted q (consume_quoted q cs).taken (consume_quoted q cs).left
unfolding consume_quoted
consume-Quoted q [] h = cc
consume-Quoted q (c ∷ []) h = rw ((==_iff c q).0 h) (Quoted.closed [] [] Doubled.nothing tt)
consume-Quoted q (c ∷ d ∷ cs) h = elim (Bool-cases (c == q)) [
  | inl e ↦ elim (Bool-cases (d == q)) [
    | inl k ↦
        rw (e, k, consume_quoted)
          (subst (λ t. Quoted q t (consume_quoted q cs).left)
            (λ i. sym ((==_iff c q).0 e) i ∷ sym ((==_iff d q).0 k) i ∷ (consume_quoted q cs).taken)
            (doubled (consume-Quoted q cs (rw (e, k, consume_quoted) at h))))
    | inr k ↦
        rw (e, k, consume_quoted, (==_iff c q).0 e) (Quoted.closed [] (d ∷ cs) Doubled.nothing k)
  ]
  | inr e ↦
      rw (e, consume_quoted) (further e (consume-Quoted q (d ∷ cs) (rw (e, consume_quoted) at h)))
]

through-append : (stop : ℕ) (cs : Text) → (through stop cs).taken ++ (through stop cs).left ≡ cs
unfolding through
through-append stop [] = refl
through-append stop (c ∷ cs) = elim (Bool-cases (c == stop)) [
  | inl e ↦ rw (e, through) refl
  | inr e ↦ rw (e, through) (ap (◌∷◌ c) (through-append stop cs))
]

-- Where the scan comes to no end, it takes all that there is, without the end in it.
data Through (stop : ℕ) (s : Scan) : Type 0 where
  found : s.terminated ≡ true → Stopped stop s.taken → Through stop s
  missing : s.terminated ≡ false → s.left ≡ [] → Lacks stop s.taken → Through stop s

past-Through :
    {stop c : ℕ} {s : Scan} → (c == stop) ≡ false → Through stop s → Through stop (past (c ∷ []) s)
past-Through e (Through.found h k) = Through.found h (longer e k)
  where
    longer : {stop c : ℕ} {t : Text} → (c == stop) ≡ false → Stopped stop t → Stopped stop (c ∷ t)
    longer {stop} {c} e (Stopped.stops body h) = Stopped.stops (c ∷ body) (e, h)
past-Through e (Through.missing h n k) = Through.missing h n (e, k)

through-Through : (stop : ℕ) (cs : Text) → Through stop (through stop cs)
unfolding through
through-Through stop [] = Through.missing refl refl tt
through-Through stop (c ∷ cs) = elim (Bool-cases (c == stop)) [
  | inl e ↦ rw (e, through, (==_iff c stop).0 e) (Through.found refl (Stopped.stops [] tt))
  | inr e ↦ rw (e, through) (past-Through e (through-Through stop cs))
]

close-append : (cs : Text) → (through_close cs).taken ++ (through_close cs).left ≡ cs
unfolding through_close
close-append [] = refl
close-append (c ∷ []) = refl
close-append (c ∷ d ∷ cs) = elim (Bool-cases (c == star && d == slash)) [
  | inl e ↦ rw (e, through_close) refl
  | inr e ↦ rw (e, through_close) (ap (◌∷◌ c) (close-append (d ∷ cs)))
]

close-head : (d : ℕ) (cs : Text) → head_or 0 (through_close (d ∷ cs)).taken ≡ d
unfolding through_close
close-head d [] = refl
close-head d (e ∷ cs) = elim (Bool-cases (d == star && e == slash)) [
  | inl k ↦ rw (k, through_close) refl
  | inr k ↦ rw (k, through_close) refl
]

longer :
    (c d : ℕ) {t : Text}
    → (c == star && d == slash) ≡ false
    → head_or 0 t ≡ d
    → Closed t
    → Closed (c ∷ t)
longer c d e k (Closed.closes [] h) = Closed.closes (c ∷ []) (ground arith, tt)
longer c d e k (Closed.closes (b ∷ body) h) =
    Closed.closes (c ∷ b ∷ body) (subst (λ n. (c == star && n == slash) ≡ false) (sym k) e, h)

close-Closed : (cs : Text) → (through_close cs).terminated ≡ true → Closed (through_close cs).taken
unfolding through_close
close-Closed [] h = cc
close-Closed (c ∷ []) h = cc
close-Closed (c ∷ d ∷ cs) h = elim (Bool-cases (c == star && d == slash)) [
  | inl e ↦
      let first : c ≡ star = ground (arith, e) in
      let second : d ≡ slash = ground (arith, e) in
      rw (e, through_close, first, second) (Closed.closes [] tt)
  | inr e ↦
      rw (e, through_close)
        (longer c d e (close-head d cs) (close-Closed (d ∷ cs) (rw (e, through_close) at h)))
]

-- A scan of `t` that takes something, and a text of the kind `P`, before what it leaves, where it
-- comes to its end.
pub record Takes (P : Text → Text → Type 0) (t : Text) (s : Scan) : Type 0 where
  pub joined : s.taken ++ s.left ≡ t
  pub shorter : length s.left < length t
  pub whole : s.terminated ≡ true → P s.taken s.left
  pub opens : Opens t
  pub unended : s.terminated ≡ false → (r after : Text) → P r after → r ++ after ≢ t

abbrev pub IsRegionOf : Text → Region → Type 0
IsRegionOf t (comment s) = Takes IsComment t s
IsRegionOf t (literal s) = Takes IsLiteral t s
IsRegionOf t no_region = ¬ Opens t

shorter_after : (c : ℕ) (front left t : Text) → c ∷ front ++ left ≡ t → length left < length t
shorter_after c front left t h = omega (arith, length-append front left, ap length h)

line-Takes :
    (cs : Text)
    → Takes IsComment (dash ∷ dash ∷ cs) (past (dash ∷ dash ∷ []) (ended (through newline cs)))
line-Takes cs = record {
  joined = ap (λ t. dash ∷ dash ∷ t) (through-append newline cs);
  shorter =
      shorter_after dash (dash ∷ (through newline cs).taken) _ _
        (ap (λ t. dash ∷ dash ∷ t) (through-append newline cs));
  whole = λ _. as_comment (through-Through newline cs);
  opens = Opens.opens_line cs;
  unended = λ f. absurd (cc f);
}
  where
    stopped : {t after : Text} → Stopped newline t → IsComment (dash ∷ dash ∷ t) after
    stopped (Stopped.stops body h) = IsComment.line body _ h

    as_comment : {s : Scan} → Through newline s → IsComment (dash ∷ dash ∷ s.taken) s.left
    as_comment (Through.found h k) = stopped k
    as_comment (Through.missing h n k) = rw n (IsComment.last_line _ k)

block-Takes :
    (cs : Text) → Takes IsComment (slash ∷ star ∷ cs) (past (slash ∷ star ∷ []) (through_close cs))
block-Takes cs = record {
  joined = ap (λ t. slash ∷ star ∷ t) (close-append cs);
  shorter =
      shorter_after slash (star ∷ (through_close cs).taken) _ _
        (ap (λ t. slash ∷ star ∷ t) (close-append cs));
  whole = λ h. as_comment (close-Closed cs h);
  opens = Opens.opens_block cs;
  unended = λ f r after k. no_block cs r after f k;
}
  where
    as_comment : {t after : Text} → Closed t → IsComment (slash ∷ star ∷ t) after
    as_comment (Closed.closes body h) = IsComment.block body _ h

quoted-Takes :
    (c : ℕ) (cs : Text)
    → is_quote c ≡ true
    → Takes IsLiteral (c ∷ cs) (past (c ∷ []) (consume_quoted c cs))
quoted-Takes c cs q = record {
  joined = ap (◌∷◌ c) (consume-append c cs);
  shorter = shorter_after c (consume_quoted c cs).taken _ _ (ap (◌∷◌ c) (consume-append c cs));
  whole = λ h. as_literal (consume-Quoted c cs h);
  opens = Opens.opens_quote c cs (is_quote-IsQuote c q);
  unended = λ f r after k. no_quoted c cs r after q f k;
}
  where
    as_literal : {t after : Text} → Quoted c t after → IsLiteral (c ∷ t) after
    as_literal (Quoted.closed body after h k) =
        IsLiteral.quoted c body after (is_quote-IsQuote c q) h k

bracket-Takes :
    (cs : Text)
    → Takes IsLiteral (open_bracket ∷ cs) (past (open_bracket ∷ []) (through close_bracket cs))
bracket-Takes cs = record {
  joined = ap (◌∷◌ open_bracket) (through-append close_bracket cs);
  shorter =
      shorter_after open_bracket (through close_bracket cs).taken _ _
        (ap (◌∷◌ open_bracket) (through-append close_bracket cs));
  whole = λ h. as_literal h (through-Through close_bracket cs);
  opens = Opens.opens_bracket cs;
  unended = λ f r after k. no_bracketed cs r after f k;
}
  where
    stopped : {t after : Text} → Stopped close_bracket t → IsLiteral (open_bracket ∷ t) after
    stopped (Stopped.stops body h) = IsLiteral.bracketed body _ h

    as_literal :
        {s : Scan}
        → s.terminated ≡ true
        → Through close_bracket s
        → IsLiteral (open_bracket ∷ s.taken) s.left
    as_literal h (Through.found e k) = stopped k
    as_literal h (Through.missing e n k) = absurd (cc (h, e))

quoted-IsRegionOf :
    (c : ℕ) (cs : Text)
    → (is_quote c ≡ false → (c == open_bracket) ≡ false → ¬ Opens (c ∷ cs))
    → IsRegionOf (c ∷ cs) (scan_quoted c cs)
quoted-IsRegionOf c cs none_open = elim (Bool-cases (is_quote c)) [
  | inl e ↦ rw e (quoted-Takes c cs e)
  | inr e ↦ elim (Bool-cases (c == open_bracket)) [
    | inl k ↦ rw (e, k, (==_iff c open_bracket).0 k) (bracket-Takes cs)
    | inr k ↦ rw (e, k) (none_open e k)
  ]
]

pub scan_region-IsRegionOf : (c : ℕ) (cs : Text) → IsRegionOf (c ∷ cs) (scan_region (c ∷ cs))
scan_region-IsRegionOf c [] = quoted-IsRegionOf c [] (not-Opens_one c)
scan_region-IsRegionOf c (d ∷ cs) = elim (Bool-cases (c == dash && d == dash)) [
  | inl e ↦
      let first : c ≡ dash = ground (arith, e) in
      let second : d ≡ dash = ground (arith, e) in rw (e, first, second) (line-Takes cs)
  | inr e ↦ elim (Bool-cases (c == slash && d == star)) [
    | inl k ↦
        let first : c ≡ slash = ground (arith, k) in
        let second : d ≡ star = ground (arith, k) in rw (e, k, first, second) (block-Takes cs)
    | inr k ↦ rw (e, k) (quoted-IsRegionOf c (d ∷ cs) (not-Opens c d cs e k))
  ]
]
