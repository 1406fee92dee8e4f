-- ===== src/Journal/Preimage.antt =====
-- What the hashed text of `compute_hash` (src/engrava/infrastructure/sqlite/journal_writer.py)
-- determines: fields are joined by `|` with no escape.
use engrava.Prelude.{
  ℕ, ◌≡◌, ◌≢◌, refl, sym, subst, Option, some, [], ◌∷◌, ◌++◌, arith, All, All-mono,
}
use engrava.Prelude.Text.{Text}
use engrava.Prelude.Decimal.{decimal, decimal-injective, decimal-range}
use engrava.Journal.Defs.{bar, or_empty, canonical}
use mathlib.Core.List.{append_assoc}

-- The text has no separator in it.
abbrev pub IsPlain : Text → Type 0
IsPlain = All (λ ch. ch ≢ bar)

first_bar :
    (a b r s : Text) → IsPlain a → IsPlain b → a ++ bar ∷ r ≡ b ++ bar ∷ s → (a ≡ b) × (r ≡ s)
first_bar [] [] r s p q e = (refl, cc)
first_bar [] (y ∷ b) r s p q e = absurd (q.0 (cc))
first_bar (x ∷ a) [] r s p q e = absurd (p.0 (cc))
first_bar (x ∷ a) (y ∷ b) r s p q e = ground (arith, first_bar a b r s p.1 q.1)

not-IsPlain : (a b : Text) → ¬ (IsPlain (a ++ bar ∷ b))
not-IsPlain [] b p = p.0 refl
not-IsPlain (x ∷ a) b p = not-IsPlain a b p.1

tail_eq : {x y : ℕ} {a b : Text} → x ∷ a ≡ y ∷ b → a ≡ b
tail_eq e = cc

last_bar :
    (a b r s : Text) → IsPlain r → IsPlain s → a ++ bar ∷ r ≡ b ++ bar ∷ s → (a ≡ b) × (r ≡ s)
last_bar [] [] r s p q e = (refl, cc)
last_bar [] (y ∷ b) r s p q e = absurd (not-IsPlain b s (subst IsPlain (tail_eq e) p))
last_bar (x ∷ a) [] r s p q e = absurd (not-IsPlain a r (subst IsPlain (sym (tail_eq e)) q))
last_bar (x ∷ a) (y ∷ b) r s p q e = ground (arith, last_bar a b r s p q)

pub decimal-IsPlain : (n : ℕ) → IsPlain (decimal n)
decimal-IsPlain n = All-mono (decimal n) (λ ch h e. omega arith) (decimal-range n)

-- Where the mutation type, the target and the parent hash have no `|` in them, the hashed text
-- determines the sequence number, the mutation type, the target text, the dumped delta and the
-- parent text.
pub canonical-injective :
    (m n : ℕ) (mt mt' : Text) (target target' : Option Text) (delta delta' : Text)
    (parent parent' : Option Text)
    → IsPlain mt
    → IsPlain mt'
    → IsPlain (or_empty target)
    → IsPlain (or_empty target')
    → IsPlain (or_empty parent)
    → IsPlain (or_empty parent')
    → canonical m mt target delta parent ≡ canonical n mt' target' delta' parent'
    → (m ≡ n)
      × (mt ≡ mt')
      × (or_empty target ≡ or_empty target')
      × (delta ≡ delta')
      × (or_empty parent ≡ or_empty parent')
unfolding canonical
canonical-injective m n mt mt' target target' delta delta' parent parent' p p' q q' r r' e =
    let (seqs, rest) =
      first_bar (decimal m) (decimal n) _ _ (decimal-IsPlain m) (decimal-IsPlain n) e in
    let (types, rest₂) = first_bar mt mt' _ _ p p' rest in
    let (targets, rest₃) = first_bar (or_empty target) (or_empty target') _ _ q q' rest₂ in
    let (deltas, parents) = last_bar delta delta' (or_empty parent) (or_empty parent') r r' rest₃ in
    (decimal-injective m n seqs, types, targets, deltas, parents)

-- A target that holds a `|` can lend its first part to the mutation type: the text is the same.
pub canonical_shift :
    (seq : ℕ) (mt a b delta : Text) (parent : Option Text)
    → canonical seq mt (some (a ++ bar ∷ b)) delta parent
      ≡ canonical seq (mt ++ bar ∷ a) (some b) delta parent
unfolding canonical
canonical_shift seq mt a b delta parent = simp append_assoc
