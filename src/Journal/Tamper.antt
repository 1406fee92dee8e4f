-- ===== src/Journal/Tamper.antt =====
-- What the hash chain of src/engrava/infrastructure/sqlite/journal_writer.py protects, and what it
-- does not.
use engrava.Prelude.{
  ◌≡◌, ◌≢◌, refl, sym, ap, subst, ◌∙◌, ◌⊎◌, inl, inr, Option, none, some, [], ◌∷◌, ◌++◌, arith,
  length,
}
use engrava.Prelude.Text.{Text, Text-discrete}
use engrava.Journal.Table.{Row, Table}
use engrava.Journal.Defs.{Codec, bar, or_empty, canonical, compute_hash}
use engrava.Journal.Chain.{Chain, hash_of, last_hash, IsLinked}
use engrava.Journal.Preimage.{IsPlain, canonical-injective, canonical_shift}

-- No separator in the fields that a caller chooses.
pub record IsPlainRow (r : Row) : Type 0 where
  pub mutation_type : IsPlain r.mutation_type
  pub target : IsPlain (or_empty r.target_id)

abbrev pub PlainRows : Table → Type 0
PlainRows [] = Unit
PlainRows (r ∷ t) = IsPlainRow r × PlainRows t

module _ (c : Codec) where
  -- Two texts with one digest.
  pub record Collision : Type 0 where
    pub one : Text
    pub other : Text
    pub distinct : one ≢ other
    pub same_digest : c.sha256 one ≡ c.sha256 other

  pub record SameRow (r s : Row) : Type 0 where
    pub sequence_number : r.sequence_number ≡ s.sequence_number
    pub mutation_type : r.mutation_type ≡ s.mutation_type
    pub target : or_empty r.target_id ≡ or_empty s.target_id
    pub delta : c.dumps (c.loads r.delta) ≡ c.dumps (c.loads s.delta)

  abbrev pub SameRows : Table → Table → Type 0
  SameRows [] [] = Unit
  SameRows [] (s ∷ u) = ⊥
  SameRows (r ∷ t) [] = ⊥
  SameRows (r ∷ t) (s ∷ u) = SameRow r s × SameRows t u

  -- A digest is a non-empty text of hexadecimal digits, so it has no separator.
  module _ (digest_IsPlain : (x : Text) → IsPlain (c.sha256 x))
      (digest-ne-nil : (x : Text) → c.sha256 x ≢ []) where
    data IsParent : Option Text → Type 0 where
      first : IsParent none
      after : {h : Text} (x : Text) → h ≡ c.sha256 x → IsParent (some h)

    IsParent-IsPlain : {p : Option Text} → IsParent p → IsPlain (or_empty p)
    IsParent-IsPlain first = tt
    IsParent-IsPlain (after x e) = rw e (digest_IsPlain x)

    parent_eq : {p q : Option Text} → IsParent p → IsParent q → or_empty p ≡ or_empty q → p ≡ q
    parent_eq first first e = refl
    parent_eq first (after x h) e = absurd (digest-ne-nil x (sym h ∙ sym e))
    parent_eq (after x h) first e = absurd (digest-ne-nil x (sym h ∙ e))
    parent_eq (after x h) (after y k) e = ap some e

    abbrev preimage : Row → Text
    preimage r =
        canonical r.sequence_number r.mutation_type r.target_id (c.dumps (c.loads r.delta))
          r.parent_hash

    same_texts :
        (r s : Row) (p q : Option Text)
        → IsLinked c p r
        → IsLinked c q s
        → IsPlainRow r
        → IsPlainRow s
        → IsParent p
        → IsParent q
        → preimage r ≡ preimage s
        → SameRow r s × (p ≡ q)
    same_texts r s p q l k a b ip iq same =
        let (seqs, types, targets, deltas, parents) =
          canonical-injective r.sequence_number s.sequence_number r.mutation_type s.mutation_type
            r.target_id s.target_id _ _ r.parent_hash s.parent_hash a.mutation_type b.mutation_type
            a.target b.target (rw l.0 (IsParent-IsPlain ip)) (rw k.0 (IsParent-IsPlain iq)) same in
        (
          record {
            sequence_number = seqs;
            mutation_type = types;
            target = targets;
            delta = deltas;
          },
          parent_eq ip iq (ap or_empty (sym l.0) ∙ (parents ∙ ap or_empty k.0)),
        )

    same_digests :
        (r s : Row) (p q : Option Text)
        → IsLinked c p r
        → IsLinked c q s
        → IsPlainRow r
        → IsPlainRow s
        → IsParent p
        → IsParent q
        → r.entry_hash ≡ s.entry_hash
        → Collision ⊎ SameRow r s × (p ≡ q)
    unfolding compute_hash
    same_digests r s p q l k a b ip iq e = elim (Text-discrete (preimage r) (preimage s)) [
      | yes same ↦ inr (same_texts r s p q l k a b ip iq same)
      | no differ ↦ inl (record {
        one = preimage r;
        other = preimage s;
        distinct = differ;
        same_digest = sym l.1 ∙ (e ∙ k.1);
      })
    ]

    with_head :
        (r s : Row) (p q : Option Text) (t u : Table)
        → Chain c p (r ∷ t)
        → Chain c q (s ∷ u)
        → PlainRows (r ∷ t)
        → PlainRows (s ∷ u)
        → IsParent p
        → IsParent q
        → SameRows t u
        → r.entry_hash ≡ s.entry_hash
        → Collision ⊎ SameRows (r ∷ t) (s ∷ u) × (p ≡ q)
    with_head r s p q t u h k a b ip iq rest e =
        elim (same_digests r s p q h.0 k.0 a.0 b.0 ip iq e) [
          | inl clash ↦ inl clash
          | inr (row, parents) ↦ inr ((row, rest), parents)
        ]

    tamper_from :
        (p q : Option Text) (t u : Table)
        → Chain c p t
        → Chain c q u
        → PlainRows t
        → PlainRows u
        → IsParent p
        → IsParent q
        → length t ≡ length u
        → last_hash p t ≡ last_hash q u
        → Collision ⊎ SameRows t u × (p ≡ q)
    unfolding last_hash compute_hash
    tamper_from p q [] [] h k a b ip iq n e = inr (tt, e)
    tamper_from p q [] (s ∷ u) h k a b ip iq n e = absurd (omega arith)
    tamper_from p q (r ∷ t) [] h k a b ip iq n e = absurd (omega arith)
    tamper_from p q (r ∷ t) (s ∷ u) h k a b ip iq n e =
        elim (tamper_from (some r.entry_hash) (some s.entry_hash) t u h.1 k.1 a.1 b.1
          (after _ h.0.1) (after _ k.0.1) (omega arith) e) [
            | inl clash ↦ inl clash
            | inr (rest, hashes) ↦ with_head r s p q t u h k a b ip iq rest (cc)
          ]

    -- Two journals that both verify, are equally long and end in the same hash hold the same rows,
    -- in sequence number, mutation type, target text (a missing target counts as the empty text) and
    -- dumped delta, where no mutation type and no target has a `|` in it; or else two different
    -- texts with one digest are at hand.
    pub tamper_evident :
        (t u : Table)
        → Chain c none t
        → Chain c none u
        → PlainRows t
        → PlainRows u
        → length t ≡ length u
        → last_hash none t ≡ last_hash none u
        → Collision ⊎ SameRows t u
    tamper_evident t u h k a b n e = elim (tamper_from none none t u h k a b first first n e) [
      | inl clash ↦ inl clash
      | inr (rows, _) ↦ inr rows
    ]

  Chain-replace :
      (p : Option Text) (before : Table) (r s : Row) (behind : Table)
      → r.parent_hash ≡ s.parent_hash
      → r.entry_hash ≡ s.entry_hash
      → hash_of c r ≡ hash_of c s
      → Chain c p (before ++ r ∷ behind)
      → Chain c p (before ++ s ∷ behind)
  Chain-replace p [] r s behind e f g h =
      ((sym e ∙ h.0.0, sym f ∙ (h.0.1 ∙ g)), subst (λ x. Chain c (some x) behind) f h.1)
  Chain-replace p (b ∷ before) r s behind e f g h =
      (h.0, Chain-replace (some b.entry_hash) before r s behind e f g h.1)

  -- A row whose target holds a `|` can be given another mutation type and another target, and the
  -- journal still verifies.
  pub Chain-shift :
      (before behind : Table) (r : Row) (a b : Text)
      → r.target_id ≡ some (a ++ bar ∷ b)
      → Chain c none (before ++ r ∷ behind)
      → Chain c none (
          before
          ++ record r { mutation_type = r.mutation_type ++ bar ∷ a; target_id = some b } ∷ behind)
  unfolding compute_hash
  Chain-shift before behind r a b e = Chain-replace none before r _ behind refl refl (
      ap c.sha256 (
        rw e (
          canonical_shift r.sequence_number r.mutation_type a b (c.dumps (c.loads r.delta))
            r.parent_hash)))
