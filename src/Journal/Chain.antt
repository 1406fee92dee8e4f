-- ===== src/Journal/Chain.antt =====
-- What `verify_integrity` (src/engrava/infrastructure/sqlite/journal_writer.py) decides.
use engrava.Prelude.{
  ℕ, suc, ◌+◌, ◌≡◌, refl, ap, subst, ◌↔◌, inl, inr, Bool, true, false, Option, none, some, [], ◌∷◌,
  ◌++◌, arith, length, Bool-cases,
}
use engrava.Prelude.Text.{Text, text_eq, text_eq_iff}
use engrava.Prelude.Result.{ok}
use engrava.Journal.Table.{Row, Table}
use engrava.Journal.Defs.{
  Codec, IntegrityResult, option_text_eq, compute_hash, verify_from, verify_integrity,
}

pub option_text_eq_iff : (a b : Option Text) → (option_text_eq a b ≡ true) ↔ (a ≡ b)
option_text_eq_iff none none = (λ h. refl, λ h. refl)
option_text_eq_iff none (some b) = (λ h. cc, λ h. cc)
option_text_eq_iff (some a) none = (λ h. cc, λ h. cc)
option_text_eq_iff (some a) (some b) = ground (arith, text_eq_iff a b)

-- The hash of the last row, or the given one where there is none.
unfoldable pub last_hash : Option Text → Table → Option Text
last_hash prev [] = prev
last_hash prev (r ∷ t) = last_hash (some r.entry_hash) t

module _ (c : Codec) where
  -- The hash that the row's own fields give.
  abbrev pub hash_of : Row → Text
  hash_of r =
      compute_hash c r.sequence_number r.mutation_type r.target_id (c.loads r.delta) r.parent_hash

  abbrev pub IsLinked : Option Text → Row → Type 0
  IsLinked prev r = (r.parent_hash ≡ prev) × (r.entry_hash ≡ hash_of r)

  -- Each row names the hash of the one before, and carries the hash of its own fields.
  abbrev pub Chain : Option Text → Table → Type 0
  Chain prev [] = Unit
  Chain prev (r ∷ t) = IsLinked prev r × Chain (some r.entry_hash) t

  -- The first row that breaks the chain, with what stands before and behind it.
  pub record FirstBreak (prev : Option Text) (n : ℕ) (t : Table) (result : IntegrityResult)
      : Type 0 where
    pub before : Table
    pub broken : Row
    pub behind : Table
    pub split : t ≡ before ++ broken ∷ behind
    pub intact : Chain prev before
    pub breaks : ¬ (IsLinked (last_hash prev before) broken)
    pub counted : result.entries_checked ≡ n + length before + 1
    pub located : result.first_invalid_sequence ≡ some broken.sequence_number

  abbrev all_checked : ℕ → IntegrityResult
  all_checked n = record {
    valid = true;
    entries_checked = n;
    first_invalid_sequence = none;
    error_message = none;
  }

  Chain→verify_from :
      (prev : Option Text) (n : ℕ) (t : Table)
      → Chain prev t
      → verify_from c prev n t ≡ all_checked (n + length t)
  unfolding verify_from
  Chain→verify_from prev n [] h = ground arith
  Chain→verify_from prev n (r ∷ t) h =
      rw
        (
          (option_text_eq_iff r.parent_hash prev).1 h.0.0,
          (text_eq_iff r.entry_hash (hash_of r)).1 h.0.1,
        )
        (ground (arith, Chain→verify_from (some r.entry_hash) (suc n) t h.1))

  verify_from→Chain :
      (prev : Option Text) (n : ℕ) (t : Table)
      → (verify_from c prev n t).valid ≡ true
      → Chain prev t
  unfolding verify_from
  verify_from→Chain prev n [] h = tt
  verify_from→Chain prev n (r ∷ t) h = ground (
    arith,
    option_text_eq_iff r.parent_hash prev,
    text_eq_iff r.entry_hash (hash_of r),
    verify_from→Chain (some r.entry_hash) (suc n) t,
  )

  break_here :
      (prev : Option Text) (n : ℕ) (r : Row) (t : Table) (result : IntegrityResult)
      → ¬ (IsLinked prev r)
      → result.entries_checked ≡ suc n
      → result.first_invalid_sequence ≡ some r.sequence_number
      → FirstBreak prev n (r ∷ t) result
  unfolding last_hash
  break_here prev n r t result bad counted located = record {
    before = [];
    broken = r;
    behind = t;
    split = refl;
    intact = tt;
    breaks = bad;
    counted = omega arith;
    located = located;
  }

  break_later :
      (prev : Option Text) (n : ℕ) (r : Row) (t : Table) (result : IntegrityResult)
      → IsLinked prev r
      → FirstBreak (some r.entry_hash) (suc n) t result
      → FirstBreak prev n (r ∷ t) result
  unfolding last_hash
  break_later prev n r t result linked later = record {
    before = r ∷ later.before;
    broken = later.broken;
    behind = later.behind;
    split = ap (◌∷◌ r) later.split;
    intact = (linked, later.intact);
    breaks = later.breaks;
    counted = omega (arith, later.counted);
    located = later.located;
  }

  verify_from-FirstBreak :
      (prev : Option Text) (n : ℕ) (t : Table)
      → (verify_from c prev n t).valid ≡ false
      → FirstBreak prev n t (verify_from c prev n t)
  unfolding verify_from
  verify_from-FirstBreak prev n [] h = cc
  verify_from-FirstBreak prev n (r ∷ t) h = elim (Bool-cases (option_text_eq r.parent_hash prev)) [
    | inr e ↦ rw e (
        break_here prev n r t _ (λ l. ground (arith, option_text_eq_iff r.parent_hash prev)) refl
          refl)
    | inl e ↦ elim (Bool-cases (text_eq r.entry_hash (hash_of r))) [
      | inr f ↦
          rw (e, f)
            (break_here prev n r t _ (λ l. ground (arith, text_eq_iff r.entry_hash (hash_of r)))
              refl refl)
      | inl f ↦
          rw (e, f)
            (break_later prev n r t _
              (
                (option_text_eq_iff r.parent_hash prev).0 e,
                (text_eq_iff r.entry_hash (hash_of r)).0 f,
              )
              (verify_from-FirstBreak (some r.entry_hash) (suc n) t (rw (e, f) at h)))
    ]
  ]

  -- With a connection that is not revoked, the walk reports every row as checked and the journal as
  -- valid exactly when each row names the hash of the row before it and carries its own hash.
  pub verify_integrity-Chain :
      (t : Table) → (verify_integrity c (some false) t ≡ ok (all_checked (length t))) ↔ Chain none t
  unfolding verify_integrity
  verify_integrity-Chain t = (
    λ h. verify_from→Chain none 0 t (ground arith),
    λ h. ground (arith, Chain→verify_from none 0 t h),
  )

  -- A result that is not valid points at the first row that is not linked: the rows before it form
  -- a chain, the count includes it, and its sequence number is the one reported.
  pub verify_integrity-FirstBreak :
      (revocation : Option Bool) (t : Table) (result : IntegrityResult)
      → verify_integrity c revocation t ≡ ok result
      → result.valid ≡ false
      → FirstBreak none 0 t result
  unfolding verify_integrity
  verify_integrity-FirstBreak revocation t result h v =
      let e : verify_from c none 0 t ≡ result = ground arith in
      subst (FirstBreak none 0 t) e (verify_from-FirstBreak none 0 t (ground arith))
