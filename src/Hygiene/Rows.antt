-- ===== src/Hygiene/Rows.antt =====
-- Rows of the table `thought` under the reads and the UPDATE of `_hygiene_archive`
-- (src/engrava/infrastructure/sqlite/engrava_core.py).
use engrava.Prelude.{
  ℕ, ◌≤◌, ◌≡◌, ◌≢◌, refl, sym, subst, ◌∙◌, inl, inr, Bool, true, false, none, some, [], ◌∷◌, arith,
  All, All-mono, Bool-cases,
}
use engrava.Prelude.Text.{Text, text_eq, text_eq_iff}
use engrava.Prelude.Result.{ok}
use engrava.Floats.{Floats}
use engrava.Thought.Defs.{Thought, Instant, model_validate}
use engrava.Thought.Lifecycle.{IsValid, apply_changes, evolve}
use engrava.Hygiene.Archive.{Store, get_thought_row, update_where, archive_changes}
use engrava.Hygiene.Stability.{DistinctIds}

module _ (F : Floats) where
  pub update_none :
      (p : Thought F → Bool) (f : Thought F → Thought F) (s : Store F)
      → All (λ t. p t ≡ false) s
      → update_where F p f s ≡ (0, s)
  unfolding update_where
  update_none p f [] h = refl
  update_none p f (t ∷ s) h = rw (h.0, update_none p f s h.1)

  pub update_at_most_one :
      (x : Text) (p : Thought F → Bool) (f : Thought F → Thought F) (s : Store F)
      → ((t : Thought F) → p t ≡ true → t.thought_id ≡ x)
      → DistinctIds F s
      → (update_where F p f s).0 ≤ 1
  unfolding update_where
  update_at_most_one x p f [] k d = omega arith
  update_at_most_one x p f (t ∷ s) k d = elim (Bool-cases (p t)) [
    | inl e ↦ rw (e, update_none p f s (others_differ e s d.0)) (omega arith)
    | inr e ↦ rw e (update_at_most_one x p f s k d.1)
  ]
    where
      others_differ :
          p t ≡ true
          → (s : Store F) → All (λ u. t.thought_id ≢ u.thought_id) s
          → All (λ u. p u ≡ false) s
      others_differ e s h =
          All-mono s
            (λ u n. elim (Bool-cases (p u)) [
              | inl q ↦ absurd (n (k t e ∙ sym (k u q)))
              | inr q ↦ q
            ])
            h

  pub row_none :
      (x : Text) (s : Store F)
      → get_thought_row F x s ≡ none
      → All (λ t. text_eq t.thought_id x ≡ false) s
  unfolding get_thought_row
  row_none x [] h = tt
  row_none x (t ∷ s) h = elim (Bool-cases (text_eq t.thought_id x)) [
    | inl e ↦ cc (rw e at h)
    | inr e ↦ (e, row_none x s (rw e at h))
  ]

  pub row_only :
      (x : Text) (b : Thought F) (s : Store F)
      → DistinctIds F s
      → get_thought_row F x s ≡ some b
      → All (λ t. text_eq t.thought_id x ≡ true → t ≡ b) s
  unfolding get_thought_row
  row_only x b [] d h = tt
  row_only x b (t ∷ s) d h = elim (Bool-cases (text_eq t.thought_id x)) [
    | inl e ↦ (
      λ _. cc (rw e at h),
      All-mono s
          (λ u n q.
            absurd (n ((text_eq_iff t.thought_id x).0 e ∙ sym ((text_eq_iff u.thought_id x).0 q))))
          d.0,
    )
    | inr e ↦ (λ q. cc, row_only x b s d.1 (rw e at h))
  ]

  pub row-All :
      (P : Thought F → Type 0) (x : Text) (b : Thought F) (s : Store F)
      → All P s
      → get_thought_row F x s ≡ some b
      → P b
  unfolding get_thought_row
  row-All P x b [] k h = cc
  row-All P x b (t ∷ s) k h = elim (Bool-cases (text_eq t.thought_id x)) [
    | inl e ↦ subst P (cc (rw e at h)) k.0
    | inr e ↦ row-All P x b s k.1 (rw e at h)
  ]

  pub update-DistinctIds :
      (p : Thought F → Bool) (f : Thought F → Thought F) (s : Store F)
      → ((t : Thought F) → (f t).thought_id ≡ t.thought_id)
      → DistinctIds F s
      → DistinctIds F (update_where F p f s).1
  unfolding update_where
  update-DistinctIds p f [] k d = tt
  update-DistinctIds p f (t ∷ s) k d = elim (Bool-cases (p t)) [
    | inl e ↦ rw e (
      subst (λ i. All (λ u. i ≢ u.thought_id) (update_where F p f s).1) (sym (k t)) (ids t s d.0),
      update-DistinctIds p f s k d.1,
    )
    | inr e ↦ rw e (ids t s d.0, update-DistinctIds p f s k d.1)
  ]
    where
      ids :
          (t : Thought F) (s : Store F)
          → All (λ u. t.thought_id ≢ u.thought_id) s
          → All (λ u. t.thought_id ≢ u.thought_id) (update_where F p f s).1
      ids t [] h = tt
      ids t (u ∷ s) h = elim (Bool-cases (p u)) [
        | inl e ↦ rw e (λ q. h.0 (q ∙ k u), ids t s h.1)
        | inr e ↦ rw e (h.0, ids t s h.1)
      ]

  pub evolve_archived :
      (current_cycle : ℕ) (now clock : Instant) (t : Thought F)
      → IsValid F t
      → (u : Thought F) × (evolve F (archive_changes F current_cycle now) clock t ≡ ok u)
  unfolding evolve model_validate
  evolve_archived current_cycle now clock t v = (
    apply_changes F (archive_changes F current_cycle now) clock t,
    ground (arith, v.cycles, v.interval),
  )
