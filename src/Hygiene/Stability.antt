-- ===== src/Hygiene/Stability.antt =====
-- `_select_archive_candidates` (src/engrava/infrastructure/sqlite/engrava_core.py) does not depend
-- on the order in which the candidates were read.
use engrava.Prelude.{◌≡◌, ◌≢◌, refl, ap, inl, inr, List, [], ◌∷◌, map, take, All, Bool-cases}
use engrava.Prelude.Sort.{HasDistinctKeys, sort_permᴰ}
use engrava.Floats.{Floats}
use engrava.Thought.Defs.{Thought, Instant}
use engrava.Hygiene.Signals.{DreamingContext, Weights}
use engrava.Hygiene.Select.{
  HygienePolicy, sort_key, key_order, is_kept, entry, scored, chosen, select_archive_candidates,
}
use mathlib.Core.List.{Permᴰ}
use mathlib.Core.List.Permᴰ

module _ (F : Floats) where
  -- No two thoughts have one identity.
  abbrev pub DistinctIds : List (Thought F) → Type 0
  DistinctIds [] = Unit
  DistinctIds (t ∷ ts) = All (λ u. t.thought_id ≢ u.thought_id) ts × DistinctIds ts

module _ (F : Floats) (policy : HygienePolicy F) (now : Instant) (ctx : DreamingContext)
    (active_weights : Weights F) (multiplier : Thought F → F.Num) where
  scored-All :
      (t : Thought F) (cs : List (Thought F))
      → All (λ u. t.thought_id ≢ u.thought_id) cs
      → All
          (λ s. sort_key F (entry F policy now ctx active_weights multiplier t) ≢ sort_key F s)
          (scored F policy now ctx active_weights multiplier cs)
  unfolding scored
  scored-All t [] h = tt
  scored-All t (c ∷ cs) h =
      elim (Bool-cases (is_kept F policy now ctx active_weights multiplier c)) [
        | inl p ↦ rw p (scored-All t cs h.1)
        | inr p ↦ rw p ((λ e. h.0 (ap (λ k. k.1.1) e)), scored-All t cs h.1)
      ]

  scored-HasDistinctKeys :
      (cs : List (Thought F))
      → DistinctIds F cs
      → HasDistinctKeys
          (key_order F)
          (sort_key F)
          (scored F policy now ctx active_weights multiplier cs)
  unfolding scored
  scored-HasDistinctKeys [] h = tt
  scored-HasDistinctKeys (c ∷ cs) h =
      elim (Bool-cases (is_kept F policy now ctx active_weights multiplier c)) [
        | inl p ↦ rw p (scored-HasDistinctKeys cs h.1)
        | inr p ↦ rw p (scored-All c cs h.0, scored-HasDistinctKeys cs h.1)
      ]

  scored-cons-permᴰ :
      (a b : Thought F) (xs ys : List (Thought F))
      → a ≡ b
      → Permᴰ
          (scored F policy now ctx active_weights multiplier xs)
          (scored F policy now ctx active_weights multiplier ys)
      → Permᴰ
          (scored F policy now ctx active_weights multiplier (a ∷ xs))
          (scored F policy now ctx active_weights multiplier (b ∷ ys))
  unfolding scored
  scored-cons-permᴰ a b xs ys e p =
      elim (Bool-cases (is_kept F policy now ctx active_weights multiplier b)) [
        | inl q ↦ rw (e, q) p
        | inr q ↦ rw (e, q) (Permᴰ.cons refl p)
      ]

  scored-swap-permᴰ :
      (a b : Thought F) (xs : List (Thought F))
      → Permᴰ
          (scored F policy now ctx active_weights multiplier (a ∷ b ∷ xs))
          (scored F policy now ctx active_weights multiplier (b ∷ a ∷ xs))
  unfolding scored
  scored-swap-permᴰ a b xs =
      elim (Bool-cases (is_kept F policy now ctx active_weights multiplier a)) [
        | inl p ↦ elim (Bool-cases (is_kept F policy now ctx active_weights multiplier b)) [
          | inl q ↦ rw (p, q) (Permᴰ.refl _)
          | inr q ↦ rw (p, q) (Permᴰ.refl _)
        ]
        | inr p ↦ elim (Bool-cases (is_kept F policy now ctx active_weights multiplier b)) [
          | inl q ↦ rw (p, q) (Permᴰ.refl _)
          | inr q ↦ rw (p, q) (Permᴰ.swap refl refl)
        ]
      ]

  scored-permᴰ :
      {xs ys : List (Thought F)}
      → Permᴰ xs ys
      → Permᴰ
          (scored F policy now ctx active_weights multiplier xs)
          (scored F policy now ctx active_weights multiplier ys)
  unfolding scored
  scored-permᴰ Permᴰ.nil = Permᴰ.nil
  scored-permᴰ (Permᴰ.cons e p) = scored-cons-permᴰ _ _ _ _ e (scored-permᴰ p)
  scored-permᴰ (Permᴰ.swap {a} {b} {l = l} e f) = rw (← e, ← f) (scored-swap-permᴰ a b l)
  scored-permᴰ (Permᴰ.trans p q) = Permᴰ.trans (scored-permᴰ p) (scored-permᴰ q)

  -- Candidates with distinct identities give the same reasons in the same order, in whatever order
  -- they come.
  pub select_order_free :
      {xs ys : List (Thought F)}
      → Permᴰ xs ys
      → DistinctIds F xs
      → select_archive_candidates F policy now ctx active_weights multiplier xs
        ≡ select_archive_candidates F policy now ctx active_weights multiplier ys
  unfolding select_archive_candidates chosen
  select_order_free p h =
      ap (λ l. map (λ s. s.2) (take policy.max_evictions_per_run l))
        (sort_permᴰ (key_order F) (sort_key F) (scored-permᴰ p) (scored-HasDistinctKeys _ h))
