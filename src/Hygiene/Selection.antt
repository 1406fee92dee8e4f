-- ===== src/Hygiene/Selection.antt =====
-- What `_select_archive_candidates` (src/engrava/infrastructure/sqlite/engrava_core.py) chooses.
use engrava.Prelude.{
  ℕ, zero, suc, ◌≤◌, ◌≡◌, refl, sym, ap, subst, ◌∙◌, ◌⊎◌, inl, inr, Bool, true, false, List, [],
  ◌∷◌, map, arith, length, take, drop, All, All-mono, All-take, length-take, Bool-cases,
}
use engrava.Prelude.Members.{All-lookup, mem-take-or-drop, mem-sort}
use engrava.Prelude.Order.{pair_leq}
use engrava.Prelude.Sort.{sort, All-sort, sort-IsSorted, IsSorted-split}
use engrava.Prelude.Text.{Text}
use engrava.Floats.{Floats}
use engrava.Thought.Defs.{Thought, Instant}
use engrava.Hygiene.Signals.{DreamingContext, Weights}
use engrava.Hygiene.Select.{
  HygienePolicy, EvictionReason, hygiene_protected, hygiene_inactive_enough, Scored, sort_key,
  key_order, eviction_reason, is_kept, entry, scored, chosen, select_archive_candidates,
}
use mathlib.Core.List.{Memᴰ}

module _ {ℓ κ} {A : Type ℓ} {B : Type κ} where
  All-map {μ} :
      (P : B → Type μ) (f : A → B) (xs : List A) → All (λ x. P (f x)) xs → All P (map f xs)
  All-map P f [] h = tt
  All-map P f (x ∷ xs) h = (h.0, All-map P f xs h.1)

  mem-map : (f : A → B) {a : A} (xs : List A) → Memᴰ a xs → Memᴰ (f a) (map f xs)
  mem-map f [] m = elim m [ ]
  mem-map f (x ∷ xs) (Memᴰ.head e) = Memᴰ.head (ap f e)
  mem-map f (x ∷ xs) (Memᴰ.tail m) = Memᴰ.tail (mem-map f xs m)

  length-map : (f : A → B) (xs : List A) → length (map f xs) ≡ length xs
  length-map f [] = refl
  length-map f (x ∷ xs) = ap suc (length-map f xs)

mem-drop-full {ℓ} :
    {A : Type ℓ} {a : A} (n : ℕ) (xs : List A) → Memᴰ a (drop n xs) → length (take n xs) ≡ n
mem-drop-full zero xs m = refl
mem-drop-full (suc n) [] m = elim m [ ]
mem-drop-full (suc n) (x ∷ xs) m = ap suc (mem-drop-full n xs m)

module _ (F : Floats) (policy : HygienePolicy F) (now : Instant) (ctx : DreamingContext)
    (active_weights : Weights F) (multiplier : Thought F → F.Num) where
  abbrev reason : Thought F → EvictionReason F
  reason = eviction_reason F policy now ctx active_weights multiplier

  abbrev selected : List (Thought F) → List (EvictionReason F)
  selected = select_archive_candidates F policy now ctx active_weights multiplier

  abbrev kept : Thought F → Bool
  kept = is_kept F policy now ctx active_weights multiplier

  abbrev scores : List (Thought F) → List (Scored F)
  scores = scored F policy now ctx active_weights multiplier

  abbrev scored_entry : Thought F → Scored F
  scored_entry = entry F policy now ctx active_weights multiplier

  -- A thought that the selection may archive.
  pub record IsEligible (t : Thought F) : Type 0 where
    pub unprotected : hygiene_protected F t policy ≡ false
    pub inactive : hygiene_inactive_enough F t policy now ≡ true
    pub below : F.order.leq policy.eviction_threshold (reason t).eviction_score ≡ false

  pub IsEligible-of_not_kept : (t : Thought F) → kept t ≡ false → IsEligible t
  unfolding is_kept
  IsEligible-of_not_kept t h = record {
    unprotected = ground arith;
    inactive = ground arith;
    below = ground arith;
  }

  is_kept-IsEligible : (t : Thought F) → IsEligible t → kept t ≡ false
  unfolding is_kept
  is_kept-IsEligible t e = rw (e.unprotected, e.inactive, e.below)

  -- Where a scored entry comes from.
  abbrev Origin : List (Thought F) → Scored F → Type 0
  Origin cs s = (t : Thought F) × Memᴰ t cs × IsEligible t × (s ≡ scored_entry t)

  scored-Origin : (cs : List (Thought F)) → All (Origin cs) (scores cs)
  unfolding scored
  scored-Origin [] = tt
  scored-Origin (t ∷ cs) = elim (Bool-cases (kept t)) [
    | inl p ↦ rw p (later t cs (scores cs) (scored-Origin cs))
    | inr p ↦ rw p (
      (t, Memᴰ.head refl, IsEligible-of_not_kept t p, refl),
      later t cs (scores cs) (scored-Origin cs),
    )
  ]
    where
      later :
          (t : Thought F) (cs : List (Thought F)) (xs : List (Scored F))
          → All (Origin cs) xs
          → All (Origin (t ∷ cs)) xs
      later t cs xs h = All-mono xs (λ s o. (o.0, Memᴰ.tail o.1, o.2, o.3)) h

  mem-scored :
      (t : Thought F) (cs : List (Thought F))
      → kept t ≡ false
      → Memᴰ t cs
      → Memᴰ (scored_entry t) (scores cs)
  unfolding scored
  mem-scored t [] h m = elim m [ ]
  mem-scored t (c ∷ cs) h (Memᴰ.head e) = rw (ap kept (sym e) ∙ h) (Memᴰ.head (ap scored_entry e))
  mem-scored t (c ∷ cs) h (Memᴰ.tail m) = elim (Bool-cases (kept c)) [
    | inl p ↦ rw p (mem-scored t cs h m)
    | inr p ↦ rw p (Memᴰ.tail (mem-scored t cs h m))
  ]

  chosen-Origin :
      (cs : List (Thought F))
      → All (Origin cs) (chosen F policy now ctx active_weights multiplier cs)
  unfolding chosen
  chosen-Origin cs =
      All-take _ policy.max_evictions_per_run (sort (key_order F) (sort_key F) (scores cs))
        (All-sort (key_order F) (sort_key F) (Origin cs) (scores cs) (scored-Origin cs))

  -- Every reason is that of a candidate which is not protected, has been inactive for long enough
  -- and scores below the threshold; and there are at most `max_evictions_per_run` of them.
  pub select_sound :
      (cs : List (Thought F))
      → All (λ r. (t : Thought F) × Memᴰ t cs × IsEligible t × (r ≡ reason t)) (selected cs)
        × (length (selected cs) ≤ policy.max_evictions_per_run)
  unfolding select_archive_candidates chosen
  select_sound cs =
      let survivors = sort (key_order F) (sort_key F) (scores cs) in
      let cap = policy.max_evictions_per_run in
      (
        All-map _ (λ s. s.2) (take cap survivors)
            (All-mono (take cap survivors) (λ s o. (o.0, o.1, o.2, ap (λ x. x.2) o.3))
              (chosen-Origin cs)),
        omega (arith, length-map (λ s. s.2) (take cap survivors), length-take cap survivors),
      )

  first_leq :
      (a b : F.Num) (x y : ℕ × Text)
      → (key_order F).leq (a, x) (b, y) ≡ true
      → F.order.leq a b ≡ true
  unfolding pair_leq
  first_leq a b x y h = ground arith

  -- A candidate that is eligible is selected, or else the cap is used up and nothing that is
  -- selected has a higher eviction score.
  pub select_ranked :
      (cs : List (Thought F)) (t : Thought F)
      → Memᴰ t cs
      → IsEligible t
      → Memᴰ (reason t) (selected cs)
        ⊎ (length (selected cs) ≡ policy.max_evictions_per_run)
          × All (λ r. F.order.leq r.eviction_score (reason t).eviction_score ≡ true) (selected cs)
  unfolding select_archive_candidates chosen
  select_ranked cs t m e =
      let survivors = sort (key_order F) (sort_key F) (scores cs) in
      let cap = policy.max_evictions_per_run in
      let here =
        mem-sort (key_order F) (sort_key F) (scores cs)
          (mem-scored t cs (is_kept-IsEligible t e) m) in
      elim (mem-take-or-drop cap survivors here) [
        | inl early ↦ inl (mem-map (λ s. s.2) (take cap survivors) early)
        | inr late ↦ inr (
          length-map (λ s. s.2) (take cap survivors) ∙ mem-drop-full cap survivors late,
          All-map _ (λ s. s.2) (take cap survivors)
              (ordered (take cap survivors) (drop cap survivors) late (chosen-Origin cs) (
                IsSorted-split (key_order F) (sort_key F) cap survivors
                  (sort-IsSorted (key_order F) (sort_key F) (scores cs)))),
        )
      ]
    where
      ordered :
          (front behind : List (Scored F))
          → Memᴰ (scored_entry t) behind
          → All (Origin cs) front
          → All
              (λ a. All (λ b. (key_order F).leq (sort_key F a) (sort_key F b) ≡ true) behind)
              front
          → All (λ s. F.order.leq s.2.eviction_score (reason t).eviction_score ≡ true) front
      ordered [] behind late o h = tt
      ordered (s ∷ front) behind late o h = (
        subst (λ z. F.order.leq z.2.eviction_score (reason t).eviction_score ≡ true) (sym o.0.3)
            (first_leq _ _ _ _ (
              subst (λ z. (key_order F).leq (sort_key F z) (sort_key F (scored_entry t)) ≡ true)
                o.0.3 (All-lookup _ behind h.0 late))),
        ordered front behind late o.1 h.1,
      )
