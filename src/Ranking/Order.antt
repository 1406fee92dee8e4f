-- ===== src/Ranking/Order.antt =====
-- The order that `_sort_scored_descending` (src/engrava/infrastructure/sqlite/engrava_core.py) gives.
use engrava.Prelude.{◌≡◌, ◌≢◌, ap, ◌⊎◌, true, List, [], ◌∷◌, arith, All, All-mono}
use engrava.Prelude.Order.{text_order, pair_leq}
use engrava.Prelude.Sort.{IsSorted, HasDistinctKeys, sort-IsSorted, sort-permᴰ, sort_permᴰ}
use engrava.Floats.{Floats, num_lt}
use engrava.Ranking.Defs.{Ranked, rank_order, rank_key, sort_scored_descending}
use mathlib.Core.List.{Permᴰ}

module _ (F : Floats) where
  -- No two rows are of one thought.
  abbrev pub DistinctRows : List (Ranked F) → Type 0
  DistinctRows [] = Unit
  DistinctRows (row ∷ rows) = All (λ r. row.0 ≢ r.0) rows × DistinctRows rows

  -- Each row is above all the rows after it: its score is greater, or the scores are equal and its
  -- identity is not greater.
  abbrev IsAbove : Ranked F → Ranked F → Type 0
  IsAbove (x, a) (y, b) = (num_lt F b a ≡ true) ⊎ ((a ≡ b) × (text_order.leq x y ≡ true))

  abbrev pub IsRanked : List (Ranked F) → Type 0
  IsRanked [] = Unit
  IsRanked (row ∷ rows) = All (IsAbove row) rows × IsRanked rows

  IsAbove-of_leq :
      (r s : Ranked F) → (rank_order F).leq (rank_key F r) (rank_key F s) ≡ true → IsAbove r s
  unfolding pair_leq
  IsAbove-of_leq (x, a) (y, b) h = ground (arith, F.order.total a b, F.order.antisym a b)

  IsRanked-of_IsSorted :
      (rows : List (Ranked F)) → IsSorted (rank_order F) (rank_key F) rows → IsRanked rows
  IsRanked-of_IsSorted [] h = tt
  IsRanked-of_IsSorted (row ∷ rows) h =
      (All-mono rows (IsAbove-of_leq row) h.0, IsRanked-of_IsSorted rows h.1)

  distinct_keys :
      (rows : List (Ranked F))
      → DistinctRows rows
      → HasDistinctKeys (rank_order F) (rank_key F) rows
  distinct_keys [] h = tt
  distinct_keys (row ∷ rows) h =
      (All-mono rows (λ r d e. d (ap (λ k. k.1) e)) h.0, distinct_keys rows h.1)

  -- The sorted list holds the same rows, each above all the rows after it.
  pub sort_scored-IsRanked :
      (xs : List (Ranked F))
      → Permᴰ (sort_scored_descending F xs) xs × IsRanked (sort_scored_descending F xs)
  unfolding sort_scored_descending
  sort_scored-IsRanked xs = (
    sort-permᴰ (rank_order F) (rank_key F) xs,
    IsRanked-of_IsSorted _ (sort-IsSorted (rank_order F) (rank_key F) xs),
  )

  -- Where no two rows are of one thought, the sorted list does not depend on the order in which the
  -- rows came.
  pub sort_scored_order_free :
      (xs ys : List (Ranked F))
      → Permᴰ xs ys
      → DistinctRows xs
      → sort_scored_descending F xs ≡ sort_scored_descending F ys
  unfolding sort_scored_descending
  sort_scored_order_free xs ys p d = sort_permᴰ (rank_order F) (rank_key F) p (distinct_keys xs d)
