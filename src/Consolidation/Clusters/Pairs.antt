-- ===== src/Consolidation/Clusters/Pairs.antt =====
-- The pairs of similar vectors that `_agglomerative_clusters` (src/engrava/extensions/dreaming.py)
-- reads off the similarity matrix, whole or by blocks of rows. `mask i j` is `sim >= threshold`, of
-- numpy's product of the normalized vectors; `block_mask start lr c` is `sim_block >= threshold`, of
-- its product of the rows from `start` on with all of them.
use engrava.Prelude.{
  ℕ, zero, suc, ◌+◌, ◌-◌, ◌≤◌, ◌<◌, ◌≡◌, refl, sym, ap, ◌∙◌, ◌⊎◌, inl, inr, Bool, true, false, ◌&&◌,
  List, [], ◌∷◌, ◌++◌, map, ltb, leb, ltb→lt, min, filter, arith, Bool-cases, if◌then◌else◌,
}
use mathlib.Core.List.{append-nil, append_assoc}

-- `range(start, start + count)`.
abbrev range : ℕ → ℕ → List ℕ
range start zero = []
range start (suc count) = start ∷ range (suc start) count

module _ (mask : ℕ → ℕ → Bool) (n : ℕ) where
  -- A row of the upper triangle, and the rows from one on.
  abbrev pub row_pairs : ℕ → List (ℕ × ℕ)
  row_pairs i = map (λ j. (i, j)) (filter (λ j. ltb i j && mask i j) (range 0 n))

  unfoldable pub rows : ℕ → ℕ → List (ℕ × ℕ)
  rows start zero = []
  rows start (suc count) = row_pairs start ++ rows (suc start) count

  -- `np.where(np.triu(sim >= threshold, k=1))`.
  unfoldable pub whole_pairs : List (ℕ × ℕ)
  unfolding rows
  whole_pairs = rows 0 n

  rows-append :
      (start count more : ℕ)
      → rows start (count + more) ≡ rows start count ++ rows (start + count) more
  unfolding rows
  rows-append start zero more =
      let here : start ≡ start + 0 = omega arith in
      let same : 0 + more ≡ more = omega arith in λ i. rows (here i) (same i)
  rows-append start (suc count) more =
      let size : suc count + more ≡ suc (count + more) = omega arith in
      let next : suc start + count ≡ start + suc count = omega arith in
      ap (rows start) size
      ∙ (ap (λ t. row_pairs start ++ t) (rows-append (suc start) count more)
          ∙ (sym (
                append_assoc (row_pairs start) (rows (suc start) count)
                  (rows (suc start + count) more))
              ∙ ap (λ k. (row_pairs start ++ rows (suc start) count) ++ rows k more) next))

  module _ (block_mask : ℕ → ℕ → ℕ → Bool) where
    -- `np.where(mask)` of the block at `start`, from the local row `lr` on.
    unfoldable pub where_block : (start : ℕ) → (lr : ℕ) → (count : ℕ) → List (ℕ × ℕ)
    where_block start lr zero = []
    where_block start lr (suc count) =
        map (λ c. (lr, c)) (filter (block_mask start lr) (range 0 n))
        ++ where_block start (suc lr) count

    -- The loop over the local rows and the columns: the diagonal and what is below it is skipped.
    unfoldable pub block_pairs : (start : ℕ) → List (ℕ × ℕ) → List (ℕ × ℕ)
    block_pairs start [] = []
    block_pairs start ((lr, c) ∷ found) =
        let later = block_pairs start found in
        let global_i = start + lr in if leb c global_i then later else (global_i, c) ∷ later

    -- The loop over the blocks, on fuel.
    unfoldable pub blocks_from : ℕ → (chunk : ℕ) → (start : ℕ) → List (ℕ × ℕ)
    unfolding where_block block_pairs
    blocks_from zero chunk start = []
    blocks_from (suc f) chunk start =
        let rest = blocks_from f chunk (start + chunk) in
        if ltb start n
        then block_pairs start (where_block start 0 (min (start + chunk) n - start)) ++ rest
        else []

    unfoldable pub similar_pairs : (chunk : ℕ) → List (ℕ × ℕ)
    unfolding whole_pairs blocks_from
    similar_pairs chunk = if leb n chunk then whole_pairs else blocks_from n chunk 0

    block_pairs-append :
        (start : ℕ) (xs ys : List (ℕ × ℕ))
        → block_pairs start (xs ++ ys) ≡ block_pairs start xs ++ block_pairs start ys
    unfolding block_pairs
    block_pairs-append start [] ys = refl
    block_pairs-append start ((lr, c) ∷ xs) ys = elim (Bool-cases (leb c (start + lr))) [
      | inl e ↦ rw e (block_pairs-append start xs ys)
      | inr e ↦ rw e (ap (◌∷◌ (start + lr, c)) (block_pairs-append start xs ys))
    ]

    -- numpy's product of a block of rows has the rows of the whole product.
    module _ (same_rows : (start lr c : ℕ) → block_mask start lr c ≡ mask (start + lr) c) where
      block_row :
          (start lr : ℕ) (cs : List ℕ)
          → block_pairs start (map (λ c. (lr, c)) (filter (block_mask start lr) cs))
            ≡ map
                (λ j. (start + lr, j))
                (filter (λ j. ltb (start + lr) j && mask (start + lr) j) cs)
      unfolding block_pairs
      block_row start lr [] = refl
      block_row start lr (c ∷ cs) = elim (Bool-cases (mask (start + lr) c)) [
        | inr e ↦
            let off : (ltb (start + lr) c && mask (start + lr) c) ≡ false = ground (arith, e) in
            rw (same_rows start lr c ∙ e, off, filter) (block_row start lr cs)
        | inl e ↦ elim (Bool-cases (leb c (start + lr))) [
          | inl k ↦
              let off : (ltb (start + lr) c && mask (start + lr) c) ≡ false = ground (arith, k) in
              rw (same_rows start lr c ∙ e, off, filter, block_pairs, k) (block_row start lr cs)
          | inr k ↦
              let on : (ltb (start + lr) c && mask (start + lr) c) ≡ true = ground (arith, e, k) in
              rw (same_rows start lr c ∙ e, on, filter, block_pairs, k)
                (ap (◌∷◌ (start + lr, c)) (block_row start lr cs))
        ]
      ]

      block-rows :
          (start lr count : ℕ)
          → block_pairs start (where_block start lr count) ≡ rows (start + lr) count
      unfolding block_pairs where_block rows
      block-rows start lr zero = refl
      block-rows start lr (suc count) =
          let next : start + suc lr ≡ suc (start + lr) = omega arith in
          block_pairs-append start (map (λ c. (lr, c)) (filter (block_mask start lr) (range 0 n)))
            (where_block start (suc lr) count)
          ∙ (ap (λ t. t ++ block_pairs start (where_block start (suc lr) count))
                (block_row start lr (range 0 n))
              ∙ ap (λ t. row_pairs (start + lr) ++ t)
                  (block-rows start (suc lr) count ∙ ap (λ i. rows i count) next))

      whole_block :
          (start count : ℕ) → block_pairs start (where_block start 0 count) ≡ rows start count
      whole_block start count =
          let here : start + 0 ≡ start = omega arith in
          block-rows start 0 count ∙ ap (λ i. rows i count) here

      blocks_from-rows :
          (f chunk start : ℕ)
          → 0 < chunk
          → n ≤ start + f
          → blocks_from f chunk start ≡ rows start (n - start)
      unfolding blocks_from rows
      blocks_from-rows zero chunk start pos h = ap (rows start) {x = 0} (omega arith)
      blocks_from-rows (suc f) chunk start pos h = elim (Bool-cases (ltb start n)) [
        | inr e ↦ rw e (ap (rows start) {x = 0} (ground arith))
        | inl e ↦
            let rest = blocks_from-rows f chunk (start + chunk) pos (omega (arith, h, pos)) in
            rw e (
              ap (λ t. t ++ blocks_from f chunk (start + chunk))
                (whole_block start (min (start + chunk) n - start))
              ∙ (ap (λ t. rows start (min (start + chunk) n - start) ++ t) rest
                  ∙ together (ltb→lt start n e) (Bool-cases (leb (start + chunk) n))))
      ]
        where
          together :
              start < n
              → (leb (start + chunk) n ≡ true) ⊎ (leb (start + chunk) n ≡ false)
              → rows start (min (start + chunk) n - start)
                  ++ rows (start + chunk) (n - (start + chunk))
                ≡ rows start (n - start)
          together less (inl k) =
              let step : min (start + chunk) n - start ≡ chunk = ground arith in
              let all : chunk + (n - (start + chunk)) ≡ n - start = ground arith in
              rw step (sym (rows-append start chunk (n - (start + chunk))) ∙ ap (rows start) all)
          together less (inr k) =
              let step : min (start + chunk) n - start ≡ n - start = ground arith in
              let nothing : n - (start + chunk) ≡ 0 = ground arith in
              rw (step, nothing) (append-nil (rows start (n - start)))

      -- The pairs do not depend on the size of the blocks: read by blocks, without those that the
      -- loop skips, they are those of the whole matrix, in the same order, where a block of rows
      -- times all of them has the rows of the whole product.
      pub similar_pairs-whole_pairs : (chunk : ℕ) → 0 < chunk → similar_pairs chunk ≡ whole_pairs
      unfolding similar_pairs whole_pairs
      similar_pairs-whole_pairs chunk pos = elim (Bool-cases (leb n chunk)) [
        | inl e ↦ rw e refl
        | inr e ↦
            rw e
              (blocks_from-rows n chunk 0 pos (omega arith) ∙ ap (rows 0) {x = n - 0} (omega arith))
      ]
