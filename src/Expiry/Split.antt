-- ===== src/Expiry/Split.antt =====
-- What `_split_expired_by_pinned` (src/engrava/infrastructure/sqlite/engrava_core.py) decides.
use engrava.Prelude.{
  ℕ, suc, ◌+◌, ◌≡◌, Bool, not, ◌&&◌, Option, List, [], ◌∷◌, ◌++◌, map, arith, filter, length,
}
use engrava.Prelude.Text.{Text}
use engrava.Floats.{Floats}
use engrava.Thought.Defs.{Thought, Instant}
use engrava.Expiry.Defs.{is_expired, is_excluded, expired_rows, split_from, split_expired_by_pinned}
use mathlib.Core.List.{append-nil, append_assoc}

module _ (F : Floats) (exclude_id : Option Text) (now : Instant) where
  -- The rows that expire.
  abbrev pub expires : Thought F → Bool
  expires t =
      is_expired t.expires_at now && not (is_excluded exclude_id t.thought_id) && not t.pinned

  -- The rows that would expire, were they not pinned.
  abbrev pub is_kept_pinned : Thought F → Bool
  is_kept_pinned t =
      is_expired t.expires_at now && not (is_excluded exclude_id t.thought_id) && t.pinned

  abbrev pub ids_of : List (Thought F) → List Text
  ids_of rows = map (λ t. t.thought_id) rows

  split_end :
      (ids : List Text) (kept : ℕ) (rows : List (Thought F))
      → split_from F exclude_id ids kept (expired_rows F now rows)
        ≡ (ids ++ ids_of (filter expires rows), kept + length (filter is_kept_pinned rows))
  unfolding split_from expired_rows
  split_end ids kept [] = ground (arith, append-nil ids)
  split_end ids kept (t ∷ rows) = ground (
    arith,
    split_end ids kept rows,
    split_end ids (suc kept) rows,
    split_end (ids ++ t.thought_id ∷ []) kept rows,
    append_assoc ids (t.thought_id ∷ []) (ids_of (filter expires rows)),
  )

  -- Of the rows whose time is over, but for the excluded one, those that are not pinned are acted on,
  -- in their order, and those that are pinned are counted.
  pub split_expired_lem :
      (rows : List (Thought F))
      → split_expired_by_pinned F exclude_id (expired_rows F now rows)
        ≡ (ids_of (filter expires rows), length (filter is_kept_pinned rows))
  unfolding split_expired_by_pinned
  split_expired_lem rows = ground (arith, split_end [] 0 rows)
