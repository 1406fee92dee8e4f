-- ===== src/Expiry/Defs.antt =====
-- The query of `cleanup_expired` and `_split_expired_by_pinned`
-- (src/engrava/infrastructure/sqlite/engrava_core.py).
use engrava.Prelude.{
  ℕ, suc, Bool, false, Option, none, some, List, [], ◌∷◌, ◌++◌, leb, filter, if◌then◌else◌,
}
use engrava.Prelude.Text.{Text, text_eq}
use engrava.Floats.{Floats}
use engrava.Thought.Defs.{Thought, Instant}

-- `expires_at IS NOT NULL AND expires_at <= now`.
abbrev pub is_expired : Option Instant → Instant → Bool
is_expired none now = false
is_expired (some at) now = leb at now

-- `thought_id == exclude_id`.
abbrev pub is_excluded : Option Text → Text → Bool
is_excluded none x = false
is_excluded (some excluded) x = text_eq x excluded

module _ (F : Floats) where
  unfoldable pub expired_rows : Instant → List (Thought F) → List (Thought F)
  expired_rows now rows = filter (λ t. is_expired t.expires_at now) rows

  -- The loop, from the identities and the count so far.
  unfoldable pub split_from : Option Text → List Text → ℕ → List (Thought F) → List Text × ℕ
  split_from exclude_id ids kept [] = (ids, kept)
  split_from exclude_id ids kept (t ∷ rest) =
      let skipped = split_from exclude_id ids kept rest in
      let counted = split_from exclude_id ids (suc kept) rest in
      let acted_on = split_from exclude_id (ids ++ t.thought_id ∷ []) kept rest in
      if is_excluded exclude_id t.thought_id
      then skipped
      else if t.pinned
      then counted
      else acted_on

  unfoldable pub split_expired_by_pinned : Option Text → List (Thought F) → List Text × ℕ
  unfolding split_from
  split_expired_by_pinned exclude_id rows = split_from exclude_id [] 0 rows
