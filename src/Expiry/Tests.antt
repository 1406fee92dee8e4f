-- ===== src/Expiry/Tests.antt =====
-- The choice of expired rows (src/engrava/infrastructure/sqlite/engrava_core.py) at concrete rows.
use engrava.Prelude.{◌≡◌, Bool, true, false, Option, none, some, List, [], ◌∷◌}
use Prim.Native.String.{String}
use engrava.Prelude.Text.{text}
use engrava.Floats.{thousandths}
use engrava.Thought.Defs.{Thought, Instant, note, p3, active}
use engrava.Expiry.Defs.{expired_rows, split_expired_by_pinned}
use engrava.Expiry.Split.{split_expired_lem}

abbrev row : String → Bool → Option Instant → Thought thousandths
row name pinned until = record {
  thought_id = text name;
  thought_type = note;
  essence = text name;
  content = text name;
  priority = p3;
  lifecycle_status = active;
  created_cycle = 1;
  updated_cycle = 1;
  source = text "t";
  confidence = none;
  confirmation_count = 0;
  access_count = 0;
  action_outcome_score = none;
  last_accessed_at = none;
  created_at = none;
  updated_at = none;
  expires_at = until;
  valid_from = none;
  valid_until = none;
  pinned = pinned;
  archived_at_cycle = none;
  archived_at = none;
  revision = 1;
}

abbrev stored : List (Thought thousandths)
stored =
    row "a" false (some 5)
    ∷ row "b" true (some 5)
    ∷ row "c" false (some 9)
    ∷ row "d" false none
    ∷ []

one_acted_on :
    split_expired_by_pinned thousandths none (expired_rows thousandths 7 stored)
    ≡ (text "a" ∷ [], 1)
one_acted_on = split_expired_lem thousandths none 7 stored
