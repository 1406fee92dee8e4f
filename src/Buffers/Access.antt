-- ===== src/Buffers/Access.antt =====
-- `_AccessBuffer` (src/engrava/infrastructure/sqlite/engrava_core.py): the pending accesses, the
-- oldest first, and how many entries were evicted.
use engrava.Prelude.{
  ℕ, suc, Bool, true, false, List, [], ◌∷◌, ◌++◌, leb, max, length, if◌then◌else◌,
}
use engrava.Prelude.Text.{Text, text_eq}

-- A thought's pending accesses: `(count_delta, last_seen)`.
pub record Pending : Type 0 where
  pub thought_id : Text
  pub count_delta : ℕ
  pub last_seen : Text

pub record AccessBuffer : Type 0 where
  pub cap : ℕ
  pub pending : List Pending
  pub evicted_total : ℕ

-- `_AccessBuffer(cap)`.
unfoldable pub new_access_buffer : ℕ → AccessBuffer
new_access_buffer size = record { cap = max 1 size; pending = []; evicted_total = 0 }

-- Whether the dictionary has the key.
unfoldable pub has_entry : Text → List Pending → Bool
has_entry x [] = false
has_entry x (p ∷ rest) = if text_eq p.thought_id x then true else has_entry x rest

-- An assignment to a key that the dictionary has keeps its place.
unfoldable pub coalesce : Text → Text → List Pending → List Pending
coalesce x now [] = []
coalesce x now (p ∷ rest) =
    let later = coalesce x now rest in
    if text_eq p.thought_id x
    then record { thought_id = p.thought_id; count_delta = suc p.count_delta; last_seen = now }
      ∷ rest
    else p ∷ later

abbrev pub entry_for : Text → Text → Pending
entry_for x now = record { thought_id = x; count_delta = 1; last_seen = now }

-- `next(iter(self._pending.items()))`, deleted.
abbrev pub without_oldest : List Pending → List Pending
without_oldest [] = []
without_oldest (p ∷ rest) = rest

unfoldable pub record_access : Text → Text → AccessBuffer → AccessBuffer
unfolding has_entry coalesce
record_access x now b =
    if has_entry x b.pending
    then record b { pending = coalesce x now b.pending }
    else if leb b.cap (length b.pending)
    then record {
      cap = b.cap;
      pending = without_oldest b.pending ++ entry_for x now ∷ [];
      evicted_total = suc b.evicted_total;
    }
    else record b { pending = b.pending ++ entry_for x now ∷ [] }

-- `drain`: the deltas, and the buffer without them.
unfoldable pub drain : AccessBuffer → List Pending × AccessBuffer
drain b = (b.pending, record b { pending = [] })

-- The accesses of a store, one after the other.
unfoldable pub record_all : List (Text × Text) → AccessBuffer → AccessBuffer
unfolding record_access
record_all [] b = b
record_all ((x, now) ∷ rest) b = record_all rest (record_access x now b)
