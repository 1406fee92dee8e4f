-- ===== src/Buffers/Counted.antt =====
-- What `_AccessBuffer` (src/engrava/infrastructure/sqlite/engrava_core.py) counts.
use engrava.Prelude.{
  ℕ, suc, ◌+◌, ◌≤◌, ◌≡◌, refl, sym, ◌∙◌, true, List, [], ◌∷◌, ◌++◌, arith, max, length,
  length-append, if◌then◌else◌,
}
use engrava.Prelude.Text.{Text, text_eq, text_eq_iff}
use engrava.Buffers.Access.{
  Pending, AccessBuffer, new_access_buffer, has_entry, coalesce, entry_for, without_oldest,
  record_access, drain, record_all,
}

-- How many accesses of the thought the entries stand for.
abbrev pub delta_of : Text → List Pending → ℕ
delta_of x [] = 0
delta_of x (p ∷ rest) =
    let later = delta_of x rest in if text_eq p.thought_id x then p.count_delta + later else later

abbrev pub accesses_of : Text → List (Text × Text) → ℕ
accesses_of x [] = 0
accesses_of x ((y, now) ∷ rest) =
    let later = accesses_of x rest in if text_eq y x then suc later else later

abbrev pub once : Text → Text → ℕ
once y x = if text_eq y x then 1 else 0

length-coalesce : (x now : Text) (ps : List Pending) → length (coalesce x now ps) ≡ length ps
unfolding coalesce
length-coalesce x now [] = refl
length-coalesce x now (p ∷ ps) = ground (arith, length-coalesce x now ps)

delta_of-coalesce :
    (x y now : Text) (ps : List Pending)
    → has_entry y ps ≡ true
    → delta_of x (coalesce y now ps) ≡ delta_of x ps + once y x
unfolding coalesce has_entry
delta_of-coalesce x y now [] h = cc
delta_of-coalesce x y now (p ∷ ps) h = ground (
  arith,
  text_eq_iff p.thought_id y,
  text_eq_iff p.thought_id x,
  text_eq_iff y x,
  delta_of-coalesce x y now ps,
)

delta_of-append :
    (x y now : Text) (ps : List Pending)
    → delta_of x (ps ++ entry_for y now ∷ []) ≡ delta_of x ps + once y x
delta_of-append x y now [] = ground arith
delta_of-append x y now (p ∷ ps) = ground (arith, delta_of-append x y now ps)

-- The counter of evictions never goes back.
evicted-record_all :
    (events : List (Text × Text)) (b : AccessBuffer)
    → b.evicted_total ≤ (record_all events b).evicted_total
unfolding record_all record_access
evicted-record_all [] b = omega arith
evicted-record_all ((y, now) ∷ rest) b =
    ground (arith, evicted-record_all rest (record_access y now b))

delta_of-record_access :
    (x y now : Text) (b : AccessBuffer)
    → (record_access y now b).evicted_total ≡ b.evicted_total
    → delta_of x (record_access y now b).pending ≡ delta_of x b.pending + once y x
unfolding record_access
delta_of-record_access x y now b h =
    ground (arith, delta_of-coalesce x y now b.pending, delta_of-append x y now b.pending)

evicted-record_access :
    (y now : Text) (b : AccessBuffer) → b.evicted_total ≤ (record_access y now b).evicted_total
unfolding record_access
evicted-record_access y now b = ground arith

delta_of-record_all :
    (x : Text) (events : List (Text × Text)) (b : AccessBuffer)
    → (record_all events b).evicted_total ≡ b.evicted_total
    → delta_of x (record_all events b).pending ≡ delta_of x b.pending + accesses_of x events
unfolding record_all
delta_of-record_all x [] b h = omega arith
delta_of-record_all x ((y, now) ∷ rest) b h =
    let same : (record_access y now b).evicted_total ≡ b.evicted_total =
      omega
        (arith, evicted-record_access y now b, evicted-record_all rest (record_access y now b)) in
    let later = delta_of-record_all x rest (record_access y now b) (h ∙ sym same) in
    ground (arith, later, delta_of-record_access x y now b same)

length-without_oldest :
    (ps : List Pending) → 1 ≤ length ps → suc (length (without_oldest ps)) ≡ length ps
length-without_oldest [] h = absurd (omega arith)
length-without_oldest (p ∷ ps) h = refl

length-record_access :
    (y now : Text) (b : AccessBuffer)
    → 1 ≤ b.cap
    → length b.pending ≤ b.cap
    → (length (record_access y now b).pending ≤ b.cap) × ((record_access y now b).cap ≡ b.cap)
unfolding record_access
length-record_access y now b h k = ground (
  arith,
  length-coalesce y now b.pending,
  length-without_oldest b.pending,
  length-append b.pending (entry_for y now ∷ []),
  length-append (without_oldest b.pending) (entry_for y now ∷ []),
)

length-record_all :
    (events : List (Text × Text)) (b : AccessBuffer)
    → 1 ≤ b.cap
    → length b.pending ≤ b.cap
    → length (record_all events b).pending ≤ b.cap
unfolding record_all
length-record_all [] b h k = k
length-record_all ((y, now) ∷ rest) b h k =
    let (short, same) = length-record_access y now b h k in
    let later =
      length-record_all rest (record_access y now b) (omega (arith, same))
        (omega (arith, same, short)) in
    omega (arith, later, same)

-- However many accesses are recorded, no more thoughts are pending than the capacity that
-- was asked for, and no more than one where that is 0.
pub access_bounded :
    (size : ℕ) (events : List (Text × Text))
    → length (record_all events (new_access_buffer size)).pending ≤ max 1 size
unfolding new_access_buffer
access_bounded size events =
    length-record_all events (new_access_buffer size) (omega arith) (omega arith)

-- Recording one access adds at most one entry, and evicts none while there is room.
roomy :
    (y now : Text) (b : AccessBuffer)
    → suc (length b.pending) ≤ b.cap
    → (length (record_access y now b).pending ≤ suc (length b.pending))
      × ((record_access y now b).cap ≡ b.cap)
      × ((record_access y now b).evicted_total ≡ b.evicted_total)
unfolding record_access
roomy y now b h =
    ground (arith, length-coalesce y now b.pending, length-append b.pending (entry_for y now ∷ []))

nothing_evicted :
    (events : List (Text × Text)) (b : AccessBuffer)
    → length b.pending + length events ≤ b.cap
    → (record_all events b).evicted_total ≡ b.evicted_total
unfolding record_all
nothing_evicted [] b h = refl
nothing_evicted ((y, now) ∷ rest) b h =
    let (short, same, kept) = roomy y now b (omega arith) in
    nothing_evicted rest (record_access y now b) (omega (arith, short, same)) ∙ kept

-- Where no entry was evicted, what `drain` returns stands for each access of each thought exactly
-- once, and the buffer is left empty.
pub access_counted :
    (size : ℕ) (events : List (Text × Text)) (x : Text)
    → (record_all events (new_access_buffer size)).evicted_total ≡ 0
    → (delta_of x (drain (record_all events (new_access_buffer size))).0 ≡ accesses_of x events)
      × ((drain (record_all events (new_access_buffer size))).1.pending ≡ [])
unfolding new_access_buffer drain
access_counted size events x h =
    (omega (arith, delta_of-record_all x events (new_access_buffer size) h), refl)

-- No entry is evicted by as many accesses as the buffer has room for thoughts.
pub access_roomy :
    (size : ℕ) (events : List (Text × Text))
    → length events ≤ max 1 size
    → (record_all events (new_access_buffer size)).evicted_total ≡ 0
unfolding new_access_buffer
access_roomy size events h = nothing_evicted events (new_access_buffer size) (omega arith)
