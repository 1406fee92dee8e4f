-- ===== src/Buffers/Tests.antt =====
-- Runs of the telemetry buffers (src/engrava/infrastructure/sqlite/engrava_core.py), and their
-- theorems at concrete inputs.
use engrava.Prelude.{ℕ, ◌≤◌, ◌≡◌, refl, List, [], ◌∷◌, length, arith}
use engrava.Prelude.Text.{Text, text, text_eq}
use engrava.Prelude.Result.{ok}
use engrava.Buffers.Access.{new_access_buffer, record_access, record_all, drain}
use engrava.Buffers.Counted.{delta_of, access_bounded, access_counted, access_roomy}
use engrava.Buffers.Latency.{record_latencies, latencies_kept}

abbrev reads : List (Text × Text)
reads = (text "a", text "1") ∷ (text "b", text "2") ∷ (text "a", text "3") ∷ []

one_pending : length (record_all reads (new_access_buffer 1)).pending ≤ 1
one_pending = access_bounded 1 reads

three_counted :
    (delta_of (text "a") (drain (record_all reads (new_access_buffer 2))).0 ≡ 2)
    × ((drain (record_all reads (new_access_buffer 2))).1.pending ≡ [])
unfolding record_all record_access new_access_buffer text_eq
three_counted = access_counted 2 reads (text "a") refl

three_reads_fit : (record_all reads (new_access_buffer 3)).evicted_total ≡ 0
three_reads_fit = access_roomy 3 reads (omega arith)

two_kept : record_latencies ℕ 2 (5 ∷ 6 ∷ 7 ∷ []) [] ≡ ok (6 ∷ 7 ∷ [])
two_kept = latencies_kept ℕ 2 (5 ∷ 6 ∷ 7 ∷ []) (omega arith)
