-- ===== src/Buffers/Latency.antt =====
-- `_LatencyRingBuffer` (src/engrava/infrastructure/sqlite/engrava_core.py): its samples, the oldest
-- first.
use engrava.Prelude.{
  ℕ, zero, suc, ◌-◌, ◌≤◌, ◌≡◌, refl, ap, ◌∙◌, inl, inr, true, false, List, [], ◌∷◌, ◌++◌, arith,
  leb, length, length-append, length-drop, drop, drop-nil, drop-append, sym, leb→le, leb_false→lt,
  ◌<◌, if◌then◌else◌, Bool-cases,
}
use mathlib.Core.List.{append-nil, append_assoc}
use engrava.Prelude.Result.{Result, ok, raised, ◌>>=◌}

pub data LatencyError : Type 0 where
  pop_from_empty_list : LatencyError

module _ (Sample : Type 0) where
  -- `self._buf.pop(0)`.
  abbrev pop_first : List Sample → Result LatencyError (List Sample)
  pop_first [] = raised pop_from_empty_list
  pop_first (x ∷ buf) = ok buf

  -- `record`.
  unfoldable pub record_latency : ℕ → Sample → List Sample → Result LatencyError (List Sample)
  record_latency window_size latency buf =
      (if leb window_size (length buf) then pop_first buf else ok buf) >>= λ kept.
      ok (kept ++ latency ∷ [])

  unfoldable pub record_latencies :
      ℕ → List Sample → List Sample → Result LatencyError (List Sample)
  unfolding record_latency
  record_latencies window_size [] buf = ok buf
  record_latencies window_size (latency ∷ rest) buf =
      record_latency window_size latency buf >>= λ buf'. record_latencies window_size rest buf'

  -- The last `n` of the samples.
  abbrev pub last_samples : ℕ → List Sample → List Sample
  last_samples n xs = drop (length xs - n) xs

  pop-drop :
      (n : ℕ) (xs : List Sample) → n < length xs → pop_first (drop n xs) ≡ ok (drop (suc n) xs)
  pop-drop n [] h = absurd (omega arith)
  pop-drop zero (x ∷ xs) h = refl
  pop-drop (suc n) (x ∷ xs) h = pop-drop n xs (omega arith)

  -- While there is room, nothing is dropped.
  record_room :
      (n : ℕ) (x : Sample) (seen : List Sample)
      → length seen < n
      → record_latency n x (last_samples n seen) ≡ ok (last_samples n (seen ++ x ∷ []))
  unfolding record_latency
  record_room n x seen h =
      let whole : length seen - n ≡ 0 = omega arith in
      let more : length (seen ++ x ∷ []) - n ≡ 0 = omega (arith, length-append seen (x ∷ [])) in
      let room : leb n (length seen) ≡ false = ground arith in rw (whole, more, room) refl

  record_full :
      (n : ℕ) (x : Sample) (seen : List Sample)
      → 1 ≤ n
      → n ≤ length seen
      → record_latency n x (last_samples n seen) ≡ ok (last_samples n (seen ++ x ∷ []))
  unfolding record_latency
  record_full n x seen h k =
      let held : length (drop (length seen - n) seen) ≡ n =
        omega (arith, length-drop (length seen - n) seen) in
      let full : leb n n ≡ true = ground arith in
      let next : length (seen ++ x ∷ []) - n ≡ suc (length seen - n) =
        omega (arith, length-append seen (x ∷ [])) in
      rw (held, full, next, pop-drop (length seen - n) seen (omega arith))
        (ap ok (sym (drop-append (suc (length seen - n)) seen (x ∷ []) (omega arith))))

  record_one :
      (n : ℕ) (x : Sample) (seen : List Sample)
      → 1 ≤ n
      → record_latency n x (last_samples n seen) ≡ ok (last_samples n (seen ++ x ∷ []))
  record_one n x seen h = elim (Bool-cases (leb n (length seen))) [
    | inl e ↦ record_full n x seen h (leb→le n (length seen) e)
    | inr e ↦ record_room n x seen (leb_false→lt n (length seen) e)
  ]

  record_from :
      (n : ℕ) (xs seen : List Sample)
      → 1 ≤ n
      → record_latencies n xs (last_samples n seen) ≡ ok (last_samples n (seen ++ xs))
  unfolding record_latencies
  record_from n [] seen h = ap (λ l. ok (last_samples n l)) (sym (append-nil seen))
  record_from n (x ∷ xs) seen h = rw (record_one n x seen h) (
      record_from n xs (seen ++ x ∷ []) h
      ∙ ap (λ l. ok (last_samples n l)) (append_assoc seen (x ∷ []) xs))

  -- A buffer of a window of at least one sample that was empty holds, after any samples, the last
  -- of them in their order: all of them, or as many as the window is wide.
  pub latencies_kept :
      (window_size : ℕ) (xs : List Sample)
      → 1 ≤ window_size
      → record_latencies window_size xs [] ≡ ok (last_samples window_size xs)
  latencies_kept window_size xs h =
      ap (λ l. record_latencies window_size xs l) (sym (drop-nil (0 - window_size)))
      ∙ record_from window_size xs [] h
