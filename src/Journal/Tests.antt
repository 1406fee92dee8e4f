-- ===== src/Journal/Tests.antt =====
-- Runs of the journal writer (src/engrava/infrastructure/sqlite/journal_writer.py) with a toy
-- digest, and its theorems at concrete inputs.
use engrava.Prelude.{
  ℕ, ◌+◌, ◌%◌, ◌≡◌, ◌≢◌, refl, sym, ◌⊎◌, ◌↔◌, true, false, Option, none, some, [], ◌∷◌, ◌++◌, arith,
}
use engrava.Prelude.Text.{Text, text, text_eq}
use engrava.Prelude.Result.{ok, raised}
use engrava.Prelude.Decimal.{decimal}
use engrava.Journal.Table.{Row, Table}
use engrava.Journal.Defs.{
  Codec, Surroundings, sequence_contention, bar, or_empty, canonical, compute_hash, entry_of,
  append, verify_from, verify_integrity,
}
use engrava.Journal.Chain.{
  Chain, FirstBreak, last_hash, verify_integrity-Chain, verify_integrity-FirstBreak,
}
use mathlib.Core.List.{append-nil}
use engrava.Journal.Append.{IsJournal, append-IsJournal, append_retries, append_alone}
use engrava.Journal.Preimage.{IsPlain, canonical-injective}
use engrava.Journal.Tamper.{Collision, SameRows, tamper_evident, Chain-shift}

abbrev total : Text → ℕ
total [] = 0
total (ch ∷ t) = ch + total t

abbrev toy : Codec
toy = record {
  Delta = Text;
  dumps = λ d. d;
  loads = λ d. d;
  sha256 = λ t. (48 + total t % 10) ∷ [];
}

abbrev alone : Surroundings
alone = record { race = λ n t. t; uuid4 = λ n. text "e1"; now = λ n. text "2026-01-01" }

IsJournal-nil : IsJournal toy []
IsJournal-nil = record { chain = tt; gapless = tt }

alone-OnlyAppends :
    (n : ℕ) (t : Table)
    → IsJournal toy t
    → IsJournal toy (alone.race n t) × ((more : Table) × (alone.race n t ≡ t ++ more))
alone-OnlyAppends n t j = (j, ([], sym (append-nil t)))

abbrev insert_type : Text
insert_type = text "INSERT_THOUGHT"

append-IsJournal_example :
    IsJournal toy (append toy none alone insert_type (some (text "t1")) (text "{}") []).1
append-IsJournal_example =
    append-IsJournal toy (λ d. refl) alone alone-OnlyAppends insert_type (some (text "t1"))
      (text "{}") none [] IsJournal-nil

append_retries_example :
    (append toy none alone insert_type (some (text "t1")) (text "{}") []).0
    ≢ raised sequence_contention
append_retries_example =
    append_retries toy (λ d. refl) alone alone-OnlyAppends insert_type (some (text "t1"))
      (text "{}") none 4 [] IsJournal-nil (omega arith) (λ u. refl)

two_appended :
    (row : Row) × (append toy (some false) alone insert_type (some (text "t1")) (text "{}") []
      ≡ (ok (entry_of toy row (text "{}")), row ∷ []))
    × (row.sequence_number ≡ 0 + 1)
    × (row.parent_hash ≡ none)
    × (row.mutation_type ≡ insert_type)
    × (row.target_id ≡ some (text "t1"))
    × (row.delta ≡ text "{}")
unfolding last_hash
two_appended =
    append_alone toy (λ d. refl) alone alone-OnlyAppends insert_type (some (text "t1")) (text "{}")
      [] IsJournal-nil refl refl

abbrev row_with : ℕ → Text → Option Text → Option Text → Row
row_with seq mutation target parent = record {
  entry_id = decimal seq;
  sequence_number = seq;
  mutation_type = mutation;
  target_id = target;
  delta = text "{}";
  parent_hash = parent;
  entry_hash = compute_hash toy seq mutation target (text "{}") parent;
  created_at = text "2026-01-01";
}

abbrev two_rows : Text → Option Text → Table
two_rows mutation target =
    let first = row_with 1 mutation target none in
    first ∷ row_with 2 insert_type none (some first.entry_hash) ∷ []

two_rows-Chain :
    (mutation : Text) (target : Option Text) → Chain toy none (two_rows mutation target)
two_rows-Chain mutation target = ((refl, refl), ((refl, refl), tt))

verify_integrity-Chain_example :
    (verify_integrity toy (some false) (two_rows insert_type (some (text "t1")))
      ≡ ok (record {
        valid = true;
        entries_checked = 2;
        first_invalid_sequence = none;
        error_message = none;
      }))
    ↔ Chain toy none (two_rows insert_type (some (text "t1")))
verify_integrity-Chain_example =
    verify_integrity-Chain toy (two_rows insert_type (some (text "t1")))

-- The second row names no parent.
abbrev broken : Table
broken = row_with 1 insert_type none none ∷ row_with 2 insert_type none none ∷ []

verify_integrity-FirstBreak_example : FirstBreak toy none 0 broken (verify_from toy none 0 broken)
unfolding verify_integrity compute_hash canonical decimal text_eq
verify_integrity-FirstBreak_example =
    verify_integrity-FirstBreak toy none broken (verify_from toy none 0 broken) refl refl

same_preimage :
    (◌≡◌ {A = ℕ} 1 1)
    × (insert_type ≡ insert_type)
    × (or_empty (some (text "t1")) ≡ text "t1")
    × (text "{}" ≡ text "{}")
    × (or_empty none ≡ [])
same_preimage =
    canonical-injective 1 1 insert_type insert_type (some (text "t1")) (some (text "t1"))
      (text "{}") (text "{}") none none (omega arith) (omega arith) (omega arith) (omega arith) tt
      tt refl

-- One digit that depends on the text is not empty and holds no separator.
digit_IsPlain : (x : Text) → IsPlain (toy.sha256 x)
digit_IsPlain x = omega arith

digit-ne-nil : (x : Text) → toy.sha256 x ≢ []
digit-ne-nil x p = cc

tamper_evident_example :
    Collision toy ⊎ SameRows toy (two_rows insert_type none) (two_rows insert_type (some []))
unfolding last_hash compute_hash canonical decimal
tamper_evident_example =
    tamper_evident toy digit_IsPlain digit-ne-nil (two_rows insert_type none)
      (two_rows insert_type (some [])) (two_rows-Chain insert_type none)
      (two_rows-Chain insert_type (some [])) (omega arith) (omega arith) refl refl

abbrev piped : Row
piped = row_with 1 insert_type (some (text "user|7")) none

abbrev link : Row
link = row_with 2 insert_type none (some piped.entry_hash)

Chain-shift_example : Chain toy none (
    record piped { mutation_type = insert_type ++ bar ∷ text "user"; target_id = some (text "7") }
    ∷ link
    ∷ [])
Chain-shift_example =
    Chain-shift toy [] (link ∷ []) piped (text "user") (text "7") refl
      (two_rows-Chain insert_type (some (text "user|7")))
