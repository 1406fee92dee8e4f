-- ===== src/Updates/Tests.antt =====
-- A run of `update_thought` (src/engrava/infrastructure/sqlite/engrava_core.py), and its theorem at
-- concrete inputs.
use engrava.Prelude.{ℕ, ◌≡◌, refl, true, ◌==◌, ==_iff, [], ◌∷◌, if◌then◌else◌}
use engrava.Prelude.Result.{Result, ok, raised}
use engrava.Prelude.Text.{Text, text, text_eq}
use engrava.Updates.Defs.{
  Row, Table, UpdateError, stale_data, get_row, guarded_update, restore_thought, update_thought,
  Others, touch_row, set_columns, thought_update_columns,
}
use engrava.Updates.Guarded.{Answers, update_thought-Answers}

abbrev thought : Text → ℕ → ℕ → Row ℕ
thought x revision n = record { thought_id = x; revision = revision; columns = λ name. n }

abbrev before : Table ℕ
before = thought (text "a") 1 5 ∷ thought (text "b") 1 6 ∷ []

-- Another connection has written `b`.
abbrev b_moved : Table ℕ
b_moved = thought (text "a") 1 5 ∷ thought (text "b") 2 7 ∷ []

-- Another connection has written `a`.
abbrev a_moved : Table ℕ
a_moved = thought (text "a") 2 8 ∷ thought (text "b") 1 6 ∷ []

abbrev to_nine : (Text → ℕ) → Result UpdateError (Text → ℕ)
to_nine columns = ok (λ name. 9)

equal : (v w : ℕ) → (v == w) ≡ true → v ≡ w
equal v w = (==_iff v w).0

a_is_stale :
    (update_thought (λ v w. v == w) (text "a") to_nine before a_moved).1 ≡ raised stale_data
unfolding update_thought guarded_update get_row text_eq
a_is_stale = refl

not_archived :
    (restore_thought (λ v w. v == w) (λ v. v == 1) (text "a") to_nine before before).0 ≡ before
unfolding restore_thought update_thought get_row text_eq
not_archived = refl

-- An access of `a` is noted, and `b` is written.
abbrev noted : (Text → ℕ) → Text → ℕ
noted columns name = if text_eq name (text "access_count") then 3 else columns name

abbrev a_noted : Table ℕ
a_noted =
    record { thought_id = text "a"; revision = 1; columns = noted (λ name. 5) }
    ∷ thought (text "b") 2 7
    ∷ []

abbrev content_to_nine : (Text → ℕ) → Text → ℕ
content_to_nine columns name = if text_eq name (text "content") then 9 else columns name

a_noted-Others : Others (text "a") before a_noted
unfolding guarded_update touch_row text_eq
a_noted-Others =
    Others.writes (text "b") 1 (λ columns name. 7) before a_noted
      (Others.touches (text "a") noted b_moved a_noted (Others.rest a_noted))

-- The access stays, beside the content that is updated.
both_stay :
    (update_thought (λ v w. v == w) (text "a") (λ c. ok (content_to_nine c)) before a_noted).0
    ≡ record {
      thought_id = text "a";
      revision = 2;
      columns =
          set_columns
            (λ v w. v == w)
            (thought_update_columns (λ v w. v == w) (λ name. 5) (content_to_nine (λ name. 5)))
            (noted (λ name. 5));
    }
      ∷ thought (text "b") 2 7
      ∷ []
unfolding update_thought guarded_update get_row text_eq
both_stay = refl

update_thought-Answers_example :
    Answers
      (λ v w. v == w)
      equal
      (text "a")
      (thought (text "a") 1 5)
      (content_to_nine (λ name. 5))
      a_noted
      (update_thought (λ v w. v == w) (text "a") (λ c. ok (content_to_nine c)) before a_noted)
unfolding get_row text_eq
update_thought-Answers_example =
    update_thought-Answers (λ v w. v == w) equal (text "a") (λ c. ok (content_to_nine c)) before
      a_noted (thought (text "a") 1 5) (content_to_nine (λ name. 5)) refl a_noted-Others refl
