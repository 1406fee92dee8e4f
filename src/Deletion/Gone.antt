-- ===== src/Deletion/Gone.antt =====
-- Rows taken out of a table, one by one: which are left, and how many
-- (src/engrava/infrastructure/sqlite/engrava_core.py).
use engrava.Prelude.{
  suc, ◌≡◌, refl, sym, ap, ◌∙◌, ◌⊎◌, inl, inr, Bool, true, false, ◌||◌, not, none, some, List, [],
  ◌∷◌, any, filter, length, arith, All, All-mono, All-filter, Bool-cases,
}
use engrava.Prelude.Order.{text_order}
use engrava.Prelude.Sort.{HasDistinctKeys}
use engrava.Prelude.Text.{Text, text_eq, text_eq_iff}
use engrava.Floats.{Floats}
use engrava.Thought.Defs.{Thought}
use engrava.Hygiene.Archive.{Store, get_thought_row}
use engrava.Deletion.Tables.{without, identified}
use engrava.Deletion.Due.{not_eq}
use mathlib.Core.List.{Memᴰ}

module _ {ℓ} {A : Type ℓ} where
  pub without-ext :
      (p q : A → Bool) (xs : List A) → ((a : A) → p a ≡ q a) → without p xs ≡ without q xs
  without-ext p q xs h = λ i. filter (λ a. not (h a i)) xs

  pub without_missing : (p : A → Bool) (xs : List A) → All (λ a. p a ≡ false) xs → without p xs ≡ xs
  without_missing p [] h = refl
  without_missing p (x ∷ xs) h = rw (h.0, filter) (ap (◌∷◌ x) (without_missing p xs h.1))

  pub without-or :
      (p q : A → Bool) (xs : List A) → without q (without p xs) ≡ without (λ a. p a || q a) xs
  without-or p q [] = refl
  without-or p q (x ∷ xs) = elim (Bool-cases (p x)) [
    | inl e ↦ rw (e, filter) (without-or p q xs)
    | inr e ↦ elim (Bool-cases (q x)) [
      | inl k ↦ rw (e, filter, k, filter) (without-or p q xs)
      | inr k ↦ rw (e, filter, k, filter) (ap (◌∷◌ x) (without-or p q xs))
    ]
  ]

  pub mem-without :
      (p : A → Bool) (xs : List A) (a : A) → Memᴰ a xs → Memᴰ a (without p xs) ⊎ (p a ≡ true)
  mem-without p [] a m = elim m [ ]
  mem-without p (x ∷ xs) a (Memᴰ.head e) = elim (Bool-cases (p x)) [
    | inl k ↦ inr (ap p e ∙ k)
    | inr k ↦ inl (rw (k, filter) (Memᴰ.head e))
  ]
  mem-without p (x ∷ xs) a (Memᴰ.tail m) = elim (mem-without p xs a m) [
    | inr k ↦ inr k
    | inl k ↦ elim (Bool-cases (p x)) [
      | inl e ↦ inl (rw (e, filter) k)
      | inr e ↦ inl (rw (e, filter) (Memᴰ.tail k))
    ]
  ]

module _ {F : Floats} where
  pub any_absent :
      (x : Text) (rows : Store F)
      → any (identified x) rows ≡ false
      → All (λ t. text_eq t.thought_id x ≡ false) rows
  any_absent x [] h = tt
  any_absent x (t ∷ rows) h = elim (Bool-cases (text_eq t.thought_id x)) [
    | inl e ↦ absurd (ground (arith, e, h))
    | inr e ↦ (e, any_absent x rows (ground (arith, e, h)))
  ]

  pub get_thought_row-none :
      (x : Text) (rows : Store F)
      → get_thought_row F x rows ≡ none
      → All (λ t. text_eq t.thought_id x ≡ false) rows
  unfolding get_thought_row
  get_thought_row-none x [] h = tt
  get_thought_row-none x (t ∷ rows) h = elim (Bool-cases (text_eq t.thought_id x)) [
    | inl e ↦ let found : some t ≡ none = rw e at h in absurd (cc found)
    | inr e ↦ (e, get_thought_row-none x rows (rw e at h))
  ]

  pub any-named :
      (t : Thought F) (us : Store F)
      → any (λ u. text_eq t.thought_id u.thought_id) us ≡ true
      → (u : Thought F) × Memᴰ u us × (t.thought_id ≡ u.thought_id)
  any-named t [] h = cc
  any-named t (u ∷ us) h = elim (Bool-cases (text_eq t.thought_id u.thought_id)) [
    | inl e ↦ (u, Memᴰ.head refl, (text_eq_iff t.thought_id u.thought_id).0 e)
    | inr e ↦ let rest = any-named t us (ground (arith, e, h)) in (rest.0, Memᴰ.tail rest.1, rest.2)
  ]

  -- One row goes.
  pub length-without :
      (x : Text) (t : Thought F) (rows : Store F)
      → HasDistinctKeys text_order (λ t. t.thought_id) rows
      → get_thought_row F x rows ≡ some t
      → suc (length (without (identified x) rows)) ≡ length rows
  unfolding get_thought_row
  length-without x t [] d h = absurd (cc h)
  length-without x t (r ∷ rows) d h = elim (Bool-cases (text_eq r.thought_id x)) [
    | inl e ↦
        rw (e, filter)
          (ap (λ l. suc (length l))
            (without_missing (identified x) rows (
              All-mono rows
                (λ u k. not_eq (λ same. k ((text_eq_iff r.thought_id x).0 e ∙ sym same))) d.0)))
    | inr e ↦ rw (e, filter) (ap suc (length-without x t rows d.1 (rw e at h)))
  ]

  pub HasDistinctKeys-without :
      (p : Thought F → Bool) (rows : Store F)
      → HasDistinctKeys text_order (λ t. t.thought_id) rows
      → HasDistinctKeys text_order (λ t. t.thought_id) (without p rows)
  HasDistinctKeys-without p [] d = tt
  HasDistinctKeys-without p (t ∷ rows) d = elim (Bool-cases (p t)) [
    | inl e ↦ rw (e, filter) (HasDistinctKeys-without p rows d.1)
    | inr e ↦ rw (e, filter) (All-filter _ _ rows d.0, HasDistinctKeys-without p rows d.1)
  ]
