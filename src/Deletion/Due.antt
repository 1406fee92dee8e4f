-- ===== src/Deletion/Due.antt =====
-- The rows of a table after one round of an expiry for each identity in a list, read off each row
-- (src/engrava/infrastructure/sqlite/engrava_core.py).
use engrava.Prelude.{
  ◌≡◌, ◌≢◌, refl, sym, ap, subst, ◌∙◌, inl, inr, Bool, true, false, Option, none, some, List, [],
  ◌∷◌, filter, All, All-mono, Bool-cases, if◌then◌else◌,
}
use engrava.Prelude.Order.{text_order}
use engrava.Prelude.Sort.{HasDistinctKeys}
use engrava.Prelude.Text.{Text, text_eq, text_eq_iff, text_eq_refl}
use engrava.Floats.{Floats}
use engrava.Thought.Defs.{Thought, Instant}
use engrava.Hygiene.Archive.{Store}
use engrava.Expiry.Split.{expires, ids_of}
use engrava.Deletion.Tables.{expire_row}
use engrava.Deletion.Expire.{CleanupStrategy, archive, delete}

abbrev consed {ℓ} : {B : Type ℓ} → Option B → List B → List B
consed none ys = ys
consed (some y) ys = y ∷ ys

module _ {ℓ κ} {A : Type ℓ} {B : Type κ} where
  abbrev pub filter_map : (A → Option B) → List A → List B
  filter_map f [] = []
  filter_map f (x ∷ xs) = consed (f x) (filter_map f xs)

  pub All-filter_map {μ} :
      (f : A → Option B) (P : B → Type μ)
      → ((x : A) (y : B) → f x ≡ some y → P y)
      → (xs : List A) → All P (filter_map f xs)
  All-filter_map f P h [] = tt
  All-filter_map f P h (x ∷ xs) = at (f x) refl (All-filter_map f P h xs)
    where
      at : (o : Option B) → f x ≡ o → All P (filter_map f xs) → All P (consed o (filter_map f xs))
      at none e k = k
      at (some y) e k = (h x y e, k)

  pub filter_map-ext :
      (f g : A → Option B) (xs : List A)
      → All (λ x. f x ≡ g x) xs
      → filter_map f xs ≡ filter_map g xs
  filter_map-ext f g [] h = refl
  filter_map-ext f g (x ∷ xs) h = λ i. consed (h.0 i) (filter_map-ext f g xs h.1 i)

module _ {ℓ} {A : Type ℓ} where
  pub filter_map-some : (xs : List A) → xs ≡ filter_map some xs
  filter_map-some [] = refl
  filter_map-some (x ∷ xs) = ap (◌∷◌ x) (filter_map-some xs)

abbrev pub then_map {κ μ} : {B : Type κ} {C : Type μ} → (B → Option C) → Option B → Option C
then_map g none = none
then_map g (some b) = g b

module _ {κ μ} {B : Type κ} {C : Type μ} (g : B → Option C) where
  filter_map-consed :
      (o : Option B) (ys : List B)
      → filter_map g (consed o ys) ≡ consed (then_map g o) (filter_map g ys)
  filter_map-consed none ys = refl
  filter_map-consed (some y) ys = refl

  pub filter_map-filter_map {ℓ} :
      {A : Type ℓ} (f : A → Option B) (xs : List A)
      → filter_map g (filter_map f xs) ≡ filter_map (λ x. then_map g (f x)) xs
  filter_map-filter_map f [] = refl
  filter_map-filter_map f (x ∷ xs) =
      filter_map-consed (f x) (filter_map f xs)
      ∙ ap (consed (then_map g (f x))) (filter_map-filter_map f xs)

pub not_eq : {x y : Text} → x ≢ y → text_eq x y ≡ false
not_eq {x} {y} d = elim (Bool-cases (text_eq x y)) [
  | inl e ↦ absurd (d ((text_eq_iff x y).0 e))
  | inr e ↦ e
]

abbrev or_else {κ} : {B : Type κ} → B → Option B → B
or_else b none = b
or_else b (some c) = c

-- `ignores` says of which rows a trigger turns the statement of a round into nothing.
module _ {F : Floats} (ignores : Text → Bool) (strategy : CleanupStrategy) where
  -- What a round makes of the row that it is for.
  abbrev pub acted : CleanupStrategy → Text → Thought F → Option (Thought F)
  acted archive x t = if ignores x then some t else some (expire_row t)
  acted delete x t = if ignores x then some t else none

  abbrev pub hit : Text → Thought F → Option (Thought F)
  hit x t = if text_eq t.thought_id x then acted strategy x t else some t

  abbrev pub hits : List Text → Thought F → Option (Thought F)
  hits [] t = some t
  hits (x ∷ xs) t = then_map (hits xs) (hit x t)

  pub filter_map-hits :
      (x : Text) (xs : List Text) (rows : Store F)
      → filter_map (hits xs) (filter_map (hit x) rows) ≡ filter_map (hits (x ∷ xs)) rows
  filter_map-hits x xs rows = filter_map-filter_map (hits xs) (hit x) rows

  module _ (exclude_id : Option Text) (now : Instant) where
    -- What becomes of a row when time-to-live is enforced.
    abbrev pub due : Thought F → Option (Thought F)
    due t = if expires F exclude_id now t then acted strategy t.thought_id t else some t

    misses :
        (t : Thought F) (rows : Store F)
        → All (λ r. text_eq t.thought_id r.thought_id ≡ false) rows
        → hits (ids_of F exclude_id now (filter (expires F exclude_id now) rows)) t ≡ some t
    misses t [] h = refl
    misses t (r ∷ rows) h = elim (Bool-cases (expires F exclude_id now r)) [
      | inl e ↦ rw (e, filter, h.0) (misses t rows h.1)
      | inr e ↦ rw (e, filter) (misses t rows h.1)
    ]

    -- The identities of the rows that expire, in their order.
    abbrev expiring : Store F → List Text
    expiring rows = ids_of F exclude_id now (filter (expires F exclude_id now) rows)

    acted_once :
        (kind : CleanupStrategy) (r : Thought F) (rows : Store F)
        → All (λ t. text_eq r.thought_id t.thought_id ≡ false) rows
        → then_map (hits (expiring rows)) (acted kind r.thought_id r) ≡ acted kind r.thought_id r
    acted_once archive r rows h = elim (Bool-cases (ignores r.thought_id)) [
      | inl e ↦ rw e (misses r rows h)
      | inr e ↦ rw e (misses (expire_row r) rows h)
    ]
    acted_once delete r rows h = elim (Bool-cases (ignores r.thought_id)) [
      | inl e ↦ rw e (misses r rows h)
      | inr e ↦ rw e refl
    ]

    first_due :
        (r : Thought F) (rows : Store F)
        → All (λ t. text_eq r.thought_id t.thought_id ≡ false) rows
        → hits (expiring (r ∷ rows)) r ≡ due r
    first_due r rows h = elim (Bool-cases (expires F exclude_id now r)) [
      | inl e ↦ rw (e, filter, text_eq_refl r.thought_id) (acted_once strategy r rows h)
      | inr e ↦ rw (e, filter) (misses r rows h)
    ]

    later_due :
        (r t : Thought F) (rows : Store F)
        → text_eq t.thought_id r.thought_id ≡ false
        → hits (expiring (r ∷ rows)) t ≡ hits (expiring rows) t
    later_due r t rows d = elim (Bool-cases (expires F exclude_id now r)) [
      | inl e ↦ rw (e, filter, d) refl
      | inr e ↦ rw (e, filter) refl
    ]

    rest_due :
        (r : Thought F) (all rows : Store F)
        → All (λ t. r.thought_id ≢ t.thought_id) rows
        → All (λ t. hits (expiring all) t ≡ due t) rows
        → All (λ t. hits (expiring (r ∷ all)) t ≡ due t) rows
    rest_due r all [] d h = tt
    rest_due r all (t ∷ rows) d h =
        (later_due r t all (not_eq (λ e. d.0 (sym e))) ∙ h.0, rest_due r all rows d.1 h.1)

    pub hits-due :
        (rows : Store F)
        → HasDistinctKeys text_order (λ t. t.thought_id) rows
        → All (λ t. hits (expiring rows) t ≡ due t) rows
    hits-due [] d = tt
    hits-due (r ∷ rows) d = (
      first_due r rows (All-mono rows (λ t k. not_eq k) d.0),
      rest_due r rows rows d.0 (hits-due rows d.1),
    )

    -- After a round for every row that expires, each row is as it is due.
    pub filter_map-expiring :
        (rows : Store F)
        → HasDistinctKeys text_order (λ t. t.thought_id) rows
        → filter_map (hits (expiring rows)) rows ≡ filter_map due rows
    filter_map-expiring rows d = filter_map-ext _ _ rows (hits-due rows d)

    acted_left :
        (kind : CleanupStrategy) (t u : Thought F)
        → acted kind t.thought_id t ≡ some u
        → expires F exclude_id now u ≡ true
        → ignores u.thought_id ≡ true
    acted_left archive t u h k = elim (Bool-cases (ignores t.thought_id)) [
      | inl e ↦
          let same : some t ≡ some u = rw e at h in
          subst (λ o. ignores (or_else u o).thought_id ≡ true) same e
      | inr e ↦
          let same : some (expire_row t) ≡ some u = rw e at h in
          let over : false ≡ true =
            subst (λ o. expires F exclude_id now (or_else u o) ≡ true) (sym same) k in
          absurd (cc over)
    ]
    acted_left delete t u h k = elim (Bool-cases (ignores t.thought_id)) [
      | inl e ↦
          let same : some t ≡ some u = rw e at h in
          subst (λ o. ignores (or_else u o).thought_id ≡ true) same e
      | inr e ↦ let nothing : none ≡ some u = rw e at h in absurd (cc nothing)
    ]

    due_left :
        (t u : Thought F)
        → due t ≡ some u
        → expires F exclude_id now u ≡ true
        → ignores u.thought_id ≡ true
    due_left t u h k = elim (Bool-cases (expires F exclude_id now t)) [
      | inl e ↦ acted_left strategy t u (rw e at h) k
      | inr e ↦
          let same : some t ≡ some u = rw e at h in
          let over : expires F exclude_id now t ≡ true =
            subst (λ o. expires F exclude_id now (or_else u o) ≡ true) (sym same) k in
          absurd (cc (e, over))
    ]

    -- What still expires is what a trigger kept.
    pub filter_map-due :
        (rows : Store F)
        → All
            (λ u. expires F exclude_id now u ≡ true → ignores u.thought_id ≡ true)
            (filter_map due rows)
    filter_map-due rows = All-filter_map due _ due_left rows
