-- ===== src/Updates/Rows.antt =====
-- A row under its key, and the writes that reach it
-- (src/engrava/infrastructure/sqlite/engrava_core.py).
use engrava.Prelude.{
  ℕ, suc, ◌<◌, ◌≡◌, refl, sym, ap, subst, ◌∙◌, ◌⊎◌, inl, inr, true, false, ◌==◌, ==_iff, Option,
  none, some, [], ◌∷◌, arith, Bool-cases,
}
use engrava.Prelude.Text.{Text, text_eq, text_eq_iff}
use engrava.Updates.Defs.{
  Row, Table, get_row, bumped, guarded_update, or_same, touched, touch_row, delete_row, Others,
}

module _ {V : Type 0} where
  -- What a guarded write does to the rows, read off the row under its key.
  pub data Reaches (x : Text) (n : ℕ) (set : (Text → V) → Text → V) (t : Table V)
      : Option (Table V) → Type 0 where
    misses :
        ((r : Row V) → get_row x t ≡ some r → (r.revision == n) ≡ false) → Reaches x n set t none
    hits :
        (r : Row V) (t' : Table V)
        → get_row x t ≡ some r
        → r.revision ≡ n
        → get_row x t' ≡ some (bumped set r)
        → ((y : Text) → text_eq x y ≡ false → get_row y t' ≡ get_row y t)
        → Reaches x n set t (some t')

  abbrev pub revision_of : Option (Row V) → ℕ
  revision_of none = 0
  revision_of (some r) = r.revision

  get_row-here :
      (x : Text) (r : Row V) (t : Table V)
      → text_eq r.thought_id x ≡ true
      → get_row x (r ∷ t) ≡ some r
  unfolding get_row
  get_row-here x r t e = rw (e, get_row) refl

  get_row-past :
      (x : Text) (r : Row V) (t : Table V)
      → text_eq r.thought_id x ≡ false
      → get_row x (r ∷ t) ≡ get_row x t
  unfolding get_row
  get_row-past x r t e = rw (e, get_row) refl

  same_tail :
      (y : Text) (r : Row V) (t t' : Table V)
      → get_row y t' ≡ get_row y t
      → get_row y (r ∷ t') ≡ get_row y (r ∷ t)
  same_tail y r t t' h = elim (Bool-cases (text_eq r.thought_id y)) [
    | inl e ↦ get_row-here y r t' e ∙ sym (get_row-here y r t e)
    | inr e ↦ get_row-past y r t' e ∙ (h ∙ sym (get_row-past y r t e))
  ]

  guarded_update-here :
      (x : Text) (n : ℕ) (set : (Text → V) → Text → V) (r : Row V) (t : Table V)
      → text_eq r.thought_id x ≡ true
      → guarded_update x n set (r ∷ t)
        ≡ elim (r.revision == n) [ true ↦ some (bumped set r ∷ t) | false ↦ none ]
  unfolding guarded_update
  guarded_update-here x n set r t e = rw (e, guarded_update) refl

  guarded_update-past :
      (x : Text) (n : ℕ) (set : (Text → V) → Text → V) (r : Row V) (t : Table V)
      → text_eq r.thought_id x ≡ false
      → guarded_update x n set (r ∷ t)
        ≡ elim (guarded_update x n set t) [ none ↦ none | some t' ↦ some (r ∷ t') ]
  unfolding guarded_update
  guarded_update-past x n set r t e = rw (e, guarded_update) refl

  pub guarded_update-Reaches :
      (x : Text) (n : ℕ) (set : (Text → V) → Text → V) (t : Table V)
      → Reaches x n set t (guarded_update x n set t)
  unfolding guarded_update get_row
  guarded_update-Reaches x n set [] = Reaches.misses (λ r e. absurd (cc e))
  guarded_update-Reaches x n set (r ∷ t) = elim (Bool-cases (text_eq r.thought_id x)) [
    | inl e ↦ rw (guarded_update-here x n set r t e) (here e)
    | inr e ↦
        rw (guarded_update-past x n set r t e)
          (past e (guarded_update x n set t) (guarded_update-Reaches x n set t))
  ]
    where
      beyond :
          (y : Text)
          → text_eq r.thought_id y ≡ false
          → get_row y (bumped set r ∷ t) ≡ get_row y (r ∷ t)
      beyond y other = get_row-past y (bumped set r) t other ∙ sym (get_row-past y r t other)

      stays : (q : Row V) → some r ≡ some q → (r.revision == n) ≡ false → (q.revision == n) ≡ false
      stays q h k = subst (λ o. (revision_of o == n) ≡ false) h k

      here :
          text_eq r.thought_id x ≡ true
          → Reaches x n set
              (r ∷ t)
              (elim (r.revision == n) [ true ↦ some (bumped set r ∷ t) | false ↦ none ])
      here e = elim (Bool-cases (r.revision == n)) [
        | inl k ↦ rw k (
            Reaches.hits r (bumped set r ∷ t) (get_row-here x r t e) ((==_iff r.revision n).0 k)
              (get_row-here x (bumped set r) t e)
              (λ y other.
                beyond y (
                  subst (λ i. text_eq i y ≡ false) (sym ((text_eq_iff r.thought_id x).0 e)) other)))
        | inr k ↦ rw k (Reaches.misses (λ q h. stays q (sym (get_row-here x r t e) ∙ h) k))
      ]

      past :
          text_eq r.thought_id x ≡ false
          → (o : Option (Table V)) → Reaches x n set t o
          → Reaches x n set (r ∷ t) (elim o [ none ↦ none | some t' ↦ some (r ∷ t') ])
      past e _ (Reaches.misses h) = Reaches.misses (λ q k. h q (sym (get_row-past x r t e) ∙ k))
      past e _ (Reaches.hits q t' found same now others) =
          Reaches.hits q (r ∷ t') (get_row-past x r t e ∙ found) same (get_row-past x r t' e ∙ now)
            (λ y other. same_tail y r t t' (others y other))

  -- The row that was read, as the table stands later: gone, moved on, or at its revision still.
  pub data Tracks (x : Text) (r : Row V) (t : Table V) : Type 0 where
    gone : get_row x t ≡ none → Tracks x r t
    moved : (q : Row V) → get_row x t ≡ some q → r.revision < q.revision → Tracks x r t
    stands : (q : Row V) → get_row x t ≡ some q → q.revision ≡ r.revision → Tracks x r t

  -- A table whose row under the key is the same.
  get_row-Tracks :
      (x : Text) (r : Row V) (t t' : Table V)
      → get_row x t' ≡ get_row x t
      → Tracks x r t
      → Tracks x r t'
  get_row-Tracks x r t t' e (Tracks.gone h) = Tracks.gone (e ∙ h)
  get_row-Tracks x r t t' e (Tracks.moved q h k) = Tracks.moved q (e ∙ h) k
  get_row-Tracks x r t t' e (Tracks.stands q h k) = Tracks.stands q (e ∙ h) k

  written-Tracks :
      (x y : Text) (r : Row V) (n : ℕ) (set : (Text → V) → Text → V) (t : Table V)
      (o : Option (Table V))
      → Reaches y n set t o
      → Tracks x r t
      → Tracks x r (or_same t o)
  written-Tracks x y r n set t _ (Reaches.misses h) k = k
  written-Tracks x y r n set t _ (Reaches.hits q t' found same now others) k =
      elim (Bool-cases (text_eq y x)) [
        | inl e ↦ bump (sym ((text_eq_iff y x).0 e)) k
        | inr e ↦ get_row-Tracks x r t t' (others x e) k
      ]
    where
      bump : x ≡ y → Tracks x r t → Tracks x r t'
      bump e (Tracks.gone h) = absurd (cc (e, h, found))
      bump e (Tracks.moved p h less) =
          Tracks.moved (bumped set q) (subst (λ z. get_row z t' ≡ some (bumped set q)) (sym e) now)
            (further p (cc (e, h, found)) less)
        where
          further :
              (p : Row V) → some p ≡ some q → r.revision < p.revision → r.revision < suc q.revision
          further p h less = omega (arith, less, ap revision_of h)
      bump e (Tracks.stands p h level) =
          Tracks.moved (bumped set q) (subst (λ z. get_row z t' ≡ some (bumped set q)) (sym e) now)
            (next p level (cc (e, h, found)))
        where
          next :
              (p : Row V) → p.revision ≡ r.revision → some p ≡ some q → r.revision < suc q.revision
          next p level h = omega (arith, level, ap revision_of h)

  delete-here :
      (y : Text) (r : Row V) (t : Table V)
      → text_eq r.thought_id y ≡ true
      → delete_row y (r ∷ t) ≡ delete_row y t
  unfolding delete_row
  delete-here y r t e = rw (e, delete_row) refl

  delete-past :
      (y : Text) (r : Row V) (t : Table V)
      → text_eq r.thought_id y ≡ false
      → delete_row y (r ∷ t) ≡ r ∷ delete_row y t
  unfolding delete_row
  delete-past y r t e = rw (e, delete_row) refl

  get_row-deleted : (y : Text) (t : Table V) → get_row y (delete_row y t) ≡ none
  unfolding delete_row get_row
  get_row-deleted y [] = refl
  get_row-deleted y (r ∷ t) = elim (Bool-cases (text_eq r.thought_id y)) [
    | inl e ↦ ap (get_row y) (delete-here y r t e) ∙ get_row-deleted y t
    | inr e ↦
        ap (get_row y) (delete-past y r t e)
        ∙ (get_row-past y r (delete_row y t) e ∙ get_row-deleted y t)
  ]

  get_row-kept :
      (x y : Text) (t : Table V) → text_eq y x ≡ false → get_row x (delete_row y t) ≡ get_row x t
  unfolding delete_row get_row
  get_row-kept x y [] other = refl
  get_row-kept x y (r ∷ t) other = elim (Bool-cases (text_eq r.thought_id y)) [
    | inl e ↦
        ap (get_row x) (delete-here y r t e)
        ∙ (get_row-kept x y t other
            ∙ sym (
                get_row-past x r t (
                  subst (λ i. text_eq i x ≡ false) (sym ((text_eq_iff r.thought_id y).0 e)) other)))
    | inr e ↦
        ap (get_row x) (delete-past y r t e)
        ∙ same_tail x r t (delete_row y t) (get_row-kept x y t other)
  ]

  get_row-delete :
      (x y : Text) (t : Table V)
      → (get_row x (delete_row y t) ≡ none) ⊎ (get_row x (delete_row y t) ≡ get_row x t)
  get_row-delete x y t = elim (Bool-cases (text_eq y x)) [
    | inl e ↦ inl (
        subst (λ z. get_row z (delete_row y t) ≡ none) ((text_eq_iff y x).0 e)
          (get_row-deleted y t))
    | inr e ↦ inr (get_row-kept x y t e)
  ]

  touch-here :
      (y : Text) (set : (Text → V) → Text → V) (r : Row V) (t : Table V)
      → text_eq r.thought_id y ≡ true
      → touch_row y set (r ∷ t) ≡ touched set r ∷ t
  unfolding touch_row
  touch-here y set r t e = rw (e, touch_row) refl

  touch-past :
      (y : Text) (set : (Text → V) → Text → V) (r : Row V) (t : Table V)
      → text_eq r.thought_id y ≡ false
      → touch_row y set (r ∷ t) ≡ r ∷ touch_row y set t
  unfolding touch_row
  touch-past y set r t e = rw (e, touch_row) refl

  -- A row after a write that leaves the revisions as they are.
  get_row-touch :
      (x y : Text) (set : (Text → V) → Text → V) (t : Table V)
      → (get_row x (touch_row y set t) ≡ get_row x t)
        ⊎ ((q : Row V) × (get_row x t ≡ some q)
            × (get_row x (touch_row y set t) ≡ some (touched set q)))
  unfolding touch_row
  get_row-touch x y set [] = inl refl
  get_row-touch x y set (r ∷ t) = elim (Bool-cases (text_eq r.thought_id y)) [
    | inl e ↦ rw (touch-here y set r t e) (elim (Bool-cases (text_eq r.thought_id x)) [
      | inl k ↦ inr (r, get_row-here x r t k, get_row-here x (touched set r) t k)
      | inr k ↦ inl (get_row-past x (touched set r) t k ∙ sym (get_row-past x r t k))
    ])
    | inr e ↦ rw (touch-past y set r t e) (elim (Bool-cases (text_eq r.thought_id x)) [
      | inl k ↦ inl (get_row-here x r (touch_row y set t) k ∙ sym (get_row-here x r t k))
      | inr k ↦ further k (get_row-touch x y set t)
    ])
  ]
    where
      further :
          text_eq r.thought_id x ≡ false
          → (get_row x (touch_row y set t) ≡ get_row x t)
            ⊎ ((q : Row V) × (get_row x t ≡ some q)
                × (get_row x (touch_row y set t) ≡ some (touched set q)))
          → (get_row x (r ∷ touch_row y set t) ≡ get_row x (r ∷ t))
            ⊎ ((q : Row V) × (get_row x (r ∷ t) ≡ some q)
                × (get_row x (r ∷ touch_row y set t) ≡ some (touched set q)))
      further k (inl h) = inl (same_tail x r t (touch_row y set t) h)
      further k (inr (q, h, l)) =
          inr (q, get_row-past x r t k ∙ h, get_row-past x r (touch_row y set t) k ∙ l)

  touched-Tracks :
      (x : Text) (r q : Row V) (set : (Text → V) → Text → V) (t t' : Table V)
      → get_row x t ≡ some q
      → get_row x t' ≡ some (touched set q)
      → Tracks x r t
      → Tracks x r t'
  touched-Tracks x r q set t t' h l (Tracks.gone e) = absurd (cc (e, h))
  touched-Tracks x r q set t t' h l (Tracks.moved p e less) =
      Tracks.moved (touched set q) l (later p less (cc (e, h)))
    where
      later : (p : Row V) → r.revision < p.revision → some p ≡ some q → r.revision < q.revision
      later p less e = omega (arith, less, ap revision_of e)
  touched-Tracks x r q set t t' h l (Tracks.stands p e level) =
      Tracks.stands (touched set q) l (sym (ap revision_of (one p (cc (e, h)))) ∙ level)
    where
      one : (p : Row V) → some p ≡ some q → some p ≡ some q
      one p e = e

  pub Others-Tracks :
      (x : Text) (r : Row V) (t later : Table V)
      → Others x t later
      → Tracks x r t
      → Tracks x r later
  Others-Tracks x r _ _ (Others.rest t) k = k
  Others-Tracks x r _ _ (Others.writes y n set t later o) k =
      Others-Tracks x r _ later o
        (written-Tracks x y r n set t _ (guarded_update-Reaches y n set t) k)
  Others-Tracks x r _ _ (Others.touches y set t later o) k =
      Others-Tracks x r _ later o (elim (get_row-touch x y set t) [
        | inl e ↦ get_row-Tracks x r t (touch_row y set t) e k
        | inr (q, h, l) ↦ touched-Tracks x r q set t (touch_row y set t) h l k
      ])
  Others-Tracks x r _ _ (Others.deletes y t later o) k =
      Others-Tracks x r _ later o (elim (get_row-delete x y t) [
        | inl e ↦ Tracks.gone e
        | inr e ↦ get_row-Tracks x r t (delete_row y t) e k
      ])
  Others-Tracks x r _ _ (Others.inserts q t later other o) k =
      Others-Tracks x r _ later o (get_row-Tracks x r t (q ∷ t) (get_row-past x q t other) k)
