-- ===== src/Prelude/Sort.antt =====
-- Python's `sorted(..., key=...)`: a stable sort by a total order on keys, as an insertion sort.
use engrava.Prelude.Tests.{if◌then◌else◌, Bool-cases}
use engrava.Prelude.Lists.{All, All-mono, All-drop, All-permᴰ, length, take, drop}
use engrava.Prelude.Order.{Order}
use Prim.Native.Nat.{ℕ, zero, suc}
use mathlib.Core.Path.{◌≡◌, refl, sym, ap, subst, ◌∙◌}
use mathlib.Core.Logic.{◌≢◌, inl, inr}
use mathlib.Core.Bool.{true}
use mathlib.Core.List.{List, [], ◌∷◌, Permᴰ}
use mathlib.Core.List.Permᴰ
use native.Mathlib.Omega.{arith}

module _ {ℓ κ} {A : Type ℓ} {K : Type κ} (o : Order K) (key : A → K) where
  unfoldable pub insert : A → List A → List A
  insert x [] = x ∷ []
  insert x (y ∷ ys) = if o.leq (key x) (key y) then x ∷ y ∷ ys else y ∷ insert x ys

  unfoldable pub sort : List A → List A
  sort [] = []
  sort (x ∷ xs) = insert x (sort xs)

  -- Every key is at most each one after it.
  abbrev pub IsSorted : List A → Type ℓ
  IsSorted [] = Unit
  IsSorted (x ∷ xs) = All (λ y. o.leq (key x) (key y) ≡ true) xs × IsSorted xs

  -- No two keys are equal.
  abbrev pub HasDistinctKeys : List A → Type (ℓ ⊔ κ)
  HasDistinctKeys [] = Unit
  HasDistinctKeys (x ∷ xs) = All (λ y. key x ≢ key y) xs × HasDistinctKeys xs

  pub length-insert : (x : A) (xs : List A) → length (insert x xs) ≡ suc (length xs)
  unfolding insert
  length-insert x [] = refl
  length-insert x (y ∷ ys) = ground (arith, length-insert x ys)

  pub length-sort : (xs : List A) → length (sort xs) ≡ length xs
  unfolding sort
  length-sort [] = refl
  length-sort (x ∷ xs) = length-insert x (sort xs) ∙ ap suc (length-sort xs)

  All-insert {μ} : (P : A → Type μ) (x : A) (xs : List A) → P x → All P xs → All P (insert x xs)
  unfolding insert
  All-insert P x [] p h = (p, tt)
  All-insert P x (y ∷ ys) p h = elim (Bool-cases (o.leq (key x) (key y))) [
    | inl e ↦ rw e (p, h)
    | inr e ↦ rw e (h.0, All-insert P x ys p h.1)
  ]

  -- What holds of every element still holds after the sort.
  pub All-sort {μ} : (P : A → Type μ) (xs : List A) → All P xs → All P (sort xs)
  unfolding sort
  All-sort P [] h = tt
  All-sort P (x ∷ xs) h = All-insert P x (sort xs) h.0 (All-sort P xs h.1)

  insert-IsSorted : (x : A) (xs : List A) → IsSorted xs → IsSorted (insert x xs)
  unfolding insert
  insert-IsSorted x [] h = (tt, tt)
  insert-IsSorted x (y ∷ ys) h = elim (Bool-cases (o.leq (key x) (key y))) [
    | inl e ↦ rw e ((e, All-mono ys (λ z k. o.trans (key x) (key y) (key z) e k) h.0), h)
    | inr e ↦
        rw e (
          All-insert _ x ys (ground (arith, o.total (key x) (key y))) h.0,
          insert-IsSorted x ys h.1,
        )
  ]

  pub sort-IsSorted : (xs : List A) → IsSorted (sort xs)
  unfolding sort
  sort-IsSorted [] = tt
  sort-IsSorted (x ∷ xs) = insert-IsSorted x (sort xs) (sort-IsSorted xs)

  -- A sorted list cut in two: nothing in front comes after anything behind.
  pub IsSorted-split :
      (n : ℕ) (xs : List A)
      → IsSorted xs
      → All (λ a. All (λ b. o.leq (key a) (key b) ≡ true) (drop n xs)) (take n xs)
  IsSorted-split zero xs h = tt
  IsSorted-split (suc n) [] h = tt
  IsSorted-split (suc n) (x ∷ xs) h = (All-drop _ n xs h.0, IsSorted-split n xs h.1)

  insert-permᴰ : (x : A) (xs : List A) → Permᴰ (insert x xs) (x ∷ xs)
  unfolding insert
  insert-permᴰ x [] = Permᴰ.refl (x ∷ [])
  insert-permᴰ x (y ∷ ys) = elim (Bool-cases (o.leq (key x) (key y))) [
    | inl e ↦ rw e (Permᴰ.refl (x ∷ y ∷ ys))
    | inr e ↦ rw e (Permᴰ.trans (Permᴰ.cons refl (insert-permᴰ x ys)) (Permᴰ.swap refl refl))
  ]

  pub sort-permᴰ : (xs : List A) → Permᴰ (sort xs) xs
  unfolding sort
  sort-permᴰ [] = Permᴰ.nil
  sort-permᴰ (x ∷ xs) = Permᴰ.trans (insert-permᴰ x (sort xs)) (Permᴰ.cons refl (sort-permᴰ xs))

  insert-insert :
      (x y : A) (xs : List A) → key x ≢ key y → insert x (insert y xs) ≡ insert y (insert x xs)
  unfolding insert
  insert-insert x y [] d = ground (arith, o.total (key x) (key y), o.antisym (key x) (key y))
  insert-insert x y (z ∷ zs) d = ground (
    arith,
    o.total (key x) (key y),
    o.antisym (key x) (key y),
    o.total (key x) (key z),
    o.total (key y) (key z),
    o.trans (key x) (key y) (key z),
    o.trans (key y) (key x) (key z),
    o.trans (key x) (key z) (key y),
    o.trans (key y) (key z) (key x),
    insert-insert x y zs d,
  )

  HasDistinctKeys-permᴰ : {xs ys : List A} → Permᴰ xs ys → HasDistinctKeys xs → HasDistinctKeys ys
  HasDistinctKeys-permᴰ Permᴰ.nil h = tt
  HasDistinctKeys-permᴰ (Permᴰ.cons {l₂ = ys} e p) h =
      (rw (← e) (All-permᴰ _ p h.0), HasDistinctKeys-permᴰ p h.1)
  HasDistinctKeys-permᴰ (Permᴰ.swap {l = l} e f) h = (
    (
      (λ q. h.0.0 (ap key e ∙ (sym q ∙ ap key (sym f)))),
      subst (λ z. All (λ y. key z ≢ key y) l) f h.1.0,
    ),
    (subst (λ z. All (λ y. key z ≢ key y) l) e h.0.1, h.1.1),
  )
  HasDistinctKeys-permᴰ (Permᴰ.trans p q) h = HasDistinctKeys-permᴰ q (HasDistinctKeys-permᴰ p h)

  -- The result does not depend on the order in which the elements came.
  pub sort_permᴰ : {xs ys : List A} → Permᴰ xs ys → HasDistinctKeys xs → sort xs ≡ sort ys
  unfolding sort
  sort_permᴰ Permᴰ.nil h = refl
  sort_permᴰ (Permᴰ.cons e p) h = cc (e, sort_permᴰ p h.1)
  sort_permᴰ (Permᴰ.swap {a} {b} {l = l} e f) h = cc (e, f, insert-insert a b (sort l) h.0.0)
  sort_permᴰ (Permᴰ.trans p q) h = sort_permᴰ p h ∙ sort_permᴰ q (HasDistinctKeys-permᴰ p h)
