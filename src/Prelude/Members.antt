-- ===== src/Prelude/Members.antt =====
-- Membership with the position kept, against predicates on all elements, sorts and cuts.
use engrava.Prelude.Tests.{Bool-cases}
use engrava.Prelude.Lists.{All, take, drop}
use engrava.Prelude.Order.{Order}
use engrava.Prelude.Sort.{insert, sort}
use Prim.Native.Nat.{ℕ, zero, suc}
use mathlib.Core.Path.{refl, sym, subst}
use mathlib.Core.Logic.{◌⊎◌, inl, inr}
use mathlib.Core.List.{List, [], ◌∷◌, Memᴰ}

module _ {ℓ} {A : Type ℓ} where
  pub All-lookup {κ} : {a : A} (P : A → Type κ) (xs : List A) → All P xs → Memᴰ a xs → P a
  All-lookup P [] h m = elim m [ ]
  All-lookup P (x ∷ xs) h (Memᴰ.head e) = subst P (sym e) h.0
  All-lookup P (x ∷ xs) h (Memᴰ.tail m) = All-lookup P xs h.1 m

  pub mem-take-or-drop :
      {a : A} (n : ℕ) (xs : List A) → Memᴰ a xs → Memᴰ a (take n xs) ⊎ Memᴰ a (drop n xs)
  mem-take-or-drop zero xs m = inr m
  mem-take-or-drop (suc n) [] m = elim m [ ]
  mem-take-or-drop (suc n) (x ∷ xs) (Memᴰ.head e) = inl (Memᴰ.head e)
  mem-take-or-drop (suc n) (x ∷ xs) (Memᴰ.tail m) = elim (mem-take-or-drop n xs m) [
    | inl k ↦ inl (Memᴰ.tail k)
    | inr k ↦ inr k
  ]

  -- What holds of each element by its place in the list.
  pub All-of_mem {κ} : (P : A → Type κ) (xs : List A) → ((a : A) → Memᴰ a xs → P a) → All P xs
  All-of_mem P [] f = tt
  All-of_mem P (x ∷ xs) f = (f x (Memᴰ.head refl), All-of_mem P xs (λ a m. f a (Memᴰ.tail m)))

module _ {ℓ κ} {A : Type ℓ} {K : Type κ} (o : Order K) (key : A → K) where
  mem-insert : {a : A} (x : A) (xs : List A) → Memᴰ a (x ∷ xs) → Memᴰ a (insert o key x xs)
  unfolding insert
  mem-insert x [] m = m
  mem-insert x (y ∷ ys) m = elim (Bool-cases (o.leq (key x) (key y))) [
    | inl e ↦ rw e m
    | inr e ↦ rw e (past x y ys m (mem-insert x ys))
  ]
    where
      past :
          {a : A} (x y : A) (ys : List A)
          → Memᴰ a (x ∷ y ∷ ys)
          → (Memᴰ a (x ∷ ys) → Memᴰ a (insert o key x ys))
          → Memᴰ a (y ∷ insert o key x ys)
      past x y ys (Memᴰ.head e) k = Memᴰ.tail (k (Memᴰ.head e))
      past x y ys (Memᴰ.tail (Memᴰ.head e)) k = Memᴰ.head e
      past x y ys (Memᴰ.tail (Memᴰ.tail m)) k = Memᴰ.tail (k (Memᴰ.tail m))

  pub mem-sort : {a : A} (xs : List A) → Memᴰ a xs → Memᴰ a (sort o key xs)
  unfolding sort
  mem-sort [] m = elim m [ ]
  mem-sort (x ∷ xs) (Memᴰ.head e) = mem-insert x (sort o key xs) (Memᴰ.head e)
  mem-sort (x ∷ xs) (Memᴰ.tail m) = mem-insert x (sort o key xs) (Memᴰ.tail (mem-sort xs m))
