-- ===== src/Prelude/Order.antt =====
-- Total orders given by a Boolean test, as Python's sorts and comparisons use them.
use engrava.Prelude.Tests.{leb, if◌then◌else◌}
use Prim.Native.Nat.{ℕ}
use mathlib.Core.Path.{◌≡◌, refl}
use mathlib.Core.Logic.{◌⊎◌, inl, inr}
use mathlib.Core.Bool.{Bool, true, false}
use mathlib.Core.List.{List, [], ◌∷◌}
use native.Mathlib.Omega.{arith}

pub record Order {ℓ} (A : Type ℓ) : Type ℓ where
  pub leq : A → A → Bool
  pub total : (a b : A) → (leq a b ≡ true) ⊎ (leq b a ≡ true)
  pub trans : (a b c : A) → leq a b ≡ true → leq b c ≡ true → leq a c ≡ true
  pub antisym : (a b : A) → leq a b ≡ true → leq b a ≡ true → a ≡ b

-- `a <= b`.
infix 50 ◌≤?◌
abbrev pub ◌≤?◌ {ℓ} : {A : Type ℓ} ⦃o : Order A⦄ → A → A → Bool
◌≤?◌ ⦃o⦄ = o.leq

pub nat_total : (a b : ℕ) → (leb a b ≡ true) ⊎ (leb b a ≡ true)
nat_total a b = ground arith

pub nat_trans : (a b c : ℕ) → leb a b ≡ true → leb b c ≡ true → leb a c ≡ true
nat_trans a b c h k = ground arith

pub nat_antisym : (a b : ℕ) → leb a b ≡ true → leb b a ≡ true → a ≡ b
nat_antisym a b h k = ground arith

instance abbrev pub nat_order : Order ℕ
nat_order = record { leq = leb; total = nat_total; trans = nat_trans; antisym = nat_antisym }

-- The order of `str`: code point by code point, a proper prefix first.
module _ {ℓ} {A : Type ℓ} ⦃o : Order A⦄ where
  unfoldable pub lex_leq : List A → List A → Bool
  lex_leq [] ys = true
  lex_leq (x ∷ xs) [] = false
  lex_leq (x ∷ xs) (y ∷ ys) = if x ≤? y then (if y ≤? x then lex_leq xs ys else true) else false

  pub lex_total : (a b : List A) → (lex_leq a b ≡ true) ⊎ (lex_leq b a ≡ true)
  unfolding lex_leq
  lex_total [] b = inl refl
  lex_total (x ∷ xs) [] = inr refl
  lex_total (x ∷ xs) (y ∷ ys) = ground (arith, o.total x y, lex_total xs ys)

  pub lex_trans : (a b c : List A) → lex_leq a b ≡ true → lex_leq b c ≡ true → lex_leq a c ≡ true
  unfolding lex_leq
  lex_trans [] b c h k = refl
  lex_trans (x ∷ xs) [] c h k = cc
  lex_trans (x ∷ xs) (y ∷ ys) [] h k = cc
  lex_trans (x ∷ xs) (y ∷ ys) (z ∷ zs) h k = ground (
    arith,
    o.trans x y z,
    o.trans z x y,
    o.trans y z x,
    o.trans z y x,
    o.trans y x z,
    o.trans x z y,
    lex_trans xs ys zs,
  )

  pub lex_antisym : (a b : List A) → lex_leq a b ≡ true → lex_leq b a ≡ true → a ≡ b
  unfolding lex_leq
  lex_antisym [] [] h k = refl
  lex_antisym [] (y ∷ ys) h k = cc
  lex_antisym (x ∷ xs) [] h k = cc
  lex_antisym (x ∷ xs) (y ∷ ys) h k = ground (arith, o.antisym x y, lex_antisym xs ys)

instance abbrev pub text_order : Order (List ℕ)
text_order = record { leq = lex_leq; total = lex_total; trans = lex_trans; antisym = lex_antisym }

-- Pairs: by the first key, and by the second where the first keys are equal.
module _ {ℓ κ} {A : Type ℓ} {B : Type κ} (o : Order A) (p : Order B) where
  unfoldable pub pair_leq : A × B → A × B → Bool
  pair_leq (a, b) (c, d) = if o.leq a c then (if o.leq c a then p.leq b d else true) else false

  pub pair_total : (x y : A × B) → (pair_leq x y ≡ true) ⊎ (pair_leq y x ≡ true)
  unfolding pair_leq
  pair_total (a, b) (c, d) = ground (arith, o.total a c, p.total b d)

  pub pair_trans : (x y z : A × B) → pair_leq x y ≡ true → pair_leq y z ≡ true → pair_leq x z ≡ true
  unfolding pair_leq
  pair_trans (a, b) (c, d) (e, f) h k = ground (
    arith,
    o.trans a c e,
    o.trans e a c,
    o.trans c e a,
    o.trans e c a,
    o.trans c a e,
    o.trans a e c,
    p.trans b d f,
  )

  pub pair_antisym : (x y : A × B) → pair_leq x y ≡ true → pair_leq y x ≡ true → x ≡ y
  unfolding pair_leq
  pair_antisym (a, b) (c, d) h k = ground (arith, o.antisym a c, p.antisym b d)

  abbrev pub pair_order : Order (A × B)
  pair_order = record {
    leq = pair_leq;
    total = pair_total;
    trans = pair_trans;
    antisym = pair_antisym;
  }

-- The same values, the greatest first.
module _ {ℓ} {A : Type ℓ} (o : Order A) where
  abbrev pub dual : Order A
  dual = record {
    leq = λ a b. o.leq b a;
    total = λ a b. o.total b a;
    trans = λ a b c h k. o.trans c b a k h;
    antisym = λ a b h k. o.antisym a b k h;
  }
