-- ===== src/Prelude/Decimal.antt =====
-- `str(n)` of a natural number, and what a reader of the digits gets back.
use engrava.Prelude.Tests.{ltb, if◌then◌else◌, Bool-cases, ltb→lt}
use engrava.Prelude.Lists.{All}
use engrava.Prelude.Text.{Text}
use Prim.Native.Nat.{ℕ, zero, suc, ◌+◌, ◌-◌, ◌*◌, ◌/◌, ◌%◌, ◌<◌}
use mathlib.Core.Path.{◌≡◌, refl, ap, sym, ◌∙◌}
use mathlib.Core.Logic.{inl, inr}
use mathlib.Core.List.{[], ◌∷◌}
use native.Mathlib.Omega.{arith}

-- The fuel bounds the number of digits; `decimal` gives more than enough.
digits : ℕ → ℕ → Text → Text
digits zero n acc = acc
digits (suc f) n acc =
    let digit = 48 + n % 10 in
    let rest = digits f (n / 10) (digit ∷ acc) in if ltb n 10 then digit ∷ acc else rest

unfoldable pub decimal : ℕ → Text
unfolding digits
decimal n = digits (suc n) n []

read_from : ℕ → Text → ℕ
read_from a [] = a
read_from a (c ∷ cs) = read_from (a * 10 + (c - 48)) cs

read_from-digits : (f n : ℕ) (acc : Text) → n < f → read_from 0 (digits f n acc) ≡ read_from n acc
unfolding digits read_from
read_from-digits zero n acc h = absurd (omega arith)
read_from-digits (suc f) n acc h = elim (Bool-cases (ltb n 10)) [
  | inl e ↦ rw e (ap (λ k. read_from k acc) (last n (ltb→lt n 10 e)))
  | inr e ↦ rw e (
      read_from-digits f (n / 10) ((48 + n % 10) ∷ acc) (ground arith)
      ∙ ap (λ k. read_from k acc) (more n))
]
  where
    last : (m : ℕ) → m < 10 → 0 * 10 + (48 + m % 10 - 48) ≡ m
    last m k = omega arith

    more : (m : ℕ) → m / 10 * 10 + (48 + m % 10 - 48) ≡ m
    more m = omega arith

-- No two numbers print alike.
pub decimal-injective : (m n : ℕ) → decimal m ≡ decimal n → m ≡ n
unfolding decimal read_from
decimal-injective m n e =
    sym (read_from-digits (suc m) m [] (omega arith))
    ∙ (ap (read_from 0) e ∙ read_from-digits (suc n) n [] (omega arith))

-- Every character is a digit.
digits-range : (f n : ℕ) (acc : Text) → All (λ c. c < 58) acc → All (λ c. c < 58) (digits f n acc)
unfolding digits
digits-range zero n acc h = h
digits-range (suc f) n acc h = elim (Bool-cases (ltb n 10)) [
  | inl e ↦ rw e (omega arith, h)
  | inr e ↦ rw e (digits-range f (n / 10) ((48 + n % 10) ∷ acc) (omega arith, h))
]

pub decimal-range : (n : ℕ) → All (λ c. c < 58) (decimal n)
unfolding decimal
decimal-range n = digits-range (suc n) n [] tt

decimal_407 : decimal 407 ≡ 52 ∷ 48 ∷ 55 ∷ []
unfolding decimal
decimal_407 = refl
