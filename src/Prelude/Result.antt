-- ===== src/Prelude/Result.antt =====
-- A call that returns or raises: the error type is the caller's.
use mathlib.Core.Path.{◌≡◌, refl, subst}

pub data Result {ℓ κ} (E : Type κ) (A : Type ℓ) : Type (ℓ ⊔ κ) where
  ok : A → Result E A
  raised : E → Result E A

module _ {ℓ κ μ} {E : Type κ} {A : Type ℓ} {B : Type μ} where
  infixl 5 ◌>>=◌
  abbrev pub ◌>>=◌ : Result E A → (A → Result E B) → Result E B
  m >>= next_call = elim m [ raised e ↦ raised e | ok a ↦ next_call a ]

  -- What a chain that returns went through: the first call's result, and the second's.
  pub record Returned (first : Result E A) (next_call : A → Result E B) (result : B)
      : Type (ℓ ⊔ κ ⊔ μ) where
    pub between : A
    pub first_returned : first ≡ ok between
    pub then_returned : next_call between ≡ ok result

  pub >>=-Returned :
      (first : Result E A) (next_call : A → Result E B) (result : B)
      → first >>= next_call ≡ ok result
      → Returned first next_call result
  >>=-Returned (raised problem) next_call result h = cc
  >>=-Returned (ok a) next_call result h = record {
    between = a;
    first_returned = refl;
    then_returned = h;
  }

-- `P` holds of what a call returns, if it returns.
abbrev pub Yields {ℓ κ μ} : {E : Type κ} {A : Type ℓ} → (A → Type μ) → Result E A → Type μ
Yields P (ok a) = P a
Yields P (raised e) = Unit

module _ {ℓ κ μ} {E : Type κ} {A : Type ℓ} {B : Type μ} where
  pub >>=-Yields {ν ξ} :
      (P : A → Type ν) (Q : B → Type ξ) (m : Result E A) (next_call : A → Result E B)
      → Yields P m
      → ((a : A) → P a → Yields Q (next_call a))
      → Yields Q (m >>= next_call)
  >>=-Yields P Q (ok a) next_call h k = k a h
  >>=-Yields P Q (raised e) next_call h k = tt

pub of_Yields {ℓ κ μ} :
    {E : Type κ} {A : Type ℓ} (P : A → Type μ) (m : Result E A) (a : A)
    → Yields P m
    → m ≡ ok a
    → P a
of_Yields P m a h e = subst (Yields P) e h
