-- ===== src/Mindql/Ended.antt =====
-- Calls of the parser (src/engrava/mindql/parser.py) that do not run out of fuel.
use engrava.Prelude.{◌≡◌, ◌≢◌, refl, Bool, true, false, Option, none, some, if◌then◌else◌}
use engrava.Prelude.Result.{Result, ok, raised, ◌>>=◌, Yields}
use engrava.Mindql.Syntax.{ParseError, out_of_fuel}

abbrev pub Ended {ℓ} : {A : Type ℓ} → Result ParseError A → Type ℓ
Ended r = r ≢ raised out_of_fuel

module _ {ℓ κ} {A : Type ℓ} {B : Type κ} where
  pub chain-Ended :
      (m : Result ParseError A) (next : A → Result ParseError B)
      → Ended m
      → ((a : A) → Ended (next a))
      → Ended (m >>= next)
  chain-Ended (ok a) next h k = k a
  chain-Ended (raised e) next h k = λ p. h (cc p)

  -- The second call may use what holds of the first one's result.
  pub chain_with-Ended {μ} :
      (P : A → Type μ) (m : Result ParseError A) (next : A → Result ParseError B)
      → Ended m
      → Yields P m
      → ((a : A) → P a → Ended (next a))
      → Ended (m >>= next)
  chain_with-Ended P (ok a) next h y k = k a y
  chain_with-Ended P (raised e) next h y k = λ p. h (cc p)

module _ {ℓ} {A : Type ℓ} where
  pub either-Ended :
      (b : Bool) (x y : Result ParseError A)
      → Ended x
      → Ended y
      → Ended (elim b [ true ↦ x | false ↦ y ])
  either-Ended true x y h k = h
  either-Ended false x y h k = k

  pub if-Ended :
      (b : Bool) (x y : Result ParseError A) → Ended x → Ended y → Ended (if b then x else y)
  if-Ended true x y h k = h
  if-Ended false x y h k = k

  pub option-Ended {κ} :
      {C : Type κ} (o : Option C) (x : Result ParseError A) (f : C → Result ParseError A)
      → Ended x
      → ((c : C) → o ≡ some c → Ended (f c))
      → Ended (elim o [ none ↦ x | some c ↦ f c ])
  option-Ended none x f h k = h
  option-Ended (some c) x f h k = k c refl
