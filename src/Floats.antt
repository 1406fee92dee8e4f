-- ===== src/Floats.antt =====
-- The finite floating-point numbers that scores and weights are made of, with the operations and
-- the order that the program uses. The operations are taken as they are given: the theorems use
-- the laws of the order, and no law of the arithmetic that rounding would break.
use engrava.Prelude.{ℕ, ◌*◌, ◌+◌, ◌/◌, ◌-◌, Bool, true, false, ◌&&◌, if◌then◌else◌}
use engrava.Prelude.Order.{Order, nat_order}

pub record Floats : Type 1 where
  pub Num : Type 0
  pub order : Order Num
  pub zero_num : Num
  pub half_num : Num
  pub one_num : Num
  pub add : Num → Num → Num
  pub mul : Num → Num → Num
  pub div : Num → Num → Num
  -- The quotient of two integers, `n / m`.
  pub ratio : ℕ → ℕ → Num
  -- `math.exp(-0.01 * age)`.
  pub exp_decay : ℕ → Num

-- What a caller's hook may return: a finite number, or none.
pub data Raw (F : Floats) : Type 0 where
  finite : F.Num → Raw F
  nan infinity minus_infinity : Raw F

module _ (F : Floats) where
  -- `a == b`.
  abbrev pub num_eq : F.Num → F.Num → Bool
  num_eq a b = F.order.leq a b && F.order.leq b a

  -- `a < b`.
  abbrev pub num_lt : F.Num → F.Num → Bool
  num_lt a b = if F.order.leq b a then false else true

  abbrev pub num_min : F.Num → F.Num → F.Num
  num_min a b = if num_lt b a then b else a

  abbrev pub num_max : F.Num → F.Num → F.Num
  num_max a b = if num_lt a b then b else a

-- Thousandths, for runs.
abbrev pub thousandths : Floats
thousandths = record {
  Num = ℕ;
  order = nat_order;
  zero_num = 0;
  half_num = 500;
  one_num = 1000;
  add = λ a b. a + b;
  mul = λ a b. a * b / 1000;
  div = λ a b. a * 1000 / b;
  ratio = λ n m. n * 1000 / m;
  exp_decay = λ age. 1000 - 10 * age;
}
