-- ===== src/Kernels/Numbers.antt =====
-- What the kernels compute with. Rounding is left out: the laws are those of the real numbers.
use llm_serving_engine.Base.{◌≡◌, refl, ap, Option, none, some}

pub record Monoid (A : Type 0) : Type 0 where
  pub unit : A
  pub op : A → A → A
  pub assoc : (a b c : A) → op (op a b) c ≡ op a (op b c)
  pub left_unit : (a : A) → op unit a ≡ a
  pub right_unit : (a : A) → op a unit ≡ a

pub record Numbers (R : Type 0) : Type 0 where
  pub zero : R
  pub add : R → R → R
  pub sub : R → R → R
  pub mul : R → R → R
  pub div : R → R → R
  pub exp : R → R
  pub max : R → R → R
  pub add_assoc : (a b c : R) → add (add a b) c ≡ add a (add b c)
  pub zero_add : (a : R) → add zero a ≡ a
  pub add_zero : (a : R) → add a zero ≡ a
  pub mul_comm : (a b : R) → mul a b ≡ mul b a
  pub mul_assoc : (a b c : R) → mul (mul a b) c ≡ mul a (mul b c)
  pub mul_add : (a b c : R) → mul a (add b c) ≡ add (mul a b) (mul a c)
  pub mul_zero : (a : R) → mul a zero ≡ zero
  pub exp_sub : (a b c : R) → mul (exp (sub b c)) (exp (sub a b)) ≡ exp (sub a c)
  pub exp_same : (a b : R) → mul (exp (sub a a)) b ≡ b
  pub max_assoc : (a b c : R) → max (max a b) c ≡ max a (max b c)

module _ {R : Type 0} (num : Numbers R) where
  abbrev pub sums : Monoid R
  sums = record {
    unit = num.zero;
    op = num.add;
    assoc = num.add_assoc;
    left_unit = num.zero_add;
    right_unit = num.add_zero;
  }

  -- `none` is -inf.
  abbrev pub max_of : Option R → Option R → Option R
  max_of none b = b
  max_of (some a) none = some a
  max_of (some a) (some b) = some (num.max a b)

  pub max_of_assoc : (a b c : Option R) → max_of (max_of a b) c ≡ max_of a (max_of b c)
  max_of_assoc none b c = refl
  max_of_assoc (some a) none c = refl
  max_of_assoc (some a) (some b) none = refl
  max_of_assoc (some a) (some b) (some c) = ap some (num.max_assoc a b c)

  pub max_of_right : (a : Option R) → max_of a none ≡ a
  max_of_right none = refl
  max_of_right (some a) = refl

  abbrev pub maxima : Monoid (Option R)
  maxima = record {
    unit = none;
    op = max_of;
    assoc = max_of_assoc;
    left_unit = λ a. refl;
    right_unit = max_of_right;
  }
