-- ===== src/Base/Fractions.antt =====
-- Exact fractions, for the quotients of times that the program keeps as floats.
use Prim.Native.Nat.{ℕ, zero, suc, ◌+◌, ◌*◌, ◌≤◌}
use mathlib.Core.Path.{◌≡◌}
use mathlib.Core.Bool.{Bool, true}
use mathlib.Core.Logic.{◌⊎◌}
use mathlib.Core.Option.{Option, none, some}
use mathlib.Core.List.{List, [], ◌∷◌}
use native.Mathlib.Omega.{arith}
use native.Mathlib.Nat.{mul-le-mul_right, le_of_mul-le-mul_right}
use llm_serving_engine.Base.Tests.{leb, if◌then◌else◌, leb→le, le→leb}
use llm_serving_engine.Base.Int.{ℤ, pos, negsuc, ◌-ℤ◌, pos_part, neg_part, sub_ℕ, ◌+ℤ◌}
use llm_serving_engine.Base.Sorting.{Order}

-- The denominator is one more than `less`, so it is never zero.
pub record Ratio : Type 0 where
  pub num : ℤ
  pub less : ℕ

abbrev pub den : Ratio → ℕ
den q = suc q.less

abbrev pub of_int : ℤ → Ratio
of_int n = record { num = n; less = 0 }

-- `n * z`
unfoldable pub scale : ℕ → ℤ → ℤ
scale n z = sub_ℕ (n * pos_part z) (n * neg_part z)

infixl 65 ◌+ℚ◌
unfoldable pub ◌+ℚ◌ : Ratio → Ratio → Ratio
unfolding scale ◌+ℤ◌
p +ℚ q = record {
  num = scale (den q) p.num +ℤ scale (den p) q.num;
  less = p.less * q.less + p.less + q.less;
}

-- Divided by `suc n`.
unfoldable pub divided : Ratio → ℕ → Ratio
divided q n = record { num = q.num; less = q.less * n + q.less + n }

unfoldable pub sum_ℚ : List Ratio → Ratio
unfolding ◌+ℚ◌
sum_ℚ [] = of_int (pos 0)
sum_ℚ (q ∷ qs) = q +ℚ sum_ℚ qs

infixl 65 ◌-ℚ◌
unfoldable pub ◌-ℚ◌ : Ratio → Ratio → Ratio
unfolding scale ◌-ℤ◌
p -ℚ q = record {
  num = scale (den q) p.num -ℤ scale (den p) q.num;
  less = p.less * q.less + p.less + q.less;
}

unfoldable pub times : ℕ → Ratio → Ratio
unfolding scale
times n q = record { num = scale n q.num; less = q.less }

-- Divided by `z` over `suc less`; `none` is a ZeroDivisionError.
unfoldable pub divide_by : Ratio → ℤ → ℕ → Option Ratio
unfolding scale
divide_by p (pos zero) less = none
divide_by p (pos (suc n)) less =
    some (record { num = scale (suc less) p.num; less = p.less * n + p.less + n })
divide_by p (negsuc n) less = some (record {
  num = scale (suc less) (sub_ℕ (neg_part p.num) (pos_part p.num));
  less = p.less * n + p.less + n;
})

infixl 70 ◌/ℚ◌
unfoldable pub ◌/ℚ◌ : Ratio → Ratio → Option Ratio
unfolding divide_by
p /ℚ q = divide_by p q.num q.less

abbrev pub leb_ℚ : Ratio → Ratio → Bool
leb_ℚ p q =
    leb (pos_part p.num * den q + neg_part q.num * den p)
      (pos_part q.num * den p + neg_part p.num * den q)

pub leb_ℚ_total : (p q : Ratio) → (leb_ℚ p q ≡ true) ⊎ (leb_ℚ q p ≡ true)
leb_ℚ_total p q = ground arith

cross_trans :
    (a a' b b' c c' da db dc : ℕ)
    → a * suc db + b' * suc da ≤ b * suc da + a' * suc db
    → b * suc dc + c' * suc db ≤ c * suc db + b' * suc dc
    → a * suc dc + c' * suc da ≤ c * suc da + a' * suc dc
cross_trans a a' b b' c c' da db dc h g =
    let h' = mul-le-mul_right (suc dc) h in
    let g' = mul-le-mul_right (suc da) g in
    le_of_mul-le-mul_right {k = suc db} (grind (arith, h', g')) (omega arith)

pub leb_ℚ_trans : (p q r : Ratio) → leb_ℚ p q ≡ true → leb_ℚ q r ≡ true → leb_ℚ p r ≡ true
leb_ℚ_trans p q r h g = le→leb _ _ (
    cross_trans (pos_part p.num) (neg_part p.num) (pos_part q.num) (neg_part q.num) (pos_part r.num)
      (neg_part r.num) p.less q.less r.less (leb→le _ _ h) (leb→le _ _ g))

-- The order of the values of a key.
abbrev pub by_key : {A : Type 0} → (A → Ratio) → Order A
by_key key = record {
  lte = λ a b. leb_ℚ (key a) (key b);
  lte_total = λ a b. leb_ℚ_total (key a) (key b);
  lte_trans = λ a b c. leb_ℚ_trans (key a) (key b) (key c);
}

abbrev keep_larger : Ratio → List Ratio → Ratio
keep_larger best [] = best
keep_larger best (q ∷ qs) = keep_larger (if leb_ℚ q best then best else q) qs

abbrev pub largest_or : Ratio → List Ratio → Ratio
largest_or default [] = default
largest_or default (q ∷ qs) = keep_larger q qs

instance abbrev pub ratio_order : Order Ratio
ratio_order = record { lte = leb_ℚ; lte_total = leb_ℚ_total; lte_trans = leb_ℚ_trans }
