-- ===== src/Base/Totals.antt =====
-- Sums of a measure over a list, and how often a number stands in a list: the book-keeping
-- that shows where a block is held.
use Prim.Native.Nat.{ℕ, zero, suc, ◌+◌, ◌≤◌, ◌<◌}
use mathlib.Core.Path.{◌≡◌, refl, ap}
use mathlib.Core.List.{List, [], ◌∷◌, ◌++◌}
use mathlib.Core.Option.{some}
use native.Mathlib.Omega.{arith}
use llm_serving_engine.Base.Tests.{◌==◌, if◌then◌else◌, ltb}
use llm_serving_engine.Base.Lists.{
  length, get_elem?, set, delete_at, take, drop, init, last_or, range,
}

abbrev pub count : ℕ → List ℕ → ℕ
count b [] = 0
count b (x ∷ xs) = (if b == x then 1 else 0) + count b xs

pub count-append : (b : ℕ) (xs ys : List ℕ) → count b (xs ++ ys) ≡ count b xs + count b ys
count-append b [] ys = omega arith
count-append b (x ∷ xs) ys = omega (arith, count-append b xs ys)

pub count-take-drop :
    (b n : ℕ) (xs : List ℕ) → count b (take n xs) + count b (drop n xs) ≡ count b xs
count-take-drop b zero xs = omega arith
count-take-drop b (suc n) [] = omega arith
count-take-drop b (suc n) (x ∷ xs) = omega (arith, count-take-drop b n xs)

pub count-range_below : (b a n : ℕ) → b < a → count b (range a n) ≡ 0
count-range_below b a zero h = refl
count-range_below b a (suc n) h = ground (arith, count-range_below b (suc a) n)

pub count-range : (b a n : ℕ) → a ≤ b → count b (range a n) ≡ (if ltb b (a + n) then 1 else 0)
count-range b a zero h = ground arith
count-range b a (suc n) h = ground (arith, count-range b (suc a) n, count-range_below b (suc a) n)

pub count_of_get_elem? : (b : ℕ) (xs : List ℕ) (i : ℕ) → get_elem? xs i ≡ some b → 1 ≤ count b xs
count_of_get_elem? b [] i e = absurd (ground arith)
count_of_get_elem? b (x ∷ xs) zero e = ground arith
count_of_get_elem? b (x ∷ xs) (suc i) e = omega (arith, count_of_get_elem? b xs i e)

-- A number that stands only once stands at one position.
pub index_of_count :
    (b : ℕ) (xs : List ℕ) (i j : ℕ)
    → count b xs ≤ 1
    → get_elem? xs i ≡ some b
    → get_elem? xs j ≡ some b
    → i ≡ j
index_of_count b [] i j h e g = absurd (ground arith)
index_of_count b (x ∷ xs) zero zero h e g = refl
index_of_count b (x ∷ xs) zero (suc j) h e g = absurd (ground (arith, count_of_get_elem? b xs j g))
index_of_count b (x ∷ xs) (suc i) zero h e g = absurd (ground (arith, count_of_get_elem? b xs i e))
index_of_count b (x ∷ xs) (suc i) (suc j) h e g = ap suc (index_of_count b xs i j (omega arith) e g)

module _ {ℓ} {A : Type ℓ} (f : A → ℕ) where
  abbrev pub total : List A → ℕ
  total [] = 0
  total (x ∷ xs) = f x + total xs

  pub total-append : (xs ys : List A) → total (xs ++ ys) ≡ total xs + total ys
  total-append [] ys = omega arith
  total-append (x ∷ xs) ys = omega (arith, total-append xs ys)

  pub total-set :
      (xs : List A) (i : ℕ) (x y : A)
      → get_elem? xs i ≡ some x
      → total (set xs i y) + f x ≡ total xs + f y
  total-set [] i x y e = ground arith
  total-set (z ∷ xs) zero x y e = ground arith
  total-set (z ∷ xs) (suc i) x y e = omega (arith, total-set xs i x y e)

  pub total-delete_at :
      (xs : List A) (i : ℕ) (x : A)
      → get_elem? xs i ≡ some x
      → total (delete_at xs i) + f x ≡ total xs
  total-delete_at [] i x e = ground arith
  total-delete_at (z ∷ xs) zero x e = ground arith
  total-delete_at (z ∷ xs) (suc i) x e = omega (arith, total-delete_at xs i x e)

  pub total-init :
      (d : A) (xs : List A) → 0 < length xs → total (init xs) + f (last_or d xs) ≡ total xs
  total-init d [] h = absurd (omega arith)
  total-init d (x ∷ []) h = omega arith
  total-init d (x ∷ y ∷ xs) h = omega (arith, total-init x (y ∷ xs))
