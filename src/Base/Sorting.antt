-- ===== src/Base/Sorting.antt =====
-- Orders, and Python's `sorted` over any of them: stable, ascending.
use Prim.Native.Nat.{ℕ, suc, ◌+◌, ◌≤◌}
use mathlib.Core.Path.{◌≡◌, refl}
use mathlib.Core.Bool.{Bool, true, false}
use mathlib.Core.Logic.{◌⊎◌, inl, inr}
use mathlib.Core.List.{List, [], ◌∷◌}
use native.Mathlib.Omega.{arith}
use llm_serving_engine.Base.Tests.{leb, if◌then◌else◌, Bool-cases}
use llm_serving_engine.Base.Lists.{length, All}

pub record Order (A : Type 0) : Type 0 where
  pub lte : A → A → Bool
  pub lte_total : (a b : A) → (lte a b ≡ true) ⊎ (lte b a ≡ true)
  pub lte_trans : (a b c : A) → lte a b ≡ true → lte b c ≡ true → lte a c ≡ true

pub leb_total : (a b : ℕ) → (leb a b ≡ true) ⊎ (leb b a ≡ true)
leb_total a b = ground arith

pub leb_trans : (a b c : ℕ) → leb a b ≡ true → leb b c ≡ true → leb a c ≡ true
leb_trans a b c h g = ground arith

instance abbrev pub nat_order : Order ℕ
nat_order = record { lte = leb; lte_total = leb_total; lte_trans = leb_trans }

module _ {A : Type 0} where
  -- How many elements pass a test.
  abbrev pub count_if : (A → Bool) → List A → ℕ
  count_if p [] = 0
  count_if p (x ∷ xs) = (if p x then 1 else 0) + count_if p xs

  pub count_if-le : (p : A → Bool) (xs : List A) → count_if p xs ≤ length xs
  count_if-le p [] = omega arith
  count_if-le p (x ∷ xs) = ground (arith, count_if-le p xs)

  module _ ⦃o : Order A⦄ where
    unfoldable pub insert : A → List A → List A
    insert x [] = x ∷ []
    insert x (y ∷ ys) = let rest = insert x ys in if o.lte x y then x ∷ y ∷ ys else y ∷ rest

    unfoldable pub sorted : List A → List A
    unfolding insert
    sorted [] = []
    sorted (x ∷ xs) = insert x (sorted xs)

    pub count_if-insert :
        (p : A → Bool) (x : A) (xs : List A)
        → count_if p (insert x xs) ≡ (if p x then 1 else 0) + count_if p xs
    unfolding insert
    count_if-insert p x [] = refl
    count_if-insert p x (y ∷ ys) = ground (arith, count_if-insert p x ys)

    -- Sorting permutes: every test passes as often.
    pub count_if-sorted : (p : A → Bool) (xs : List A) → count_if p (sorted xs) ≡ count_if p xs
    unfolding sorted
    count_if-sorted p [] = refl
    count_if-sorted p (x ∷ xs) =
        omega (arith, count_if-insert p x (sorted xs), count_if-sorted p xs)

    pub length-insert : (x : A) (xs : List A) → length (insert x xs) ≡ suc (length xs)
    unfolding insert
    length-insert x [] = refl
    length-insert x (y ∷ ys) = ground (arith, length-insert x ys)

    pub length-sorted : (xs : List A) → length (sorted xs) ≡ length xs
    unfolding sorted
    length-sorted [] = refl
    length-sorted (x ∷ xs) = omega (arith, length-insert x (sorted xs), length-sorted xs)

    abbrev pub IsAscending : List A → Type 0
    IsAscending [] = Unit
    IsAscending (x ∷ xs) = All (λ y. o.lte x y ≡ true) xs × IsAscending xs

    All-insert :
        (a x : A) (xs : List A)
        → o.lte a x ≡ true
        → All (λ y. o.lte a y ≡ true) xs
        → All (λ y. o.lte a y ≡ true) (insert x xs)
    unfolding insert
    All-insert a x [] h _ = (h, tt)
    All-insert a x (y ∷ ys) h (g, rest) = elim (Bool-cases (o.lte x y)) [
      | inl le ↦ rw le (h, (g, rest))
      | inr gt ↦ rw gt (g, All-insert a x ys h rest)
    ]

    All-trans :
        (a b : A) (xs : List A)
        → o.lte a b ≡ true
        → All (λ y. o.lte b y ≡ true) xs
        → All (λ y. o.lte a y ≡ true) xs
    All-trans a b [] h _ = tt
    All-trans a b (x ∷ xs) h (g, rest) = (o.lte_trans a b x h g, All-trans a b xs h rest)

    insert-IsAscending : (x : A) (xs : List A) → IsAscending xs → IsAscending (insert x xs)
    unfolding insert
    insert-IsAscending x [] _ = (tt, tt)
    insert-IsAscending x (y ∷ ys) (all, rest) = elim (Bool-cases (o.lte x y)) [
      | inl le ↦ rw le ((le, All-trans x y ys le all), (all, rest))
      | inr gt ↦ rw gt (All-insert y x ys (above gt) all, insert-IsAscending x ys rest)
    ]
      where
        above : o.lte x y ≡ false → o.lte y x ≡ true
        above gt = elim (o.lte_total x y) [ inl le ↦ cc | inr ge ↦ ge ]

    pub sorted-IsAscending : (xs : List A) → IsAscending (sorted xs)
    unfolding sorted
    sorted-IsAscending [] = tt
    sorted-IsAscending (x ∷ xs) = insert-IsAscending x (sorted xs) (sorted-IsAscending xs)

    insert-All : (P : A → Type 0) (x : A) (xs : List A) → P x → All P xs → All P (insert x xs)
    unfolding insert
    insert-All P x [] p _ = (p, tt)
    insert-All P x (y ∷ ys) p (q, qs) = elim (Bool-cases (o.lte x y)) [
      | inl le ↦ rw le (p, (q, qs))
      | inr gt ↦ rw gt (q, insert-All P x ys p qs)
    ]

    pub sorted-All : (P : A → Type 0) (xs : List A) → All P xs → All P (sorted xs)
    unfolding sorted
    sorted-All P [] _ = tt
    sorted-All P (x ∷ xs) (p, ps) = insert-All P x (sorted xs) p (sorted-All P xs ps)
