-- ===== src/Metrics/Ranks.antt =====
-- What the nearest-rank percentile of a sample says of the sample.
use native.Mathlib.Nat.{mul-le-mul_right, add-mul, mul_comm, mul-pos}
use llm_serving_engine.Base.{
  ℕ, zero, suc, ◌+◌, ◌-◌, ◌*◌, ◌≤◌, ◌<◌, ◌≡◌, ◌⊎◌, ◌↔◌, refl, inl, inr, true, not, some, List, [],
  ◌∷◌, length, get_elem?, get_elem?-lt_some, sorted, All, Order, IsAscending, sorted-IsAscending,
  count_if, count_if-sorted, length-sorted, Bool-cases, arith, subst, ap, sym, ◌∙◌, leb, leb→le,
}
use llm_serving_engine.Allocator.Block.{ceil_div}
use llm_serving_engine.Allocator.Cover.{ceil_div-le_iff, div-lt-ceil_div}
use llm_serving_engine.Metrics.Percentile.{rank, percentile, min_samples}

rank-lt : (p n : ℕ) → 0 < n → rank p n < n
unfolding rank
rank-lt p n h = omega arith

-- The rank against the exact share `p * n / 1000`.
rank-bounds :
    (p n : ℕ)
    → p ≤ 1000
    → (p * n ≤ 1000 * (rank p n + 1)) × ((rank p n ≡ 0) ⊎ (1000 * rank p n < p * n))
unfolding rank
rank-bounds p n le =
    let c = ceil_div (p * n) 1000 in
    let above = (ceil_div-le_iff (p * n) 1000 c (omega arith)).0 (omega arith) in
    let within : c ≤ n =
      (ceil_div-le_iff (p * n) 1000 n (omega arith)).1
        (omega (arith, mul-le-mul_right {m = p} {n = 1000} n le)) in
    let tight = (ceil_div-le_iff (p * n) 1000 (c - 1) (omega arith)).1 in
    (
      omega (arith, above, within),
      elim (Bool-cases (leb (p * n) ((c - 1) * 1000))) [
        | inl fits ↦
            let none_left : c ≤ c - 1 = tight (leb→le (p * n) ((c - 1) * 1000) fits) in
            inl (omega arith)
        | inr past ↦
            let lt : (c - 1) * 1000 < p * n = ground (arith, past) in
            inr (omega (arith, lt, within))
      ],
    )

module _ {A : Type 0} ⦃o : Order A⦄ where
  -- Not above `v`, and below it.
  abbrev pub up_to : A → List A → ℕ
  up_to v = count_if (λ x. o.lte x v)

  abbrev pub under : A → List A → ℕ
  under v = count_if (λ x. not (o.lte v x))

  none_under : (v : A) (xs : List A) → All (λ y. o.lte v y ≡ true) xs → under v xs ≡ 0
  none_under v [] _ = refl
  none_under v (x ∷ xs) (h, rest) = ground (arith, h, none_under v xs rest)

  lte_refl : (v : A) → o.lte v v ≡ true
  lte_refl v = elim (o.lte_total v v) [ inl h ↦ h | inr h ↦ h ]

  All-lte :
      (x v : A) (xs : List A) (k : ℕ)
      → All (λ y. o.lte x y ≡ true) xs
      → get_elem? xs k ≡ some v
      → o.lte x v ≡ true
  All-lte x v [] k _ e = absurd (ground arith)
  All-lte x v (y ∷ ys) zero (h, _) e = ground (arith, h)
  All-lte x v (y ∷ ys) (suc k) (_, rest) e = All-lte x v ys k rest e

  head-ranks :
      (x : A) (xs : List A)
      → All (λ y. o.lte x y ≡ true) xs
      → (0 < up_to x (x ∷ xs)) × (under x (x ∷ xs) ≤ 0)
  head-ranks x xs all = ground (arith, lte_refl x, none_under x xs all)

  -- In an ascending list the element at `k` has at least `k + 1` elements up to it and at most `k`
  -- below it.
  pub IsAscending-ranks :
      (xs : List A) (k : ℕ) (v : A)
      → IsAscending xs
      → get_elem? xs k ≡ some v
      → (k < up_to v xs) × (under v xs ≤ k)
  IsAscending-ranks [] k v h e = absurd (ground arith)
  IsAscending-ranks (x ∷ xs) zero v (all, h) e =
      subst (λ u. (0 < up_to u (x ∷ xs)) × (under u (x ∷ xs) ≤ 0)) (cc) (head-ranks x xs all)
  IsAscending-ranks (x ∷ xs) (suc k) v (all, h) e =
      ground (arith, IsAscending-ranks xs k v h e, All-lte x v xs k all e)

  -- For any total order, percentile of a non-empty list at p up to 100 percent returns a value
  -- such that at least p of the values are up to it, and either no value is below it or less than
  -- p of the values are.
  pub percentile-ranks :
      (values : List A) (p : ℕ)
      → p ≤ 1000
      → 0 < length values
      → (v : A) × (percentile values p ≡ some v)
        × (p * length values ≤ 1000 * up_to v values)
        × ((under v values ≡ 0) ⊎ (1000 * under v values < p * length values))
  unfolding percentile
  percentile-ranks values p le some_values =
      let n = length values in
      let k = rank p n in
      let (v, at) =
        get_elem?-lt_some (sorted values) k
          (omega (arith, rank-lt p n some_values, length-sorted values)) in
      let (up, low) = IsAscending-ranks (sorted values) k v (sorted-IsAscending values) at in
      let (enough, tight) = rank-bounds p n le in
      (
        v,
        at,
        omega (arith, up, enough, count_if-sorted (λ x. o.lte x v) values),
        elim tight [
          | inl first ↦
              inl (omega (arith, low, first, count_if-sorted (λ x. not (o.lte v x)) values))
          | inr lt ↦ inr (omega (arith, low, lt, count_if-sorted (λ x. not (o.lte v x)) values))
        ],
      )

-- For p above 0 and below 100 percent, the rank of p is below that of the largest value if and
-- only if there are at least min_samples values.
min_samples-rank : (p n : ℕ) → 0 < p → p < 1000 → 0 < n → (rank p n < n - 1) ↔ (min_samples p ≤ n)
unfolding rank min_samples
min_samples-rank p n pos lt some_values =
    let d = 1000 - p in
    let c = ceil_div (p * n) 1000 in
    let split : d * n + p * n ≡ 1000 * n = sym (add-mul d p n) ∙ ap (λ k. k * n) (omega arith) in
    let swap = mul_comm n d in
    let product = mul-pos pos some_values in
    let some_rank : 0 < c =
      omega (arith, div-lt-ceil_div 0 (p * n) 1000 (omega arith) (omega arith)) in
    let (ranked, ranks) = ceil_div-le_iff (p * n) 1000 (n - 1) (omega arith) in
    let (sampled, samples) = ceil_div-le_iff 1000 d n (omega arith) in
    (
      λ low. let fits : c ≤ n - 1 = omega arith in let share = ranked fits in samples (omega arith),
      λ enough.
          let share = sampled enough in
          let fits = ranks (omega arith) in omega (arith, fits, some_rank),
    )
