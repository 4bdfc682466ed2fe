-- ===== src/Workload/Shares.antt =====
-- Lemmas on `shape_counts` of loadgen/client.py: sums, lengths and floors.
use native.Mathlib.Nat.{div-add-mod, mod-lt, mul-le-mul_right, le_of_mul-le-mul_right}
use llm_serving_engine.Base.{
  ℕ, zero, suc, ◌+◌, ◌-◌, ◌*◌, ◌/◌, ◌≤◌, ◌<◌, ◌≡◌, refl, sym, ap, subst, ◌∙◌, List, [], ◌∷◌, length,
  take, length-take, length-sorted, sorted, sorted-All, All, All-take, total, arith, min,
}
use llm_serving_engine.Workload.{
  remainder_order, RequestShape, weight_of, Remainder, shares, remainders, bump, bump_all, sum,
  floor_of, shape_counts,
}

module _ (floor weight_total by_weight : ℕ) where
  abbrev quotients : List RequestShape → ℕ
  quotients ss = total (λ (s : RequestShape). s.weight * by_weight / weight_total) ss

  -- Of what the weights take of `by_weight`, the quotients leave less than one for each shape.
  quotients-bounds :
      (ss : List RequestShape)
      → 0 < weight_total
      → (quotients ss * weight_total ≤ total weight_of ss * by_weight)
        × (total weight_of ss * by_weight ≤ (quotients ss + length ss) * weight_total)
  quotients-bounds [] h = (omega arith, omega arith)
  quotients-bounds (s ∷ ss) h =
      let (low, high) = quotients-bounds ss h in
      let d = div-add-mod (s.weight * by_weight) weight_total in
      let m = mod-lt (s.weight * by_weight) h in (grind (arith, low, d), grind (arith, high, d, m))

  sum-shares :
      (ss : List RequestShape)
      → sum (shares floor weight_total by_weight ss) ≡ floor * length ss + quotients ss
  unfolding shares
  sum-shares [] = omega arith
  sum-shares (s ∷ ss) = grind (arith, sum-shares ss)

  shares-floor :
      (ss : List RequestShape) → All (λ c. floor ≤ c) (shares floor weight_total by_weight ss)
  unfolding shares
  shares-floor [] = tt
  shares-floor (s ∷ ss) = (omega arith, shares-floor ss)

  length-shares :
      (ss : List RequestShape) → length (shares floor weight_total by_weight ss) ≡ length ss
  unfolding shares
  length-shares [] = refl
  length-shares (s ∷ ss) = ap suc (length-shares ss)

  length-remainders :
      (i : ℕ) (ss : List RequestShape) → length (remainders weight_total by_weight i ss) ≡ length ss
  unfolding remainders
  length-remainders i [] = refl
  length-remainders i (s ∷ ss) = ap suc (length-remainders (suc i) ss)

  remainders-below :
      (i n : ℕ) (ss : List RequestShape)
      → i + length ss ≤ n
      → All (λ (r : Remainder). r.index < n) (remainders weight_total by_weight i ss)
  unfolding remainders
  remainders-below i n [] h = tt
  remainders-below i n (s ∷ ss) h = (omega arith, remainders-below (suc i) n ss (omega arith))

sum-bump : (i : ℕ) (cs : List ℕ) → i < length cs → sum (bump i cs) ≡ suc (sum cs)
unfolding bump
sum-bump i [] h = absurd (omega arith)
sum-bump zero (c ∷ cs) h = omega arith
sum-bump (suc i) (c ∷ cs) h = omega (arith, sum-bump i cs (omega arith))

length-bump : (i : ℕ) (cs : List ℕ) → length (bump i cs) ≡ length cs
unfolding bump
length-bump i [] = refl
length-bump zero (c ∷ cs) = refl
length-bump (suc i) (c ∷ cs) = ap suc (length-bump i cs)

bump-floor :
    (floor i : ℕ) (cs : List ℕ) → All (λ c. floor ≤ c) cs → All (λ c. floor ≤ c) (bump i cs)
unfolding bump
bump-floor floor i [] _ = tt
bump-floor floor zero (c ∷ cs) (h, hs) = (omega arith, hs)
bump-floor floor (suc i) (c ∷ cs) (h, hs) = (h, bump-floor floor i cs hs)

abbrev IsIndex : ℕ → Remainder → Type 0
IsIndex n r = r.index < n

sum-bump_all :
    (rs : List Remainder) (cs : List ℕ)
    → All (IsIndex (length cs)) rs
    → sum (bump_all rs cs) ≡ length rs + sum cs
unfolding bump_all
sum-bump_all [] cs _ = omega arith
sum-bump_all (r ∷ rs) cs (h, hs) = omega (
  arith,
  sum-bump r.index cs h,
  sum-bump_all rs (bump r.index cs)
      (subst (λ n. All (IsIndex n) rs) (sym (length-bump r.index cs)) hs),
)

length-bump_all : (rs : List Remainder) (cs : List ℕ) → length (bump_all rs cs) ≡ length cs
unfolding bump_all
length-bump_all [] cs = refl
length-bump_all (r ∷ rs) cs = length-bump_all rs (bump r.index cs) ∙ length-bump r.index cs

bump_all-floor :
    (floor : ℕ) (rs : List Remainder) (cs : List ℕ)
    → All (λ c. floor ≤ c) cs
    → All (λ c. floor ≤ c) (bump_all rs cs)
unfolding bump_all
bump_all-floor floor [] cs h = h
bump_all-floor floor (r ∷ rs) cs h =
    bump_all-floor floor rs (bump r.index cs) (bump-floor floor r.index cs h)

floor-fits : (m num n : ℕ) → 0 < n → min m (num / (2 * n)) * n ≤ num
floor-fits m num n h =
    let d = div-add-mod num (2 * n) in
    let below : min m (num / (2 * n)) ≤ num / (2 * n) = omega arith in
    grind (arith, d, mul-le-mul_right n below)

-- The counts, with the floor as it is.
module _ (m num : ℕ) (ws : List RequestShape) (some_shape : 0 < length ws)
    (some_weight : 0 < total weight_of ws) where
  pub shape_counts-sum : sum (shape_counts m num ws) ≡ num
  unfolding shape_counts
  shape_counts-sum =
      let floor = floor_of m num ws in
      let t = total weight_of ws in
      let b = num - floor * length ws in
      let q = quotients floor t b ws in
      let (low, high) = quotients-bounds floor t b ws some_weight in
      let fits : floor * length ws ≤ num = floor-fits m num (length ws) some_shape in
      let at_most : q ≤ b = le_of_mul-le-mul_right {k = t} (grind (arith, low)) some_weight in
      let at_least : b ≤ q + length ws =
        le_of_mul-le-mul_right {k = t} (grind (arith, high)) some_weight in
      let counts = shares floor t b ws in
      let ranked = sorted (remainders t b 0 ws) in
      let wide : length ranked ≡ length ws =
        length-sorted (remainders t b 0 ws) ∙ length-remainders floor t b 0 ws in
      let inside : All (IsIndex (length counts)) ranked =
        sorted-All (IsIndex (length counts)) (remainders t b 0 ws) (
          remainders-below floor t b 0 (length counts) ws
            (omega (arith, length-shares floor t b ws))) in
      omega (
        arith,
        fits,
        at_most,
        at_least,
        wide,
        sum-shares floor t b ws,
        length-take (num - sum counts) ranked,
        sum-bump_all (take (num - sum counts) ranked) counts
            (All-take (IsIndex (length counts)) (num - sum counts) ranked inside),
      )

  pub length-shape_counts : length (shape_counts m num ws) ≡ length ws
  unfolding shape_counts
  length-shape_counts =
      let floor = floor_of m num ws in
      let t = total weight_of ws in
      let b = num - floor * length ws in
      let counts = shares floor t b ws in
      length-bump_all (take (num - sum counts) (sorted (remainders t b 0 ws))) counts
      ∙ length-shares floor t b ws

  pub shape_counts-floor : All (λ c. floor_of m num ws ≤ c) (shape_counts m num ws)
  unfolding shape_counts
  shape_counts-floor =
      let floor = floor_of m num ws in
      let t = total weight_of ws in
      let b = num - floor * length ws in
      let counts = shares floor t b ws in
      bump_all-floor floor (take (num - sum counts) (sorted (remainders t b 0 ws))) counts
        (shares-floor floor t b ws)
