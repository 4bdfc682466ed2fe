-- ===== src/Workload.antt =====
-- src/llm_serving_engine/loadgen/client.py: which request shapes a load run sends. A name and a prompt
-- are numbers that stand for them, and a weight is counted in hundredths.
pub mod Shares
pub mod Schedule
use llm_serving_engine.Base.{
  ℕ, zero, suc, ◌+◌, ◌-◌, ◌*◌, ◌/◌, ◌%◌, min, Option, none, some, List, [], ◌∷◌, ◌++◌, length, take,
  replicate, total, sorted, Order, leb, leb_total, leb_trans, ◌==◌, if◌then◌else◌,
}

pub record RequestShape : Type 0 where
  pub name : ℕ
  pub prompt : ℕ
  pub max_tokens : ℕ
  pub weight : ℕ

-- `MIN_REQUESTS_PER_SHAPE`
abbrev pub min_requests_per_shape : ℕ
min_requests_per_shape = 20

abbrev pub weight_of : RequestShape → ℕ
weight_of s = s.weight

-- `exact[i] - counts[i]` with the index: the remainder of the division by the total weight.
pub record Remainder : Type 0 where
  pub part : ℕ
  pub index : ℕ

-- The larger remainder first; `sorted` with `reverse=True` keeps the order of equal ones.
instance abbrev pub remainder_order : Order Remainder
remainder_order = record {
  lte = λ a b. leb b.part a.part;
  lte_total = λ a b. leb_total b.part a.part;
  lte_trans = λ a b c h g. leb_trans c.part b.part a.part g h;
}

-- `[int(share) for share in exact]`
unfoldable pub shares : (floor weight_total by_weight : ℕ) → List RequestShape → List ℕ
shares floor weight_total by_weight [] = []
shares floor weight_total by_weight (s ∷ ss) =
    (floor + s.weight * by_weight / weight_total) ∷ shares floor weight_total by_weight ss

unfoldable pub remainders :
    (weight_total by_weight : ℕ) → (index : ℕ) → List RequestShape → List Remainder
remainders weight_total by_weight index [] = []
remainders weight_total by_weight index (s ∷ ss) =
    record { part = s.weight * by_weight % weight_total; index = index }
    ∷ remainders weight_total by_weight (suc index) ss

-- `counts[i] += 1`
unfoldable pub bump : ℕ → List ℕ → List ℕ
bump i [] = []
bump zero (c ∷ cs) = suc c ∷ cs
bump (suc i) (c ∷ cs) = c ∷ bump i cs

-- `for i in ranked[...]: counts[i] += 1`
unfoldable pub bump_all : List Remainder → List ℕ → List ℕ
unfolding bump
bump_all [] counts = counts
bump_all (r ∷ rs) counts = bump_all rs (bump r.index counts)

abbrev pub sum : List ℕ → ℕ
sum counts = total (λ n. n) counts

abbrev pub floor_of : (min_per_shape num_requests : ℕ) → List RequestShape → ℕ
floor_of min_per_shape num_requests workload =
    min min_per_shape (num_requests / (2 * length workload))

-- How many requests each shape gets.
unfoldable pub shape_counts : (min_per_shape num_requests : ℕ) → List RequestShape → List ℕ
unfolding shares remainders bump_all sorted
shape_counts min_per_shape num_requests workload =
    let floor = floor_of min_per_shape num_requests workload in
    let weight_total = total weight_of workload in
    let by_weight = num_requests - floor * length workload in
    let counts = shares floor weight_total by_weight workload in
    let ranked = sorted (remainders weight_total by_weight 0 workload) in
    bump_all (take (num_requests - sum counts) ranked) counts

-- `[shape for shape, count in zip(workload, counts) for _ in range(count)]`
unfoldable pub expand : List RequestShape → List ℕ → List RequestShape
expand (s ∷ ss) (c ∷ cs) = replicate c s ++ expand ss cs
expand _ _ = []

module _ (shuffle : List RequestShape → List RequestShape) where
  -- `rng.shuffle` is a parameter; `none` is the ZeroDivisionError of an empty workload, or of one
  -- without weight.
  unfoldable pub shape_schedule :
      (min_per_shape num_requests : ℕ) → List RequestShape → Option (List RequestShape)
  unfolding shape_counts expand
  shape_schedule min_per_shape num_requests workload =
      if length workload == 0
      then none
      else if total weight_of workload == 0
      then none
      else some (shuffle (expand workload (shape_counts min_per_shape num_requests workload)))
