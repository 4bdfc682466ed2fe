-- ===== src/Workload/Schedule.antt =====
-- `shape_schedule` of loadgen/client.py: how often a schedule has each shape.
use llm_serving_engine.Base.{
  ℕ, zero, suc, ◌+◌, ◌≤◌, ◌<◌, ◌≡◌, refl, sym, ap, ◌∙◌, Bool, true, false, some, List, [], ◌∷◌,
  ◌++◌, length, get_elem?, replicate, length-append, length-replicate, All, some_or-eq, total,
  count_if, ◌==◌, arith,
}
use llm_serving_engine.Workload.{
  RequestShape, weight_of, sum, floor_of, shape_counts, expand, shape_schedule,
}
use llm_serving_engine.Workload.Shares.{shape_counts-sum, shape_counts-floor, length-shape_counts}

-- `random.shuffle` permutes: every test passes as often.
pub record IsShuffle (shuffle : List RequestShape → List RequestShape) : Type 0 where
  pub count_same :
      (p : RequestShape → Bool) (ss : List RequestShape) → count_if p (shuffle ss) ≡ count_if p ss

count_if-all : (ss : List RequestShape) → count_if (λ _. true) ss ≡ length ss
count_if-all [] = refl
count_if-all (s ∷ ss) = omega (arith, count_if-all ss)

count_if-append :
    (p : RequestShape → Bool) (xs ys : List RequestShape)
    → count_if p (xs ++ ys) ≡ count_if p xs + count_if p ys
count_if-append p [] ys = omega arith
count_if-append p (x ∷ xs) ys = omega (arith, count_if-append p xs ys)

count_if-replicate :
    (p : RequestShape → Bool) (n : ℕ) (s : RequestShape)
    → p s ≡ true
    → count_if p (replicate n s) ≡ n
count_if-replicate p zero s h = refl
count_if-replicate p (suc n) s h = rw h (omega (arith, count_if-replicate p n s h))

length-expand :
    (ss : List RequestShape) (cs : List ℕ) → length cs ≡ length ss → length (expand ss cs) ≡ sum cs
unfolding expand
length-expand [] [] h = refl
length-expand [] (c ∷ cs) h = absurd (omega (arith, h))
length-expand (s ∷ ss) [] h = absurd (omega (arith, h))
length-expand (s ∷ ss) (c ∷ cs) h = omega (
  arith,
  length-append (replicate c s) (expand ss cs),
  length-replicate c s,
  length-expand ss cs (omega (arith, h)),
)

expand-count :
    (p : RequestShape → Bool) (floor i : ℕ) (s : RequestShape) (ss : List RequestShape)
    (cs : List ℕ)
    → length cs ≡ length ss
    → All (λ c. floor ≤ c) cs
    → get_elem? ss i ≡ some s
    → p s ≡ true
    → floor ≤ count_if p (expand ss cs)
unfolding expand
expand-count p floor i s [] cs h _ at t = absurd cc
expand-count p floor i s (r ∷ rs) [] h _ at t = absurd (omega (arith, h))
expand-count p floor zero s (r ∷ rs) (c ∷ cs) h (le, les) at t =
    let passes : p r ≡ true = ap p (some_or-eq r s at) ∙ t in
    omega
      (arith, le, count_if-append p (replicate c r) (expand rs cs), count_if-replicate p c r passes)
expand-count p floor (suc i) s (r ∷ rs) (c ∷ cs) h (le, les) at t = omega (
  arith,
  count_if-append p (replicate c r) (expand rs cs),
  expand-count p floor i s rs cs (omega (arith, h)) les at t,
)

-- If the shuffle permutes, and the workload has a shape and a positive total weight,
-- shape_schedule returns as many requests as asked for, with at least the floor of each shape.
pub shape_schedule-counts :
    (shuffle : List RequestShape → List RequestShape) (m num : ℕ) (workload : List RequestShape)
    → IsShuffle shuffle
    → 0 < length workload
    → 0 < total weight_of workload
    → (schedule : List RequestShape) × (shape_schedule shuffle m num workload ≡ some schedule)
      × (length schedule ≡ num)
      × ((i : ℕ) (s : RequestShape)
          → get_elem? workload i ≡ some s
          → floor_of m num workload ≤ count_if (λ (r : RequestShape). r.name == s.name) schedule)
unfolding shape_schedule
shape_schedule-counts shuffle m num workload law some_shape some_weight =
    let counts = shape_counts m num workload in
    let sent = expand workload counts in
    let size = length-shape_counts m num workload some_shape some_weight in
    let shapes : (length workload == 0) ≡ false = ground arith in
    let weights : (total weight_of workload == 0) ≡ false = ground arith in
    (
      shuffle sent,
      rw (shapes, weights) refl,
      sym (count_if-all (shuffle sent))
          ∙ (law.count_same (λ _. true) sent
              ∙ (count_if-all sent
                  ∙ (length-expand workload counts size
                      ∙ shape_counts-sum m num workload some_shape some_weight))),
      λ i s at.
          let named = λ (r : RequestShape). r.name == s.name in
          let same : named s ≡ true = ground arith in
          let enough =
            expand-count named (floor_of m num workload) i s workload counts size
              (shape_counts-floor m num workload some_shape some_weight) at same in
          omega (arith, enough, law.count_same named sent),
    )
