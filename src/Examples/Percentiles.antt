-- ===== src/Examples/Percentiles.antt =====
-- Percentiles of src/llm_serving_engine/observability/metrics.py on small lists.
use llm_serving_engine.Base.{
  ℕ, ◌*◌, ◌≤◌, ◌<◌, ◌≡◌, ◌⊎◌, refl, some, List, [], ◌∷◌, sorted, insert, nat_order, arith,
}
use llm_serving_engine.Metrics.Percentile.{rank, percentile}
use llm_serving_engine.Metrics.Ranks.{up_to, under, percentile-ranks}

abbrev some_values : List ℕ
some_values = 5 ∷ 1 ∷ 9 ∷ 3 ∷ []

median_of_four : percentile some_values 500 ≡ some 3
unfolding percentile rank sorted insert
median_of_four = refl

percentile-ranks_example :
    (v : ℕ) × (percentile some_values 500 ≡ some v)
    × (500 * 4 ≤ 1000 * up_to v some_values)
    × ((under v some_values ≡ 0) ⊎ (1000 * under v some_values < 500 * 4))
percentile-ranks_example = percentile-ranks some_values 500 (omega arith) (omega arith)
