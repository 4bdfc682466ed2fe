-- ===== src/Metrics/Percentile.antt =====
-- The summaries of src/llm_serving_engine/observability/metrics.py. A percentile is given in tenths
-- of a percent, so 999 is p99.9; `none` is the ValueError of an empty list.
use llm_serving_engine.Base.{
  ◌>>=◌, ℕ, ◌-◌, ◌*◌, min, Option, none, some, List, [], ◌∷◌, ◌++◌, map, length, get_elem?, sorted,
  Order, ℤ, Ratio, of_int, sum_ℚ, divided, ratio_order,
}
use llm_serving_engine.Allocator.Block.{ceil_div}
use llm_serving_engine.Metrics.{
  RequestMetrics, schedule_latency, prefill_latency, inter_token_latencies, total_latency,
}

-- The index of the nearest rank: `max(0, min(ceil(p * n / 100) - 1, n - 1))`.
unfoldable pub rank : ℕ → ℕ → ℕ
unfolding ceil_div
rank p n = min (ceil_div (p * n) 1000 - 1) (n - 1)

unfoldable pub percentile : {A : Type 0} ⦃o : Order A⦄ → List A → ℕ → Option A
unfolding rank
percentile values p = get_elem? (sorted values) (rank p (length values))

-- `ceil(100 / (100 - p))`
unfoldable pub min_samples : ℕ → ℕ
min_samples p = ceil_div 1000 (1000 - p)

pub record LatencySummary : Type 0 where
  pub count : ℕ
  pub p50 : Ratio
  pub p90 : Ratio
  pub p95 : Ratio
  pub p99 : Ratio
  pub p999 : Ratio
  pub mean : Ratio
  pub min : Ratio
  pub max : Ratio

-- `sum(values) / len(values)`
unfoldable pub mean : List Ratio → Option Ratio
mean [] = none
mean (q ∷ qs) = some (divided (sum_ℚ (q ∷ qs)) (length qs))

-- `min(values)` and `max(values)` are the first and the last of the values in order.
unfoldable pub summarize : List Ratio → Option LatencySummary
unfolding percentile mean
summarize values = do
  p50 ← percentile values 500
  p90 ← percentile values 900
  p95 ← percentile values 950
  p99 ← percentile values 990
  p999 ← percentile values 999
  average ← mean values
  least ← get_elem? (sorted values) 0
  most ← get_elem? (sorted values) (length values - 1)
  some (record {
    count = length values;
    p50 = p50;
    p90 = p90;
    p95 = p95;
    p99 = p99;
    p999 = p999;
    mean = average;
    min = least;
    max = most;
  })

abbrev pub to_list : Option ℤ → List Ratio
to_list none = []
to_list (some z) = of_int z ∷ []

pub data Stage : Type 0 where
  schedule prefill total inter_token : Stage

-- What one request adds to the values of a stage.
unfoldable pub stage_values : Stage → RequestMetrics → List Ratio
stage_values schedule m = to_list (schedule_latency m)
stage_values prefill m = to_list (prefill_latency m)
stage_values total m = to_list (total_latency m)
stage_values inter_token m = map of_int (inter_token_latencies m)

unfoldable pub all_values : Stage → List RequestMetrics → List Ratio
all_values stage [] = []
all_values stage (m ∷ ms) = stage_values stage m ++ all_values stage ms

-- The summary under a stage's name; a stage without values has none.
unfoldable pub summarize_stage_latencies : List RequestMetrics → Stage → Option LatencySummary
unfolding summarize all_values
summarize_stage_latencies ms stage = summarize (all_values stage ms)
