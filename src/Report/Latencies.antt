-- ===== src/Report/Latencies.antt =====
-- `summarize_latencies`.
use llm_serving_engine.Base.{
  ℕ, Option, none, some, List, [], ◌∷◌, ◌++◌, sorted, Order, leb, leb_total, leb_trans, ◌==◌,
  if◌then◌else◌, Ratio, ◌-ℚ◌,
}
use llm_serving_engine.Metrics.Percentile.{LatencySummary, summarize}
use llm_serving_engine.Report.{Result, tpot, filter_by, values_of}

-- A dict from shapes to lists of values.
abbrev pub ByShape : Type 0
ByShape = List (ℕ × List Ratio)

pub record LatencyReport : Type 0 where
  pub ttft_by_shape : List (ℕ × LatencySummary)
  pub e2e_by_shape : List (ℕ × LatencySummary)
  pub e2e_latency : Option LatencySummary
  pub tpot : Option LatencySummary
  pub itl : Option LatencySummary

-- `by_shape.setdefault(shape, []).append(value)`
unfoldable pub append_value : ℕ → Ratio → ByShape → ByShape
append_value shape v [] = (shape, v ∷ []) ∷ []
append_value shape v ((s, vs) ∷ rest) =
    let later = append_value shape v rest in
    if s == shape then (s, vs ++ v ∷ []) ∷ rest else (s, vs) ∷ later

unfoldable pub collect : (Result → Option Ratio) → List Result → ByShape → ByShape
unfolding append_value
collect value [] dict = dict
collect value (r ∷ rs) dict = elim (value r) [
  | none ↦ collect value rs dict
  | some v ↦ collect value rs (append_value r.shape v dict)
]

-- `sorted(by_shape.items())`; no two items have one shape.
instance abbrev pub item_order : Order (ℕ × List Ratio)
item_order = record {
  lte = λ a b. leb a.0 b.0;
  lte_total = λ a b. leb_total a.0 b.0;
  lte_trans = λ a b c. leb_trans a.0 b.0 c.0;
}

unfoldable pub summarize_items : ByShape → List (ℕ × LatencySummary)
unfolding summarize
summarize_items [] = []
summarize_items ((shape, vs) ∷ rest) =
    let later = summarize_items rest in
    elim (summarize vs) [ none ↦ later | some s ↦ (shape, s) ∷ later ]

-- `[b - a for a, b in pairwise(times)]`
unfoldable pub pairwise_gaps : List Ratio → List Ratio
unfolding ◌-ℚ◌
pairwise_gaps [] = []
pairwise_gaps (a ∷ []) = []
pairwise_gaps (a ∷ b ∷ ts) = (b -ℚ a) ∷ pairwise_gaps (b ∷ ts)

unfoldable pub all_gaps : List Result → List Ratio
unfolding pairwise_gaps
all_gaps [] = []
all_gaps (r ∷ rs) = pairwise_gaps r.token_times ++ all_gaps rs

abbrev pub scheduled_ttft : Result → Option Ratio
scheduled_ttft r = elim r.scheduled_at [ none ↦ none | some t ↦ r.first_token_latency ]

unfoldable pub summarize_latencies : List Result → LatencyReport
unfolding filter_by values_of collect sorted summarize_items summarize all_gaps tpot
summarize_latencies rs =
    let successes = filter_by (λ (r : Result). r.success) rs in
    let e2e = λ (r : Result). some r.latency in
    record {
      ttft_by_shape = summarize_items (sorted (collect scheduled_ttft successes []));
      e2e_by_shape = summarize_items (sorted (collect e2e successes []));
      e2e_latency = summarize (values_of e2e successes);
      tpot = summarize (values_of tpot successes);
      itl = summarize (all_gaps successes);
    }
