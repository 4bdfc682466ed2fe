-- ===== src/Metrics.antt =====
-- src/llm_serving_engine/observability/metrics.py: `RequestMetrics` here, and the summaries in
-- Percentile. A time is a reading of the monotonic clock in ticks.
pub mod Percentile
pub mod Ranks
pub mod Export
use llm_serving_engine.Base.{ℕ, Option, none, some, List, [], ◌∷◌, ℤ, sub_ℕ}

pub record RequestMetrics : Type 0 where
  pub enqueue_time : ℕ
  pub admit_time : Option ℕ
  pub first_token_time : Option ℕ
  pub token_times : List ℕ
  pub done_time : Option ℕ

abbrev pub new_metrics : ℕ → RequestMetrics
new_metrics now = record {
  enqueue_time = now;
  admit_time = none;
  first_token_time = none;
  token_times = [];
  done_time = none;
}

unfoldable pub schedule_latency : RequestMetrics → Option ℤ
schedule_latency m = elim m.admit_time [ none ↦ none | some t ↦ some (sub_ℕ t m.enqueue_time) ]

unfoldable pub prefill_latency : RequestMetrics → Option ℤ
prefill_latency m = elim m.first_token_time [
  | none ↦ none
  | some f ↦ elim m.admit_time [ none ↦ none | some a ↦ some (sub_ℕ f a) ]
]

unfoldable pub gaps : List ℕ → List ℤ
gaps [] = []
gaps (a ∷ []) = []
gaps (a ∷ b ∷ ts) = sub_ℕ b a ∷ gaps (b ∷ ts)

unfoldable pub inter_token_latencies : RequestMetrics → List ℤ
unfolding gaps
inter_token_latencies m = gaps m.token_times

unfoldable pub total_latency : RequestMetrics → Option ℤ
total_latency m = elim m.done_time [ none ↦ none | some t ↦ some (sub_ℕ t m.enqueue_time) ]
