-- ===== src/Metrics/Export.antt =====
-- src/llm_serving_engine/observability/metrics_export.py: what `record_request` adds to the registry.
-- A histogram is the list of its observations.
use llm_serving_engine.Base.{ℕ, suc, Option, none, some, List, [], ◌∷◌, ◌++◌, ℤ}
use llm_serving_engine.Metrics.{
  RequestMetrics, schedule_latency, prefill_latency, inter_token_latencies, total_latency,
}

pub record Registry : Type 0 where
  pub successes : ℕ
  pub errors : ℕ
  pub schedule_latencies : List ℤ
  pub prefill_latencies : List ℤ
  pub inter_token_gaps : List ℤ
  pub total_latencies : List ℤ

abbrev pub observe : Option ℤ → List ℤ → List ℤ
observe none seen = seen
observe (some v) seen = seen ++ v ∷ []

unfoldable pub record_request : RequestMetrics → Registry → Registry
record_request m r = record r {
  schedule_latencies = observe (schedule_latency m) r.schedule_latencies;
  prefill_latencies = observe (prefill_latency m) r.prefill_latencies;
  inter_token_gaps = r.inter_token_gaps ++ inter_token_latencies m;
  total_latencies = observe (total_latency m) r.total_latencies;
  successes = elim m.done_time [ none ↦ r.successes | some t ↦ suc r.successes ];
  errors = elim m.done_time [ none ↦ suc r.errors | some t ↦ r.errors ];
}

-- `record_request` for the requests that end, one after another.
unfoldable pub record_all : List RequestMetrics → Registry → Registry
unfolding record_request
record_all [] r = r
record_all (m ∷ ms) r = record_all ms (record_request m r)
