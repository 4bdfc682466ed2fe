-- ===== src/Report/Monitors.antt =====
-- The statistics of src/llm_serving_engine/loadgen/kv_monitor.py and gpu_monitor.py. A scrape that
-- failed is no reading; `final` is the last one, when the monitor exits.
use llm_serving_engine.Base.{
  ℕ, Option, none, some, List, [], ◌∷◌, ◌++◌, map, ℤ, ◌-ℤ◌, last_or, Ratio, largest_or, pos,
}
use llm_serving_engine.Metrics.Percentile.{mean}

-- `(utilization, preemptions counter)`
abbrev pub Reading : Type 0
Reading = Ratio × ℕ

pub record KvStats : Type 0 where
  pub peak_utilization : Option Ratio
  pub mean_utilization : Option Ratio
  pub preemptions : Option ℤ

abbrev pub peak : List Ratio → Option Ratio
peak [] = none
peak (q ∷ qs) = some (largest_or q (q ∷ qs))

-- The counters' last one minus the first one.
abbrev pub growth_of_counter : List ℕ → Option ℤ
growth_of_counter [] = none
growth_of_counter (c ∷ cs) = some (pos (last_or c cs) -ℤ pos c)

abbrev pub utilization_of : Reading → Ratio
utilization_of (utilization, preemptions) = utilization

abbrev pub preemptions_of : Reading → ℕ
preemptions_of (utilization, preemptions) = preemptions

abbrev pub with_final : Option Reading → List Reading → List Reading
with_final none readings = readings
with_final (some final) readings = readings ++ final ∷ []

-- `KvCacheMonitor.__exit__`
unfoldable pub kv_stats : Option Reading → List Reading → KvStats
unfolding mean ◌-ℤ◌
kv_stats final readings =
    let all = with_final final readings in
    let utilizations = map utilization_of all in
    record {
      peak_utilization = peak utilizations;
      mean_utilization = mean utilizations;
      preemptions = growth_of_counter (map preemptions_of all);
    }

pub record GpuStats : Type 0 where
  pub peak_utilization_pct : Option Ratio
  pub mean_utilization_pct : Option Ratio
  pub peak_memory_used_mb : Option Ratio
  pub mean_memory_used_mb : Option Ratio

abbrev pub memory_of : Ratio × Ratio → Ratio
memory_of (utilization, memory) = memory

abbrev pub gpu_utilization_of : Ratio × Ratio → Ratio
gpu_utilization_of (utilization, memory) = utilization

-- `GpuMonitor.__exit__`
unfoldable pub gpu_stats : List (Ratio × Ratio) → GpuStats
unfolding mean
gpu_stats readings = record {
  peak_utilization_pct = peak (map gpu_utilization_of readings);
  mean_utilization_pct = mean (map gpu_utilization_of readings);
  peak_memory_used_mb = peak (map memory_of readings);
  mean_memory_used_mb = mean (map memory_of readings);
}
