-- ===== src/Report/Build.antt =====
-- `build_report` and `build_point`, and what they say on keeping up.
use llm_serving_engine.Base.{
  ◌>>=◌, ℕ, ◌+◌, ◌-◌, Bool, true, false, not, ◌&&◌, Option, none, some, List, [], ◌∷◌, ◌++◌, length,
  if◌then◌else◌, ◌==◌, pos, Ratio, of_int, ◌-ℚ◌, ◌/ℚ◌, divided, leb_ℚ,
}
use llm_serving_engine.Report.{
  Result, SloThresholds, zero_ℚ, max_keeping_up_ttft_growth, has, or_zero, tpot, filter_by,
  wall_clock_s, send_window_s, ttft_growth, satisfies, attainment_pct, ttft,
}
use llm_serving_engine.Report.Latencies.{LatencyReport, summarize_latencies}

pub record SloAttainment : Type 0 where
  pub ttft : Option Ratio
  pub tpot : Option Ratio
  pub e2e : Option Ratio

pub record RunReport : Type 0 where
  pub send_window : Ratio
  pub wall_clock : Ratio
  pub requests : ℕ
  pub failures : ℕ
  pub offered_req_s : Option Ratio
  pub throughput_req_s : Ratio
  pub output_tokens_s : Ratio
  pub input_tokens_s : Ratio
  pub total_tokens_s : Ratio
  pub latency : LatencyReport
  pub growth : Option Ratio
  pub goodput_req_s : Option Ratio
  pub slo_attainment : Option SloAttainment

-- `RunReport.keeps_up`
unfoldable pub run_keeps_up : RunReport → Option Bool
run_keeps_up report = elim report.offered_req_s [
  | none ↦ none
  | some offered ↦
      if not (report.failures == 0)
      then some false
      else elim report.growth [ none ↦ none | some g ↦ some (leb_ℚ g max_keeping_up_ttft_growth) ]
]

-- `count / elapsed if elapsed > 0 else 0.0`
unfoldable pub per_second : Ratio → ℕ → Ratio
unfolding ◌/ℚ◌
per_second elapsed count =
    if leb_ℚ elapsed zero_ℚ
    then zero_ℚ
    else elim (of_int (pos count) /ℚ elapsed) [ none ↦ zero_ℚ | some q ↦ q ]

abbrev pub in_window : (start window : Ratio) → Result → Bool
in_window start window r = leb_ℚ start r.completed_at && leb_ℚ r.completed_at window

abbrev pub token_sum : (Result → Option ℕ) → List Result → ℕ
token_sum tokens [] = 0
token_sum tokens (r ∷ rs) = or_zero (tokens r) + token_sum tokens rs

-- `STEADY_START_FRACTION * window`, a quarter of it.
abbrev pub steady_start : Ratio → Ratio
steady_start window = divided window 3

-- The successes that the rates count.
unfoldable pub counted_of : List Result → List Result
unfolding filter_by send_window_s divided
counted_of rs =
    let window = send_window_s rs in
    filter_by (in_window (steady_start window) window) (filter_by (λ (r : Result). r.success) rs)

abbrev pub judged :
    Option SloThresholds
    → (Ratio × (List Result × List Result))
    → Option Ratio × Option SloAttainment
judged none _ = (none, none)
judged (some slo) (elapsed, (counted, successes)) = (
  some (per_second elapsed (length (filter_by (satisfies slo) counted))),
  some (record {
    ttft = attainment_pct ttft slo.ttft_ms successes;
    tpot = attainment_pct tpot slo.tpot_ms successes;
    e2e = attainment_pct (λ (r : Result). some r.latency) slo.e2e_ms successes;
  }),
)

-- The report of `build_report`, with the growth that `ttft_growth` returns.
unfoldable pub report_of : List Result → Option SloThresholds → Option Ratio → RunReport
unfolding counted_of filter_by send_window_s wall_clock_s divided ◌-ℚ◌ ◌/ℚ◌ per_second satisfies
report_of rs slo growth =
    let successes = filter_by (λ (r : Result). r.success) rs in
    let window = send_window_s rs in
    let elapsed = window -ℚ steady_start window in
    let counted = counted_of rs in
    let scheduled = filter_by (λ (r : Result). has r.scheduled_at) rs in
    let open_loop = not (length scheduled == 0) && not (leb_ℚ window zero_ℚ) in
    let outputs = token_sum (λ (r : Result). r.output_tokens) counted in
    let inputs = token_sum (λ (r : Result). r.prompt_tokens) counted in
    let (goodput, attainment) = judged slo (elapsed, (counted, successes)) in
    record {
      send_window = window;
      wall_clock = wall_clock_s rs;
      requests = length rs;
      failures = length rs - length successes;
      offered_req_s = if open_loop then of_int (pos (length rs)) /ℚ window else none;
      throughput_req_s = per_second elapsed (length counted);
      output_tokens_s = per_second elapsed outputs;
      input_tokens_s = per_second elapsed inputs;
      total_tokens_s = per_second elapsed (outputs + inputs);
      latency = summarize_latencies rs;
      growth = growth;
      goodput_req_s = goodput;
      slo_attainment = attainment;
    }

-- `none` is the exception of `ttft_growth`.
unfoldable pub build_report : List Result → Option SloThresholds → Option RunReport
unfolding report_of
build_report rs slo = do growth ← ttft_growth rs; some (report_of rs slo growth)

pub record PointReport : Type 0 where
  pub repeats : List RunReport
  pub latency : LatencyReport

unfoldable pub build_all : List (List Result) → Option SloThresholds → Option (List RunReport)
build_all [] slo = some []
build_all (rs ∷ runs) slo = do
  report ← build_report rs slo
  rest ← build_all runs slo
  some (report ∷ rest)

abbrev pub join : List (List Result) → List Result
join [] = []
join (rs ∷ runs) = rs ++ join runs

unfoldable pub build_point : List (List Result) → Option SloThresholds → Option PointReport
unfolding build_all
build_point runs slo = do
  reports ← build_all runs slo
  some (record { repeats = reports; latency = summarize_latencies (join runs) })

-- `verdict in [r.keeps_up for r in repeats]`
abbrev pub is_verdict : Bool → Option Bool → Bool
is_verdict b none = false
is_verdict true (some v) = v
is_verdict false (some v) = not v

unfoldable pub any_verdict : Bool → List RunReport → Bool
unfolding run_keeps_up
any_verdict b [] = false
any_verdict b (r ∷ rs) = if is_verdict b (run_keeps_up r) then true else any_verdict b rs

-- `PointReport.keeps_up`
unfoldable pub point_keeps_up : PointReport → Option Bool
unfolding any_verdict
point_keeps_up point =
    if any_verdict false point.repeats
    then some false
    else if any_verdict true point.repeats
    then some true
    else none
