-- ===== src/Report.antt =====
-- src/llm_serving_engine/loadgen/report.py: what a load run's results are judged on. Times are
-- exact fractions of a second, and a shape is a number that stands for its name.
pub mod Latencies
pub mod Build
pub mod Monitors
use llm_serving_engine.Base.{
  ◌>>=◌, ℕ, suc, ◌+◌, ◌-◌, ◌*◌, ◌/◌, ◌%◌, Bool, true, false, not, ◌&&◌, Option, none, some, List,
  [], ◌∷◌, length, take, drop, get_elem?, sorted, Order, ltb, leb, ◌==◌, if◌then◌else◌, pos, Ratio,
  of_int, ◌+ℚ◌, ◌-ℚ◌, ◌/ℚ◌, times, divided, leb_ℚ, by_key, largest_or, ratio_order,
}

-- The dict of one request. A key that is missing is `none`, as a None is.
pub record Result : Type 0 where
  pub shape : ℕ
  pub success : Bool
  pub scheduled_at : Option Ratio
  pub completed_at : Ratio
  pub latency : Ratio
  pub first_token_latency : Option Ratio
  pub token_times : List Ratio
  pub prompt_tokens : Option ℕ
  pub output_tokens : Option ℕ

pub record SloThresholds : Type 0 where
  pub ttft_ms : Option Ratio
  pub tpot_ms : Option Ratio
  pub e2e_ms : Option Ratio

abbrev pub zero_ℚ : Ratio
zero_ℚ = of_int (pos 0)

-- `MAX_KEEPING_UP_TTFT_GROWTH`
abbrev pub max_keeping_up_ttft_growth : Ratio
max_keeping_up_ttft_growth = of_int (pos 2)

abbrev pub min_quarter_requests : ℕ
min_quarter_requests = 10

abbrev pub has : {A : Type 0} → Option A → Bool
has none = false
has (some a) = true

abbrev pub or_zero : Option ℕ → ℕ
or_zero none = 0
or_zero (some n) = n

abbrev pub at_least_two : Option ℕ → Option ℕ
at_least_two none = none
at_least_two (some n) = if ltb n 2 then none else some n

unfoldable pub tpot : Result → Option Ratio
unfolding ◌-ℚ◌ divided
tpot r = do
  first ← r.first_token_latency
  tokens ← at_least_two r.output_tokens
  some (divided (r.latency -ℚ first) (tokens - 2))

unfoldable pub filter_by : {A : Type 0} → (A → Bool) → List A → List A
filter_by p [] = []
filter_by p (x ∷ xs) = let rest = filter_by p xs in if p x then x ∷ rest else rest

-- The values that are not None.
unfoldable pub values_of : {A B : Type 0} → (A → Option B) → List A → List B
values_of f [] = []
values_of f (x ∷ xs) = let rest = values_of f xs in elim (f x) [ none ↦ rest | some v ↦ v ∷ rest ]

unfoldable pub wall_clock_s : List Result → Ratio
unfolding values_of
wall_clock_s rs = largest_or zero_ℚ (values_of (λ (r : Result). some r.completed_at) rs)

unfoldable pub send_window_s : List Result → Ratio
unfolding values_of wall_clock_s
send_window_s rs = largest_or (wall_clock_s rs) (values_of (λ (r : Result). r.scheduled_at) rs)

-- `statistics.median`; `none` is the StatisticsError of no data.
unfoldable pub median : List Ratio → Option Ratio
unfolding sorted ◌+ℚ◌ divided
median qs =
    let ordered = sorted qs in
    let half = length qs / 2 in
    if length qs % 2 == 1 then get_elem? ordered half else (do
      low ← get_elem? ordered (half - 1)
      high ← get_elem? ordered half
      some (divided (low +ℚ high) 1))

-- `Counter(...).most_common(1)`: of the shapes that come most often, the one that comes first.
abbrev pub occurrences : ℕ → List Result → ℕ
occurrences shape rs = length (filter_by (λ (r : Result). r.shape == shape) rs)

unfoldable pub most_common : ℕ → List Result → List Result → ℕ
most_common best [] all = best
most_common best (r ∷ rs) all =
    most_common (if ltb (occurrences best all) (occurrences r.shape all) then r.shape else best) rs
      all

abbrev pub is_timed : Result → Bool
is_timed r = has r.scheduled_at && r.success && has r.first_token_latency

abbrev pub schedule_of : Result → Ratio
schedule_of r = elim r.scheduled_at [ none ↦ zero_ℚ | some t ↦ t ]

-- `sorted(..., key=lambda r: r["scheduled_at"])`
instance abbrev pub result_order : Order Result
result_order = by_key schedule_of

abbrev pub ttft : Result → Option Ratio
ttft r = r.first_token_latency

-- The last quarter's median over the first one's; the outer `none` is an exception.
unfoldable pub growth_of : List Result → Option (Option Ratio)
unfolding values_of median ◌/ℚ◌
growth_of scheduled =
    let quarter = length scheduled / 4 in
    if ltb quarter min_quarter_requests then some none else (do
      first ← median (values_of ttft (take quarter scheduled))
      last ← median (values_of ttft (drop (length scheduled - quarter) scheduled))
      growth ← last /ℚ first
      some (some growth))

abbrev pub growth_of_timed : List Result → Option (Option Ratio)
growth_of_timed [] = some none
growth_of_timed (r ∷ rs) =
    let common = most_common r.shape (r ∷ rs) (r ∷ rs) in
    growth_of (sorted (filter_by (λ (s : Result). s.shape == common) (r ∷ rs)))

unfoldable pub ttft_growth : List Result → Option (Option Ratio)
unfolding filter_by most_common growth_of sorted
ttft_growth rs = growth_of_timed (filter_by is_timed rs)

-- One check of `_satisfies`.
abbrev pub meets : Option Ratio → Option Ratio → Bool
meets none value = true
meets (some threshold) none = false
meets (some threshold) (some value) = leb_ℚ (times 1000 value) threshold

unfoldable pub satisfies : SloThresholds → Result → Bool
unfolding tpot times
satisfies slo r =
    meets (if has r.scheduled_at then slo.ttft_ms else none) r.first_token_latency
    && meets slo.tpot_ms (tpot r)
    && meets slo.e2e_ms (some r.latency)

-- The share of the values within the threshold, in percent.
abbrev pub share_within : Ratio → List Ratio → Option Ratio
share_within threshold [] = none
share_within threshold (v ∷ vs) =
    let good = length (filter_by (λ (q : Ratio). leb_ℚ (times 1000 q) threshold) (v ∷ vs)) in
    some (divided (of_int (pos (100 * good))) (length vs))

unfoldable pub attainment_pct : (Result → Option Ratio) → Option Ratio → List Result → Option Ratio
unfolding values_of filter_by times divided
attainment_pct value none rs = none
attainment_pct value (some threshold) rs = share_within threshold (values_of value rs)
