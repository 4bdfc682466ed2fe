-- ===== src/Scheduler/State.antt =====
-- What one `scheduler_step` works on: the lists `running` and `waiting`, the pool and the plan that
-- is being built. The Python code mutates all of them in place; here a pass returns the new state.
use llm_serving_engine.Base.{ℕ, ◌+◌, ◌/◌, max, Bool, List, [], ◌∷◌, ◌==◌, if◌then◌else◌}
use llm_serving_engine.Sequence.{
  Sequence, waiting, prefilling, decoding, BatchPlan, num_tokens, BlockTable,
}
use llm_serving_engine.Allocator.{KvAllocator}

pub record SchedulerState (kv : KvAllocator) : Type 0 where
  pub running : List Sequence
  pub queue : List Sequence
  pub pool : kv.Pool
  pub plan : BatchPlan

-- The two subclasses, which differ in `admission_cap` only.
pub data SchedulerKind : Type 0 where
  continuous static : SchedulerKind

pub record Scheduler : Type 0 where
  pub token_budget : ℕ
  pub max_running : ℕ
  pub max_prefill_chunk : ℕ
  pub kind : SchedulerKind

abbrev pub default_token_budget : ℕ
default_token_budget = 4096

abbrev pub default_batch_size : ℕ
default_batch_size = 8

abbrev pub default_max_concurrent : ℕ
default_max_concurrent = 64

abbrev pub max_admission_skips : ℕ
max_admission_skips = 8

-- `Scheduler.__init__`: a sequence's chunk may take half of the budget.
abbrev pub new_scheduler : SchedulerKind → ℕ → ℕ → Scheduler
new_scheduler kind token_budget max_running = record {
  token_budget = token_budget;
  max_running = max_running;
  max_prefill_chunk = max 1 (token_budget / 2);
  kind = kind;
}

abbrev pub no_running : List Sequence → Bool
no_running [] = Bool.true
no_running (s ∷ ss) = Bool.false

abbrev cap_of : SchedulerKind → ℕ → List Sequence → ℕ
cap_of continuous max_running running = max_running
cap_of static max_running running = if no_running running then max_running else 0

unfoldable pub admission_cap : Scheduler → List Sequence → ℕ
admission_cap s running = cap_of s.kind s.max_running running

-- `_advance_prefill`, on a sequence whose table has just grown to `t`.
unfoldable pub advance_prefill : Sequence → BlockTable → ℕ → Sequence
advance_prefill s t chunk = record s {
  block_table = t;
  prefill_progress = s.prefill_progress + chunk;
  status = if s.prefill_progress + chunk == num_tokens s then decoding else prefilling;
}

-- What preemption leaves of a victim, its table already freed.
unfoldable pub reset : Sequence → BlockTable → Sequence
reset s t = record s { block_table = t; prefill_progress = 0; status = waiting }
