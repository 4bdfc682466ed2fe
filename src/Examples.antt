-- ===== src/Examples.antt =====
-- Concrete runs of the scheduler on a paged pool of eight blocks of four slots, and of a run that
-- stalls. The theorems are applied here to these states.
mod Steps
mod Folds
mod Streams
mod Rows
mod Engines
mod Configs
mod Percentiles
mod Answers
mod Attention
mod Replays
mod Segments
mod Loads
use llm_serving_engine.Base.{ℕ, ◌+◌, none, List, [], ◌∷◌, length, replicate}
use llm_serving_engine.Sampling.{default_params}
use llm_serving_engine.Metrics.{new_metrics}
use llm_serving_engine.Sequence.{
  Sequence, waiting, prefilling, decoding, BlockTable, empty_table, empty_plan,
}
use llm_serving_engine.Allocator.Books.{paged}
use llm_serving_engine.Scheduler.State.{Scheduler, SchedulerState, continuous, new_scheduler}

abbrev pub small_scheduler : Scheduler
small_scheduler = new_scheduler continuous 8 4

abbrev pub clock : ℕ → ℕ
clock id = 100 + id

abbrev pub request : ℕ → List ℕ → Sequence
request id prompt = record {
  seq_id = id;
  prompt_tokens = prompt;
  sampling_params = default_params;
  metrics = new_metrics 7;
  generated_tokens = [];
  block_table = empty_table;
  status = waiting;
  prefill_progress = 0;
  admission_skips = 0;
}

abbrev pub first_table : BlockTable
first_table = record { physical_blocks = 0 ∷ []; num_tokens = 4; reserved_tokens = 0 }

abbrev pub second_table : BlockTable
second_table = record { physical_blocks = 1 ∷ []; num_tokens = 3; reserved_tokens = 0 }

-- It has filled its block, so its next token takes another.
abbrev pub first : Sequence
first = record (request 0 (11 ∷ 12 ∷ 13 ∷ [])) {
  generated_tokens = 14 ∷ 15 ∷ [];
  block_table = first_table;
  status = decoding;
  prefill_progress = 3;
}

abbrev pub second : Sequence
second = record (request 1 (21 ∷ 22 ∷ 23 ∷ 24 ∷ 25 ∷ [])) {
  block_table = second_table;
  status = prefilling;
  prefill_progress = 3;
}

abbrev pub third : Sequence
third = request 2 (31 ∷ 32 ∷ [])

abbrev pub busy_state : SchedulerState paged
busy_state = record {
  running = first ∷ second ∷ [];
  queue = third ∷ [];
  pool = record { num_blocks = 8; block_size = 4; free_blocks = 2 ∷ 3 ∷ 4 ∷ 5 ∷ 6 ∷ 7 ∷ [] };
  plan = empty_plan;
}

-- Two prompts of ten tokens, twelve blocks of one slot, and chunks of five.
abbrev pub tight_scheduler : Scheduler
tight_scheduler = new_scheduler continuous 10 4

abbrev pub tight_start : SchedulerState paged
tight_start = record {
  running = [];
  queue = request 0 (replicate 10 1) ∷ request 1 (replicate 10 2) ∷ [];
  pool = record {
    num_blocks = 12;
    block_size = 1;
    free_blocks = 0 ∷ 1 ∷ 2 ∷ 3 ∷ 4 ∷ 5 ∷ 6 ∷ 7 ∷ 8 ∷ 9 ∷ 10 ∷ 11 ∷ [];
  };
  plan = empty_plan;
}
