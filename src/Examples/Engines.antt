-- ===== src/Examples/Engines.antt =====
-- A run of the engine, src/llm_serving_engine/engine.py: a request is submitted, planned and ended.
use llm_serving_engine.Base.{
  ◌+◌, ◌≤◌, ◌≡◌, ◌↔◌, refl, true, false, some, none, inr, [], ◌∷◌, length, total, ℕ, List, map,
  length-map, All, some_or-eq, subst, arith,
}
use llm_serving_engine.Sampling.{SamplingParams, default_params}
use llm_serving_engine.Sequence.{BatchPlan, BatchEntry}
use llm_serving_engine.Allocator.Block.{allocate, ceil_div, can_ever_fit}
use llm_serving_engine.Allocator.Books.{paged}
use llm_serving_engine.Scheduler.Decodes.{plan_decodes}
use llm_serving_engine.Scheduler.Prefills.{plan_prefill_continuations}
use llm_serving_engine.Scheduler.Admissions.{plan_admissions}
use llm_serving_engine.Scheduler.Step.{scheduler_step}
use llm_serving_engine.Engine.State.{is_idle, ready, failed_pass, arrivals, Engine, submit, apply}
use llm_serving_engine.Engine.Moves.{schedule, submits, schedules}
use llm_serving_engine.Engine.Lists.{by, is}
use llm_serving_engine.Engine.Conservation.{load}
use llm_serving_engine.Engine.Tracking.{
  Tracks, Run, stays, goes, Move-Tracks, Run-ends_once, Run-is_idle, Run-apply_total,
}
use llm_serving_engine.Scheduler.Results.{TokenResult, find}
use llm_serving_engine.Scheduler.Returns.{Reports}
use llm_serving_engine.Allocator.Cover.{IsCovered}
use llm_serving_engine.Paging.{resolve, last_token, entry_token_ids}
use llm_serving_engine.Paging.Emit.{one_eos, forward_fused}
use llm_serving_engine.Engine.Forward.{CanForward, IsSampler, forward_fused-Reports}
use llm_serving_engine.Examples.{clock, small_scheduler, first}

-- The ids start at 3, as after three requests to an engine before this one.
abbrev fresh : Engine paged
fresh = record {
  scheduler = small_scheduler;
  vocab_size = 100;
  output_queue_maxsize = 4;
  next_id = 3;
  channels = [];
  ingress = [];
  running = [];
  queue = [];
  pool = record { num_blocks = 2; block_size = 4; free_blocks = 0 ∷ 1 ∷ [] };
  point = ready none;
  accepting = true;
  stopping = false;
  failed = false;
  submitted = 0;
  ended = 0;
  callbacks = [];
  freed = [];
  recorded = [];
  preemptions = 0;
  requests_in_flight = 0;
}

fresh-Tracks : Tracks paged 3 fresh
unfolding arrivals
fresh-Tracks = record {
  conserved = record { each = λ w. refl; next = refl; counted = refl };
  flight = tt;
}

abbrev asked : Engine paged
asked = record fresh {
  next_id = 4;
  channels = (3, record { maxsize = 4; items = [] }) ∷ [];
  submitted = 1;
  ingress =
      some (record {
        seq_id = 3;
        prompt_tokens = 7 ∷ 8 ∷ [];
        sampling_params = default_params;
        arrival_time = 20;
      })
      ∷ [];
}

asks : submit paged fresh (7 ∷ 8 ∷ []) default_params 20 ≡ inr (3, asked)
unfolding submit
asks = refl

abbrev planned_run : Engine paged
planned_run = schedule paged clock asked

Run-to_plan : Run paged fresh planned_run
Run-to_plan =
    goes fresh asked planned_run
      (goes fresh fresh asked (stays fresh)
        (submits fresh asked (7 ∷ 8 ∷ []) default_params 20 3 asks))
      (schedules asked clock refl refl)

Move-Tracks_example : Tracks paged 3 asked
Move-Tracks_example =
    Move-Tracks paged 3 fresh asked (submits fresh asked (7 ∷ 8 ∷ []) default_params 20 3 asks)
      fresh-Tracks

Run-ends_once_example : load paged (is 3) planned_run + total (by (is 3)) planned_run.recorded ≤ 1
Run-ends_once_example = Run-ends_once paged 3 fresh planned_run 3 Run-to_plan fresh-Tracks

Run-is_idle_example : (is_idle paged planned_run ≡ true) ↔ (
    length (arrivals planned_run.ingress) + length planned_run.running + length planned_run.queue
    ≡ 0)
Run-is_idle_example = Run-is_idle paged 3 fresh planned_run Run-to_plan fresh-Tracks

abbrev first_plan : BatchPlan
first_plan = record {
  entries = record { seq_id = 3; n_tokens = 2; is_prefill_chunk = true } ∷ [];
  preempted = [];
  rejected = [];
}

plans : planned_run.point ≡ ready (some first_plan)
unfolding schedule scheduler_step plan_admissions plan_prefill_continuations plan_decodes arrivals
    can_ever_fit ceil_div allocate
plans = refl

Run-apply_total_example :
    (e : Engine paged) × (apply paged 50 failed_pass first_plan planned_run ≡ some e)
Run-apply_total_example =
    Run-apply_total paged 3 fresh planned_run 50 failed_pass first_plan Run-to_plan fresh-Tracks
      plans tt

abbrev decode_next : BatchEntry
decode_next = record { seq_id = 0; n_tokens = 1; is_prefill_chunk = false }

abbrev always_seven : List ℕ → List SamplingParams → List ℕ
always_seven rows params = map (λ p. 7) params

always_seven-IsSampler : IsSampler always_seven
always_seven-IsSampler = record { one_each = λ rows params. length-map (λ p. 7) params }

first-CanForward : All (CanForward 4) ((decode_next, first) ∷ [])
unfolding entry_token_ids last_token ceil_div IsCovered
first-CanForward = (
  record { ids = 15 ∷ []; feeds = refl; count = refl; covered = refl; counted = omega arith },
  tt,
)

forward_fused-Reports_example :
    (rs : List TokenResult) × (forward_fused
        (one_eos 2)
        always_seven
        4
        (decode_next ∷ [])
        (first ∷ [])
      ≡ some rs)
    × Reports rs (first ∷ [])
unfolding resolve find
forward_fused-Reports_example =
    forward_fused-Reports (first ∷ []) (one_eos 2) always_seven always_seven-IsSampler 4 decode_next
      [] (omega arith) (λ w. omega arith) (λ id. ground arith)
      (λ plan e. subst (All (CanForward 4)) (some_or-eq _ plan e) first-CanForward)
