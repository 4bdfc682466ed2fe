-- ===== src/Graphs/Plans.antt =====
-- The plans of the scheduler and the graphs that src/llm_serving_engine/engine.py captures for them.
use llm_serving_engine.Base.{ℕ, ◌+◌, ◌≤◌, length, arith}
use llm_serving_engine.Allocator.{KvAllocator}
use llm_serving_engine.Scheduler.State.{Scheduler, SchedulerState}
use llm_serving_engine.Scheduler.Step.{scheduler_step}
use llm_serving_engine.Scheduler.Budget.{scheduler_step-budget}
use llm_serving_engine.Graphs.{Graphs, forward_path}
use llm_serving_engine.Graphs.Buckets.{captured, IsReplay, forward_path-IsReplay}

-- `InferenceEngine.__init__`: decode tokens do not draw on the token budget.
abbrev pub captured_for : Scheduler → Graphs
captured_for sched = captured sched.max_running (sched.token_budget + sched.max_running)

-- If no more than max_running sequences run, the plan that scheduler_step returns takes the path
-- of a graph in forward_path, given the graphs that the engine captures for the scheduler.
pub scheduler_step-IsReplay :
    (kv : KvAllocator) (sched : Scheduler) (clock : ℕ → ℕ) (st : SchedulerState kv)
    → length st.running ≤ sched.max_running
    → IsReplay (forward_path (captured_for sched) (scheduler_step kv sched clock st).plan.entries)
scheduler_step-IsReplay kv sched clock st few =
    let (_, all, _) = scheduler_step-budget kv sched clock st in
    forward_path-IsReplay sched.max_running (sched.token_budget + sched.max_running) _
      (omega (arith, all, few))
