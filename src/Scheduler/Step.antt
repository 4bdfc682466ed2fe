-- ===== src/Scheduler/Step.antt =====
-- `Scheduler.scheduler_step`: the three passes in their order, on a fresh plan.
use llm_serving_engine.Base.{ℕ}
use llm_serving_engine.Sequence.{empty_plan}
use llm_serving_engine.Allocator.{KvAllocator}
use llm_serving_engine.Scheduler.State.{Scheduler, SchedulerState}
use llm_serving_engine.Scheduler.Decodes.{plan_decodes}
use llm_serving_engine.Scheduler.Prefills.{plan_prefill_continuations}
use llm_serving_engine.Scheduler.Admissions.{plan_admissions}

module _ (kv : KvAllocator) where
  unfoldable pub scheduler_step : Scheduler → (ℕ → ℕ) → SchedulerState kv → SchedulerState kv
  scheduler_step sched clock st =
      let fresh = record st { plan = empty_plan } in
      let (continued, budget) = plan_prefill_continuations kv sched (plan_decodes kv fresh) in
      plan_admissions kv sched clock budget continued
