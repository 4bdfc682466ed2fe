-- ===== src/Examples/Steps.antt =====
-- Steps of the scheduler, src/llm_serving_engine/scheduling/scheduler.py, on the example states.
use llm_serving_engine.Base.{
  Bool, false, ℕ, ◌+◌, ◌≤◌, ◌<◌, ◌≡◌, ◌⊎◌, refl, some, List, [], ◌∷◌, length, total, arith, map,
}
use llm_serving_engine.Sequence.{Sequence, prefilling, BatchEntry, empty_plan}
use llm_serving_engine.Allocator.Block.{allocate, ceil_div, can_ever_fit}
use llm_serving_engine.Allocator.Books.{paged, block_ledger}
use llm_serving_engine.Scheduler.State.{SchedulerState}
use llm_serving_engine.Scheduler.Step.{scheduler_step}
use llm_serving_engine.Scheduler.Decodes.{preempt_until_allocated, decodes_from, plan_decodes}
use llm_serving_engine.Scheduler.Prefills.{plan_prefill_continuations}
use llm_serving_engine.Scheduler.Admissions.{plan_admissions}
use llm_serving_engine.Scheduler.Books.{holdings, rejected_holdings, scheduler_step-books}
use llm_serving_engine.Scheduler.Lifecycle.{IsSound, scheduler_step-IsSound}
use llm_serving_engine.Scheduler.Ownership.{OwnsOnce, scheduler_step-OwnsOnce}
use llm_serving_engine.Scheduler.Census.{census, scheduler_step-census}
use llm_serving_engine.Scheduler.Entries.{scheduler_step-entries}
use llm_serving_engine.Scheduler.Budget.{tokens, chunk_tokens, scheduler_step-budget}
use llm_serving_engine.Scheduler.Progress.{scheduler_step-stalled, scheduler_step-progress}
use llm_serving_engine.Scheduler.Fuel.{plan_decodes-ends}
use llm_serving_engine.Examples.{
  small_scheduler, clock, request, first, busy_state, tight_scheduler, tight_start,
}

abbrev after : SchedulerState paged
after = scheduler_step paged small_scheduler clock busy_state

-- A decode, the end of a prompt and an admission.
step_entries : map (λ (e : BatchEntry). e.n_tokens) after.plan.entries ≡ 1 ∷ 2 ∷ 2 ∷ []
unfolding scheduler_step plan_admissions plan_prefill_continuations plan_decodes can_ever_fit
    ceil_div allocate
step_entries = refl

busy-OwnsOnce : OwnsOnce 8 busy_state
busy-OwnsOnce b = ground arith

busy-IsSound : IsSound 4 1 busy_state
unfolding ceil_div
busy-IsSound = record {
  all_running = (
    record { covered = refl; phase = refl; some_tokens = omega arith },
    (record { covered = refl; phase = (refl, omega arith); some_tokens = omega arith }, tt),
  );
  all_waiting = (
    record {
      no_blocks = refl;
      no_slots = refl;
      unprefilled = refl;
      some_tokens = omega arith;
      is_waiting = refl;
    },
    tt,
  );
  sized = refl;
}

scheduler_step-OwnsOnce_example : OwnsOnce 8 after
scheduler_step-OwnsOnce_example =
    scheduler_step-OwnsOnce small_scheduler clock 8 busy_state refl busy-OwnsOnce

scheduler_step-IsSound_example : IsSound 4 0 after
scheduler_step-IsSound_example =
    scheduler_step-IsSound 4 (omega arith) small_scheduler clock busy_state busy-IsSound

scheduler_step-books_example :
    holdings paged (block_ledger 2) after
      + rejected_holdings paged (block_ledger 2) after
      + (block_ledger 2).used busy_state.pool
    ≡ holdings paged (block_ledger 2) busy_state + (block_ledger 2).used after.pool
scheduler_step-books_example =
    scheduler_step-books paged (block_ledger 2) small_scheduler clock busy_state

scheduler_step-census_example : census paged (λ id. id + 1) after ≡ 6
scheduler_step-census_example =
    scheduler_step-census paged (λ id. id + 1) small_scheduler clock busy_state

scheduler_step-entries_example :
    total (λ e. e.seq_id + 1) after.plan.entries ≤ total (λ s. s.seq_id + 1) after.running
scheduler_step-entries_example =
    scheduler_step-entries (λ id. id + 1) paged small_scheduler clock busy_state

scheduler_step-budget_example :
    (chunk_tokens after.plan.entries ≤ 8)
    × (tokens after.plan.entries ≤ 8 + 2)
    × (length after.running ≤ 4)
scheduler_step-budget_example = scheduler_step-budget paged small_scheduler clock busy_state

scheduler_step-progress_example : (length after.running ≡ 0) ⊎ (0 < length after.plan.entries)
scheduler_step-progress_example =
    scheduler_step-progress paged small_scheduler clock busy_state first refl refl

-- What the first step leaves of the two prompts: five tokens of each, and two blocks.
abbrev half_done : ℕ → List ℕ → List ℕ → Sequence
half_done id blocks prompt = record (request id prompt) {
  block_table = record { physical_blocks = blocks; num_tokens = 5; reserved_tokens = 0 };
  metrics = record (request id prompt).metrics { admit_time = some (clock id) };
  status = prefilling;
  prefill_progress = 5;
}

abbrev stuck : SchedulerState paged
stuck = scheduler_step paged tight_scheduler clock tight_start

abbrev stuck_head : Sequence
stuck_head = half_done 0 (0 ∷ 1 ∷ 2 ∷ 3 ∷ 4 ∷ []) (1 ∷ 1 ∷ 1 ∷ 1 ∷ 1 ∷ 1 ∷ 1 ∷ 1 ∷ 1 ∷ 1 ∷ [])

abbrev stuck_other : Sequence
stuck_other = half_done 1 (5 ∷ 6 ∷ 7 ∷ 8 ∷ 9 ∷ []) (2 ∷ 2 ∷ 2 ∷ 2 ∷ 2 ∷ 2 ∷ 2 ∷ 2 ∷ 2 ∷ 2 ∷ [])

scheduler_step-stalled_example :
    scheduler_step paged tight_scheduler clock stuck ≡ record stuck { plan = empty_plan }
unfolding scheduler_step plan_admissions plan_prefill_continuations plan_decodes can_ever_fit
    ceil_div allocate
scheduler_step-stalled_example = scheduler_step-stalled paged tight_scheduler clock stuck (record {
  head = stuck_head;
  others = stuck_other ∷ [];
  runs = refl;
  prefills = (refl, (refl, tt));
  has_budget = omega arith;
  no_room = refl;
})

plan_decodes-ends_example :
    ((last : SchedulerState paged) × (slot : Bool) × (preempt_until_allocated paged 5 busy_state 0
          first
        ≡ some (last, slot))
      × (slot ≡ false → length last.running ≡ 0))
    × (decodes_from paged 5 0 busy_state ≡ plan_decodes paged busy_state)
plan_decodes-ends_example = plan_decodes-ends paged 5 0 busy_state first refl (omega arith)
