-- ===== src/Examples/Rows.antt =====
-- Slots, paging rows and graph buckets of src/llm_serving_engine/model on the example states.
use llm_serving_engine.Base.{ℕ, ◌≡◌, refl, true, false, List, [], ◌∷◌, arith}
use llm_serving_engine.Sequence.{BatchEntry}
use llm_serving_engine.Scheduler.Ownership.{OwnsOnce}
use llm_serving_engine.Paging.{slot}
use llm_serving_engine.Paging.Slots.{slots_disjoint}
use llm_serving_engine.Graphs.{
  decode_graph_buckets, piecewise_graph_buckets, candidates, forward_path,
}
use llm_serving_engine.Graphs.Buckets.{IsReplay}
use llm_serving_engine.Graphs.Plans.{captured_for, scheduler_step-IsReplay}
use llm_serving_engine.Allocator.Books.{paged}
use llm_serving_engine.Scheduler.Step.{scheduler_step}
use llm_serving_engine.Examples.{small_scheduler, clock, second, busy_state}

busy-OwnsOnce : OwnsOnce 8 busy_state
busy-OwnsOnce b = ground arith

slots_disjoint_example : ◌≡◌ {A = ℕ} 1 1 × ◌≡◌ {A = ℕ} 2 2
unfolding slot
slots_disjoint_example =
    slots_disjoint 4 (omega arith) 8 busy_state 1 1 2 2 1 2 second second busy-OwnsOnce refl refl
      refl refl

abbrev mixed_plan : List BatchEntry
mixed_plan =
    record { seq_id = 0; n_tokens = 1; is_prefill_chunk = false }
    ∷ record { seq_id = 1; n_tokens = 30; is_prefill_chunk = true }
    ∷ []

decode_buckets_of_twelve : decode_graph_buckets 12 ≡ 1 ∷ 2 ∷ 4 ∷ 8 ∷ 16 ∷ []
unfolding decode_graph_buckets
decode_buckets_of_twelve = refl

piecewise_buckets_of_hundred : piecewise_graph_buckets 100 ≡ 16 ∷ 24 ∷ 32 ∷ 48 ∷ 64 ∷ 96 ∷ 100 ∷ []
unfolding piecewise_graph_buckets candidates
piecewise_buckets_of_hundred = refl

scheduler_step-IsReplay_example : IsReplay (
    forward_path
      (captured_for small_scheduler)
      (scheduler_step paged small_scheduler clock busy_state).plan.entries)
scheduler_step-IsReplay_example =
    scheduler_step-IsReplay paged small_scheduler clock busy_state (omega arith)
