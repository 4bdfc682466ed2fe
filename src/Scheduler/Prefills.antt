-- ===== src/Scheduler/Prefills.antt =====
-- `_plan_prefill_continuations`. The loop keeps `running`'s order and length, so it is a recursion
-- on the list; it returns the budget left, the new pool, the entries added and the list.
use llm_serving_engine.Base.{
  ℕ, ◌-◌, min, true, not, ◌||◌, none, some, List, [], ◌∷◌, ◌++◌, ◌==◌, if◌then◌else◌,
}
use llm_serving_engine.Sequence.{Sequence, BatchEntry, num_tokens, is_prefilling, entry_for}
use llm_serving_engine.Allocator.{KvAllocator}
use llm_serving_engine.Scheduler.State.{Scheduler, SchedulerState, advance_prefill}

module _ (kv : KvAllocator) where
  pub record Continued : Type 0 where
    pub budget : ℕ
    pub pool : kv.Pool
    pub entries : List BatchEntry
    pub running : List Sequence

  -- A sequence that the loop leaves as it is.
  abbrev pub pass_over : Sequence → Continued → Continued
  pass_over s r = record r { running = s ∷ r.running }

  abbrev pub add_chunk : Sequence → BatchEntry → Continued → Continued
  add_chunk s e r = record r { running = s ∷ r.running; entries = e ∷ r.entries }

  abbrev pub chunk_of : Scheduler → ℕ → Sequence → ℕ
  chunk_of sched budget s =
      min (min (num_tokens s - s.prefill_progress) budget) sched.max_prefill_chunk

  unfoldable pub continue_prefills : Scheduler → ℕ → kv.Pool → List Sequence → Continued
  unfolding advance_prefill
  continue_prefills sched budget pool [] = record {
    budget = budget;
    pool = pool;
    entries = [];
    running = [];
  }
  continue_prefills sched budget pool (s ∷ ss) =
      let skip : Continued = pass_over s (continue_prefills sched budget pool ss) in
      let chunk = chunk_of sched budget s in
      let go : Continued = elim (kv.allocate pool s chunk 0) [
        | none ↦ record { budget = 0; pool = pool; entries = []; running = s ∷ ss }
        | some (pool', table) ↦
            add_chunk (advance_prefill s table chunk) (entry_for s chunk true)
              (continue_prefills sched (budget - chunk) pool' ss)
      ] in
      if not (is_prefilling s.status) || budget == 0 then skip else go

  -- With the budget that is left for admissions.
  unfoldable pub plan_prefill_continuations : Scheduler → SchedulerState kv → SchedulerState kv × ℕ
  unfolding continue_prefills
  plan_prefill_continuations sched st =
      let r = continue_prefills sched sched.token_budget st.pool st.running in
      (
        record st {
          running = r.running;
          pool = r.pool;
          plan = record st.plan { entries = st.plan.entries ++ r.entries };
        },
        r.budget,
      )
