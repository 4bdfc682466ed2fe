-- ===== src/Scheduler/Decodes.antt =====
-- `_plan_decodes` and `_preempt_until_allocated`. `seq` is `running[i]`, so the popped tail is
-- `seq` itself exactly when `i` is the length that is left.
use llm_serving_engine.Base.{
  ℕ, zero, suc, Bool, true, false, Option, none, some, [], ◌∷◌, ◌++◌, length, get_elem?, set,
  last_or, init, ◌==◌, if◌then◌else◌,
}
use llm_serving_engine.Sequence.{Sequence, BlockTable, is_decoding, add}
use llm_serving_engine.Allocator.{KvAllocator}
use llm_serving_engine.Scheduler.State.{SchedulerState, reset}

module _ (kv : KvAllocator) where
  -- `running[i]` has got the slot for its next token.
  unfoldable pub grant : SchedulerState kv → ℕ → Sequence → kv.Pool × BlockTable → SchedulerState kv
  grant st i seq (pool, table) = record st {
    pool = pool;
    running = set st.running i (record seq { block_table = table });
  }

  -- One round of the `while` loop: pop the tail, free it, and put it at the head of `waiting`.
  unfoldable pub preempt_tail : SchedulerState kv → Sequence → SchedulerState kv
  unfolding reset
  preempt_tail st seq =
      let victim = last_or seq st.running in
      let (pool, table) = kv.free st.pool victim.block_table in
      record {
        running = init st.running;
        queue = reset victim table ∷ st.queue;
        pool = pool;
        plan = record st.plan { preempted = st.plan.preempted ++ victim.seq_id ∷ [] };
      }

  -- The fuel bounds the rounds: each pops one sequence, and the length of `running` is enough. `none`
  -- is a loop that has not ended by then.
  unfoldable pub preempt_until_allocated :
      ℕ → SchedulerState kv → ℕ → Sequence → Option (SchedulerState kv × Bool)
  unfolding grant preempt_tail
  preempt_until_allocated zero st i seq = none
  preempt_until_allocated (suc fuel) st i seq = elim (kv.allocate st.pool seq 1 0) [
    | some got ↦ some (grant st i seq got, true)
    | none ↦
        let st' = preempt_tail st seq in
        let rest = preempt_until_allocated fuel st' i seq in
        if length st'.running == i then some (st', false) else rest
  ]

  unfoldable pub add_decode : Sequence → SchedulerState kv × Bool → SchedulerState kv
  add_decode seq (st, true) = record st { plan = add st.plan seq 1 false }
  add_decode seq (st, false) = st

  -- The state where the inner loop ends; `st` stands for none, which the fuel given never is.
  abbrev pub loop_end :
      SchedulerState kv → Option (SchedulerState kv × Bool) → SchedulerState kv × Bool
  loop_end st none = (st, false)
  loop_end st (some r) = r

  -- The body of the loop at `running[i]`.
  unfoldable pub decode_one : SchedulerState kv → ℕ → Sequence → SchedulerState kv
  unfolding preempt_until_allocated add_decode
  decode_one st i seq =
      if is_decoding seq.status
      then add_decode seq (loop_end st (preempt_until_allocated (length st.running) st i seq))
      else st

  -- `while i < len(running)`; the fuel is the length of `running` at the start.
  unfoldable pub decodes_from : ℕ → ℕ → SchedulerState kv → SchedulerState kv
  unfolding decode_one
  decodes_from zero i st = st
  decodes_from (suc fuel) i st = elim (get_elem? st.running i) [
    | none ↦ st
    | some seq ↦ decodes_from fuel (suc i) (decode_one st i seq)
  ]

  unfoldable pub plan_decodes : SchedulerState kv → SchedulerState kv
  unfolding decodes_from
  plan_decodes st = decodes_from (length st.running) 0 st
