-- ===== src/Scheduler/Books.antt =====
-- The ledgers of an allocator over the passes of scheduling/scheduler.py.
use llm_serving_engine.Base.{
  ℕ, zero, suc, ◌+◌, ◌-◌, ◌<◌, ◌≡◌, refl, inl, inr, not, ◌||◌, some, List, [], ◌∷◌, length,
  get_elem?, delete_at, last_or, ◌==◌, total, total-append, total-set, total-init, total-delete_at,
  Bool-cases, Option-cases, arith,
}
use llm_serving_engine.Sequence.{Sequence, BlockTable, empty_plan, is_prefilling}
use llm_serving_engine.Allocator.{KvAllocator, Ledger}
use llm_serving_engine.Scheduler.State.{Scheduler, SchedulerState, advance_prefill, admission_cap}
use llm_serving_engine.Scheduler.Decodes.{grant, preempt_tail, plan_decodes}
use llm_serving_engine.Scheduler.Prefills.{chunk_of, continue_prefills, plan_prefill_continuations}
use llm_serving_engine.Scheduler.Admissions.{stamp_admission, skip_head, reject, admit}
use llm_serving_engine.Scheduler.Step.{scheduler_step}
use llm_serving_engine.Scheduler.Rules.{DecodeRule, plan_decodes_rule}
use llm_serving_engine.Scheduler.Admitting.{AdmitRule, admission_chunk, plan_admissions_rule}

module _ (kv : KvAllocator) (l : Ledger kv) where
  abbrev pub tabled : Sequence → ℕ
  tabled s = l.held s.block_table

  abbrev pub holdings : SchedulerState kv → ℕ
  holdings st = l.spare st.pool + total tabled st.running + total tabled st.queue

  -- What a rejected sequence holds leaves the two lists with it.
  abbrev pub rejected_holdings : SchedulerState kv → ℕ
  rejected_holdings st = total tabled st.plan.rejected

  -- Nothing is lost or made up between two states.
  abbrev pub Balanced : SchedulerState kv → SchedulerState kv → Type 0
  Balanced st st' =
      holdings st' + rejected_holdings st' + l.used st.pool
      ≡ holdings st + rejected_holdings st + l.used st'.pool

  preempt_tail-Balanced :
      (st : SchedulerState kv) (seq : Sequence)
      → 0 < length st.running
      → Balanced st (preempt_tail kv st seq)
  unfolding preempt_tail
  preempt_tail-Balanced st seq h =
      let victim = last_or seq st.running in
      omega (
        arith,
        total-init tabled seq st.running h,
        l.free_books st.pool victim.block_table,
        l.free_held st.pool victim.block_table,
      )

  grant-Balanced :
      (st : SchedulerState kv) (i : ℕ) (seq : Sequence) (pool : kv.Pool) (table : BlockTable)
      → get_elem? st.running i ≡ some seq
      → kv.allocate st.pool seq 1 0 ≡ some (pool, table)
      → Balanced st (grant kv st i seq (pool, table))
  unfolding grant
  grant-Balanced st i seq pool table at got = omega (
    arith,
    total-set tabled st.running i seq (record seq { block_table = table }) at,
    l.allocate_books st.pool seq 1 0 pool table got,
  )

  decode-Balanced : (start : SchedulerState kv) → DecodeRule kv (λ _ st. Balanced start st)
  unfolding grant
  decode-Balanced start = record {
    preempt = λ i st seq here p. omega (arith, preempt_tail-Balanced st seq (omega arith));
    decode = λ i st seq pool table p at busy got.
        omega (arith, grant-Balanced st i seq pool table at got);
    pass = λ i st seq p at idle. p;
    leave = λ i st p len. p;
  }

  continue_prefills-books :
      (sched : Scheduler) (budget : ℕ) (pool : kv.Pool) (ss : List Sequence)
      → let r = continue_prefills kv sched budget pool ss in
        l.spare r.pool + total tabled r.running + l.used pool
        ≡ l.spare pool + total tabled ss + l.used r.pool
  unfolding continue_prefills
  continue_prefills-books sched budget pool [] = omega arith
  continue_prefills-books sched budget pool (s ∷ ss) =
      let chunk = chunk_of kv sched budget s in
      elim (Bool-cases (not (is_prefilling s.status) || budget == 0)) [
        | inl skip ↦ rw skip (omega (arith, continue_prefills-books sched budget pool ss))
        | inr go ↦ elim (Option-cases (kv.allocate pool s chunk 0)) [
          | inl full ↦ rw (go, full) (omega arith)
          | inr ((pool', table), got) ↦
              rw (go, got)
                (omega (
                  arith,
                  l.allocate_books pool s chunk 0 pool' table got,
                  continue_prefills-books sched (budget - chunk) pool' ss,
                ))
        ]
      ]

  plan_prefill_continuations-Balanced :
      (sched : Scheduler) (st : SchedulerState kv)
      → Balanced st (plan_prefill_continuations kv sched st).0
  unfolding plan_prefill_continuations
  plan_prefill_continuations-Balanced sched st =
      omega (arith, continue_prefills-books sched sched.token_budget st.pool st.running)

  total-skip_head : (i : ℕ) (q : List Sequence) → total tabled (skip_head i q) ≡ total tabled q
  total-skip_head zero q = refl
  total-skip_head (suc i) [] = refl
  total-skip_head (suc i) (h ∷ q) = refl

  admit-Balanced :
      (sched : Scheduler) (clock : ℕ → ℕ) (most : ℕ) (start : SchedulerState kv)
      → AdmitRule kv sched clock most (λ _ st. Balanced start st)
  unfolding reject admit advance_prefill
  admit-Balanced sched clock most start = record {
    refuse = λ budget index st seq p at never. omega (
      arith,
      total-append tabled st.plan.rejected (seq ∷ []),
      total-delete_at tabled st.queue index seq at,
    );
    accept = λ budget index st seq pool table p on at fits got. omega (
      arith,
      total-append tabled st.running (
          stamp_admission (clock seq.seq_id)
            (advance_prefill seq table (admission_chunk kv sched clock most budget seq))
          ∷ []),
      total-skip_head index (delete_at st.queue index),
      total-delete_at tabled st.queue index seq at,
      l.allocate_books st.pool seq _ _ pool table got,
    );
  }

  -- For every ledger of every allocator, what is spare and what the tables of running, waiting and
  -- rejected sequences hold after scheduler_step differ from what was held before it just as the
  -- used amounts of the two pools do.
  pub scheduler_step-books :
      (sched : Scheduler) (clock : ℕ → ℕ) (st : SchedulerState kv)
      → holdings (scheduler_step kv sched clock st)
          + rejected_holdings (scheduler_step kv sched clock st)
          + l.used st.pool
        ≡ holdings st + l.used (scheduler_step kv sched clock st).pool
  unfolding scheduler_step plan_prefill_continuations
  scheduler_step-books sched clock st =
      let fresh = record st { plan = empty_plan } in
      let decoded = plan_decodes kv fresh in
      let (continued, budget) = plan_prefill_continuations kv sched decoded in
      let most = admission_cap sched continued.running in
      let (_, first, _) = plan_decodes_rule kv (decode-Balanced fresh) fresh refl in
      let (_, _, last, _) =
        plan_admissions_rule kv sched clock most (admit-Balanced sched clock most continued) budget
          continued refl refl in
      omega (arith, first, plan_prefill_continuations-Balanced sched decoded, last)
