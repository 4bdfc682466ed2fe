-- ===== src/Scheduler/Budget.antt =====
-- How much work one plan holds, and how many sequences run after a step.
use llm_serving_engine.Base.{
  ℕ, ◌+◌, ◌-◌, ◌≤◌, ◌≡◌, refl, inl, inr, not, ◌||◌, true, false, List, [], ◌∷◌, length, ◌==◌,
  if◌then◌else◌, total, total-append, length-append, length-set, length-init, get_elem?-some_lt,
  Bool-cases, Option-cases, arith, max,
}
use llm_serving_engine.Sequence.{Sequence, BatchEntry, empty_plan, is_prefilling, entry_for}
use llm_serving_engine.Allocator.{KvAllocator}
use llm_serving_engine.Scheduler.State.{Scheduler, SchedulerState, admission_cap, advance_prefill}
use llm_serving_engine.Scheduler.Decodes.{grant, preempt_tail, plan_decodes}
use llm_serving_engine.Scheduler.Prefills.{chunk_of, continue_prefills, plan_prefill_continuations}
use llm_serving_engine.Scheduler.Admissions.{stamp_admission, reject, admit}
use llm_serving_engine.Scheduler.Step.{scheduler_step}
use llm_serving_engine.Scheduler.Rules.{DecodeRule, plan_decodes_rule}
use llm_serving_engine.Scheduler.Admitting.{AdmitRule, admission_chunk, plan_admissions_rule}

-- The tokens of a plan, and those of its prefill chunks.
abbrev pub tokens : List BatchEntry → ℕ
tokens = total (λ e. e.n_tokens)

abbrev pub chunk_size : BatchEntry → ℕ
chunk_size e = if e.is_prefill_chunk then e.n_tokens else 0

abbrev pub chunk_tokens : List BatchEntry → ℕ
chunk_tokens = total chunk_size

module _ (kv : KvAllocator) where
  -- No more tokens than the positions passed, nor than the sequences left.
  abbrev Decoded : ℕ → ℕ → SchedulerState kv → Type 0
  Decoded n i st =
      (tokens st.plan.entries ≤ i)
      × (tokens st.plan.entries ≤ length st.running)
      × (chunk_tokens st.plan.entries ≡ 0)
      × (length st.running ≤ n)

  decode_rule : (n : ℕ) → DecodeRule kv (Decoded n)
  unfolding grant preempt_tail
  decode_rule n = record {
    preempt = λ i st seq here p. omega (arith, p, length-init st.running);
    decode = λ i st seq pool table p at busy got.
        let e = entry_for seq 1 false ∷ [] in
        omega (
          arith,
          p,
          total-append (λ e. e.n_tokens) st.plan.entries e,
          total-append chunk_size st.plan.entries e,
          length-set st.running i (record seq { block_table = table }),
          get_elem?-some_lt st.running i seq at,
        );
    pass = λ i st seq p at idle. omega (arith, p);
    leave = λ i st p len. omega (arith, p);
  }

  continue_prefills-budget :
      (sched : Scheduler) (budget : ℕ) (pool : kv.Pool) (ss : List Sequence)
      → let r = continue_prefills kv sched budget pool ss in
        (chunk_tokens r.entries + r.budget ≤ budget)
        × (tokens r.entries ≡ chunk_tokens r.entries)
        × (length r.running ≡ length ss)
  unfolding continue_prefills
  continue_prefills-budget sched budget pool [] = omega arith
  continue_prefills-budget sched budget pool (s ∷ ss) =
      let chunk = chunk_of kv sched budget s in
      elim (Bool-cases (not (is_prefilling s.status) || budget == 0)) [
        | inl skip ↦ rw skip (omega (arith, continue_prefills-budget sched budget pool ss))
        | inr go ↦ elim (Option-cases (kv.allocate pool s chunk 0)) [
          | inl full ↦ rw (go, full) (omega arith)
          | inr ((pool', table), got) ↦
              rw (go, got) (omega (arith, continue_prefills-budget sched (budget - chunk) pool' ss))
        ]
      ]

  abbrev Admitted : ℕ → ℕ → ℕ → ℕ → SchedulerState kv → Type 0
  Admitted budget decodes n b st =
      (chunk_tokens st.plan.entries + b ≤ budget)
      × (tokens st.plan.entries ≤ chunk_tokens st.plan.entries + decodes)
      × (length st.running ≤ n)

  admit_rule :
      (sched : Scheduler) (clock : ℕ → ℕ) (most budget decodes n : ℕ)
      → AdmitRule kv sched clock most (Admitted budget decodes (max n most))
  unfolding reject admit
  admit_rule sched clock most budget decodes n = record {
    refuse = λ b index st seq p at never. omega (arith, p);
    accept = λ b index st seq pool table p on at fits got.
        let chunk = admission_chunk kv sched clock most b seq in
        let e = entry_for seq chunk true ∷ [] in
        let s = stamp_admission (clock seq.seq_id) (advance_prefill seq table chunk) ∷ [] in
        ground (
          arith,
          p,
          total-append (λ (e : BatchEntry). e.n_tokens) st.plan.entries e,
          total-append chunk_size st.plan.entries e,
          length-append st.running s,
          on,
        );
  }

  admission_cap-le :
      (sched : Scheduler) (running : List Sequence)
      → admission_cap sched running ≤ sched.max_running
  unfolding admission_cap
  admission_cap-le sched running = ground arith

  -- After scheduler_step the prefill chunks of the plan add up to at most the token budget, all
  -- tokens of the plan to at most the budget and the number of sequences that ran before, and
  -- running is no longer than before or than max_running.
  pub scheduler_step-budget :
      (sched : Scheduler) (clock : ℕ → ℕ) (st : SchedulerState kv)
      → let st' = scheduler_step kv sched clock st in
        (chunk_tokens st'.plan.entries ≤ sched.token_budget)
        × (tokens st'.plan.entries ≤ sched.token_budget + length st.running)
        × (length st'.running ≤ max (length st.running) sched.max_running)
  unfolding scheduler_step plan_prefill_continuations
  scheduler_step-budget sched clock st =
      let fresh = record st { plan = empty_plan } in
      let decoded = plan_decodes kv fresh in
      let (_, d, _) = plan_decodes_rule kv (decode_rule (length st.running)) fresh (omega arith) in
      let c = continue_prefills-budget sched sched.token_budget decoded.pool decoded.running in
      let r = continue_prefills kv sched sched.token_budget decoded.pool decoded.running in
      let (continued, budget) = plan_prefill_continuations kv sched decoded in
      let most = admission_cap sched continued.running in
      let (_, _, last, _) =
        plan_admissions_rule kv sched clock most
          (admit_rule sched clock most sched.token_budget (length st.running) (length st.running))
          budget continued
          (omega (
            arith,
            d,
            c,
            total-append (λ (e : BatchEntry). e.n_tokens) decoded.plan.entries r.entries,
            total-append chunk_size decoded.plan.entries r.entries,
          ))
          refl in
      omega (arith, last, admission_cap-le sched continued.running)
