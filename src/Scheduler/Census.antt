-- ===== src/Scheduler/Census.antt =====
-- How the ids of `running`, `waiting` and the rejected sequences are counted over the passes of
-- scheduling/scheduler.py.
use llm_serving_engine.Base.{
  ℕ, zero, suc, ◌+◌, ◌-◌, ◌≡◌, refl, ap, inl, inr, not, ◌||◌, some, List, [], ◌∷◌, delete_at, ◌==◌,
  total, total-append, total-set, total-init, total-delete_at, Bool-cases, Option-cases, arith,
}
use llm_serving_engine.Sequence.{Sequence, empty_plan, is_prefilling}
use llm_serving_engine.Allocator.{KvAllocator}
use llm_serving_engine.Scheduler.State.{
  Scheduler, SchedulerState, admission_cap, advance_prefill, reset,
}
use llm_serving_engine.Scheduler.Decodes.{grant, preempt_tail, plan_decodes}
use llm_serving_engine.Scheduler.Prefills.{chunk_of, continue_prefills, plan_prefill_continuations}
use llm_serving_engine.Scheduler.Admissions.{stamp_admission, skip_head, reject, admit}
use llm_serving_engine.Scheduler.Step.{scheduler_step}
use llm_serving_engine.Scheduler.Results.{
  TokenResult, find, remove, take_token, mark_done, Folded, finish, apply_result, fold_results,
}
use llm_serving_engine.Scheduler.Folding.{find-seq_id, total-remove, total-update}
use llm_serving_engine.Scheduler.Rules.{DecodeRule, plan_decodes_rule}
use llm_serving_engine.Scheduler.Admitting.{AdmitRule, admission_chunk, plan_admissions_rule}

module _ (kv : KvAllocator) (w : ℕ → ℕ) where
  abbrev pub weight : Sequence → ℕ
  weight s = w s.seq_id

  abbrev pub census : SchedulerState kv → ℕ
  census st = total weight st.running + total weight st.queue + total weight st.plan.rejected

  decode_rule : (n : ℕ) → DecodeRule kv (λ _ st. census st ≡ n)
  unfolding grant preempt_tail reset
  decode_rule n = record {
    preempt = λ i st seq here p. omega (arith, p, total-init weight seq st.running (omega arith));
    decode = λ i st seq pool table p at busy got.
        omega (arith, p, total-set weight st.running i seq (record seq { block_table = table }) at);
    pass = λ i st seq p at idle. p;
    leave = λ i st p len. p;
  }

  census-continue_prefills :
      (sched : Scheduler) (budget : ℕ) (pool : kv.Pool) (ss : List Sequence)
      → total weight (continue_prefills kv sched budget pool ss).running ≡ total weight ss
  unfolding continue_prefills
  census-continue_prefills sched budget pool [] = refl
  census-continue_prefills sched budget pool (s ∷ ss) =
      let chunk = chunk_of kv sched budget s in
      elim (Bool-cases (not (is_prefilling s.status) || budget == 0)) [
        | inl skip ↦ rw skip (omega (arith, census-continue_prefills sched budget pool ss))
        | inr go ↦ elim (Option-cases (kv.allocate pool s chunk 0)) [
          | inl full ↦ rw (go, full)
          | inr ((pool', table), got) ↦
              rw (go, got) (omega (arith, census-continue_prefills sched (budget - chunk) pool' ss))
        ]
      ]

  census-skip_head : (i : ℕ) (q : List Sequence) → total weight (skip_head i q) ≡ total weight q
  census-skip_head zero q = refl
  census-skip_head (suc i) [] = refl
  census-skip_head (suc i) (h ∷ q) = refl

  admit_rule :
      (sched : Scheduler) (clock : ℕ → ℕ) (most n : ℕ)
      → AdmitRule kv sched clock most (λ _ st. census st ≡ n)
  unfolding reject admit advance_prefill
  admit_rule sched clock most n = record {
    refuse = λ budget index st seq p at never. omega (
      arith,
      p,
      total-append weight st.plan.rejected (seq ∷ []),
      total-delete_at weight st.queue index seq at,
    );
    accept = λ budget index st seq pool table p on at fits got.
        let chunk = admission_chunk kv sched clock most budget seq in
        let s = stamp_admission (clock seq.seq_id) (advance_prefill seq table chunk) ∷ [] in
        omega (
          arith,
          p,
          total-append weight st.running s,
          census-skip_head index (delete_at st.queue index),
          total-delete_at weight st.queue index seq at,
        );
  }

  -- For any weights of the sequence ids, those running, waiting or rejected after scheduler_step
  -- weigh together what those running and waiting weighed before it.
  pub scheduler_step-census :
      (sched : Scheduler) (clock : ℕ → ℕ) (st : SchedulerState kv)
      → census (scheduler_step kv sched clock st) ≡ total weight st.running + total weight st.queue
  unfolding scheduler_step plan_prefill_continuations
  scheduler_step-census sched clock st =
      let fresh = record st { plan = empty_plan } in
      let decoded = plan_decodes kv fresh in
      let (_, d, _) = plan_decodes_rule kv (decode_rule (census fresh)) fresh refl in
      let c = census-continue_prefills sched sched.token_budget decoded.pool decoded.running in
      let (continued, budget) = plan_prefill_continuations kv sched decoded in
      let most = admission_cap sched continued.running in
      let (_, _, last, _) =
        plan_admissions_rule kv sched clock most (admit_rule sched clock most (census fresh)) budget
          continued (omega (arith, d, c)) refl in
      omega (arith, last)

  apply_result-census :
      (now : ℕ) (st : Folded kv) (r : TokenResult) (st' : Folded kv)
      → apply_result kv now st r ≡ some st'
      → total weight st'.running + total weight st'.done
        ≡ total weight st.running + total weight st.done
  unfolding apply_result finish mark_done take_token
  apply_result-census now st r st' e = elim (Option-cases (find r.seq_id st.running)) [
    | inr (s, at) ↦
        let table = (kv.free st.pool s.block_table).1 in
        ground (
          arith,
          total-append weight st.done (mark_done now table (take_token now r.token s) ∷ []),
          total-remove weight r.seq_id st.running s at,
          ap (λ k. total weight (remove k st.running)) (find-seq_id r.seq_id st.running s at),
          total-update weight r.seq_id (take_token now r.token) st.running (λ _. refl),
        )
    | inl gone ↦
        ground (arith, total-update weight r.seq_id (take_token now r.token) st.done (λ _. refl))
  ]

  -- For any weights of the sequence ids, if fold_results returns, the running and the finished
  -- sequences after it weigh together what they weighed before.
  pub fold_results-census :
      (now : ℕ) (rs : List TokenResult) (st : Folded kv) (st' : Folded kv)
      → fold_results kv now rs st ≡ some st'
      → total weight st'.running + total weight st'.done
        ≡ total weight st.running + total weight st.done
  unfolding fold_results
  fold_results-census now [] st st' e = ground arith
  fold_results-census now (r ∷ rs) st st' e = elim (Option-cases (apply_result kv now st r)) [
    | inl raised ↦ absurd (ground (arith, raised))
    | inr (mid, one) ↦ omega (
      arith,
      apply_result-census now st r mid one,
      fold_results-census now rs mid st' (rw (one, fold_results) at e),
    )
  ]
