-- ===== src/Scheduler/Entries.antt =====
-- The ids of a plan's entries against those of the running sequences, over the passes of
-- scheduling/scheduler.py.
use llm_serving_engine.Base.{
  ℕ, zero, suc, ◌+◌, ◌-◌, ◌≤◌, ◌<◌, ◌≡◌, refl, inl, inr, not, ◌||◌, true, false, some, List, [],
  ◌∷◌, length, get_elem?, set, init, ◌==◌, if◌then◌else◌, total, total-append, take, Bool-cases,
  Option-cases, arith,
}
use llm_serving_engine.Sequence.{
  Sequence, SequenceStatus, waiting, prefilling, decoding, BlockTable, BatchEntry, empty_plan,
  is_prefilling, is_decoding, entry_for,
}
use llm_serving_engine.Allocator.{KvAllocator}
use llm_serving_engine.Scheduler.State.{Scheduler, SchedulerState, admission_cap, advance_prefill}
use llm_serving_engine.Scheduler.Decodes.{grant, preempt_tail, plan_decodes}
use llm_serving_engine.Scheduler.Prefills.{chunk_of, continue_prefills, plan_prefill_continuations}
use llm_serving_engine.Scheduler.Admissions.{stamp_admission, reject, admit}
use llm_serving_engine.Scheduler.Step.{scheduler_step}
use llm_serving_engine.Scheduler.Rules.{DecodeRule, plan_decodes_rule}
use llm_serving_engine.Scheduler.Admitting.{AdmitRule, admission_chunk, plan_admissions_rule}

module _ (w : ℕ → ℕ) where
  abbrev pub entry_weight : BatchEntry → ℕ
  entry_weight e = w e.seq_id

  abbrev pub weight : Sequence → ℕ
  weight s = w s.seq_id

  -- The weight of a sequence that decodes, or that is in its prompt.
  abbrev decoding_weight : Sequence → ℕ
  decoding_weight s = if is_decoding s.status then w s.seq_id else 0

  abbrev prefilling_weight : Sequence → ℕ
  prefilling_weight s = if is_prefilling s.status then w s.seq_id else 0

  -- The decoding sequences among the first `i`.
  abbrev served : ℕ → List Sequence → ℕ
  served i ss = total decoding_weight (take i ss)

  served-init : (i : ℕ) (ss : List Sequence) → i < length ss → served i (init ss) ≡ served i ss
  served-init zero ss h = refl
  served-init (suc i) [] h = absurd (omega arith)
  served-init (suc i) (s ∷ []) h = absurd (omega arith)
  served-init (suc i) (s ∷ t ∷ ss) h = omega (arith, served-init i (t ∷ ss) (omega arith))

  served-set :
      (i : ℕ) (ss : List Sequence) (s : Sequence) (t : BlockTable)
      → get_elem? ss i ≡ some s
      → is_decoding s.status ≡ true
      → served (suc i) (set ss i (record s { block_table = t })) ≡ served i ss + w s.seq_id
  served-set i [] s t e busy = absurd (ground arith)
  served-set zero (x ∷ ss) s t e busy = ground arith
  served-set (suc i) (x ∷ ss) s t e busy = omega (arith, served-set i ss s t e busy)

  served-suc : (i : ℕ) (ss : List Sequence) → served i ss ≤ served (suc i) ss
  served-suc zero [] = omega arith
  served-suc (suc i) [] = omega arith
  served-suc zero (s ∷ ss) = omega arith
  served-suc (suc i) (s ∷ ss) = omega (arith, served-suc i ss)

  served-le : (i : ℕ) (ss : List Sequence) → served i ss ≤ total decoding_weight ss
  served-le zero ss = omega arith
  served-le (suc i) [] = omega arith
  served-le (suc i) (s ∷ ss) = omega (arith, served-le i ss)

  status-weights :
      (ss : List Sequence) → total decoding_weight ss + total prefilling_weight ss ≤ total weight ss
  status-weights [] = omega arith
  status-weights (s ∷ ss) = let rest = status-weights ss in go s.status rest
    where
      go :
          (status : SequenceStatus)
          → total decoding_weight ss + total prefilling_weight ss ≤ total weight ss
          → (if is_decoding status then w s.seq_id else 0)
              + total decoding_weight ss
              + ((if is_prefilling status then w s.seq_id else 0) + total prefilling_weight ss)
            ≤ w s.seq_id + total weight ss
      go waiting rest = omega arith
      go prefilling rest = omega arith
      go decoding rest = omega arith

  module _ (kv : KvAllocator) where
    decode_rule : DecodeRule kv (λ i st. total entry_weight st.plan.entries ≤ served i st.running)
    unfolding grant preempt_tail
    decode_rule = record {
      preempt = λ i st seq here p. omega (arith, p, served-init i st.running here);
      decode = λ i st seq pool table p at busy got. omega (
        arith,
        p,
        total-append entry_weight st.plan.entries (entry_for seq 1 false ∷ []),
        served-set i st.running seq table at busy,
      );
      pass = λ i st seq p at idle. omega (arith, p, served-suc i st.running);
      leave = λ i st p len. omega (arith, p, served-suc i st.running);
    }

    entries-continue_prefills :
        (sched : Scheduler) (budget : ℕ) (pool : kv.Pool) (ss : List Sequence)
        → let r = continue_prefills kv sched budget pool ss in
          (total entry_weight r.entries ≤ total prefilling_weight ss)
          × (total weight r.running ≡ total weight ss)
    unfolding continue_prefills
    entries-continue_prefills sched budget pool [] = omega arith
    entries-continue_prefills sched budget pool (s ∷ ss) =
        let chunk = chunk_of kv sched budget s in
        elim (Bool-cases (not (is_prefilling s.status) || budget == 0)) [
          | inl skip ↦ rw skip (omega (arith, entries-continue_prefills sched budget pool ss))
          | inr go ↦ elim (Option-cases (kv.allocate pool s chunk 0)) [
            | inl full ↦ rw (go, full) (omega arith)
            | inr ((pool', table), got) ↦
                let busy : is_prefilling s.status ≡ true = ground (arith, go) in
                rw (go, got, busy)
                  (omega (arith, entries-continue_prefills sched (budget - chunk) pool' ss))
          ]
        ]

    admit_rule :
        (sched : Scheduler) (clock : ℕ → ℕ) (most : ℕ)
        → AdmitRule kv sched clock most
            (λ _ st. total entry_weight st.plan.entries ≤ total weight st.running)
    unfolding reject admit advance_prefill
    admit_rule sched clock most = record {
      refuse = λ budget index st seq p at never. p;
      accept = λ budget index st seq pool table p on at fits got.
          let chunk = admission_chunk kv sched clock most budget seq in
          let s = stamp_admission (clock seq.seq_id) (advance_prefill seq table chunk) ∷ [] in
          omega (
            arith,
            p,
            total-append weight st.running s,
            total-append entry_weight st.plan.entries (entry_for seq chunk true ∷ []),
          );
    }

    -- For any weights of the sequence ids, the entries of the plan that scheduler_step returns
    -- weigh no more than the sequences that run after it.
    pub scheduler_step-entries :
        (sched : Scheduler) (clock : ℕ → ℕ) (st : SchedulerState kv)
        → let st' = scheduler_step kv sched clock st in
          total entry_weight st'.plan.entries ≤ total weight st'.running
    unfolding scheduler_step plan_prefill_continuations
    scheduler_step-entries sched clock st =
        let fresh = record st { plan = empty_plan } in
        let decoded = plan_decodes kv fresh in
        let (j, d, _) = plan_decodes_rule kv decode_rule fresh (omega arith) in
        let r = continue_prefills kv sched sched.token_budget decoded.pool decoded.running in
        let (continued, budget) = plan_prefill_continuations kv sched decoded in
        let most = admission_cap sched continued.running in
        let (_, _, last, _) =
          plan_admissions_rule kv sched clock most (admit_rule sched clock most) budget continued
            (omega (
              arith,
              d,
              served-le j decoded.running,
              status-weights decoded.running,
              entries-continue_prefills sched sched.token_budget decoded.pool decoded.running,
              total-append entry_weight decoded.plan.entries r.entries,
            ))
            refl in
        last
