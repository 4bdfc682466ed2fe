-- ===== src/Scheduler/Progress.antt =====
-- When a plan is empty. The engine then sleeps until a request arrives.
use llm_serving_engine.Base.{
  ℕ, zero, suc, ◌-◌, ◌≤◌, ◌<◌, ◌≡◌, ◌⊎◌, refl, ap, ◌∙◌, inl, inr, not, ◌||◌, true, false, some,
  none, List, [], ◌∷◌, length, get_elem?, init, ◌==◌, All, All-get_elem?, Bool-cases, Option-cases,
  arith, length-append, get_elem?-init, length-init,
}
use llm_serving_engine.Sequence.{
  Sequence, prefilling, empty_plan, is_prefilling, is_decoding, entry_for,
}
use llm_serving_engine.Allocator.{KvAllocator}
use llm_serving_engine.Scheduler.State.{Scheduler, SchedulerState, admission_cap}
use llm_serving_engine.Scheduler.Decodes.{
  grant, preempt_tail, decode_one, decodes_from, plan_decodes,
}
use llm_serving_engine.Scheduler.Prefills.{chunk_of, continue_prefills, plan_prefill_continuations}
use llm_serving_engine.Scheduler.Admissions.{reject, admit, admissions_from, plan_admissions}
use llm_serving_engine.Scheduler.Step.{scheduler_step}
use llm_serving_engine.Scheduler.Rules.{DecodeRule, plan_decodes_rule}
use llm_serving_engine.Scheduler.Admitting.{AdmitRule, admission_chunk, plan_admissions_rule}

Nil-cases : (ss : List Sequence) → (ss ≡ []) ⊎ (0 < length ss)
Nil-cases [] = inl refl
Nil-cases (s ∷ ss) = inr (omega arith)

module _ (kv : KvAllocator) where
  abbrev pub AllPrefilling : List Sequence → Type 0
  AllPrefilling = All (λ s. s.status ≡ prefilling)

  -- Every running sequence is in the middle of its prompt, and the first one's next chunk does not
  -- fit.
  pub record IsStalled (sched : Scheduler) (st : SchedulerState kv) : Type 0 where
    pub head : Sequence
    pub others : List Sequence
    pub runs : st.running ≡ head ∷ others
    pub prefills : AllPrefilling (head ∷ others)
    pub has_budget : 0 < sched.token_budget
    pub no_room : kv.allocate st.pool head (chunk_of kv sched sched.token_budget head) 0 ≡ none

  decodes_from_idle :
      (fuel i : ℕ) (st : SchedulerState kv)
      → AllPrefilling st.running
      → decodes_from kv fuel i st ≡ st
  unfolding decodes_from decode_one
  decodes_from_idle zero i st h = refl
  decodes_from_idle (suc fuel) i st h = elim (Option-cases (get_elem? st.running i)) [
    | inl end ↦ rw (end, decodes_from)
    | inr (s, at) ↦
        let e = All-get_elem? (λ (s : Sequence). s.status ≡ prefilling) st.running i s h at in
        rw (at, decodes_from, decode_one) (rw e (decodes_from_idle fuel (suc i) st h))
  ]

  continue_prefills_full :
      (sched : Scheduler) (budget : ℕ) (pool : kv.Pool) (s : Sequence) (ss : List Sequence)
      → s.status ≡ prefilling
      → 0 < budget
      → kv.allocate pool s (chunk_of kv sched budget s) 0 ≡ none
      → continue_prefills kv sched budget pool (s ∷ ss)
        ≡ record { budget = 0; pool = pool; entries = []; running = s ∷ ss }
  unfolding continue_prefills
  continue_prefills_full sched budget pool s ss e h full =
      let test : (not (is_prefilling s.status) || budget == 0) ≡ false = ground arith in
      rw (test, full)

  admissions_without_budget :
      (sched : Scheduler) (clock : ℕ → ℕ) (fuel most index : ℕ) (st : SchedulerState kv)
      → admissions_from kv sched clock fuel most index 0 st ≡ st
  unfolding admissions_from
  admissions_without_budget sched clock zero most index st = refl
  admissions_without_budget sched clock (suc fuel) most index st = ground arith

  plan_decodes_idle : (st : SchedulerState kv) → AllPrefilling st.running → plan_decodes kv st ≡ st
  unfolding plan_decodes
  plan_decodes_idle st h = decodes_from_idle (length st.running) 0 st h

  plan_prefill_continuations_full :
      (sched : Scheduler) (st : SchedulerState kv)
      → IsStalled sched st
      → st.plan ≡ empty_plan
      → plan_prefill_continuations kv sched st ≡ (st, 0)
  unfolding plan_prefill_continuations
  plan_prefill_continuations_full sched st d fresh =
      let e : continue_prefills kv sched sched.token_budget st.pool st.running
          ≡ record { budget = 0; pool = st.pool; entries = []; running = st.running } =
        rw d.runs (
          continue_prefills_full sched sched.token_budget st.pool d.head d.others d.prefills.0
            d.has_budget d.no_room) in
      rw e (ground (arith, fresh))

  plan_admissions_without_budget :
      (sched : Scheduler) (clock : ℕ → ℕ) (st : SchedulerState kv)
      → plan_admissions kv sched clock 0 st ≡ st
  unfolding plan_admissions
  plan_admissions_without_budget sched clock st =
      admissions_without_budget sched clock (length st.queue) (admission_cap sched st.running) 0 st

  -- If every running sequence is in its prompt, the token budget is positive and the next chunk of
  -- the first one does not fit, scheduler_step plans nothing and changes nothing but the plan.
  pub scheduler_step-stalled :
      (sched : Scheduler) (clock : ℕ → ℕ) (st : SchedulerState kv)
      → IsStalled sched st
      → scheduler_step kv sched clock st ≡ record st { plan = empty_plan }
  unfolding scheduler_step
  scheduler_step-stalled sched clock st d =
      let fresh = record st { plan = empty_plan } in
      let stalled : IsStalled sched fresh = record {
        head = d.head;
        others = d.others;
        runs = d.runs;
        prefills = d.prefills;
        has_budget = d.has_budget;
        no_room = d.no_room;
      } in
      rw
        (
          plan_decodes_idle fresh (rw d.runs d.prefills),
          plan_prefill_continuations_full sched fresh stalled refl,
        )
        (plan_admissions_without_budget sched clock fresh)

  -- The decode loop, for a state whose first running sequence decodes.
  abbrev Serves : ℕ → SchedulerState kv → Type 0
  Serves zero st =
      (st.running ≡ [])
      ⊎ ((s : Sequence) × (get_elem? st.running 0 ≡ some s) × (is_decoding s.status ≡ true))
  Serves (suc i) st = (st.running ≡ []) ⊎ (0 < length st.plan.entries)

  preempt-Serves :
      (i : ℕ) (st : SchedulerState kv) (seq : Sequence)
      → i < length st.running
      → Serves i st
      → Serves i (preempt_tail kv st seq)
  unfolding preempt_tail
  preempt-Serves zero st seq here (inl e) = absurd (omega (arith, ap length e))
  preempt-Serves zero st seq here (inr (s, at, busy)) = elim (Nil-cases (init st.running)) [
    | inl e ↦ inl e
    | inr more ↦
        inr
          (s, get_elem?-init st.running 0 (omega (arith, length-init st.running, more)) ∙ at, busy)
  ]
  preempt-Serves (suc i) st seq here (inl e) = absurd (omega (arith, ap length e))
  preempt-Serves (suc i) st seq here (inr h) = inr h

  pass-Serves :
      (i : ℕ) (st : SchedulerState kv) (seq : Sequence)
      → Serves i st
      → get_elem? st.running i ≡ some seq
      → is_decoding seq.status ≡ false
      → Serves (suc i) st
  pass-Serves zero st seq (inl e) at idle = inl e
  pass-Serves zero st seq (inr (s, first, busy)) at idle = absurd (ground (arith, first))
  pass-Serves (suc i) st seq p at idle = p

  leave-Serves :
      (i : ℕ) (st : SchedulerState kv) → Serves i st → length st.running ≡ i → Serves (suc i) st
  leave-Serves zero st p len = elim (Nil-cases st.running) [
    | inl e ↦ inl e
    | inr more ↦ absurd (omega arith)
  ]
  leave-Serves (suc i) st p len = p

  serve_rule : DecodeRule kv Serves
  unfolding grant
  serve_rule = record {
    preempt = preempt-Serves;
    decode = λ i st seq pool table p at busy got.
        inr (omega (arith, length-append st.plan.entries (entry_for seq 1 false ∷ [])));
    pass = pass-Serves;
    leave = leave-Serves;
  }

  -- After a pass: something is planned, or nothing runs.
  abbrev Busy : SchedulerState kv → Type 0
  Busy st = (length st.running ≡ 0) ⊎ (0 < length st.plan.entries)

  plan_decodes-Busy :
      (st : SchedulerState kv) (s : Sequence)
      → get_elem? st.running 0 ≡ some s
      → is_decoding s.status ≡ true
      → Busy (plan_decodes kv st)
  plan_decodes-Busy st s at busy =
      let (j, p, past) = plan_decodes_rule kv serve_rule st (inr (s, at, busy)) in go j p past
    where
      go :
          (j : ℕ)
          → Serves j (plan_decodes kv st)
          → length (plan_decodes kv st).running ≤ j
          → Busy (plan_decodes kv st)
      go zero p past = inl (omega arith)
      go (suc j) (inl e) past = inl (omega (arith, ap length e))
      go (suc j) (inr h) past = inr h

  length-continue_prefills :
      (sched : Scheduler) (budget : ℕ) (pool : kv.Pool) (ss : List Sequence)
      → length (continue_prefills kv sched budget pool ss).running ≡ length ss
  unfolding continue_prefills
  length-continue_prefills sched budget pool [] = refl
  length-continue_prefills sched budget pool (s ∷ ss) =
      let chunk = chunk_of kv sched budget s in
      elim (Bool-cases (not (is_prefilling s.status) || budget == 0)) [
        | inl skip ↦ rw skip (omega (arith, length-continue_prefills sched budget pool ss))
        | inr go ↦ elim (Option-cases (kv.allocate pool s chunk 0)) [
          | inl full ↦ rw (go, full)
          | inr ((pool', table), got) ↦
              rw (go, got) (omega (arith, length-continue_prefills sched (budget - chunk) pool' ss))
        ]
      ]

  admit_rule :
      (sched : Scheduler) (clock : ℕ → ℕ) (most : ℕ) → AdmitRule kv sched clock most (λ _. Busy)
  unfolding reject admit
  admit_rule sched clock most = record {
    refuse = λ budget index st seq p at never. p;
    accept = λ budget index st seq pool table p on at fits got. inr (
        omega (
          arith,
          length-append st.plan.entries
              (entry_for seq (admission_chunk kv sched clock most budget seq) true ∷ []),
        ));
  }

  -- If the first of the running sequences decodes, the plan that scheduler_step returns has an
  -- entry, or nothing runs after it.
  pub scheduler_step-progress :
      (sched : Scheduler) (clock : ℕ → ℕ) (st : SchedulerState kv) (s : Sequence)
      → get_elem? st.running 0 ≡ some s
      → is_decoding s.status ≡ true
      → let st' = scheduler_step kv sched clock st in
        (length st'.running ≡ 0) ⊎ (0 < length st'.plan.entries)
  unfolding scheduler_step plan_prefill_continuations
  scheduler_step-progress sched clock st s at busy =
      let fresh = record st { plan = empty_plan } in
      let decoded = plan_decodes kv fresh in
      let (continued, budget) = plan_prefill_continuations kv sched decoded in
      let r = continue_prefills kv sched sched.token_budget decoded.pool decoded.running in
      let most = admission_cap sched continued.running in
      let (_, _, last, _) =
        plan_admissions_rule kv sched clock most (admit_rule sched clock most) budget continued
          (omega (
            arith,
            plan_decodes-Busy fresh s at busy,
            length-continue_prefills sched sched.token_budget decoded.pool decoded.running,
            length-append decoded.plan.entries r.entries,
          ))
          refl in
      last
