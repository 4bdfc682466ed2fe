-- ===== src/Scheduler/Admitting.antt =====
-- The proof rule for the loop of `_plan_admissions`: what has to be kept by one round.
use llm_serving_engine.Base.{
  ℕ, zero, suc, ◌+◌, ◌-◌, ◌≤◌, ◌≡◌, refl, inl, inr, true, false, some, List, [], ◌∷◌, length,
  get_elem?, delete_at, length-delete_at, min, get_elem?-some_lt, get_elem?-none_le, Bool-cases,
  Option-cases, arith,
}
use llm_serving_engine.Sequence.{Sequence, BlockTable, num_tokens}
use llm_serving_engine.Allocator.{KvAllocator}
use llm_serving_engine.Scheduler.State.{Scheduler, SchedulerState, admission_cap}
use llm_serving_engine.Scheduler.Admissions.{
  skip_head, may_admit, reject, admit, admissions_from, plan_admissions,
}

module _ (kv : KvAllocator) where
  pub length-skip_head : (i : ℕ) (q : List Sequence) → length (skip_head i q) ≡ length q
  length-skip_head zero q = refl
  length-skip_head (suc i) [] = refl
  length-skip_head (suc i) (h ∷ q) = refl

  module _ (sched : Scheduler) (clock : ℕ → ℕ) (most : ℕ) where
    abbrev pub admission_chunk : ℕ → Sequence → ℕ
    admission_chunk budget seq = min (min (num_tokens seq) budget) sched.max_prefill_chunk

    -- One round of `_plan_admissions`, with the budget that is left.
    pub record AdmitRule (P : ℕ → SchedulerState kv → Type 0) : Type 0 where
      pub refuse :
          (budget index : ℕ) (st : SchedulerState kv) (seq : Sequence)
          → P budget st
          → get_elem? st.queue index ≡ some seq
          → kv.can_ever_fit st.pool seq ≡ false
          → P budget (reject kv st index seq)
      pub accept :
          (budget index : ℕ) (st : SchedulerState kv) (seq : Sequence) (pool : kv.Pool)
          (table : BlockTable)
          → P budget st
          → may_admit kv st most index budget ≡ true
          → get_elem? st.queue index ≡ some seq
          → kv.can_ever_fit st.pool seq ≡ true
          → kv.allocate st.pool seq (admission_chunk budget seq) (length st.running)
            ≡ some (pool, table)
          → P
              (budget - admission_chunk budget seq)
              (admit kv clock st index seq (admission_chunk budget seq) pool table)

    -- The walk ends where its condition fails, with what every round keeps.
    pub admissions_from_rule :
        {P : ℕ → SchedulerState kv → Type 0} (rule : AdmitRule P) (fuel index budget : ℕ)
        (st : SchedulerState kv)
        → length st.queue ≤ index + fuel
        → P budget st
        → let end = admissions_from kv sched clock fuel most index budget st in
          (b : ℕ) × (j : ℕ) × P b end × (may_admit kv end most j b ≡ false)
    unfolding admissions_from
    admissions_from_rule rule zero index budget st enough p = (budget, index, p, ground arith)
    admissions_from_rule rule (suc fuel) index budget st enough p =
        elim (Bool-cases (may_admit kv st most index budget)) [
          | inr over ↦ rw over (budget, index, p, over)
          | inl on ↦ elim (Option-cases (get_elem? st.queue index)) [
            | inl end ↦ absurd (ground (arith, get_elem?-none_le st.queue index end))
            | inr (seq, at) ↦ elim (Bool-cases (kv.can_ever_fit st.pool seq)) [
              | inr never ↦
                  rw (on, at, never)
                    (admissions_from_rule rule fuel index budget (reject kv st index seq)
                      (omega (arith, shorter seq at)) (rule.refuse budget index st seq p at never))
              | inl fits ↦
                  elim (Option-cases
                    (kv.allocate st.pool seq (admission_chunk budget seq) (length st.running))) [
                      | inl full ↦
                          rw (on, at, fits, full)
                            (admissions_from_rule rule fuel (suc index) budget st (omega arith) p)
                      | inr ((pool, table), got) ↦
                          rw (on, at, fits, got)
                            (admissions_from_rule rule fuel index _
                              (admit kv clock st index seq _ pool table)
                              (omega (
                                arith,
                                shorter seq at,
                                length-skip_head index (delete_at st.queue index),
                              ))
                              (rule.accept budget index st seq pool table p on at fits got))
                    ]
            ]
          ]
        ]
      where
        shorter :
            (seq : Sequence)
            → get_elem? st.queue index ≡ some seq
            → length (delete_at st.queue index) + 1 ≡ length st.queue
        shorter seq at = length-delete_at st.queue index (get_elem?-some_lt st.queue index seq at)

    pub plan_admissions_rule :
        {P : ℕ → SchedulerState kv → Type 0} (rule : AdmitRule P) (budget : ℕ)
        (st : SchedulerState kv)
        → P budget st
        → most ≡ admission_cap sched st.running
        → (b : ℕ) × (j : ℕ) × P b (plan_admissions kv sched clock budget st)
          × (may_admit kv (plan_admissions kv sched clock budget st) most j b ≡ false)
    unfolding plan_admissions
    plan_admissions_rule rule budget st p e =
        rw (← e) (admissions_from_rule rule (length st.queue) 0 budget st (omega arith) p)
