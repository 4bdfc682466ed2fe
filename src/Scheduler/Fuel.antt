-- ===== src/Scheduler/Fuel.antt =====
-- The fuel of the loops of scheduling/scheduler.py.
use llm_serving_engine.Base.{
  ℕ, zero, suc, ◌+◌, ◌≤◌, ◌≡◌, refl, ap, ◌∙◌, some, inl, inr, true, false, Bool, min, ◌-◌, length,
  get_elem?, delete_at, ◌==◌, Bool-cases, Option-cases, get_elem?-some_lt, length-init, length-set,
  length-delete_at, arith,
}
use llm_serving_engine.Sequence.{Sequence, num_tokens}
use llm_serving_engine.Allocator.{KvAllocator}
use llm_serving_engine.Scheduler.State.{Scheduler, SchedulerState, admission_cap}
use llm_serving_engine.Scheduler.Decodes.{
  grant, preempt_tail, preempt_until_allocated, loop_end, add_decode, decode_one, decodes_from,
  plan_decodes,
}
use llm_serving_engine.Scheduler.Rules.{
  Preempted, got_slot, gone, preempt_until_allocated-Preempted,
}
use llm_serving_engine.Scheduler.Admitting.{length-skip_head}
use llm_serving_engine.Scheduler.Admissions.{
  reject, admit, may_admit, admissions_from, plan_admissions,
}

module _ (kv : KvAllocator) where
  preempt-length :
      (most fuel i : ℕ) (first st : SchedulerState kv) (seq : Sequence)
      → length first.running ≤ most
      → length st.running ≤ most
      → length (loop_end kv first (preempt_until_allocated kv fuel st i seq)).0.running ≤ most
  unfolding preempt_until_allocated preempt_tail grant
  preempt-length most zero i first st seq h le = h
  preempt-length most (suc fuel) i first st seq h le =
      let shorter = length-init st.running in
      elim (Option-cases (kv.allocate st.pool seq 1 0)) [
        | inr (got, e) ↦
            rw (e, preempt_until_allocated) (omega (arith, le, length-set st.running i _))
        | inl full ↦
            let st' = preempt_tail kv st seq in
            elim (Bool-cases (length st'.running == i)) [
              | inl own ↦ rw (full, preempt_until_allocated) (rw own (omega (arith, le, shorter)))
              | inr others ↦
                  rw (full, preempt_until_allocated)
                    (rw others
                      (preempt-length most fuel i first st' seq h (omega (arith, le, shorter))))
            ]
      ]

  add_decode-running :
      (seq : Sequence) (r : SchedulerState kv × Bool) → (add_decode kv seq r).running ≡ r.0.running
  unfolding add_decode
  add_decode-running seq (st, true) = refl
  add_decode-running seq (st, false) = refl

  decode_one-length :
      (st : SchedulerState kv) (i : ℕ) (seq : Sequence)
      → length (decode_one kv st i seq).running ≤ length st.running
  unfolding decode_one
  decode_one-length st i seq = ground (
    arith,
    preempt-length (length st.running) (length st.running) i st st seq (omega arith) (omega arith),
    ap length (
        add_decode-running seq
          (loop_end kv st (preempt_until_allocated kv (length st.running) st i seq))),
  )

  decodes-fuel :
      (fuel more i : ℕ) (st : SchedulerState kv)
      → length st.running ≤ fuel + i
      → fuel ≤ more
      → decodes_from kv more i st ≡ decodes_from kv fuel i st
  unfolding decodes_from
  decodes-fuel zero zero i st enough le = refl
  decodes-fuel (suc fuel) zero i st enough le = absurd (omega arith)
  decodes-fuel zero (suc more) i st enough le = elim (Option-cases (get_elem? st.running i)) [
    | inl out ↦ rw (out, decodes_from) refl
    | inr (seq, at) ↦ absurd (omega (arith, get_elem?-some_lt st.running i seq at))
  ]
  decodes-fuel (suc fuel) (suc more) i st enough le = elim (Option-cases (get_elem? st.running i)) [
    | inl out ↦ rw (out, decodes_from) refl
    | inr (seq, at) ↦
        rw (at, decodes_from)
          (decodes-fuel fuel more (suc i) (decode_one kv st i seq)
            (omega (arith, decode_one-length st i seq)) (omega arith))
  ]

  popped-length :
      (i : ℕ) (seq : Sequence) (r : SchedulerState kv × Bool)
      → Preempted kv (λ _. Unit) i seq r
      → r.1 ≡ false
      → length r.0.running ≡ i
  popped-length i seq r (got_slot st pool table p at got e) refused =
      absurd (ground (arith, ap (λ x. x.1) e, refused))
  popped-length i seq r (gone st p len e) refused = ap (λ x. length x.0.running) e ∙ len

  -- If seq is running[i] and the fuel is at least the number of running sequences,
  -- preempt_until_allocated ends within it, with i sequences left where it got no slot, and the
  -- loop of the decodes with that fuel gives what plan_decodes gives.
  pub plan_decodes-ends :
      (fuel i : ℕ) (st : SchedulerState kv) (seq : Sequence)
      → get_elem? st.running i ≡ some seq
      → length st.running ≤ fuel
      → ((last : SchedulerState kv) × (slot : Bool) × (preempt_until_allocated kv fuel st i seq
            ≡ some (last, slot))
          × (slot ≡ false → length last.running ≡ i))
        × (decodes_from kv fuel 0 st ≡ plan_decodes kv st)
  unfolding plan_decodes
  plan_decodes-ends fuel i st seq at enough =
      let (r, returns, how) =
        preempt_until_allocated-Preempted kv (λ _. Unit) i seq (λ _ _ _. tt) fuel st
          (omega (arith, enough)) at tt in
      (
        (r.0, r.1, returns, popped-length i seq r how),
        decodes-fuel (length st.running) fuel 0 st (omega arith) enough,
      )

  admissions-fuel :
      (sched : Scheduler) (clock : ℕ → ℕ) (fuel more most index budget : ℕ) (st : SchedulerState kv)
      → length st.queue ≤ fuel + index
      → fuel ≤ more
      → admissions_from kv sched clock more most index budget st
        ≡ admissions_from kv sched clock fuel most index budget st
  unfolding admissions_from reject admit
  admissions-fuel sched clock zero zero most index budget st enough le = refl
  admissions-fuel sched clock (suc fuel) zero most index budget st enough le = absurd (omega arith)
  admissions-fuel sched clock zero (suc more) most index budget st enough le =
      elim (Bool-cases (may_admit kv st most index budget)) [
        | inl on ↦ absurd (ground arith)
        | inr off ↦ rw off refl
      ]
  admissions-fuel sched clock (suc fuel) (suc more) most index budget st enough le =
      elim (Bool-cases (may_admit kv st most index budget)) [
        | inr off ↦ rw off refl
        | inl on ↦ elim (Option-cases (get_elem? st.queue index)) [
          | inl out ↦ rw (on, out, admissions_from) refl
          | inr (seq, at) ↦
              let size = get_elem?-some_lt st.queue index seq at in
              let drops = length-delete_at st.queue index size in
              elim (Bool-cases (kv.can_ever_fit st.pool seq)) [
                | inr never ↦
                    rw (on, at, admissions_from)
                      (rw never (
                        admissions-fuel sched clock fuel more most index budget
                          (reject kv st index seq) (omega (arith, drops)) (omega arith)))
                | inl fits ↦
                    let chunk = min (min (num_tokens seq) budget) sched.max_prefill_chunk in
                    elim (Option-cases (kv.allocate st.pool seq chunk (length st.running))) [
                      | inl full ↦
                          rw (on, at, admissions_from)
                            (rw (fits, full, admissions_from)
                              (admissions-fuel sched clock fuel more most (suc index) budget st
                                (omega arith) (omega arith)))
                      | inr ((pool, table), got) ↦
                          rw (on, at, admissions_from)
                            (rw (fits, got, admissions_from)
                              (admissions-fuel sched clock fuel more most index (budget - chunk)
                                (admit kv clock st index seq chunk pool table)
                                (omega (
                                  arith,
                                  drops,
                                  length-skip_head kv index (delete_at st.queue index),
                                ))
                                (omega arith)))
                    ]
              ]
        ]
      ]

  -- Any fuel that is at least the number of waiting sequences gives what plan_admissions gives, so
  -- its loop ends within that many rounds.
  plan_admissions-fuel :
      (sched : Scheduler) (clock : ℕ → ℕ) (fuel budget : ℕ) (st : SchedulerState kv)
      → length st.queue ≤ fuel
      → admissions_from kv sched clock fuel (admission_cap sched st.running) 0 budget st
        ≡ plan_admissions kv sched clock budget st
  unfolding plan_admissions
  plan_admissions-fuel sched clock fuel budget st enough =
      admissions-fuel sched clock (length st.queue) fuel (admission_cap sched st.running) 0 budget
        st (omega arith) enough
