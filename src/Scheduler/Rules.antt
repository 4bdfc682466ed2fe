-- ===== src/Scheduler/Rules.antt =====
-- Proof rules for the loops of `scheduler_step`: what has to be kept by one round. They also show
-- that the fuel of each loop is enough, since no rule mentions a state where it has run out.
use llm_serving_engine.Base.{
  ℕ, zero, suc, ◌+◌, ◌-◌, ◌≤◌, ◌<◌, ◌≡◌, refl, ◌⊎◌, ◌∙◌, inl, inr, Bool, true, false, some, length,
  get_elem?, ◌==◌, ==_iff, length-init, length-set, get_elem?-init, get_elem?-some_lt,
  get_elem?-none_le, Bool-cases, Option-cases, arith,
}
use llm_serving_engine.Sequence.{Sequence, BlockTable, is_decoding, add}
use llm_serving_engine.Allocator.{KvAllocator}
use llm_serving_engine.Scheduler.State.{SchedulerState}
use llm_serving_engine.Scheduler.Decodes.{
  grant, preempt_tail, preempt_until_allocated, add_decode, decode_one, decodes_from, plan_decodes,
}

module _ (kv : KvAllocator) where
  pub length-preempt_tail :
      (st : SchedulerState kv) (seq : Sequence)
      → length (preempt_tail kv st seq).running ≡ length st.running - 1
  unfolding preempt_tail
  length-preempt_tail st seq = length-init st.running

  get_elem?-preempt_tail :
      (st : SchedulerState kv) (seq : Sequence) (i : ℕ)
      → suc i < length st.running
      → get_elem? (preempt_tail kv st seq).running i ≡ get_elem? st.running i
  unfolding preempt_tail
  get_elem?-preempt_tail st seq i h = get_elem?-init st.running i h

  -- How the inner loop ends: with a slot for `seq`, or with `seq` itself preempted.
  pub data Preempted (P : SchedulerState kv → Type 0) (i : ℕ) (seq : Sequence)
      (r : SchedulerState kv × Bool) : Type 0 where
    got_slot :
        (st : SchedulerState kv) (pool : kv.Pool) (table : BlockTable)
        → P st
        → get_elem? st.running i ≡ some seq
        → kv.allocate st.pool seq 1 0 ≡ some (pool, table)
        → r ≡ (grant kv st i seq (pool, table), true)
        → Preempted P i seq r
    gone :
        (st : SchedulerState kv)
        → P st
        → length st.running ≡ i
        → r ≡ (st, false)
        → Preempted P i seq r

  module _ (P : SchedulerState kv → Type 0) (i : ℕ) (seq : Sequence)
      (pops : (st : SchedulerState kv)
        → i < length st.running
        → P st
        → P (preempt_tail kv st seq)) where
    pub preempt_until_allocated-Preempted :
        (fuel : ℕ) (st : SchedulerState kv)
        → length st.running ≤ i + fuel
        → get_elem? st.running i ≡ some seq
        → P st
        → (r : SchedulerState kv × Bool) × (preempt_until_allocated kv fuel st i seq ≡ some r)
          × Preempted P i seq r
    unfolding preempt_until_allocated
    preempt_until_allocated-Preempted zero st enough at p =
        absurd (omega (arith, get_elem?-some_lt st.running i seq at))
    preempt_until_allocated-Preempted (suc fuel) st enough at p =
        elim (Option-cases (kv.allocate st.pool seq 1 0)) [
          | inr ((pool, table), got) ↦
              (_, rw (got, preempt_until_allocated) refl, got_slot st pool table p at got refl)
          | inl full ↦
              let here = get_elem?-some_lt st.running i seq at in
              let st' = preempt_tail kv st seq in
              let shorter = length-preempt_tail st seq in
              elim (Bool-cases (length st'.running == i)) [
                | inl last ↦ (
                  _,
                  rw (full, preempt_until_allocated) (rw last refl),
                  gone st' (pops st here p) ((==_iff _ i).0 last) refl,
                )
                | inr more ↦
                    rw (full, preempt_until_allocated)
                      (rw more (
                        preempt_until_allocated-Preempted fuel st' (omega arith)
                          (get_elem?-preempt_tail st seq i (ground (arith, shorter)) ∙ at)
                          (pops st here p)))
              ]
        ]

  -- The outer loop. `P i` is to hold when the loop is at `running[i]`.
  pub record DecodeRule (P : ℕ → SchedulerState kv → Type 0) : Type 0 where
    pub preempt :
        (i : ℕ) (st : SchedulerState kv) (seq : Sequence)
        → i < length st.running
        → P i st
        → P i (preempt_tail kv st seq)
    pub decode :
        (i : ℕ) (st : SchedulerState kv) (seq : Sequence) (pool : kv.Pool) (table : BlockTable)
        → P i st
        → get_elem? st.running i ≡ some seq
        → is_decoding seq.status ≡ true
        → kv.allocate st.pool seq 1 0 ≡ some (pool, table)
        → P (suc i) (record (grant kv st i seq (pool, table)) { plan = add st.plan seq 1 false })
    pub pass :
        (i : ℕ) (st : SchedulerState kv) (seq : Sequence)
        → P i st
        → get_elem? st.running i ≡ some seq
        → is_decoding seq.status ≡ false
        → P (suc i) st
    pub leave : (i : ℕ) (st : SchedulerState kv) → P i st → length st.running ≡ i → P (suc i) st

  module _ {P : ℕ → SchedulerState kv → Type 0} (rule : DecodeRule P) where
    add_decode_rule :
        (i : ℕ) (seq : Sequence) (r : SchedulerState kv × Bool)
        → is_decoding seq.status ≡ true
        → Preempted (P i) i seq r
        → P (suc i) (add_decode kv seq r)
    unfolding add_decode grant
    add_decode_rule i seq r busy (got_slot st pool table p at got e) =
        rw e (rule.decode i st seq pool table p at busy got)
    add_decode_rule i seq r busy (gone st p len e) = rw e (rule.leave i st p len)

    decode_one_rule :
        (i : ℕ) (st : SchedulerState kv) (seq : Sequence)
        → get_elem? st.running i ≡ some seq
        → P i st
        → P (suc i) (decode_one kv st i seq)
    unfolding decode_one
    decode_one_rule i st seq at p = elim (Bool-cases (is_decoding seq.status)) [
      | inr idle ↦ rw idle (rule.pass i st seq p at idle)
      | inl busy ↦ rw busy (
          let (r, ends, how) =
            preempt_until_allocated-Preempted (P i) i seq (λ st' here. rule.preempt i st' seq here)
              (length st.running) st (omega arith) at p in
          rw ends (add_decode_rule i seq r busy how))
    ]

    decodes_from_rule :
        (fuel i : ℕ) (st : SchedulerState kv)
        → P i st
        → (j : ℕ) × P j (decodes_from kv fuel i st)
          × ((length (decodes_from kv fuel i st).running ≤ j) ⊎ (j ≡ i + fuel))
    unfolding decodes_from
    decodes_from_rule zero i st p = (i, p, inr (omega arith))
    decodes_from_rule (suc fuel) i st p = elim (Option-cases (get_elem? st.running i)) [
      | inl end ↦ rw (end, decodes_from) (i, p, inl (get_elem?-none_le st.running i end))
      | inr (seq, at) ↦
          let (j, q, how) =
            decodes_from_rule fuel (suc i) (decode_one kv st i seq)
              (decode_one_rule i st seq at p) in
          rw (at, decodes_from) (j, q, ground (arith, how))
    ]

  module _ {P : ℕ → SchedulerState kv → Type 0} (rule : DecodeRule P) (n : ℕ) where
    -- No round makes `running` longer.
    bounded_rule : DecodeRule (λ i st. P i st × (length st.running ≤ n))
    unfolding grant
    bounded_rule = record {
      preempt = λ i st seq here p.
          (rule.preempt i st seq here p.0, omega (arith, p.1, length-preempt_tail st seq));
      decode = λ i st seq pool table p at busy got. (
        unfold grant in rule.decode i st seq pool table p.0 at busy got,
        omega (arith, p.1, length-set st.running i (record seq { block_table = table })),
      );
      pass = λ i st seq p at idle. (rule.pass i st seq p.0 at idle, p.1);
      leave = λ i st p len. (rule.leave i st p.0 len, p.1);
    }

  -- What holds at the start of `_plan_decodes` holds when it is past the end of `running`.
  pub plan_decodes_rule :
      {P : ℕ → SchedulerState kv → Type 0} (rule : DecodeRule P) (st : SchedulerState kv)
      → P 0 st
      → (j : ℕ) × P j (plan_decodes kv st) × (length (plan_decodes kv st).running ≤ j)
  unfolding plan_decodes
  plan_decodes_rule rule st p =
      let (j, q, how) =
        decodes_from_rule (bounded_rule rule (length st.running)) (length st.running) 0 st
          (p, omega arith) in
      (j, q.0, omega (arith, q.1, how))
