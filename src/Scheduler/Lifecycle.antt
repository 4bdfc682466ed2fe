-- ===== src/Scheduler/Lifecycle.antt =====
-- `scheduler_step` on the paged pool: before it every running sequence that decodes lacks the slot
-- of its last token, and after it none does; a waiting sequence holds nothing.
use native.Mathlib.Decide.{ℕ_discrete}
use llm_serving_engine.Base.{
  get_elem?-some_lt, sym, ◌∙◌, ℕ, zero, suc, ◌+◌, ◌-◌, ◌≤◌, ◌<◌, ◌≡◌, refl, inl, inr, not, ◌||◌,
  true, false, some, List, [], ◌∷◌, length, get_elem?, delete_at, last_or, ◌==◌, All, All-append,
  All-delete_at, All-of_each, All-get_elem?, get_elem?-init-some, get_elem?-last_or,
  get_elem?-set-some, Bool-cases, Option-cases, arith,
}
use llm_serving_engine.Sequence.{
  Sequence, BlockTable, empty_plan, is_prefilling, is_decoding, num_tokens,
}
use llm_serving_engine.Allocator.Block.{BlockAllocator, free}
use llm_serving_engine.Allocator.Books.{paged}
use llm_serving_engine.Allocator.Cover.{IsCovered, allocate-IsCovered, ceil_div-zero}
use llm_serving_engine.Scheduler.State.{Scheduler, SchedulerState, advance_prefill, admission_cap}
use llm_serving_engine.Scheduler.Decodes.{grant, preempt_tail, plan_decodes}
use llm_serving_engine.Scheduler.Prefills.{chunk_of, continue_prefills, plan_prefill_continuations}
use llm_serving_engine.Scheduler.Admissions.{stamp_admission, skip_head, reject, admit}
use llm_serving_engine.Scheduler.Step.{scheduler_step}
use llm_serving_engine.Scheduler.Rules.{DecodeRule, plan_decodes_rule}
use llm_serving_engine.Scheduler.Admitting.{AdmitRule, admission_chunk, plan_admissions_rule}
use llm_serving_engine.Scheduler.Phase.{
  IsRunning, IsWaiting, reset-IsWaiting, advance_prefill-IsRunning, not_decoding-IsRunning,
  decode-IsRunning, prefilling-facts,
}

-- A state of the scheduler at `lag` 1 (between iterations) or 0 (planned).
pub record IsSound (block_size lag : ℕ) (st : SchedulerState paged) : Type 0 where
  pub all_running : All (IsRunning block_size lag) st.running
  pub all_waiting : All IsWaiting st.queue
  pub sized : st.pool.block_size ≡ block_size

module _ (block_size : ℕ) (positive : 0 < block_size) where
  -- In the decode loop: the sequences before position `i` have their slots, the others not yet.
  record Mid (i : ℕ) (st : SchedulerState paged) : Type 0 where
    before :
        (k : ℕ) (s : Sequence) → k < i → get_elem? st.running k ≡ some s → IsRunning block_size 0 s
    after :
        (k : ℕ) (s : Sequence) → i ≤ k → get_elem? st.running k ≡ some s → IsRunning block_size 1 s
    all_waiting : All IsWaiting st.queue
    sized : st.pool.block_size ≡ block_size

  preempt-Mid :
      (i : ℕ) (st : SchedulerState paged) (seq : Sequence)
      → i < length st.running
      → Mid i st
      → Mid i (preempt_tail paged st seq)
  unfolding preempt_tail free
  preempt-Mid i st seq here m = record {
    before = λ k s lt at. m.before k s lt (get_elem?-init-some st.running k s at);
    after = λ k s le at. m.after k s le (get_elem?-init-some st.running k s at);
    all_waiting = (
      unfold free in
          reset-IsWaiting block_size 1 st.pool (last_or seq st.running) (
            m.after (length st.running - 1) (last_or seq st.running) (omega arith)
              (get_elem?-last_or seq st.running (length st.running - 1) (omega arith))),
      m.all_waiting,
    );
    sized = m.sized;
  }

  -- `allocate-IsCovered` in a pool of this block size.
  grows :
      (a : BlockAllocator) (s : Sequence) (n reserve : ℕ) (a' : BlockAllocator) (t : BlockTable)
      → a.block_size ≡ block_size
      → IsCovered block_size s.block_table
      → paged.allocate a s n reserve ≡ some (a', t)
      → IsCovered block_size t
        × (t.num_tokens ≡ s.block_table.num_tokens + n)
        × (a'.block_size ≡ block_size)
  grows a s n reserve a' t size c got =
      let (c', grown, _, size', _) =
        allocate-IsCovered a s n reserve a' t (omega arith) (rw size c) got in
      (rw size at c', grown, size' ∙ size)

  decode-Mid :
      (i : ℕ) (st : SchedulerState paged) (seq : Sequence) (pool : BlockAllocator)
      (table : BlockTable)
      → Mid i st
      → get_elem? st.running i ≡ some seq
      → is_decoding seq.status ≡ true
      → paged.allocate st.pool seq 1 0 ≡ some (pool, table)
      → Mid (suc i) (grant paged st i seq (pool, table))
  unfolding grant
  decode-Mid i st seq pool table m at busy got =
      let old = m.after i seq (omega arith) at in
      let (c, grown, size) = grows st.pool seq 1 0 pool table m.sized old.covered got in
      let now = decode-IsRunning block_size seq table c grown busy old in
      let seq' = record seq { block_table = table } in
      record {
        before = λ k s lt is. elim (get_elem?-set-some st.running i seq' k s is) [
          | inl (_, same) ↦ rw same now
          | inr (other, was) ↦ m.before k s (omega arith) was
        ];
        after = λ k s le is. elim (get_elem?-set-some st.running i seq' k s is) [
          | inl (same, _) ↦ absurd (omega arith)
          | inr (other, was) ↦ m.after k s (omega arith) was
        ];
        all_waiting = m.all_waiting;
        sized = size;
      }

  pass-Mid :
      (i : ℕ) (st : SchedulerState paged) (seq : Sequence)
      → Mid i st
      → get_elem? st.running i ≡ some seq
      → is_decoding seq.status ≡ false
      → Mid (suc i) st
  pass-Mid i st seq m at idle = record {
    before = λ k s lt is. elim (ℕ_discrete k i) [
      | yes same ↦
          let e : s ≡ seq = cc in
          rw e (not_decoding-IsRunning block_size 1 0 seq idle (m.after i seq (omega arith) at))
      | no other ↦ m.before k s (omega arith) is
    ];
    after = λ k s le is. m.after k s (omega arith) is;
    all_waiting = m.all_waiting;
    sized = m.sized;
  }

  decode_rule : DecodeRule paged Mid
  decode_rule = record {
    preempt = preempt-Mid;
    decode = λ i st seq pool table m at busy got.
        let m' = decode-Mid i st seq pool table m at busy got in
        record {
          before = m'.before;
          after = m'.after;
          all_waiting = m'.all_waiting;
          sized = m'.sized;
        };
    pass = pass-Mid;
    leave = λ i st m len. record {
      before = λ k s lt is. m.before k s (omega (arith, get_elem?-some_lt st.running k s is)) is;
      after = λ k s le is. m.after k s (omega arith) is;
      all_waiting = m.all_waiting;
      sized = m.sized;
    };
  }

  plan_decodes-IsSound :
      (st : SchedulerState paged)
      → IsSound block_size 1 st
      → IsSound block_size 0 (plan_decodes paged st)
  plan_decodes-IsSound st v =
      let (j, m, past) = plan_decodes_rule paged decode_rule st (record {
        before = λ k s lt at. absurd (omega arith);
        after = λ k s le at. All-get_elem? (IsRunning block_size 1) st.running k s v.all_running at;
        all_waiting = v.all_waiting;
        sized = v.sized;
      }) in
      let end = plan_decodes paged st in
      record {
        all_running =
            All-of_each (IsRunning block_size 0) end.running (λ k s at.
              m.before k s (omega (arith, past, get_elem?-some_lt end.running k s at)) at);
        all_waiting = m.all_waiting;
        sized = m.sized;
      }

  continue_prefills-IsRunning :
      (sched : Scheduler) (budget : ℕ) (pool : BlockAllocator) (ss : List Sequence)
      → pool.block_size ≡ block_size
      → All (IsRunning block_size 0) ss
      → let r = continue_prefills paged sched budget pool ss in
        All (IsRunning block_size 0) r.running × (r.pool.block_size ≡ block_size)
  unfolding continue_prefills
  continue_prefills-IsRunning sched budget pool [] size h = (tt, size)
  continue_prefills-IsRunning sched budget pool (s ∷ ss) size h =
      let chunk = chunk_of paged sched budget s in
      elim (Bool-cases (not (is_prefilling s.status) || budget == 0)) [
        | inl skip ↦
            let (rest, size') = continue_prefills-IsRunning sched budget pool ss size h.1 in
            rw skip ((h.0, rest), size')
        | inr go ↦ elim (Option-cases (paged.allocate pool s chunk 0)) [
          | inl full ↦ rw (go, full) (h, size)
          | inr ((pool', table), got) ↦
              let (c, grown, size') = grows pool s chunk 0 pool' table size h.0.covered got in
              let (even, part) = prefilling-facts block_size 0 s (ground (arith, go)) h.0 in
              let (rest, size'') =
                continue_prefills-IsRunning sched (budget - chunk) pool' ss size' h.1 in
              rw (go, got)
                (
                  (
                    advance_prefill-IsRunning block_size s table chunk c grown even (omega arith)
                        h.0.some_tokens,
                    rest,
                  ),
                  size'',
                )
        ]
      ]

  skip_head-IsWaiting :
      (i : ℕ) (q : List Sequence) → All IsWaiting q → All IsWaiting (skip_head i q)
  skip_head-IsWaiting zero q h = h
  skip_head-IsWaiting (suc i) [] h = h
  skip_head-IsWaiting (suc i) (s ∷ q) h = (
    record {
      no_blocks = h.0.no_blocks;
      no_slots = h.0.no_slots;
      unprefilled = h.0.unprefilled;
      some_tokens = h.0.some_tokens;
      is_waiting = h.0.is_waiting;
    },
    h.1,
  )

  admitted-IsRunning :
      (now : ℕ) (s : Sequence) (chunk reserve : ℕ) (pool pool' : BlockAllocator) (t : BlockTable)
      → pool.block_size ≡ block_size
      → IsWaiting s
      → chunk ≤ num_tokens s
      → paged.allocate pool s chunk reserve ≡ some (pool', t)
      → IsRunning block_size 0 (stamp_admission now (advance_prefill s t chunk))
        × (pool'.block_size ≡ block_size)
  admitted-IsRunning now s chunk reserve pool pool' t size w fits got =
      let c : IsCovered block_size s.block_table =
        rw (w.no_blocks, w.no_slots) (sym (ceil_div-zero block_size positive)) in
      let (c', grown, size') = grows pool s chunk reserve pool' t size c got in
      let r =
        advance_prefill-IsRunning block_size s t chunk c' grown (omega (arith, w.no_slots))
          (omega (arith, w.unprefilled)) w.some_tokens in
      (record { covered = r.covered; phase = r.phase; some_tokens = r.some_tokens }, size')

  admit_rule :
      (sched : Scheduler) (clock : ℕ → ℕ) (most : ℕ)
      → AdmitRule paged sched clock most (λ _. IsSound block_size 0)
  unfolding reject admit
  admit_rule sched clock most = record {
    refuse = λ budget index st seq v at never. record {
      all_running = v.all_running;
      all_waiting = All-delete_at IsWaiting st.queue index v.all_waiting;
      sized = v.sized;
    };
    accept = λ budget index st seq pool table v on at fits got.
        let chunk = admission_chunk paged sched clock most budget seq in
        let (r, size) =
          admitted-IsRunning (clock seq.seq_id) seq chunk (length st.running) st.pool pool table
            v.sized (All-get_elem? IsWaiting st.queue index seq v.all_waiting at) (omega arith)
            got in
        record {
          all_running =
              All-append (IsRunning block_size 0) st.running
                (stamp_admission (clock seq.seq_id) (advance_prefill seq table chunk) ∷ [])
                v.all_running (r, tt);
          all_waiting =
              skip_head-IsWaiting index (delete_at st.queue index)
                (All-delete_at IsWaiting st.queue index v.all_waiting);
          sized = size;
        };
  }

  -- On a paged pool of positive block size: if between iterations every running sequence is
  -- covered by its table and is either in its prompt, with slots for what is prefilled and some of
  -- it left, or decodes and lacks just the slot of its last token, and every waiting sequence
  -- holds nothing, then after scheduler_step the same holds with no slot lacking.
  pub scheduler_step-IsSound :
      (sched : Scheduler) (clock : ℕ → ℕ) (st : SchedulerState paged)
      → IsSound block_size 1 st
      → IsSound block_size 0 (scheduler_step paged sched clock st)
  unfolding scheduler_step plan_prefill_continuations
  scheduler_step-IsSound sched clock st v =
      let fresh = record st { plan = empty_plan } in
      let decoded = plan_decodes paged fresh in
      let d =
        plan_decodes-IsSound fresh
          (record { all_running = v.all_running; all_waiting = v.all_waiting; sized = v.sized }) in
      let (continued, budget) = plan_prefill_continuations paged sched decoded in
      let (run, size) =
        continue_prefills-IsRunning sched sched.token_budget decoded.pool decoded.running d.sized
          d.all_running in
      let most = admission_cap sched continued.running in
      let (_, _, last, _) =
        plan_admissions_rule paged sched clock most (admit_rule sched clock most) budget continued
          (record { all_running = run; all_waiting = d.all_waiting; sized = size }) refl in
      last
