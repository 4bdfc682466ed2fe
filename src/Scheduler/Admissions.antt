-- ===== src/Scheduler/Admissions.antt =====
-- `_plan_admissions`. `clock` gives the reading of the monotonic clock when a sequence is admitted.
use llm_serving_engine.Base.{
  ℕ, zero, suc, ◌+◌, ◌-◌, min, Bool, true, false, not, ◌&&◌, Option, none, some, List, [], ◌∷◌,
  ◌++◌, length, get_elem?, delete_at, ltb, leb, if◌then◌else◌,
}
use llm_serving_engine.Sequence.{Sequence, BlockTable, num_tokens, add}
use llm_serving_engine.Metrics.{RequestMetrics}
use llm_serving_engine.Allocator.{KvAllocator}
use llm_serving_engine.Scheduler.State.{
  Scheduler, SchedulerState, advance_prefill, admission_cap, max_admission_skips,
}

-- `if seq.metrics.admit_time is None: seq.metrics.admit_time = now`
abbrev pub stamp_admission : ℕ → Sequence → Sequence
stamp_admission now s = record s { metrics = stamp s.metrics.admit_time }
  where
    stamp : Option ℕ → RequestMetrics
    stamp none = record s.metrics { admit_time = some now }
    stamp (some t) = s.metrics

-- `if index > 0: waiting[0].admission_skips += 1`
abbrev pub skip_head : ℕ → List Sequence → List Sequence
skip_head zero queue = queue
skip_head (suc index) [] = []
skip_head (suc index) (h ∷ queue) = record h { admission_skips = h.admission_skips + 1 } ∷ queue

-- The head of `waiting` has spent its skips, and the walk is past it.
abbrev pub head_is_due : ℕ → List Sequence → Bool
head_is_due zero queue = false
head_is_due (suc index) [] = false
head_is_due (suc index) (h ∷ queue) = leb max_admission_skips h.admission_skips

module _ (kv : KvAllocator) where
  unfoldable pub reject : SchedulerState kv → ℕ → Sequence → SchedulerState kv
  reject st index seq = record st {
    queue = delete_at st.queue index;
    plan = record st.plan { rejected = st.plan.rejected ++ seq ∷ [] };
  }

  unfoldable pub admit :
      (ℕ → ℕ) → SchedulerState kv → ℕ → Sequence → ℕ → kv.Pool → BlockTable → SchedulerState kv
  unfolding advance_prefill
  admit clock st index seq chunk pool table =
      let admitted = stamp_admission (clock seq.seq_id) (advance_prefill seq table chunk) in
      record {
        running = st.running ++ admitted ∷ [];
        queue = skip_head index (delete_at st.queue index);
        pool = pool;
        plan = add st.plan seq chunk true;
      }

  -- The walk is on while this holds.
  abbrev pub may_admit : SchedulerState kv → (most index budget : ℕ) → Bool
  may_admit st most index budget =
      ltb index (length st.queue)
      && ltb 0 budget
      && ltb (length st.running) most
      && not (head_is_due index st.queue)

  -- Each round deletes `waiting[index]` or moves on, so the length of `waiting` is fuel enough.
  unfoldable pub admissions_from :
      Scheduler → (ℕ → ℕ) → ℕ → (most index budget : ℕ) → SchedulerState kv → SchedulerState kv
  unfolding reject admit
  admissions_from sched clock zero most index budget st = st
  admissions_from sched clock (suc fuel) most index budget st =
      let go : SchedulerState kv = elim (get_elem? st.queue index) [
        | none ↦ st
        | some seq ↦
            let chunk = min (min (num_tokens seq) budget) sched.max_prefill_chunk in
            let refused =
              admissions_from sched clock fuel most index budget (reject st index seq) in
            let tried : SchedulerState kv =
              elim (kv.allocate st.pool seq chunk (length st.running)) [
                | none ↦ admissions_from sched clock fuel most (suc index) budget st
                | some (pool, table) ↦
                    admissions_from sched clock fuel most index (budget - chunk)
                      (admit clock st index seq chunk pool table)
              ] in
            if kv.can_ever_fit st.pool seq then tried else refused
      ] in
      if may_admit st most index budget then go else st

  unfoldable pub plan_admissions : Scheduler → (ℕ → ℕ) → ℕ → SchedulerState kv → SchedulerState kv
  unfolding admissions_from admission_cap
  plan_admissions sched clock budget st =
      admissions_from sched clock (length st.queue) (admission_cap sched st.running) 0 budget st
