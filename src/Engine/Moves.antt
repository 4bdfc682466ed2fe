-- ===== src/Engine/Moves.antt =====
-- The scheduler thread's loop, and the moves of the two threads as a step relation. An iteration of
-- the loop is one move: of what it uses, the IO thread changes only `ingress`, by appending to it.
-- `fails` is a lost device; what else `_apply` could raise is not a move.
use llm_serving_engine.Base.{
  ℕ, ◌+◌, ◌≡◌, inr, true, false, Option, none, some, List, [], ◌∷◌, ◌++◌, length,
}
use llm_serving_engine.Sampling.{SamplingParams}
use llm_serving_engine.Sequence.{Sequence, BatchEntry, BatchPlan, empty_plan}
use llm_serving_engine.Allocator.{KvAllocator}
use llm_serving_engine.Scheduler.State.{SchedulerState}
use llm_serving_engine.Scheduler.Step.{scheduler_step}
use llm_serving_engine.Engine.State.{
  IngressRequest, Point, ready, asleep, over, Outcome, arrivals, Engine, submit, close_ingress,
  stop, drain_ingress, abort, apply,
}

-- `len(plan)` decides whether the plan goes to the GPU worker or the thread sleeps.
abbrev pub point_after : BatchPlan → List BatchEntry → Point
point_after plan [] = asleep
point_after plan (e ∷ es) = ready (some plan)

module _ (kv : KvAllocator) where
  -- `if plan.rejected: self._abort(plan.rejected)`
  abbrev pub abort_rejected : List Sequence → Engine kv → Engine kv
  abort_rejected [] e = e
  abort_rejected (s ∷ ss) e = abort kv (s ∷ ss) e

  -- What `scheduler_step` leaves of the engine, with the victims' caches freed.
  unfoldable pub stepped : (ℕ → ℕ) → Engine kv → SchedulerState kv
  stepped clock e =
      scheduler_step kv e.scheduler clock
        (record { running = e.running; queue = e.queue; pool = e.pool; plan = empty_plan })

  unfoldable pub take_step : SchedulerState kv → Engine kv → Engine kv
  take_step st e = record e {
    running = st.running;
    queue = st.queue;
    pool = st.pool;
    freed = e.freed ++ st.plan.preempted;
    preemptions = e.preemptions + length st.plan.preempted;
  }

  -- An iteration of the loop behind `_apply`.
  unfoldable pub schedule : (ℕ → ℕ) → Engine kv → Engine kv
  unfolding drain_ingress stepped take_step
  schedule clock e =
      let drained = drain_ingress kv e in
      let st = stepped clock drained in
      let rid = abort_rejected st.plan.rejected (take_step st drained) in
      record rid {
        requests_in_flight = length rid.running;
        point = point_after st.plan st.plan.entries;
      }

  -- The `except` branch of `_scheduler_loop`.
  unfoldable pub fail : Engine kv → Engine kv
  unfolding drain_ingress
  fail e =
      let drained = drain_ingress kv (record e { failed = true; accepting = false }) in
      record (abort kv (drained.running ++ drained.queue) drained) { queue = []; point = over }

  -- `self._admit_ingress(self.ingress.get())`, once there is an item.
  unfoldable pub wake : Option IngressRequest → List (Option IngressRequest) → Engine kv → Engine kv
  wake r rs e = record e { ingress = rs; queue = e.queue ++ arrivals (r ∷ []); point = ready none }

  pub data Move : Engine kv → Engine kv → Type 0 where
    submits :
        (e e' : Engine kv) (prompt : List ℕ) (params : SamplingParams) (now id : ℕ)
        → submit kv e prompt params now ≡ inr (id, e')
        → Move e e'
    closes : (e : Engine kv) → Move e (close_ingress kv e)
    stops : (e : Engine kv) → Move e (stop kv e)
    schedules :
        (e : Engine kv) (clock : ℕ → ℕ)
        → e.point ≡ ready none
        → e.stopping ≡ false
        → Move e (schedule clock e)
    applies :
        (e e' : Engine kv) (clock : ℕ → ℕ) (now : ℕ) (outcome : Outcome) (plan : BatchPlan)
        → e.point ≡ ready (some plan)
        → e.stopping ≡ false
        → apply kv now outcome plan e ≡ some e'
        → Move e (schedule clock e')
    fails :
        (e : Engine kv) (plan : BatchPlan)
        → e.point ≡ ready (some plan)
        → e.stopping ≡ false
        → Move e (fail e)
    wakes :
        (e : Engine kv) (r : Option IngressRequest) (rs : List (Option IngressRequest))
        → e.point ≡ asleep
        → e.ingress ≡ r ∷ rs
        → Move e (wake r rs e)
    leaves :
        (e : Engine kv) (plan : Option BatchPlan)
        → e.point ≡ ready plan
        → e.stopping ≡ true
        → Move e (record e { point = over })
