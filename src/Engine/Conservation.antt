-- ===== src/Engine/Conservation.antt =====
-- Where the requests of an engine are: each that was submitted is in `ingress`, runs, waits or has
-- ended, and in one of these once.
use llm_serving_engine.Base.{
  ℕ, ◌+◌, ◌≤◌, ◌≡◌, refl, ap, ◌∙◌, inl, inr, ◌⊎◌, true, false, Option, none, some, List, [], ◌∷◌,
  ◌++◌, range, total, total-append, All, Option-cases, Bool-cases, arith,
}
use llm_serving_engine.Sampling.{SamplingParams}
use llm_serving_engine.Sequence.{Sequence, BatchEntry, BatchPlan, empty_plan}
use llm_serving_engine.Allocator.{KvAllocator}
use llm_serving_engine.Scheduler.State.{SchedulerState}
use llm_serving_engine.Scheduler.Results.{release, find, Folded, fold_results}
use llm_serving_engine.Scheduler.Census.{scheduler_step-census, fold_results-census}
use llm_serving_engine.Scheduler.Entries.{scheduler_step-entries}
use llm_serving_engine.Dispatch.{dispatch_results}
use llm_serving_engine.Engine.State.{
  IngressRequest, Point, ready, asleep, over, Outcome, tokens, failed_pass, lost,
  sequence_from_ingress, arrivals, Engine, submit, drain_ingress, abort, apply, is_prompt, end_all,
  SubmitError,
}
use llm_serving_engine.Engine.Moves.{
  point_after, abort_rejected, stepped, take_step, schedule, fail,
}
use llm_serving_engine.Engine.Lists.{
  by, is, Within, total-range-suc, total-is_once, planned-total, absent-each, release-within,
  release-absent, release-all, IsEnded, end_all-IsEnded,
}

-- The entries of the plan in flight are for running sequences, each for its own.
abbrev pub InFlight : Point → List Sequence → Type 0
InFlight (ready none) running = Unit
InFlight (ready (some plan)) running = Within plan.entries running
InFlight asleep running = Unit
InFlight over running = Unit

pub arrivals-append :
    (xs ys : List (Option IngressRequest)) → arrivals (xs ++ ys) ≡ arrivals xs ++ arrivals ys
unfolding arrivals
arrivals-append [] ys = refl
arrivals-append (none ∷ xs) ys = arrivals-append xs ys
arrivals-append (some r ∷ xs) ys = ap (λ l. sequence_from_ingress r ∷ l) (arrivals-append xs ys)

point-InFlight :
    (plan : BatchPlan) (es : List BatchEntry) (running : List Sequence)
    → Within plan.entries running
    → InFlight (point_after plan es) running
point-InFlight plan [] running h = tt
point-InFlight plan (e ∷ es) running h = h

module _ (kv : KvAllocator) where
  abbrev pub load : (ℕ → ℕ) → Engine kv → ℕ
  load w e = total (by w) (arrivals e.ingress) + total (by w) e.running + total (by w) e.queue

  -- For any weights of the ids, those in the engine and those that ended weigh what the submitted
  -- ones do; `first_id` is the id that the engine's first request got.
  pub record IsConserved (first_id : ℕ) (e : Engine kv) : Type 0 where
    pub each :
        (w : ℕ → ℕ) → load w e + total (by w) e.recorded ≡ total w (range first_id e.submitted)
    pub next : e.next_id ≡ first_id + e.submitted
    pub counted : e.ended ≡ total (by (λ _. 1)) e.recorded

  -- What a call leaves where it does not raise.
  abbrev pub submitted_or : Engine kv → SubmitError ⊎ (ℕ × Engine kv) → Engine kv
  submitted_or e (inl raised) = e
  submitted_or e (inr (id, e')) = e'

  abbrev pub applied_or : Engine kv → Option (Engine kv) → Engine kv
  applied_or e none = e
  applied_or e (some e') = e'

  abort-IsEnded :
      (ss : List Sequence) (e : Engine kv)
      → IsEnded kv ss (record e { running = (release kv ss e.running e.pool).0 }) (abort kv ss e)
  unfolding abort
  abort-IsEnded ss e =
      let r = end_all-IsEnded kv ss _ in
      record {
        next_id = r.next_id;
        ingress = r.ingress;
        running = r.running;
        queue = r.queue;
        point = r.point;
        submitted = r.submitted;
        recorded = r.recorded;
        ended = r.ended;
      }

  rejected-IsEnded :
      (ss : List Sequence) (e : Engine kv)
      → All (λ s. find s.seq_id e.running ≡ none) ss
      → IsEnded kv ss e (abort_rejected kv ss e)
  rejected-IsEnded [] e h = record {
    next_id = refl;
    ingress = refl;
    running = refl;
    queue = refl;
    point = refl;
    submitted = refl;
    recorded = λ w. omega arith;
    ended = omega arith;
  }
  rejected-IsEnded (s ∷ ss) e h =
      let r = abort-IsEnded (s ∷ ss) e in
      record {
        next_id = r.next_id;
        ingress = r.ingress;
        running = r.running ∙ release-absent kv (s ∷ ss) e.running e.pool h;
        queue = r.queue;
        point = r.point;
        submitted = r.submitted;
        recorded = r.recorded;
        ended = r.ended;
      }

  module _ (first_id : ℕ) where
    drain-IsConserved :
        (e : Engine kv) → IsConserved first_id e → IsConserved first_id (drain_ingress kv e)
    unfolding drain_ingress arrivals
    drain-IsConserved e c = record {
      each = λ w. omega (arith, c.each w, total-append (by w) e.queue (arrivals e.ingress));
      next = c.next;
      counted = c.counted;
    }

    -- Sequences that are no longer in the engine are recorded.
    ended-IsConserved :
        (ss : List Sequence) (e1 e2 : Engine kv)
        → ((w : ℕ → ℕ)
            → load w e1 + total (by w) ss + total (by w) e1.recorded
              ≡ total w (range first_id e1.submitted))
        → e1.next_id ≡ first_id + e1.submitted
        → e1.ended ≡ total (by (λ _. 1)) e1.recorded
        → IsEnded kv ss e1 e2
        → IsConserved first_id e2
    ended-IsConserved ss e1 e2 each next counted r = record {
      each = λ w. omega (
        arith,
        each w,
        ap (λ l. total (by w) (arrivals l)) r.ingress,
        ap (total (by w)) r.running,
        ap (total (by w)) r.queue,
        r.recorded w,
        ap (λ n. total w (range first_id n)) r.submitted,
      );
      next = omega (arith, r.next_id, r.submitted, next);
      counted = omega (arith, r.ended, counted, r.recorded (λ _. 1));
    }

    -- The loop behind `_apply` keeps every request, and plans entries for running sequences only.
    pub schedule-IsConserved :
        (clock : ℕ → ℕ) (e : Engine kv)
        → IsConserved first_id e
        → IsConserved first_id (schedule kv clock e)
          × InFlight (schedule kv clock e).point (schedule kv clock e).running
    unfolding schedule stepped take_step
    schedule-IsConserved clock e c =
        let d = drain_ingress kv e in
        let dc = drain-IsConserved e c in
        let start : SchedulerState kv = record {
          running = d.running;
          queue = d.queue;
          pool = d.pool;
          plan = empty_plan;
        } in
        let st = stepped kv clock d in
        let t = take_step kv st d in
        let owed : ((w : ℕ → ℕ)
            → load w t + total (by w) st.plan.rejected + total (by w) t.recorded
              ≡ total w (range first_id t.submitted)) =
          λ w. omega (arith, dc.each w, scheduler_step-census kv w d.scheduler clock start) in
        let absent : All (λ s. find s.seq_id t.running ≡ none) st.plan.rejected =
          absent-each st.plan.rejected st.running
            (λ id. omega (arith, owed (is id), total-is_once id first_id d.submitted)) in
        let r = rejected-IsEnded st.plan.rejected t absent in
        let rc = ended-IsConserved st.plan.rejected t _ owed dc.next dc.counted r in
        (
          record { each = rc.each; next = rc.next; counted = rc.counted },
          point-InFlight st.plan st.plan.entries _ (λ w. omega (
            arith,
            scheduler_step-entries w kv d.scheduler clock start,
            ap (total (by w)) r.running,
          )),
        )

    -- Requests that run leave the engine by `abort`.
    abort-IsConserved :
        (ss : List Sequence) (e : Engine kv)
        → IsConserved first_id e
        → ((w : ℕ → ℕ) → total (by w) ss ≤ total (by w) e.running)
        → IsConserved first_id (abort kv ss e)
    abort-IsConserved ss e c h =
        ended-IsConserved ss (record e { running = (release kv ss e.running e.pool).0 }) _
          (λ w. omega (arith, c.each w, release-within kv ss e.running e.pool h w)) c.next c.counted
          (abort-IsEnded ss e)

    pub fail-IsConserved :
        (e : Engine kv) → IsConserved first_id e → IsConserved first_id (fail kv e)
    unfolding fail drain_ingress arrivals
    fail-IsConserved e c =
        let d = drain_ingress kv (record e { failed = true; accepting = false }) in
        let ss = d.running ++ d.queue in
        let r = abort-IsEnded ss d in
        let gone = release-all kv d.running d.queue d.pool in
        ended-IsConserved ss (record d { running = []; queue = []; point = over }) (fail kv e)
          (λ w. omega (
            arith,
            c.each w,
            total-append (by w) e.queue (arrivals e.ingress),
            total-append (by w) d.running d.queue,
          ))
          c.next c.counted
          (record {
            next_id = r.next_id;
            ingress = r.ingress;
            running = r.running ∙ gone;
            queue = refl;
            point = refl;
            submitted = r.submitted;
            recorded = r.recorded;
            ended = r.ended;
          })

    pub submit-IsConserved :
        (e : Engine kv) (prompt : List ℕ) (params : SamplingParams) (now : ℕ)
        → IsConserved first_id e
        → IsConserved first_id (submitted_or e (submit kv e prompt params now))
    unfolding submit arrivals
    submit-IsConserved e prompt params now c = elim (Bool-cases (is_prompt e.vocab_size prompt)) [
      | inr bad ↦ rw bad c
      | inl good ↦ elim (Bool-cases e.accepting) [
        | inr closed ↦
            rw (good, closed) (record { each = c.each; next = c.next; counted = c.counted })
        | inl accepts ↦
            let request : IngressRequest = record {
              seq_id = e.next_id;
              prompt_tokens = prompt;
              sampling_params = params;
              arrival_time = now;
            } in
            rw (good, accepts)
              (record {
                each = λ w. omega (
                  arith,
                  c.each w,
                  ap (total (by w)) (arrivals-append e.ingress (some request ∷ [])),
                  total-append (by w) (arrivals e.ingress) (sequence_from_ingress request ∷ []),
                  total-range-suc w first_id e.submitted,
                  ap w c.next,
                );
                next = omega (arith, c.next);
                counted = c.counted;
              })
      ]
    ]

    pub apply-IsConserved :
        (now : ℕ) (outcome : Outcome) (plan : BatchPlan) (e : Engine kv)
        → IsConserved first_id e
        → Within plan.entries e.running
        → IsConserved first_id (applied_or e (apply kv now outcome plan e))
    unfolding apply
    apply-IsConserved now lost plan e c h = c
    apply-IsConserved now failed_pass plan e c h =
        let (ss, found, same) = planned-total plan.entries e.running h in
        rw (apply, found) (abort-IsConserved ss e c (λ w. omega (arith, h w, same w)))
    apply-IsConserved now (tokens rs) plan e c h =
        let start : Folded kv = record { running = e.running; pool = e.pool; done = [] } in
        elim (Option-cases (fold_results kv now rs start)) [
          | inl raised ↦ rw (apply, raised) c
          | inr (f, folds) ↦
              let e1 : Engine kv = record e {
                running = f.running;
                pool = f.pool;
                callbacks = e.callbacks ++ dispatch_results rs;
              } in
              rw (apply, folds)
                (ended-IsConserved f.done e1 (end_all kv f.done e1)
                  (λ w. omega (arith, c.each w, fold_results-census kv w now rs start f folds))
                  c.next c.counted (end_all-IsEnded kv f.done e1))
        ]
