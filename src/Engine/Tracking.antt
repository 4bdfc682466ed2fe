-- ===== src/Engine/Tracking.antt =====
-- The requests of an engine over any run of its two threads.
use llm_serving_engine.Base.{
  ℕ, ◌+◌, ◌≤◌, ◌≡◌, ◌↔◌, refl, ap, subst, inl, inr, true, none, some, List, [], ◌∷◌, ◌++◌, length,
  total, total-append, Bool-cases, arith,
}
use llm_serving_engine.Sampling.{SamplingParams}
use llm_serving_engine.Sequence.{Sequence, BatchPlan}
use llm_serving_engine.Allocator.{KvAllocator}
use llm_serving_engine.Scheduler.Results.{Folded}
use llm_serving_engine.Scheduler.Returns.{Reports, fold_results-total}
use llm_serving_engine.Dispatch.{dispatch_results}
use llm_serving_engine.Engine.State.{
  ready, Outcome, tokens, failed_pass, lost, arrivals, Engine, submit, is_idle, is_prompt, apply,
  abort, end_all,
}
use llm_serving_engine.Engine.Moves.{
  fail, wake, Move, submits, closes, stops, schedules, applies, fails, wakes, leaves,
}
use llm_serving_engine.Engine.Lists.{
  by, is, Within, total-one, total-one_range, planned-total, total-is_once,
}
use llm_serving_engine.Engine.Conservation.{
  InFlight, arrivals-append, load, submitted_or, applied_or, IsConserved, schedule-IsConserved,
  fail-IsConserved, submit-IsConserved, apply-IsConserved,
}

module _ (kv : KvAllocator) where
  pub record Tracks (first_id : ℕ) (e : Engine kv) : Type 0 where
    pub conserved : IsConserved kv first_id e
    pub flight : InFlight e.point e.running

  submit-flight :
      (e : Engine kv) (prompt : List ℕ) (params : SamplingParams) (now : ℕ)
      → InFlight e.point e.running
      → let e' = submitted_or kv e (submit kv e prompt params now) in InFlight e'.point e'.running
  unfolding submit
  submit-flight e prompt params now h = elim (Bool-cases (is_prompt e.vocab_size prompt)) [
    | inr bad ↦ rw bad h
    | inl good ↦ elim (Bool-cases e.accepting) [
      | inr closed ↦ rw (good, closed) h
      | inl accepts ↦ rw (good, accepts) h
    ]
  ]

  -- Each move of the two threads keeps the requests accounted for: the weights of those in
  -- ingress, running, waiting and recorded add up to those of the ids submitted, next_id and ended
  -- agree with the counts, and the entries of a plan in flight are for running sequences of their
  -- own.
  pub Move-Tracks :
      (first_id : ℕ) (e e' : Engine kv) → Move kv e e' → Tracks first_id e → Tracks first_id e'
  unfolding wake fail arrivals
  Move-Tracks first_id _ _ (submits e e' prompt params now id h) t =
      subst (Tracks first_id) (ap (submitted_or kv e) h) (record {
        conserved = submit-IsConserved kv first_id e prompt params now t.conserved;
        flight = submit-flight e prompt params now t.flight;
      })
  Move-Tracks first_id _ _ (closes e) t = record {
    conserved = record {
      each = t.conserved.each;
      next = t.conserved.next;
      counted = t.conserved.counted;
    };
    flight = t.flight;
  }
  Move-Tracks first_id _ _ (stops e) t = record {
    conserved = record {
      each = λ w. omega (
        arith,
        t.conserved.each w,
        ap (total (by w)) (arrivals-append e.ingress (none ∷ [])),
        total-append (by w) (arrivals e.ingress) [],
      );
      next = t.conserved.next;
      counted = t.conserved.counted;
    };
    flight = t.flight;
  }
  Move-Tracks first_id _ _ (schedules e clock at on) t =
      let (conserved, flight) = schedule-IsConserved kv first_id clock e t.conserved in
      record { conserved = conserved; flight = flight }
  Move-Tracks first_id _ _ (applies e e' clock now outcome plan at on h) t =
      let within = subst (λ p. InFlight p e.running) at t.flight in
      let applied =
        subst (IsConserved kv first_id) (ap (applied_or kv e) h)
          (apply-IsConserved kv first_id now outcome plan e t.conserved within) in
      let (conserved, flight) = schedule-IsConserved kv first_id clock e' applied in
      record { conserved = conserved; flight = flight }
  Move-Tracks first_id _ _ (fails e plan at on) t = record {
    conserved = fail-IsConserved kv first_id e t.conserved;
    flight = tt;
  }
  Move-Tracks first_id _ _ (wakes e r rs at here) t = record {
    conserved = record {
      each = λ w. omega (
        arith,
        t.conserved.each w,
        ap (λ l. total (by w) (arrivals l)) here,
        ap (total (by w)) (arrivals-append (r ∷ []) rs),
        total-append (by w) (arrivals (r ∷ [])) (arrivals rs),
        total-append (by w) e.queue (arrivals (r ∷ [])),
      );
      next = t.conserved.next;
      counted = t.conserved.counted;
    };
    flight = tt;
  }
  Move-Tracks first_id _ _ (leaves e plan at on) t = record {
    conserved = record {
      each = t.conserved.each;
      next = t.conserved.next;
      counted = t.conserved.counted;
    };
    flight = tt;
  }

  -- Any number of moves.
  pub data Run : Engine kv → Engine kv → Type 0 where
    stays : (e : Engine kv) → Run e e
    goes : (e mid e' : Engine kv) → Run e mid → Move kv mid e' → Run e e'

  pub Run-Tracks :
      (first_id : ℕ) (e e' : Engine kv) → Run e e' → Tracks first_id e → Tracks first_id e'
  Run-Tracks first_id _ _ (stays e) t = t
  Run-Tracks first_id _ _ (goes e mid e' run move) t =
      Move-Tracks first_id mid e' move (Run-Tracks first_id e mid run t)

  -- In any run of the engine from a state whose requests are accounted for, an id is at most once
  -- among the requests in ingress, the running, the waiting and the recorded sequences together.
  pub Run-ends_once :
      (first_id : ℕ) (e e' : Engine kv) (id : ℕ)
      → Run e e'
      → Tracks first_id e
      → load kv (is id) e' + total (by (is id)) e'.recorded ≤ 1
  Run-ends_once first_id e e' id run t =
      let t' = Run-Tracks first_id e e' run t in
      omega (arith, t'.conserved.each (is id), total-is_once id first_id e'.submitted)

  -- In any run of the engine from a state whose requests are accounted for, is_idle holds if and
  -- only if no request is in ingress, runs or waits.
  pub Run-is_idle :
      (first_id : ℕ) (e e' : Engine kv)
      → Run e e'
      → Tracks first_id e
      → (is_idle kv e' ≡ true)
        ↔ (length (arrivals e'.ingress) + length e'.running + length e'.queue ≡ 0)
  Run-is_idle first_id e e' run t =
      let c = (Run-Tracks first_id e e' run t).conserved in
      let all = c.each (λ _. 1) in
      let here = total-one (arrivals e'.ingress) in
      let runs = total-one e'.running in
      let waits = total-one e'.queue in
      let submitted = total-one_range first_id e'.submitted in
      (
        λ idle. ground (arith, all, here, runs, waits, submitted, c.counted, idle),
        λ gone. ground (arith, all, here, runs, waits, submitted, c.counted, gone),
      )

  -- What the GPU worker answers, short of a lost device: results for running sequences, one for
  -- each, or an exception.
  abbrev pub Answers : Outcome → List Sequence → Type 0
  Answers (tokens rs) running = Reports rs running
  Answers failed_pass running = Unit
  Answers lost running = ⊥

  apply-total :
      (now : ℕ) (outcome : Outcome) (plan : BatchPlan) (e : Engine kv)
      → Within plan.entries e.running
      → Answers outcome e.running
      → (e' : Engine kv) × (apply kv now outcome plan e ≡ some e')
  unfolding apply
  apply-total now (tokens rs) plan e h answers =
      let start : Folded kv = record { running = e.running; pool = e.pool; done = [] } in
      let (f, folds) = fold_results-total kv now rs start answers in
      (
        end_all kv f.done (record e {
          running = f.running;
          pool = f.pool;
          callbacks = e.callbacks ++ dispatch_results rs;
        }),
        rw (apply, folds) refl,
      )
  apply-total now failed_pass plan e h answers =
      let (ss, found, same) = planned-total plan.entries e.running h in
      (abort kv ss e, rw (apply, found) refl)
  apply-total now lost plan e h answers = absurd answers

  -- In any run of the engine from a state whose requests are accounted for, if a plan is in flight
  -- and the worker answers with an exception other than a lost device, or with results for running
  -- sequences, one for each at most, then apply returns.
  pub Run-apply_total :
      (first_id : ℕ) (e e' : Engine kv) (now : ℕ) (outcome : Outcome) (plan : BatchPlan)
      → Run e e'
      → Tracks first_id e
      → e'.point ≡ ready (some plan)
      → Answers outcome e'.running
      → (e'' : Engine kv) × (apply kv now outcome plan e' ≡ some e'')
  Run-apply_total first_id e e' now outcome plan run t at answers =
      let t' = Run-Tracks first_id e e' run t in
      apply-total now outcome plan e' (subst (λ p. InFlight p e'.running) at t'.flight) answers
