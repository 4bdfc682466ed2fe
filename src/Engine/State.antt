-- ===== src/Engine/State.antt =====
-- What `InferenceEngine` keeps, and what its scheduler thread and the IO thread do to it. A prompt
-- is given as the tokens that the tokenizer encodes it to. `channels` and `next_id` are the globals
-- of dispatch.py; `callbacks` are those handed to the event loop so far.
use llm_serving_engine.Base.{
  ℕ, suc, max, Bool, true, false, not, ◌⊎◌, inl, inr, Option, none, some, List, [], ◌∷◌, ◌++◌, map,
  ltb, ◌==◌, if◌then◌else◌,
}
use llm_serving_engine.Sampling.{SamplingParams}
use llm_serving_engine.Metrics.{new_metrics}
use llm_serving_engine.Sequence.{Sequence, waiting, empty_table, BatchEntry, BatchPlan}
use llm_serving_engine.Allocator.{KvAllocator}
use llm_serving_engine.Scheduler.State.{Scheduler}
use llm_serving_engine.Scheduler.Results.{TokenResult, Folded, find, fold_results, release}
use llm_serving_engine.Dispatch.{
  Channels, Callback, new_output_channel, dispatch_results, dispatch_aborted,
}

pub record IngressRequest : Type 0 where
  pub seq_id : ℕ
  pub prompt_tokens : List ℕ
  pub sampling_params : SamplingParams
  pub arrival_time : ℕ

unfoldable pub sequence_from_ingress : IngressRequest → Sequence
sequence_from_ingress r = record {
  seq_id = r.seq_id;
  prompt_tokens = r.prompt_tokens;
  sampling_params = r.sampling_params;
  metrics = new_metrics r.arrival_time;
  generated_tokens = [];
  block_table = empty_table;
  status = waiting;
  prefill_progress = 0;
  admission_skips = 0;
}

-- Where the scheduler thread is: at the head of its loop with the plan in flight, in the blocking
-- `ingress.get()`, or past its end.
pub data Point : Type 0 where
  ready : Option BatchPlan → Point
  asleep over : Point

-- What the GPU worker puts into `_results_queue`; `lost` is a DeviceLost.
pub data Outcome : Type 0 where
  tokens : List TokenResult → Outcome
  failed_pass lost : Outcome

pub data SubmitError : Type 0 where
  invalid_prompt engine_unavailable : SubmitError

abbrev pub largest : List ℕ → ℕ
largest [] = 0
largest (t ∷ ts) = max t (largest ts)

abbrev pub is_prompt : ℕ → List ℕ → Bool
is_prompt vocab_size [] = false
is_prompt vocab_size (t ∷ ts) = ltb (largest (t ∷ ts)) vocab_size

-- The requests among the items of `ingress`; a None only wakes the thread.
unfoldable pub arrivals : List (Option IngressRequest) → List Sequence
unfolding sequence_from_ingress
arrivals [] = []
arrivals (none ∷ rs) = arrivals rs
arrivals (some r ∷ rs) = sequence_from_ingress r ∷ arrivals rs

-- `[seqs[entry.seq_id] for entry in plan]`; `none` is a KeyError.
unfoldable pub planned : List BatchEntry → List Sequence → Option (List Sequence)
planned [] running = some []
planned (e ∷ es) running = elim (find e.seq_id running) [
  | none ↦ none
  | some s ↦ elim (planned es running) [ none ↦ none | some ss ↦ some (s ∷ ss) ]
]

module _ (kv : KvAllocator) where
  pub record Engine : Type 0 where
    pub scheduler : Scheduler
    pub vocab_size : ℕ
    pub output_queue_maxsize : ℕ
    pub next_id : ℕ
    pub channels : Channels
    pub ingress : List (Option IngressRequest)
    pub running : List Sequence
    pub queue : List Sequence
    pub pool : kv.Pool
    pub point : Point
    pub accepting : Bool
    pub stopping : Bool
    pub failed : Bool
    pub submitted : ℕ
    pub ended : ℕ
    pub callbacks : List Callback
    -- The ids that `model_runner.free` was called with, and the sequences whose metrics
    -- `record_request` got.
    pub freed : List ℕ
    pub recorded : List Sequence
    pub preemptions : ℕ
    pub requests_in_flight : ℕ

  unfoldable pub submit : Engine → List ℕ → SamplingParams → ℕ → SubmitError ⊎ (ℕ × Engine)
  unfolding new_output_channel
  submit e prompt params now =
      let (id, next, channels) = new_output_channel e.next_id e.output_queue_maxsize e.channels in
      let request : IngressRequest = record {
        seq_id = id;
        prompt_tokens = prompt;
        sampling_params = params;
        arrival_time = now;
      } in
      if not (is_prompt e.vocab_size prompt)
      then inl invalid_prompt
      else if not e.accepting
      then inl engine_unavailable
      else inr (
        id,
        record e {
          next_id = next;
          channels = channels;
          submitted = suc e.submitted;
          ingress = e.ingress ++ some request ∷ [];
        },
      )

  abbrev pub is_idle : Engine → Bool
  is_idle e = e.ended == e.submitted

  abbrev pub close_ingress : Engine → Engine
  close_ingress e = record e { accepting = false }

  -- `stop` also ends the GPU worker, and joins both threads.
  abbrev pub stop : Engine → Engine
  stop e = record e { accepting = false; stopping = true; ingress = e.ingress ++ none ∷ [] }

  unfoldable pub drain_ingress : Engine → Engine
  drain_ingress e = record e { ingress = []; queue = e.queue ++ arrivals e.ingress }

  -- `for seq in seqs: self._end(seq)`
  unfoldable pub end_all : List Sequence → Engine → Engine
  end_all [] e = e
  end_all (s ∷ ss) e = end_all ss (record e {
    freed = e.freed ++ s.seq_id ∷ [];
    recorded = e.recorded ++ s ∷ [];
    ended = suc e.ended;
  })

  -- `_abort`, with `Scheduler.abort` and its callback.
  unfoldable pub abort : List Sequence → Engine → Engine
  unfolding end_all
  abort ss e =
      let (running, pool) = release kv ss e.running e.pool in
      end_all ss (record e {
        running = running;
        pool = pool;
        callbacks = e.callbacks ++ dispatch_aborted (map (λ (s : Sequence). s.seq_id) ss);
      })

  -- `_apply`, with `handle_iteration_results` and its callback; `none` is an exception.
  unfoldable pub apply : ℕ → Outcome → BatchPlan → Engine → Option Engine
  unfolding abort
  apply now lost plan e = none
  apply now failed_pass plan e = elim (planned plan.entries e.running) [
    | none ↦ none
    | some ss ↦ some (abort ss e)
  ]
  apply now (tokens rs) plan e =
      let start : Folded kv = record { running = e.running; pool = e.pool; done = [] } in
      elim (fold_results kv now rs start) [
        | none ↦ none
        | some f ↦ some (
            end_all f.done (record e {
              running = f.running;
              pool = f.pool;
              callbacks = e.callbacks ++ dispatch_results rs;
            }))
      ]
