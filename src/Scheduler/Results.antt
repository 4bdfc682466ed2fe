-- ===== src/Scheduler/Results.antt =====
-- The loops of `handle_iteration_results` and of `abort`; what they hand to the event loop is in
-- Engine/State. An object's identity is its `seq_id`. `none` is an exception: a KeyError for an
-- unknown id, or the ValueError of a second `running.remove`.
use llm_serving_engine.Base.{ℕ, Bool, Option, none, some, List, [], ◌∷◌, ◌++◌, ◌==◌, if◌then◌else◌}
use llm_serving_engine.Sequence.{Sequence, BlockTable}
use llm_serving_engine.Allocator.{KvAllocator}

pub record TokenResult : Type 0 where
  pub seq_id : ℕ
  pub token : ℕ
  pub finished : Bool

unfoldable pub find : ℕ → List Sequence → Option Sequence
find id [] = none
find id (s ∷ ss) = if s.seq_id == id then some s else find id ss

unfoldable pub remove : ℕ → List Sequence → List Sequence
remove id [] = []
remove id (s ∷ ss) = if s.seq_id == id then ss else s ∷ remove id ss

-- A mutation of the object with this id.
unfoldable pub update : ℕ → (Sequence → Sequence) → List Sequence → List Sequence
update id f [] = []
update id f (s ∷ ss) = if s.seq_id == id then f s ∷ ss else s ∷ update id f ss

abbrev pub first_time : ℕ → Option ℕ → Option ℕ
first_time now none = some now
first_time now (some t) = some t

-- `generated_tokens.append(token)` and the stamps.
unfoldable pub take_token : ℕ → ℕ → Sequence → Sequence
take_token now token s = record s {
  generated_tokens = s.generated_tokens ++ token ∷ [];
  metrics = record s.metrics {
    first_token_time = first_time now s.metrics.first_token_time;
    token_times = s.metrics.token_times ++ now ∷ [];
  };
}

unfoldable pub mark_done : ℕ → BlockTable → Sequence → Sequence
mark_done now t s = record s {
  block_table = t;
  metrics = record s.metrics { done_time = some now };
}

-- The object that `s` names: its entry in `running`, or `s` itself.
abbrev pub current : List Sequence → Sequence → Sequence
current running s = elim (find s.seq_id running) [ none ↦ s | some r ↦ r ]

module _ (kv : KvAllocator) where
  -- The variables of the loop; `done` is `finished_seqs`.
  pub record Folded : Type 0 where
    pub running : List Sequence
    pub pool : kv.Pool
    pub done : List Sequence

  -- `running.remove(seq)` finds the object by its identity.
  unfoldable pub finish : ℕ → Folded → Sequence → Folded
  unfolding remove mark_done
  finish now st s =
      let (pool, table) = kv.free st.pool s.block_table in
      record {
        running = remove s.seq_id st.running;
        pool = pool;
        done = st.done ++ mark_done now table s ∷ [];
      }

  -- A sequence that finished earlier in this loop is still in `id_to_seq`.
  unfoldable pub apply_result : ℕ → Folded → TokenResult → Option Folded
  unfolding find update take_token finish
  apply_result now st r = elim (find r.seq_id st.running) [
    | some s ↦ some (
        if r.finished
        then finish now st (take_token now r.token s)
        else record st { running = update r.seq_id (take_token now r.token) st.running })
    | none ↦ elim (find r.seq_id st.done) [
      | none ↦ none
      | some s ↦
          if r.finished
          then none
          else some (record st { done = update r.seq_id (take_token now r.token) st.done })
    ]
  ]

  unfoldable pub fold_results : ℕ → List TokenResult → Folded → Option Folded
  unfolding apply_result
  fold_results now [] st = some st
  fold_results now (r ∷ rs) st = elim (apply_result now st r) [
    | none ↦ none
    | some st' ↦ fold_results now rs st'
  ]

  -- `seq in running` and `remove` are by identity; `free` comes in both cases.
  unfoldable pub release : List Sequence → List Sequence → kv.Pool → List Sequence × kv.Pool
  unfolding find remove
  release [] running pool = (running, pool)
  release (s ∷ ss) running pool =
      let object = current running s in
      release ss (remove s.seq_id running) (kv.free pool object.block_table).0
