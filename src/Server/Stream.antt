-- ===== src/Server/Stream.antt =====
-- `stream` in `/v1/generate`: the events that are sent for the items of an output queue.
use llm_serving_engine.Base.{
  ℕ, Option, none, some, List, [], ◌∷◌, ◌++◌, length, ◌==◌, if◌then◌else◌,
}
use llm_serving_engine.Dispatch.{Item, token, done, aborted, Channels}
use llm_serving_engine.Tokenizer.{Text, Windows, decode_incremental, forget}

-- The JSON of an event.
pub data Event : Type 0 where
  token_text : Text → Event
  finished : (prompt_tokens output_tokens : ℕ) → Event
  error : Event

-- `output_channels.pop(seq_id, None)`
unfoldable pub close : ℕ → Channels → Channels
close id [] = []
close id ((j, q) ∷ cs) = let rest = close id cs in if j == id then rest else (j, q) ∷ rest

-- What the generator has done: the events that it yielded, the tokenizer's windows, and whether it
-- has ended; one that has not waits in `output_queue.get()`.
pub record Streamed : Type 0 where
  pub events : List Event
  pub windows : Windows
  pub ended : Option Event

abbrev pub yields : Event → Streamed → Streamed
yields event r = record r { events = event ∷ r.events }

module _ (decode : List ℕ → Text) (id prompt_len : ℕ) where
  -- The loop, over the items in the order that they come.
  unfoldable pub stream : List ℕ → Windows → List Item → Streamed
  unfolding decode_incremental
  stream generated ws [] = record { events = []; windows = ws; ended = none }
  stream generated ws (done ∷ items) =
      let last = finished prompt_len (length generated) in
      record { events = last ∷ []; windows = ws; ended = some last }
  stream generated ws (aborted ∷ items) = record {
    events = error ∷ [];
    windows = ws;
    ended = some error;
  }
  stream generated ws (token t ∷ items) =
      let (text, ws') = decode_incremental decode id (generated ++ t ∷ []) ws in
      yields (token_text text) (stream (generated ++ t ∷ []) ws' items)

  -- The `finally` clause, also where the client goes away.
  unfoldable pub finalize : Channels → Windows → Channels × Windows
  unfolding close forget
  finalize channels ws = (close id channels, forget id ws)
