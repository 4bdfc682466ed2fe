-- ===== src/Client.antt =====
-- The load generator: `send_request` of src/llm_serving_engine/loadgen/client.py, and the timing of
-- src/llm_serving_engine/loadgen/timing.py. Its events are those that the server's stream yields.
pub mod Closed
pub mod Answered
use llm_serving_engine.Base.{
  ℕ, suc, Bool, true, false, Option, none, some, List, [], ◌∷◌, ◌++◌, if◌then◌else◌, Ratio, ◌+ℚ◌,
  ◌-ℚ◌, leb_ℚ,
}
use llm_serving_engine.Server.Stream.{Event, token_text, finished, error}
use llm_serving_engine.Report.{Result}

-- What `send_request` returns; the error's text is left out.
pub record Sent : Type 0 where
  pub success : Bool
  pub num_tokens_received : ℕ
  pub token_times : List Ratio
  pub prompt_tokens : Option ℕ
  pub output_tokens : Option ℕ

abbrev pub nothing_yet : Sent
nothing_yet = record {
  success = true;
  num_tokens_received = 0;
  token_times = [];
  prompt_tokens = none;
  output_tokens = none;
}

-- `now n` is the clock's reading at the token that `n` others came before.
module _ (now : ℕ → Ratio) where
  abbrev pub receive_token : Sent → Sent
  receive_token sent = record sent {
    token_times = sent.token_times ++ now sent.num_tokens_received ∷ [];
    num_tokens_received = suc sent.num_tokens_received;
  }

  -- The loop over the events; a stream that just ends leaves it too.
  unfoldable pub read_events : List Event → Sent → Sent
  read_events [] sent = sent
  read_events (token_text text ∷ es) sent = read_events es (receive_token sent)
  read_events (error ∷ es) sent = record sent { success = false }
  read_events (finished prompt output ∷ es) sent = record sent {
    prompt_tokens = some prompt;
    output_tokens = some output;
  }

  -- An HTTPError, also a status that is an error, leaves what had come in.
  unfoldable pub send_request : (http_error : Bool) → List Event → Sent
  unfolding read_events
  send_request http_error es =
      let sent = read_events es nothing_yet in
      if http_error then record sent { success = false } else sent

abbrev pub first_latency : List Ratio → Ratio → Option Ratio
first_latency [] sent = none
first_latency (t ∷ ts) sent = some (t -ℚ sent)

-- `_timed`, with the "scheduled_at" of `_send_on_schedule` and the "shape" of `request_sender`.
unfoldable pub timed : (shape : ℕ) → Option Ratio → (start sent now : Ratio) → Sent → Result
unfolding ◌-ℚ◌
timed shape scheduled start sent now result = record {
  shape = shape;
  success = result.success;
  scheduled_at = scheduled;
  completed_at = now -ℚ start;
  latency = now -ℚ sent;
  first_token_latency = first_latency result.token_times sent;
  token_times = result.token_times;
  prompt_tokens = result.prompt_tokens;
  output_tokens = result.output_tokens;
}

-- `_send_on_schedule`
abbrev pub send_on_schedule : (shape : ℕ) → (start intended now : Ratio) → Sent → Result
send_on_schedule shape start intended now result =
    timed shape (some (intended -ℚ start)) start intended now result

abbrev pub is_over : Option Ratio → (elapsed : Ratio) → Bool
is_over none elapsed = false
is_over (some limit) elapsed = leb_ℚ limit elapsed

-- The intended send times of `open_loop_load_gen`; `gaps` are the draws of `expovariate`, one for
-- each of the `num_requests` rounds.
unfoldable pub send_times :
    Option Ratio → (start next_send : Ratio) → (gaps : List Ratio) → List Ratio
unfolding ◌-ℚ◌ ◌+ℚ◌
send_times limit start next_send [] = []
send_times limit start next_send (gap ∷ gaps) =
    let rest = send_times limit start (next_send +ℚ gap) gaps in
    if is_over limit (next_send -ℚ start) then [] else next_send ∷ rest
