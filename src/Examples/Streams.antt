-- ===== src/Examples/Streams.antt =====
-- The queues of src/llm_serving_engine/scheduling/dispatch.py on concrete results.
use llm_serving_engine.Base.{◌≡◌, refl, true, false, some, List, [], ◌∷◌, ◌++◌, arith}
use llm_serving_engine.Scheduler.Results.{TokenResult}
use llm_serving_engine.Dispatch.{Item, token, done, Queue, Channels, channel, deliver_results}
use llm_serving_engine.Dispatch.Delivery.{
  IsBounded, own_results, receive, results_for, deliver_results-channel, receive-stream,
  receive-done,
}

abbrev narrow : Queue
narrow = record { maxsize = 2; items = token 5 ∷ token 6 ∷ [] }

abbrev wide : Queue
wide = record { maxsize = 8; items = token 5 ∷ [] }

abbrev channels : Channels
channels = (4, wide) ∷ (3, narrow) ∷ []

abbrev mixed_results : List TokenResult
mixed_results =
    record { seq_id = 3; token = 7; finished = false }
    ∷ record { seq_id = 4; token = 8; finished = true }
    ∷ record { seq_id = 3; token = 9; finished = true }
    ∷ []

narrow-IsBounded : IsBounded narrow
narrow-IsBounded = ground arith

deliver_results-channel_example :
    channel 4 (deliver_results mixed_results channels)
    ≡ some (receive (own_results 4 mixed_results) wide)
unfolding channel
deliver_results-channel_example = deliver_results-channel 4 mixed_results channels wide refl

receive-stream_example :
    (receive (results_for 4 (1 ∷ 2 ∷ []) 3) wide).items
    ≡ token 5 ∷ token 1 ∷ token 2 ∷ token 3 ∷ done ∷ []
receive-stream_example = receive-stream 4 (1 ∷ 2 ∷ []) 3 wide (omega arith)

receive-done_example :
    IsBounded (receive (own_results 3 mixed_results) narrow)
    × ((before : List Item) × ((receive (own_results 3 mixed_results) narrow).items
          ≡ before ++ done ∷ []))
receive-done_example =
    receive-done (record { seq_id = 3; token = 7; finished = false } ∷ [])
      (record { seq_id = 3; token = 9; finished = true }) narrow narrow-IsBounded refl
