-- ===== src/Examples/Loads.antt =====
-- Load runs of src/llm_serving_engine/loadgen: a schedule, a closed loop, a client and a report.
use llm_serving_engine.Base.{
  ◌*◌, ◌+◌, ℕ, ◌≤◌, ◌≡◌, refl, true, false, none, some, List, [], ◌∷◌, length, get_elem?, count_if,
  ◌==◌, pos, Ratio, of_int, arith, sorted, insert,
}
use llm_serving_engine.Dispatch.Delivery.{stream as items_of}
use llm_serving_engine.Server.Stream.{stream}
use llm_serving_engine.Report.{Result, filter_by, most_common, growth_of, ttft_growth}
use llm_serving_engine.Workload.{RequestShape, floor_of, shape_schedule}
use llm_serving_engine.Workload.Schedule.{IsShuffle, shape_schedule-counts}
use llm_serving_engine.Client.{send_request}
use llm_serving_engine.Client.Closed.{
  Turns, turn_count, ClosedLoop, gathered, claims, answers, ends, goes, stays,
  closed_loop-sends_all,
}
use llm_serving_engine.Client.Answered.{send_request-stream}
use llm_serving_engine.Examples.Answers.{characters}

abbrev chat : RequestShape
chat = record { name = 0; prompt = 1; max_tokens = 64; weight = 75 }

abbrev document : RequestShape
document = record { name = 1; prompt = 2; max_tokens = 256; weight = 7 }

abbrev in_order : List RequestShape → List RequestShape
in_order shapes = shapes

in_order-IsShuffle : IsShuffle in_order
in_order-IsShuffle = record { count_same = λ p ss. refl }

shape_schedule-counts_example :
    (schedule : List RequestShape) × (shape_schedule in_order 20 50 (chat ∷ document ∷ [])
      ≡ some schedule)
    × (length schedule ≡ 50)
    × ((i : ℕ) (s : RequestShape)
        → get_elem? (chat ∷ document ∷ []) i ≡ some s
        → floor_of 20 50 (chat ∷ document ∷ [])
          ≤ count_if (λ (r : RequestShape). r.name == s.name) schedule)
shape_schedule-counts_example =
    shape_schedule-counts in_order 20 50 (chat ∷ document ∷ []) in_order-IsShuffle (omega arith)
      (omega arith)

abbrev begun : ClosedLoop
begun = gathered 1 1

abbrev claimed : ClosedLoop
claimed = record begun { unsent = 0; at_head = 0; in_flight = 1 }

abbrev answered : ClosedLoop
answered = record claimed { in_flight = 0; at_head = 1; results = 1 }

abbrev over : ClosedLoop
over = record answered { at_head = 0; returned = 1 }

abbrev one_round : Turns false (gathered 1 1) over
one_round =
    goes begun answered over
      (goes begun claimed answered
        (goes begun begun claimed (stays begun) (claims begun 0 0 refl refl))
        (answers claimed 0 refl))
      (ends answered 0 refl refl)

closed_loop-sends_all_example :
    (turn_count one_round ≤ 3 * 1 + 1) × (over.returned ≡ 1 → over.results ≡ 1)
closed_loop-sends_all_example = closed_loop-sends_all 1 1 over (omega arith) one_round

abbrev tick : ℕ → Ratio
tick n = of_int (pos n)

send_request-stream_example :
    let r =
      send_request tick false (stream characters 5 8 [] [] (items_of (72 ∷ 105 ∷ []) 33)).events in
    (r.success ≡ true)
    × (r.num_tokens_received ≡ 3)
    × (length r.token_times ≡ 3)
    × (r.prompt_tokens ≡ some 8)
    × (r.output_tokens ≡ some 3)
send_request-stream_example = send_request-stream characters 5 8 tick (72 ∷ 105 ∷ []) 33 []

abbrev one_result : Result
one_result = record {
  shape = 0;
  success = true;
  scheduled_at = some (of_int (pos 1));
  completed_at = of_int (pos 2);
  latency = of_int (pos 1);
  first_token_latency = some (of_int (pos 1));
  token_times = of_int (pos 2) ∷ [];
  prompt_tokens = some 8;
  output_tokens = some 1;
}

abbrev earlier_result : Result
earlier_result = record one_result {
  scheduled_at = some (of_int (pos 0));
  completed_at = of_int (pos 1);
}

too_few : ttft_growth (earlier_result ∷ one_result ∷ []) ≡ some none
unfolding ttft_growth filter_by most_common growth_of sorted insert
too_few = refl
