-- ===== src/Examples/Answers.antt =====
-- Answers of the server, src/llm_serving_engine/server.py, with a tokenizer that decodes a token to
-- the character of its number.
use mathlib.Core.List.{append_assoc}
use llm_serving_engine.Base.{
  drop-append, ℕ, ◌+◌, ◌≤◌, ◌≡◌, refl, sym, ap, ◌∙◌, true, none, some, List, [], ◌∷◌, ◌++◌, length,
  take,
}
use llm_serving_engine.Dispatch.Delivery.{stream as items_of}
use llm_serving_engine.Tokenizer.{Text, window_of}
use llm_serving_engine.Tokenizer.Windows.{HasMergeContext}
use llm_serving_engine.Allocator.Books.{paged}
use llm_serving_engine.Engine.State.{arrivals, Engine, close_ingress, is_idle}
use llm_serving_engine.Server.Stream.{finished, stream}
use llm_serving_engine.Server.Answers.{text_of, token_events, stream-answer}
use llm_serving_engine.Server.Switch.{
  Loaded, new_engine, Handle, draining, begin_switch, install, boot, switches, goes, stays,
}
use llm_serving_engine.Server.Drained.{Changes-drained}
use llm_serving_engine.Examples.{small_scheduler}

abbrev pub characters : List ℕ → Text
characters tokens = tokens

characters-HasMergeContext : HasMergeContext characters
characters-HasMergeContext = record {
  empty = refl;
  context = λ xs ys zs _ _ _.
      sym (append_assoc xs ys zs) ∙ ap (λ l. (xs ++ ys) ++ l) (sym (drop-append ys zs));
}

stream-answer_example :
    ((read : ℕ) × (read ≤ 3)
      × (text_of (stream characters 5 8 [] [] (items_of (72 ∷ 105 ∷ []) 33)).events
          ≡ take read (72 ∷ 105 ∷ 33 ∷ [])))
    × (token_events (stream characters 5 8 [] [] (items_of (72 ∷ 105 ∷ []) 33)).events ≡ 3)
    × ((stream characters 5 8 [] [] (items_of (72 ∷ 105 ∷ []) 33)).ended ≡ some (finished 8 3))
unfolding window_of
stream-answer_example =
    stream-answer characters 5 8 (72 ∷ 105 ∷ []) 33 [] characters-HasMergeContext refl

abbrev small_model : Loaded paged
small_model = record {
  scheduler = small_scheduler;
  vocab_size = 100;
  output_queue_maxsize = 4;
  pool = record { num_blocks = 2; block_size = 4; free_blocks = 0 ∷ 1 ∷ [] };
}

abbrev old_engine : Engine paged
old_engine = close_ingress paged (new_engine paged small_model 0 [])

abbrev switching : Handle paged
switching = record {
  engine = none;
  model = 1;
  phase = draining old_engine 2;
  next_id = 0;
  channels = [];
}

Changes-drained_example :
    (switching.engine ≡ none)
    × (is_idle paged old_engine ≡ true
        → length (arrivals old_engine.ingress) + length old_engine.running + length old_engine.queue
          ≡ 0)
unfolding install begin_switch
Changes-drained_example =
    Changes-drained paged small_model 1 switching old_engine 2
      (goes (boot paged small_model 1) (boot paged small_model 1) switching
        (stays (boot paged small_model 1)) (switches (boot paged small_model 1) 2 refl))
      refl
