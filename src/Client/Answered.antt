-- ===== src/Client/Answered.antt =====
-- `send_request` of loadgen/client.py on the events of server.py's stream.
use llm_serving_engine.Base.{
  ℕ, suc, ◌+◌, ◌≡◌, refl, ap, ◌∙◌, true, false, some, List, [], ◌∷◌, ◌++◌, length, arith,
  length-append, Ratio,
}
use llm_serving_engine.Dispatch.Delivery.{stream as items_of}
use llm_serving_engine.Tokenizer.{
  Text, Windows, decode_window, decode_incremental, window_of, store,
}
use llm_serving_engine.Server.Stream.{stream}
use llm_serving_engine.Client.{Sent, nothing_yet, receive_token, read_events, send_request}

module _ (decode : List ℕ → Text) (id prompt_len : ℕ) (now : ℕ → Ratio) where
  read_events-stream :
      (ts : List ℕ) (last : ℕ) (generated : List ℕ) (ws : Windows) (sent : Sent)
      → let r =
          read_events now
            (stream decode id prompt_len generated ws (items_of ts last)).events
            sent in
        (r.success ≡ sent.success)
        × (r.num_tokens_received ≡ sent.num_tokens_received + suc (length ts))
        × (length r.token_times ≡ length sent.token_times + suc (length ts))
        × (r.prompt_tokens ≡ some prompt_len)
        × (r.output_tokens ≡ some (length generated + suc (length ts)))
  unfolding stream read_events decode_incremental
  read_events-stream [] last generated ws sent = (
    refl,
    omega arith,
    length-append sent.token_times (now sent.num_tokens_received ∷ []),
    refl,
    ap some (length-append generated (last ∷ [])),
  )
  read_events-stream (t ∷ ts) last generated ws sent =
      let seen = generated ++ t ∷ [] in
      let w = (decode_window decode (window_of id ws) seen).1 in
      let (ok, count, times, prompt, output) =
        read_events-stream ts last seen (store id w ws) (receive_token now sent) in
      (
        ok,
        omega (arith, count),
        omega (arith, times, length-append sent.token_times (now sent.num_tokens_received ∷ [])),
        prompt,
        output ∙ ap some (omega (arith, length-append generated (t ∷ []))),
      )

  -- Whatever the tokenizer decodes, a client that reads the stream of a request that got tokens
  -- and DONE reports success, as many tokens and token times as the request got, and the lengths
  -- of the done event, which are those of the prompt and of the tokens.
  pub send_request-stream :
      (ts : List ℕ) (last : ℕ) (ws : Windows)
      → let r =
          send_request now false (stream decode id prompt_len [] ws (items_of ts last)).events in
        (r.success ≡ true)
        × (r.num_tokens_received ≡ suc (length ts))
        × (length r.token_times ≡ suc (length ts))
        × (r.prompt_tokens ≡ some prompt_len)
        × (r.output_tokens ≡ some (suc (length ts)))
  unfolding send_request
  send_request-stream ts last ws =
      let (ok, count, times, prompt, output) = read_events-stream ts last [] ws nothing_yet in
      (ok, omega (arith, count), omega (arith, times), prompt, output ∙ ap some (omega arith))
