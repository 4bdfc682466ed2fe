-- ===== src/Server/Answers.antt =====
-- What a client of `/v1/generate` reads.

use llm_serving_engine.Base.{
  ℕ, suc, ◌+◌, ◌≤◌, ◌≡◌, refl, ap, ◌∙◌, none, some, List, [], ◌∷◌, ◌++◌, length, take,
  length-append, arith, Option,
}
use llm_serving_engine.Dispatch.Delivery.{stream as items_of}
use llm_serving_engine.Tokenizer.{
  Text, Window, Windows, first_window, window_of, store, kept, decode_window, decode_incremental,
}
use llm_serving_engine.Tokenizer.Windows.{HasMergeContext, feed, feed-text}
use llm_serving_engine.Server.Stream.{Event, token_text, finished, stream}

-- The token events' texts joined, and how many there are.
abbrev pub text_of : List Event → Text
text_of [] = []
text_of (token_text text ∷ es) = text ++ text_of es
text_of (e ∷ es) = text_of es

abbrev pub token_events : List Event → ℕ
token_events [] = 0
token_events (token_text text ∷ es) = suc (token_events es)
token_events (e ∷ es) = token_events es

window_of-store :
    (id : ℕ) (w : Option Window) (ws : Windows)
    → window_of id (store id w ws) ≡ kept (window_of id ws) w
unfolding window_of
window_of-store id none ws = refl
window_of-store id (some w) ws = ground arith

module _ (decode : List ℕ → Text) (id prompt_len : ℕ) where
  stream-feed :
      (ts : List ℕ) (last : ℕ) (generated : List ℕ) (ws : Windows)
      → let r = stream decode id prompt_len generated ws (items_of ts last) in
        (text_of r.events ≡ (feed decode (window_of id ws) generated (ts ++ last ∷ [])).0)
        × (token_events r.events ≡ suc (length ts))
        × (r.ended ≡ some (finished prompt_len (length generated + suc (length ts))))
  unfolding stream feed decode_incremental
  stream-feed [] last generated ws =
      (refl, refl, ap (λ n. some (finished prompt_len n)) (length-append generated (last ∷ [])))
  stream-feed (t ∷ ts) last generated ws =
      let seen = generated ++ t ∷ [] in
      let (text, w) = decode_window decode (window_of id ws) seen in
      let (texts, count, ended) = stream-feed ts last seen (store id w ws) in
      (
        ap (λ l. text ++ l)
            (texts ∙ ap (λ v. (feed decode v seen (ts ++ last ∷ [])).0) (window_of-store id w ws)),
        ap suc count,
        ended
            ∙ ap (λ n. some (finished prompt_len n))
                (omega (arith, length-append generated (t ∷ []))),
      )

  -- For a tokenizer whose decoding of what follows a non-empty context does not depend on what
  -- stands before it, the stream of a request that got tokens and DONE yields one token event for
  -- each token, whose texts joined are the decoding of a prefix of the tokens, and ends with the
  -- done event that counts the tokens.
  pub stream-answer :
      (ts : List ℕ) (last : ℕ) (ws : Windows)
      → HasMergeContext decode
      → window_of id ws ≡ first_window
      → let r = stream decode id prompt_len [] ws (items_of ts last) in
        ((read : ℕ) × (read ≤ suc (length ts))
          × (text_of r.events ≡ decode (take read (ts ++ last ∷ []))))
        × (token_events r.events ≡ suc (length ts))
        × (r.ended ≡ some (finished prompt_len (suc (length ts))))
  stream-answer ts last ws law fresh =
      let (texts, count, ended) = stream-feed ts last [] ws in
      let (whole, inside) = feed-text decode law (ts ++ last ∷ []) in
      (
        (
          (feed decode first_window [] (ts ++ last ∷ [])).1.read,
          omega (arith, inside, length-append ts (last ∷ [])),
          texts ∙ (ap (λ v. (feed decode v [] (ts ++ last ∷ [])).0) fresh ∙ whole),
        ),
        count,
        ended ∙ ap (λ n. some (finished prompt_len n)) (omega arith),
      )
