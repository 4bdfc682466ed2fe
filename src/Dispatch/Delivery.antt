-- ===== src/Dispatch/Delivery.antt =====
-- What a client finds in its queue.
use mathlib.Core.List.{append_assoc}
use llm_serving_engine.Base.{
  ℕ, ◌+◌, ◌≤◌, ◌<◌, ◌≡◌, ◌⊎◌, refl, inl, inr, Bool, true, false, none, some, List, [], ◌∷◌, ◌++◌,
  length, length-append, Bool-cases, ◌==◌, if◌then◌else◌, arith,
}
use llm_serving_engine.Scheduler.Results.{TokenResult}
use llm_serving_engine.Dispatch.{
  Item, token, done, Queue, full, put_nowait, or_unchanged, drop_oldest, put_terminal, Channels,
  channel, change, deliver_result, deliver_results,
}

-- A queue is within its bound, if it has one.
abbrev pub IsBounded : Queue → Type 0
IsBounded q = (q.maxsize ≡ 0) ⊎ (length q.items ≤ q.maxsize)

length-drop_oldest : (xs : List Item) → 0 < length xs → length (drop_oldest xs) + 1 ≡ length xs
length-drop_oldest [] h = absurd (omega arith)
length-drop_oldest (x ∷ xs) h = omega arith

-- If a queue is within its bound, put_terminal puts the sentinel behind its items, without the
-- oldest one if it was full, and keeps the queue within its bound, and the bound.
pub put_terminal_lands :
    (q : Queue) (sentinel : Item)
    → IsBounded q
    → ((put_terminal q sentinel).items
        ≡ (if full q then drop_oldest q.items else q.items) ++ sentinel ∷ [])
      × IsBounded (put_terminal q sentinel)
      × ((put_terminal q sentinel).maxsize ≡ q.maxsize)
unfolding put_terminal
put_terminal_lands q sentinel b = ground (
  arith,
  length-append q.items (sentinel ∷ []),
  length-append (drop_oldest q.items) (sentinel ∷ []),
  length-drop_oldest q.items,
)

channel-change :
    (id j : ℕ) (f : Queue → Queue) (cs : Channels) (q : Queue)
    → channel j cs ≡ some q
    → channel j (change id f cs) ≡ some (if id == j then f q else q)
unfolding channel change
channel-change id j f [] q e = absurd (ground arith)
channel-change id j f ((k, r) ∷ cs) q e = ground (arith, channel-change id j f cs q)

-- The results that are meant for one channel, in their order.
abbrev pub own_results : ℕ → List TokenResult → List TokenResult
own_results id [] = []
own_results id (r ∷ rs) = if r.seq_id == id then r ∷ own_results id rs else own_results id rs

abbrev pub receive : List TokenResult → Queue → Queue
receive [] q = q
receive (r ∷ rs) q = receive rs (deliver_result r q)

-- The queue of an open channel after deliver_results is the one that its own results, in their
-- order, make of it.
pub deliver_results-channel :
    (id : ℕ) (rs : List TokenResult) (cs : Channels) (q : Queue)
    → channel id cs ≡ some q
    → channel id (deliver_results rs cs) ≡ some (receive (own_results id rs) q)
unfolding deliver_results
deliver_results-channel id [] cs q e = e
deliver_results-channel id (r ∷ rs) cs q e =
    let step = channel-change r.seq_id id (deliver_result r) cs q e in
    elim (Bool-cases (r.seq_id == id)) [
      | inl mine ↦ rw mine (
          deliver_results-channel id rs (change r.seq_id (deliver_result r) cs) (deliver_result r q)
            (rw mine at step))
      | inr other ↦ rw other (
          deliver_results-channel id rs (change r.seq_id (deliver_result r) cs) q
            (rw other at step))
    ]

channel-change-none :
    (id j : ℕ) (f : Queue → Queue) (cs : Channels)
    → channel j cs ≡ none
    → channel j (change id f cs) ≡ none
unfolding channel change
channel-change-none id j f [] e = refl
channel-change-none id j f ((k, r) ∷ cs) e = ground (arith, channel-change-none id j f cs)

-- A channel that is not open is not open after deliver_results.
pub deliver_results-closed :
    (id : ℕ) (rs : List TokenResult) (cs : Channels)
    → channel id cs ≡ none
    → channel id (deliver_results rs cs) ≡ none
unfolding deliver_results
deliver_results-closed id [] cs e = e
deliver_results-closed id (r ∷ rs) cs e =
    deliver_results-closed id rs _ (channel-change-none r.seq_id id (deliver_result r) cs e)

-- The stream that a client reads: every token, and DONE behind the last.
abbrev pub stream : List ℕ → ℕ → List Item
stream [] last = token last ∷ done ∷ []
stream (t ∷ ts) last = token t ∷ stream ts last

abbrev pub result_of : ℕ → ℕ → Bool → TokenResult
result_of id t finished = record { seq_id = id; token = t; finished = finished }

abbrev pub results_for : ℕ → List ℕ → ℕ → List TokenResult
results_for id [] last = result_of id last true ∷ []
results_for id (t ∷ ts) last = result_of id t false ∷ results_for id ts last

-- If the queue has room for all tokens and DONE, delivering the results of a sequence adds its
-- tokens in their order and then DONE.
pub receive-stream :
    (id : ℕ) (ts : List ℕ) (last : ℕ) (q : Queue)
    → length q.items + length ts + 2 ≤ q.maxsize
    → (receive (results_for id ts last) q).items ≡ q.items ++ stream ts last
unfolding deliver_result
receive-stream id [] last q room = ground (
  arith,
  length-append q.items (token last ∷ []),
  append_assoc q.items (token last ∷ []) (done ∷ []),
)
receive-stream id (t ∷ ts) last q room =
    let q' = record q { items = q.items ++ token t ∷ [] } in
    ground (
      arith,
      receive-stream id ts last q',
      length-append q.items (token t ∷ []),
      append_assoc q.items (token t ∷ []) (stream ts last),
    )

put_nowait-IsBounded :
    (q : Queue) (x : Item) → IsBounded q → IsBounded (or_unchanged q (put_nowait q x))
unfolding put_nowait
put_nowait-IsBounded q x b = ground (arith, length-append q.items (x ∷ []))

deliver_result-IsBounded :
    (r : TokenResult) (q : Queue) → IsBounded q → IsBounded (deliver_result r q)
unfolding deliver_result
deliver_result-IsBounded r q b =
    let q' = or_unchanged q (put_nowait q (token r.token)) in
    let b' = put_nowait-IsBounded q (token r.token) b in
    elim (Bool-cases r.finished) [
      | inl last ↦ rw last (put_terminal_lands q' done b').1
      | inr more ↦ rw more b'
    ]

deliver_result-done :
    (r : TokenResult) (q : Queue)
    → IsBounded q
    → r.finished ≡ true
    → (before : List Item) × ((deliver_result r q).items ≡ before ++ done ∷ [])
unfolding deliver_result
deliver_result-done r q b last =
    let q' = or_unchanged q (put_nowait q (token r.token)) in
    let lands = put_terminal_lands q' done (put_nowait-IsBounded q (token r.token) b) in
    (if full q' then drop_oldest q'.items else q'.items, rw last lands.0)

-- If a queue is within its bound, then after any results and a finishing one it is within its
-- bound and its last item is DONE.
pub receive-done :
    (rs : List TokenResult) (r : TokenResult) (q : Queue)
    → IsBounded q
    → r.finished ≡ true
    → IsBounded (receive (rs ++ r ∷ []) q)
      × ((before : List Item) × ((receive (rs ++ r ∷ []) q).items ≡ before ++ done ∷ []))
receive-done [] r q b last = (deliver_result-IsBounded r q b, deliver_result-done r q b last)
receive-done (x ∷ rs) r q b last =
    receive-done rs r (deliver_result x q) (deliver_result-IsBounded x q b) last
