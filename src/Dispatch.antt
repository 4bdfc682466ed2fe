-- ===== src/Dispatch.antt =====
-- src/llm_serving_engine/scheduling/dispatch.py: the callbacks that run on the event loop, and the
-- bounded queues that they fill. `output_channels` is the list of the open channels, newest first.
pub mod Delivery
use llm_serving_engine.Base.{
  ℕ, suc, ◌+◌, Bool, true, false, Option, none, some, List, [], ◌∷◌, ◌++◌, length, leb, ltb, ◌&&◌,
  ◌==◌, if◌then◌else◌,
}
use llm_serving_engine.Scheduler.Results.{TokenResult}

pub data Item : Type 0 where
  token : ℕ → Item
  done : Item
  aborted : Item

-- `asyncio.Queue`: oldest first; a `maxsize` of zero is no bound.
pub record Queue : Type 0 where
  pub maxsize : ℕ
  pub items : List Item

abbrev pub full : Queue → Bool
full q = ltb 0 q.maxsize && leb q.maxsize (length q.items)

-- `put_nowait`; `none` is QueueFull.
unfoldable pub put_nowait : Queue → Item → Option Queue
put_nowait q x = if full q then none else some (record q { items = q.items ++ x ∷ [] })

abbrev pub drop_oldest : List Item → List Item
drop_oldest [] = []
drop_oldest (x ∷ xs) = xs

-- `get_nowait` on a queue that is not empty: the queue that is left.
unfoldable pub get_nowait : Queue → Queue
get_nowait q = record q { items = drop_oldest q.items }

-- What a put leaves of the queue, where QueueFull is caught and dropped.
abbrev or_unchanged : Queue → Option Queue → Queue
or_unchanged q none = q
or_unchanged q (some q') = q'

unfoldable pub put_terminal : Queue → Item → Queue
unfolding put_nowait get_nowait
put_terminal q sentinel =
    let room = if full q then get_nowait q else q in or_unchanged room (put_nowait room sentinel)

abbrev pub Channels : Type 0
Channels = List (ℕ × Queue)

unfoldable pub channel : ℕ → Channels → Option Queue
channel id [] = none
channel id ((j, q) ∷ cs) = if j == id then some q else channel id cs

-- The queue object of `id` is changed in place; a channel that was popped stays absent.
unfoldable pub change : ℕ → (Queue → Queue) → Channels → Channels
change id f [] = []
change id f ((j, q) ∷ cs) = if j == id then (j, f q) ∷ cs else (j, q) ∷ change id f cs

-- `new_output_channel`: the id that the counter gives, and the counter after it.
unfoldable pub new_output_channel : ℕ → ℕ → Channels → ℕ × ℕ × Channels
new_output_channel next maxsize cs =
    (next, suc next, (next, record { maxsize = maxsize; items = [] }) ∷ cs)

-- One result for an open channel: the token, if there is room, and DONE behind the last one.
unfoldable pub deliver_result : TokenResult → Queue → Queue
unfolding put_nowait put_terminal
deliver_result r q =
    let q' = or_unchanged q (put_nowait q (token r.token)) in
    if r.finished then put_terminal q' done else q'

unfoldable pub deliver_results : List TokenResult → Channels → Channels
unfolding change deliver_result
deliver_results [] cs = cs
deliver_results (r ∷ rs) cs = deliver_results rs (change r.seq_id (deliver_result r) cs)

unfoldable pub deliver_aborted : List ℕ → Channels → Channels
unfolding change put_terminal
deliver_aborted [] cs = cs
deliver_aborted (id ∷ ids) cs = deliver_aborted ids (change id (λ q. put_terminal q aborted) cs)

-- `dispatch_results` and `dispatch_aborted`: the callbacks handed to the loop, none for an empty
-- list.
pub data Callback : Type 0 where
  results : List TokenResult → Callback
  aborts : List ℕ → Callback

unfoldable pub dispatch_results : List TokenResult → List Callback
dispatch_results [] = []
dispatch_results (r ∷ rs) = results (r ∷ rs) ∷ []

unfoldable pub dispatch_aborted : List ℕ → List Callback
dispatch_aborted [] = []
dispatch_aborted (id ∷ ids) = aborts (id ∷ ids) ∷ []
