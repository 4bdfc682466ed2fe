-- ===== src/Client/Closed.antt =====
-- `closed_loop_load_gen`: the clients divide the requests between them.
use llm_serving_engine.Base.{
  ℕ, suc, ◌+◌, ◌*◌, ◌≤◌, ◌<◌, ◌≡◌, refl, Bool, true, false, inl, inr, ◌⊎◌, arith,
}

-- Clients at the head of their loop, those that wait for an answer, and those that have returned.
pub record ClosedLoop : Type 0 where
  pub unsent : ℕ
  pub at_head : ℕ
  pub in_flight : ℕ
  pub returned : ℕ
  pub results : ℕ

abbrev pub gathered : (concurrency num_requests : ℕ) → ClosedLoop
gathered concurrency num_requests = record {
  unsent = num_requests;
  at_head = concurrency;
  in_flight = 0;
  returned = 0;
  results = 0;
}

-- A step of one client, up to its next await; `limited` says that `max_duration_s` is given.
pub data Turn (limited : Bool) : ClosedLoop → ClosedLoop → Type 0 where
  claims :
      (c : ClosedLoop) (unsent heads : ℕ)
      → c.unsent ≡ suc unsent
      → c.at_head ≡ suc heads
      → Turn limited c (record c { unsent = unsent; at_head = heads; in_flight = suc c.in_flight })
  answers :
      (c : ClosedLoop) (waits : ℕ)
      → c.in_flight ≡ suc waits
      → Turn limited c
          (record c { in_flight = waits; at_head = suc c.at_head; results = suc c.results })
  ends :
      (c : ClosedLoop) (heads : ℕ)
      → c.at_head ≡ suc heads
      → c.unsent ≡ 0
      → Turn limited c (record c { at_head = heads; returned = suc c.returned })
  times_out :
      (c : ClosedLoop) (heads : ℕ)
      → c.at_head ≡ suc heads
      → limited ≡ true
      → Turn limited c (record c { at_head = heads; returned = suc c.returned })

pub data Turns (limited : Bool) : ClosedLoop → ClosedLoop → Type 0 where
  stays : (c : ClosedLoop) → Turns limited c c
  goes : (c mid c' : ClosedLoop) → Turns limited c mid → Turn limited mid c' → Turns limited c c'

abbrev pub turn_count : {limited : Bool} {c c' : ClosedLoop} → Turns limited c c' → ℕ
turn_count (stays _) = 0
turn_count (goes _ _ _ before last) = suc (turn_count before)

-- What is left to do: three turns for a request that is not sent, two for one in flight.
abbrev left : ClosedLoop → ℕ
left c = 3 * c.unsent + 2 * c.in_flight + c.at_head

Turn-left : (limited : Bool) (c c' : ClosedLoop) → Turn limited c c' → suc (left c') ≤ left c
Turn-left limited c _ (claims _ unsent heads e h) = omega (arith, e, h)
Turn-left limited c _ (answers _ waits e) = omega (arith, e)
Turn-left limited c _ (ends _ heads h e) = omega (arith, h)
Turn-left limited c _ (times_out _ heads h t) = omega (arith, h)

Turns-left :
    (limited : Bool) (c c' : ClosedLoop) (turns : Turns limited c c')
    → turn_count turns + left c' ≤ left c
Turns-left limited c _ (stays _) = omega arith
Turns-left limited c _ (goes _ mid c' before last) =
    omega (arith, Turn-left limited mid c' last, Turns-left limited c mid before)

record IsDivided (limited : Bool) (concurrency num_requests : ℕ) (c : ClosedLoop) : Type 0 where
  requests : c.unsent + c.in_flight + c.results ≡ num_requests
  clients : c.at_head + c.in_flight + c.returned ≡ concurrency
  all_sent : (limited ≡ true) ⊎ ((c.returned ≡ 0) ⊎ (c.unsent ≡ 0))

module _ (limited : Bool) (concurrency num_requests : ℕ) where
  Turn-IsDivided :
      (c c' : ClosedLoop)
      → Turn limited c c'
      → IsDivided limited concurrency num_requests c
      → IsDivided limited concurrency num_requests c'
  Turn-IsDivided c _ (claims _ unsent heads e h) d = record {
    requests = omega (arith, d.requests, e);
    clients = omega (arith, d.clients, h);
    all_sent = elim d.all_sent [
      | inl t ↦ inl t
      | inr (inl none_back) ↦ inr (inl none_back)
      | inr (inr sent) ↦ absurd (omega (arith, sent, e))
    ];
  }
  Turn-IsDivided c _ (answers _ waits e) d = record {
    requests = omega (arith, d.requests, e);
    clients = omega (arith, d.clients, e);
    all_sent = d.all_sent;
  }
  Turn-IsDivided c _ (ends _ heads h e) d = record {
    requests = d.requests;
    clients = omega (arith, d.clients, h);
    all_sent = inr (inr e);
  }
  Turn-IsDivided c _ (times_out _ heads h t) d = record {
    requests = d.requests;
    clients = omega (arith, d.clients, h);
    all_sent = inl t;
  }

  Turns-IsDivided :
      (c c' : ClosedLoop)
      → Turns limited c c'
      → IsDivided limited concurrency num_requests c
      → IsDivided limited concurrency num_requests c'
  Turns-IsDivided c _ (stays _) d = d
  Turns-IsDivided c _ (goes _ mid c' before last) d =
      Turn-IsDivided mid c' last (Turns-IsDivided c mid before d)

-- Without a time limit and with a client, any run of the closed loop has at most three turns for
-- each request and one for each client, and when all clients have returned there are as many
-- results as requests were asked for.
pub closed_loop-sends_all :
    (concurrency num_requests : ℕ) (c : ClosedLoop)
    → 0 < concurrency
    → (turns : Turns false (gathered concurrency num_requests) c)
    → (turn_count turns ≤ 3 * num_requests + concurrency)
      × (c.returned ≡ concurrency → c.results ≡ num_requests)
closed_loop-sends_all concurrency num_requests c some_client turns =
    let start = gathered concurrency num_requests in
    let d =
      Turns-IsDivided false concurrency num_requests start c turns
        (record { requests = omega arith; clients = omega arith; all_sent = inr (inl refl) }) in
    (
      omega (arith, Turns-left false start c turns),
      λ back. elim d.all_sent [
        | inl t ↦ absurd (ground arith)
        | inr (inl none_back) ↦ absurd (omega (arith, none_back, back, some_client))
        | inr (inr sent) ↦ omega (arith, d.requests, d.clients, back, sent)
      ],
    )
