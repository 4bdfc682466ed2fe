-- ===== src/Scheduler/Folding.antt =====
-- Folding an iteration's tokens back in, and aborting, keep the books too.
use llm_serving_engine.Base.{
  ℕ, ◌+◌, ◌≡◌, refl, ap, inl, inr, none, some, List, [], ◌∷◌, total, total-append, Option-cases,
  arith,
}
use llm_serving_engine.Sequence.{Sequence}
use llm_serving_engine.Allocator.{KvAllocator, Ledger}
use llm_serving_engine.Scheduler.Results.{
  TokenResult, find, remove, update, take_token, mark_done, Folded, finish, apply_result,
  fold_results, current, release,
}

pub find-seq_id : (id : ℕ) (ss : List Sequence) (s : Sequence) → find id ss ≡ some s → s.seq_id ≡ id
unfolding find
find-seq_id id [] s e = absurd (ground arith)
find-seq_id id (x ∷ ss) s e = ground (arith, find-seq_id id ss s)

pub remove_absent : (id : ℕ) (ss : List Sequence) → find id ss ≡ none → remove id ss ≡ ss
unfolding find remove
remove_absent id [] e = refl
remove_absent id (x ∷ ss) e = ground (arith, remove_absent id ss)

module _ (f : Sequence → ℕ) where
  pub total-remove :
      (id : ℕ) (ss : List Sequence) (s : Sequence)
      → find id ss ≡ some s
      → total f (remove id ss) + f s ≡ total f ss
  unfolding find remove
  total-remove id [] s e = absurd (ground arith)
  total-remove id (x ∷ ss) s e = ground (arith, total-remove id ss s)

  pub total-update :
      (id : ℕ) (g : Sequence → Sequence) (ss : List Sequence)
      → ((s : Sequence) → f (g s) ≡ f s)
      → total f (update id g ss) ≡ total f ss
  unfolding update
  total-update id g [] h = refl
  total-update id g (x ∷ ss) h = ground (arith, total-update id g ss h, h x)

module _ (kv : KvAllocator) (l : Ledger kv) where
  abbrev tabled : Sequence → ℕ
  tabled s = l.held s.block_table

  -- What is spare and what the running sequences hold; a finished sequence holds nothing.
  abbrev pub live_holdings : Folded kv → ℕ
  live_holdings st = l.spare st.pool + total tabled st.running

  finish-books :
      (now id : ℕ) (token : ℕ) (st : Folded kv) (s : Sequence)
      → find id st.running ≡ some s
      → (let next = finish kv now st (take_token now token s) in
          (live_holdings next + l.used st.pool ≡ live_holdings st + l.used next.pool)
          × (total tabled next.done ≡ total tabled st.done))
  unfolding finish mark_done take_token
  finish-books now id token st s e =
      let table = (kv.free st.pool s.block_table).1 in
      (
        omega (
          arith,
          total-remove tabled id st.running s e,
          l.free_books st.pool s.block_table,
          ap (λ k. total tabled (remove k st.running)) (find-seq_id id st.running s e),
        ),
        omega (
          arith,
          total-append tabled st.done (mark_done now table (take_token now token s) ∷ []),
          l.free_held st.pool s.block_table,
        ),
      )

  apply_result-books :
      (now : ℕ) (st : Folded kv) (r : TokenResult) (st' : Folded kv)
      → apply_result kv now st r ≡ some st'
      → (live_holdings st' + l.used st.pool ≡ live_holdings st + l.used st'.pool)
        × (total tabled st'.done ≡ total tabled st.done)
  unfolding apply_result take_token
  apply_result-books now st r st' e = elim (Option-cases (find r.seq_id st.running)) [
    | inr (s, at) ↦
        let same = total-update tabled r.seq_id (take_token now r.token) st.running (λ _. refl) in
        let (books, done) = finish-books now r.seq_id r.token st s at in
        (ground (arith, books, same), ground (arith, done))
    | inl gone ↦
        let same = total-update tabled r.seq_id (take_token now r.token) st.done (λ _. refl) in
        (ground arith, ground (arith, same))
  ]

  -- For every ledger of every allocator, if fold_results returns, what is spare and what the
  -- running sequences hold change by what the used amount of the pool does, and the finished
  -- sequences hold in all what they held before: one that finishes gives back all it held.
  pub fold_results-books :
      (now : ℕ) (rs : List TokenResult) (st : Folded kv) (st' : Folded kv)
      → fold_results kv now rs st ≡ some st'
      → (live_holdings st' + l.used st.pool ≡ live_holdings st + l.used st'.pool)
        × (total tabled st'.done ≡ total tabled st.done)
  unfolding fold_results
  fold_results-books now [] st st' e = (ground arith, ground arith)
  fold_results-books now (r ∷ rs) st st' e = elim (Option-cases (apply_result kv now st r)) [
    | inl raised ↦ absurd (ground (arith, raised))
    | inr (mid, one) ↦
        let (books, done) = apply_result-books now st r mid one in
        let (rest, rest_done) = fold_results-books now rs mid st' (rw (one, fold_results) at e) in
        (omega (arith, books, rest), omega (arith, done, rest_done))
  ]

  -- What the aborted sequences hold that are not in `running`, such as rejected ones.
  abbrev pub detached_holdings : List Sequence → List Sequence → ℕ
  detached_holdings [] running = 0
  detached_holdings (s ∷ ss) running =
      (elim (find s.seq_id running) [ none ↦ tabled s | some r ↦ 0 ])
      + detached_holdings ss (remove s.seq_id running)

  -- For every ledger of every allocator, release gives back to the pool what the aborted sequences
  -- held, whether they were in running or not.
  release-books :
      (ss running : List Sequence) (pool : kv.Pool)
      → let (running', pool') = release kv ss running pool in
        l.spare pool' + total tabled running' + l.used pool
        ≡ l.spare pool + total tabled running + detached_holdings ss running + l.used pool'
  unfolding release
  release-books [] running pool = omega arith
  release-books (s ∷ ss) running pool =
      let pool1 = (kv.free pool (current running s).block_table).0 in
      let rest = release-books ss (remove s.seq_id running) pool1 in
      let books = l.free_books pool (current running s).block_table in
      elim (Option-cases (find s.seq_id running)) [
        | inl out ↦
            ground (arith, rest, books, ap (total tabled) (remove_absent s.seq_id running out))
        | inr (r, at) ↦ ground (arith, rest, books, total-remove tabled s.seq_id running r at)
      ]
