-- ===== src/Scheduler/Returns.antt =====
-- The KeyErrors and ValueErrors of `handle_iteration_results`.
use llm_serving_engine.Base.{
  ℕ, ◌≡◌, ◌≢◌, refl, ◌∙◌, inl, inr, some, List, [], ◌∷◌, All, Bool-cases, arith,
}
use llm_serving_engine.Sequence.{Sequence}
use llm_serving_engine.Allocator.{KvAllocator}
use llm_serving_engine.Scheduler.Folding.{find-seq_id}
use llm_serving_engine.Scheduler.Results.{
  TokenResult, find, remove, update, take_token, Folded, finish, apply_result, fold_results,
}

find-remove : (id j : ℕ) (ss : List Sequence) → id ≢ j → find id (remove j ss) ≡ find id ss
unfolding find remove
find-remove id j [] ne = refl
find-remove id j (s ∷ ss) ne = ground (arith, find-remove id j ss ne)

find-update :
    (id j : ℕ) (f : Sequence → Sequence) (ss : List Sequence)
    → id ≢ j
    → ((s : Sequence) → (f s).seq_id ≡ s.seq_id)
    → find id (update j f ss) ≡ find id ss
unfolding find update
find-update id j f [] ne keeps = refl
find-update id j f (s ∷ ss) ne keeps = ground (arith, keeps s, find-update id j f ss ne keeps)

-- Each result is for a running sequence, and no sequence has two.
abbrev pub Reports : List TokenResult → List Sequence → Type 0
Reports [] running = Unit
Reports (r ∷ rs) running =
    ((s : Sequence) × (find r.seq_id running ≡ some s))
    × All (λ later. later.seq_id ≢ r.seq_id) rs
    × Reports rs running

Reports-other :
    (j : ℕ) (rs : List TokenResult) (running running' : List Sequence)
    → ((id : ℕ) → id ≢ j → find id running' ≡ find id running)
    → All (λ later. later.seq_id ≢ j) rs
    → Reports rs running
    → Reports rs running'
Reports-other j [] running running' same absent h = tt
Reports-other j (r ∷ rs) running running' same (ne, absent) ((s, at), later, h) =
    ((s, same r.seq_id ne ∙ at), later, Reports-other j rs running running' same absent h)

module _ (kv : KvAllocator) where
  finish-other :
      (now : ℕ) (st : Folded kv) (s : Sequence) (j : ℕ)
      → s.seq_id ≡ j
      → (id : ℕ) → id ≢ j
      → find id (finish kv now st s).running ≡ find id st.running
  unfolding finish
  finish-other now st s j e id ne = find-remove id s.seq_id st.running (λ h. ne (h ∙ e))

  -- A result for a running sequence is folded in, and the other running sequences stay.
  apply_result-total :
      (now : ℕ) (st : Folded kv) (r : TokenResult) (s : Sequence)
      → find r.seq_id st.running ≡ some s
      → (st' : Folded kv) × (apply_result kv now st r ≡ some st')
        × ((id : ℕ) → id ≢ r.seq_id → find id st'.running ≡ find id st.running)
  unfolding apply_result
  apply_result-total now st r s at = elim (Bool-cases r.finished) [
    | inl last ↦
        let st' = finish kv now st (take_token now r.token s) in
        let id_of : s.seq_id ≡ r.seq_id = find-seq_id r.seq_id st.running s at in
        (
          st',
          rw (apply_result, at, last) refl,
          finish-other now st (take_token now r.token s) r.seq_id id_of,
        )
    | inr more ↦ (
      record st { running = update r.seq_id (take_token now r.token) st.running },
      rw (apply_result, at, more) refl,
      λ id ne. find-update id r.seq_id (take_token now r.token) st.running ne (λ _. refl),
    )
  ]

  -- If each result is for a running sequence and no two are for one, fold_results returns.
  pub fold_results-total :
      (now : ℕ) (rs : List TokenResult) (st : Folded kv)
      → Reports rs st.running
      → (st' : Folded kv) × (fold_results kv now rs st ≡ some st')
  unfolding fold_results
  fold_results-total now [] st h = (st, refl)
  fold_results-total now (r ∷ rs) st ((s, at), absent, h) =
      let (mid, one, same) = apply_result-total now st r s at in
      let (st', rest) =
        fold_results-total now rs mid
          (Reports-other r.seq_id rs st.running mid.running same absent h) in
      (st', rw (one, fold_results) rest)
