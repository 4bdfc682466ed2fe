-- ===== src/Engine/Forward.antt =====
-- The results of `forward_fused` of model/model_runner.py as answers to the scheduler thread.
use llm_serving_engine.Base.{
  ℕ, suc, ◌>>=◌, ◌+◌, ◌-◌, ◌≤◌, ◌<◌, length-append, true, ◌≡◌, ◌≢◌, refl, ap, ◌∙◌, inl, inr,
  Bool-cases, some, List, [], ◌∷◌, ◌++◌, map, length, length-map, length-range, range, replicate,
  All, total, arith,
}
use llm_serving_engine.Sampling.{SamplingParams}
use llm_serving_engine.Sequence.{Sequence, BatchEntry}
use llm_serving_engine.Allocator.Cover.{IsCovered}
use llm_serving_engine.Scheduler.Results.{TokenResult, find}
use llm_serving_engine.Scheduler.Returns.{Reports}
use llm_serving_engine.Scheduler.Folding.{find-seq_id}
use llm_serving_engine.Engine.Lists.{by, entry_by, is, is_self, Within, find-weighs}
use llm_serving_engine.Paging.{
  Resolved, FlatRows, PagingRow, resolve, entry_token_ids, owes_token, flat_rows, start_pos,
  paging_row, rows_of, paging_rows, max_blocks,
}
use llm_serving_engine.Paging.Slots.{slots_from-total}
use llm_serving_engine.Paging.Emit.{
  Eos, plan_tables, dests, is_rectangular, paging_of, owed_rows, is_last, results_of, row_of,
  params_of, emit_tokens, emit_any, emit_owed, forward_fused,
}

-- An entry feeds as many tokens as it plans, and its table counts them and has just the blocks that
-- its tokens need.
pub record CanForward (block_size : ℕ) (p : BatchEntry × Sequence) : Type 0 where
  pub ids : List ℕ
  pub feeds : entry_token_ids p.0 p.1 ≡ some ids
  pub count : length ids ≡ p.0.n_tokens
  pub covered : IsCovered block_size p.1.block_table
  pub counted : p.0.n_tokens ≤ p.1.block_table.num_tokens

-- `sample` returns a token for each of the parameters.
pub record IsSampler (sample : List ℕ → List SamplingParams → List ℕ) : Type 0 where
  pub one_each :
      (rows : List ℕ) (params : List SamplingParams) → length (sample rows params) ≡ length params

abbrev entry_weight : (ℕ → ℕ) → BatchEntry × Sequence → ℕ
entry_weight w (e, s) = w e.seq_id

abbrev owed_weight : (ℕ → ℕ) → Sequence × ℕ → ℕ
owed_weight w (s, row) = w s.seq_id

abbrev result_weight : (ℕ → ℕ) → TokenResult → ℕ
result_weight w r = w r.seq_id

module _ (running : List Sequence) where
  abbrev IsResolved : BatchEntry × Sequence → Type 0
  IsResolved (e, s) = find e.seq_id running ≡ some s

  abbrev IsOwedBy : Sequence × ℕ → Type 0
  IsOwedBy (s, row) = find s.seq_id running ≡ some s

  resolve-total :
      (es : List BatchEntry)
      → Within es running
      → (plan : Resolved) × (resolve es running ≡ some plan)
        × All IsResolved plan
        × ((w : ℕ → ℕ) → total (entry_weight w) plan ≡ total (entry_by w) es)
  unfolding resolve
  resolve-total [] h = ([], refl, tt, λ w. refl)
  resolve-total (e ∷ es) h =
      let (s, at) =
        find-weighs e.seq_id running (omega (arith, h (is e.seq_id), is_self e.seq_id)) in
      let (plan, returns, all, same) = resolve-total es (λ w. omega (arith, h w)) in
      ((e, s) ∷ plan, rw (at, returns) refl, (at, all), λ w. omega (arith, same w))

  -- The spans of a plan have paging rows, with a slot for each token.
  IsPaged : (block_size widest : ℕ) → Resolved → FlatRows → Type 0
  IsPaged block_size widest plan rows =
      (paging : List PagingRow) × (rows_of block_size widest (plan_tables plan) rows.offsets
        ≡ some paging)
      × (length (dests paging) ≡ length rows.token_ids)

  flat_rows-total :
      (block_size at : ℕ) (plan : Resolved)
      → 0 < block_size
      → All (CanForward block_size) plan
      → (rows : FlatRows) × (flat_rows at plan ≡ some rows)
        × (length rows.offsets ≡ length plan)
        × (length rows.positions ≡ length rows.token_ids)
        × ((widest : ℕ) → IsPaged block_size widest plan rows)
  unfolding flat_rows rows_of paging_row IsPaged
  flat_rows-total block_size at [] positive h = (
    record { token_ids = []; positions = []; offsets = [] },
    refl,
    refl,
    refl,
    λ widest. ([], refl, refl),
  )
  flat_rows-total block_size at ((e, s) ∷ plan) positive (h, hs) =
      let (rows, returns, size, alike, paged) =
        flat_rows-total block_size (at + length h.ids) plan positive hs in
      let t = s.block_table in
      let n = (at + e.n_tokens) - at in
      let cached = t.num_tokens - n in
      let (dest, slots, count) =
        slots_from-total block_size positive t cached (t.num_tokens - cached) h.covered
          (omega arith) in
      (
        record {
          token_ids = h.ids ++ rows.token_ids;
          positions = range (start_pos e s) e.n_tokens ++ rows.positions;
          offsets = (at, at + e.n_tokens) ∷ rows.offsets;
        },
        rw (h.feeds, returns, ◌>>=◌) refl,
        ap suc size,
        omega (
          arith,
          alike,
          h.count,
          length-range (start_pos e s) e.n_tokens,
          length-append (range (start_pos e s) e.n_tokens) rows.positions,
          length-append h.ids rows.token_ids,
        ),
        λ widest.
            let (paging, pages, many) = paged widest in
            (
              record {
                block_row = t.physical_blocks ++ replicate (widest - length t.physical_blocks) 0;
                context_len = t.num_tokens;
                query_offset = cached;
                q_start = at;
                q_len = n;
                dest = dest;
              }
                  ∷ paging,
              rw (slots, ◌>>=◌, pages) refl,
              omega (
                arith,
                many,
                count,
                h.count,
                h.counted,
                length-append dest (dests paging),
                length-append h.ids rows.token_ids,
              ),
            ),
      )

  -- A plan that has an entry has a widest table.
  paging_of-filled :
      (block_size : ℕ) (plan : Resolved) (offsets : List (ℕ × ℕ))
      → 0 < total (entry_weight (λ id. 1)) plan
      → paging_of block_size plan offsets
        ≡ rows_of block_size (max_blocks (plan_tables plan)) (plan_tables plan) offsets
  unfolding paging_of paging_rows
  paging_of-filled block_size [] offsets h = absurd (omega (arith, h))
  paging_of-filled block_size (p ∷ plan) offsets h = refl

  owed_rows-total :
      (plan : Resolved) (offsets : List (ℕ × ℕ))
      → length offsets ≡ length plan
      → All IsResolved plan
      → (owed : List (Sequence × ℕ)) × (owed_rows plan offsets ≡ some owed)
        × All IsOwedBy owed
        × ((w : ℕ → ℕ) → total (owed_weight w) owed ≤ total (entry_weight w) plan)
  unfolding owed_rows
  owed_rows-total [] [] size _ = ([], refl, tt, λ w. omega arith)
  owed_rows-total [] (o ∷ offsets) size _ = absurd (omega (arith, size))
  owed_rows-total (p ∷ plan) [] size _ = absurd (omega (arith, size))
  owed_rows-total ((e, s) ∷ plan) ((start, end) ∷ offsets) size (at, all) =
      let (owed, returns, found, light) = owed_rows-total plan offsets (omega (arith, size)) all in
      let id_of : s.seq_id ≡ e.seq_id = find-seq_id e.seq_id running s at in
      elim (Bool-cases (owes_token e s)) [
        | inl owes ↦ (
          (s, end - 1) ∷ owed,
          rw (returns, owes) refl,
          (ap (λ id. find id running) id_of ∙ at, found),
          λ w. omega (arith, light w, ap w id_of),
        )
        | inr owes ↦ (owed, rw (returns, owes) refl, found, λ w. omega (arith, light w))
      ]

  abbrev IsReported : TokenResult → Type 0
  IsReported r = (s : Sequence) × (find r.seq_id running ≡ some s)

  results_of-total :
      (eos : Eos) (owed : List (Sequence × ℕ)) (tokens : List ℕ)
      → length tokens ≡ length owed
      → All IsOwedBy owed
      → (rs : List TokenResult) × (results_of eos owed tokens ≡ some rs)
        × All IsReported rs
        × ((w : ℕ → ℕ) → total (result_weight w) rs ≡ total (owed_weight w) owed)
  unfolding results_of
  results_of-total eos [] [] size _ = ([], refl, tt, λ w. refl)
  results_of-total eos [] (t ∷ tokens) size _ = absurd (omega (arith, size))
  results_of-total eos (o ∷ owed) [] size _ = absurd (omega (arith, size))
  results_of-total eos ((s, row) ∷ owed) (t ∷ tokens) size (at, all) =
      let (rs, returns, found, same) = results_of-total eos owed tokens (omega (arith, size)) all in
      (
        record { seq_id = s.seq_id; token = t; finished = is_last eos s t } ∷ rs,
        rw returns refl,
        ((s, at), found),
        λ w. omega (arith, same w),
      )

  -- Results whose ids come once at most are reports.
  no_other :
      (id : ℕ) (rs : List TokenResult)
      → total (result_weight (is id)) rs ≤ 0
      → All (λ (later : TokenResult). later.seq_id ≢ id) rs
  no_other id [] h = tt
  no_other id (r ∷ rs) h = (λ e. ground (arith, h, e), no_other id rs (omega (arith, h)))

  once-Reports :
      (rs : List TokenResult)
      → All IsReported rs
      → ((id : ℕ) → total (result_weight (is id)) rs ≤ 1)
      → Reports rs running
  once-Reports [] _ h = tt
  once-Reports (r ∷ rs) (at, all) h = (
    at,
    no_other r.seq_id rs (omega (arith, h r.seq_id, is_self r.seq_id)),
    once-Reports rs all (λ id. omega (arith, h id)),
  )

  module _ (eos : Eos) (sample : List ℕ → List SamplingParams → List ℕ)
      (law : IsSampler sample) where
    emit_any-total :
        (owed : List (Sequence × ℕ))
        → All IsOwedBy owed
        → (rs : List TokenResult) × (emit_any eos sample owed ≡ some rs)
          × All IsReported rs
          × ((w : ℕ → ℕ) → total (result_weight w) rs ≤ total (owed_weight w) owed)
    unfolding emit_any emit_tokens
    emit_any-total [] h = ([], refl, tt, λ w. omega arith)
    emit_any-total (o ∷ owed) h =
        let rows = map row_of (o ∷ owed) in
        let params = map params_of (o ∷ owed) in
        let (rs, returns, found, same) =
          results_of-total eos (o ∷ owed) (sample rows params)
            (law.one_each rows params ∙ length-map params_of (o ∷ owed)) h in
        (rs, returns, found, λ w. omega (arith, same w))

    forward_of :
        (es : List BatchEntry) (block_size : ℕ) (plan : Resolved) (rows : FlatRows)
        (paging : List PagingRow) (rs : List TokenResult)
        → resolve es running ≡ some plan
        → flat_rows 0 plan ≡ some rows
        → paging_of block_size plan rows.offsets ≡ some paging
        → is_rectangular rows paging ≡ true
        → emit_owed eos sample plan rows.offsets ≡ some rs
        → forward_fused eos sample block_size es running ≡ some rs
    unfolding forward_fused
    forward_of es block_size plan rows paging rs resolves flat pages alike emits =
        rw (resolves, flat, pages, alike) emits

    -- If a plan has an entry, its entries are for running sequences, one for each at most, no two
    -- running sequences have one id, the block size is positive, each entry feeds as many tokens
    -- as it plans, its table counts them and has just the blocks its tokens need, and the sampler
    -- gives a token for each of its parameters, then forward_fused returns results, and they are
    -- reports on running sequences, one for each at most, as apply takes them.
    pub forward_fused-Reports :
        (block_size : ℕ) (e : BatchEntry) (es : List BatchEntry)
        → 0 < block_size
        → Within (e ∷ es) running
        → ((id : ℕ) → total (by (is id)) running ≤ 1)
        → ((plan : Resolved)
            → resolve (e ∷ es) running ≡ some plan
            → All (CanForward block_size) plan)
        → (rs : List TokenResult) × (forward_fused eos sample block_size (e ∷ es) running ≡ some rs)
          × Reports rs running
    unfolding emit_owed IsPaged
    forward_fused-Reports block_size e es positive within distinct can =
        let (plan, resolves, all, same) = resolve-total (e ∷ es) within in
        let (rows, flat, size, alike, paged) =
          flat_rows-total block_size 0 plan positive (can plan resolves) in
        let (owed, owes, owed_all, light) = owed_rows-total plan rows.offsets size all in
        let (rs, emits, found, once) = emit_any-total owed owed_all in
        let (paging, pages, many) = paged (max_blocks (plan_tables plan)) in
        (
          rs,
          forward_of (e ∷ es) block_size plan rows paging rs resolves flat
              (paging_of-filled block_size plan rows.offsets (omega (arith, same (λ id. 1)))
                ∙ pages)
              (ground (arith, alike, many)) (rw owes emits),
          once-Reports rs found (λ id.
              omega
                (arith, once (is id), light (is id), same (is id), within (is id), distinct id)),
        )
