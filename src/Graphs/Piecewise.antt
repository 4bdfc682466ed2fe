-- ===== src/Graphs/Piecewise.antt =====
-- A piecewise iteration against the eager one, `replay` of model/piecewise_graph.py and `forward_fused`.
use llm_serving_engine.Base.{
  ◌>>=◌, ℕ, ◌≤◌, ◌<◌, ◌≡◌, refl, sym, ap, ◌∙◌, subst, true, false, Option, none, some, some_or-eq,
  List, length, map, get_or, All, leb, length-map, arith, Bool-cases, inl, inr,
}
use llm_serving_engine.Scheduler.Results.{TokenResult}
use llm_serving_engine.Paging.{Resolved, FlatRows, flat_rows, PagingRow, paging_rows}
use llm_serving_engine.Paging.Emit.{plan_tables, dests, is_rectangular, Eos, emit_owed}
use llm_serving_engine.Decoder.{
  Weights, KvPools, Kernel, decoder_hidden, sample_rows, forward_paged,
}
use llm_serving_engine.Decoder.Pools.{Same, same_of, Agree}
use llm_serving_engine.Graphs.Segments.{Device, copied, padded, run, with_rows, replay_piecewise}
use llm_serving_engine.Graphs.Entered.{copied-Same, IsLocal}
use llm_serving_engine.Graphs.Padding.{
  padded-Same, padded-behind, get_or-map, IsFed, EndsBy, flat_rows-fed, emit_owed-Same,
}
use llm_serving_engine.Graphs.Runs.{IsCaptured, run-eager, Fed, run-Same}

module _ {X C Q K V L : Type 0} (w : Weights X C Q K V L) (kernel : Kernel Q K V) where
  module _ (bucket scratch : ℕ)
      (replayed : (bucket segment : ℕ) → Device X C Q K V → Device X C Q K V) where
    into :
        {A : Type 0} (xs : List A) (n : ℕ) (d d' : A) (buffer : ℕ → A)
        → length xs ≡ n
        → n ≤ bucket
        → Same n (copied bucket (padded bucket xs d) buffer) (λ i. get_or xs i d')
    into xs n d d' buffer size le i lt =
        copied-Same n bucket (padded bucket xs d) buffer le i lt
        ∙ padded-Same bucket xs d d' i (omega (arith, size, lt))

    with_rows-Fed :
        (token_ids positions : List ℕ) (dest : List (ℕ × ℕ)) (paging : List PagingRow)
        (st : Device X C Q K V)
        → length positions ≡ length token_ids
        → length dest ≡ length token_ids
        → length token_ids ≤ bucket
        → Fed w kernel
            (length token_ids)
            bucket
            scratch
            paging
            (λ i. get_or token_ids i 0)
            (λ i. get_or positions i 0)
            (λ i. get_or dest i (0, 0))
            (with_rows w kernel replayed bucket token_ids positions dest scratch st)
    with_rows-Fed token_ids positions dest paging st size size' le =
        let n = length token_ids in
        let blocks = map (λ (b, x). b) dest in
        let withins = map (λ (b, x). x) dest in
        let n_blocks : length blocks ≡ n = length-map (λ (b, x). b) dest ∙ size' in
        let n_withins : length withins ≡ n = length-map (λ (b, x). x) dest ∙ size' in
        record {
          tokens = into token_ids n 0 0 st.buffers.input_ids refl le;
          places = into positions n 0 0 st.buffers.position_ids size le;
          rows =
              same_of n (λ b x. (b, x)) _ (λ i. (get_or dest i (0, 0)).0) _
                (λ i. (get_or dest i (0, 0)).1)
                (λ i lt.
                  into blocks n scratch 0 st.buffers.dest_block_id n_blocks le i lt
                  ∙ get_or-map (λ (b, x). b) dest i (0, 0))
                (λ i lt.
                  into withins n 0 0 st.buffers.dest_within n_withins le i lt
                  ∙ get_or-map (λ (b, x). x) dest i (0, 0));
          pads = λ i ge lt.
              copied-Same bucket bucket (padded bucket blocks scratch) st.buffers.dest_block_id
                (omega arith) i lt
              ∙ padded-behind bucket blocks scratch i (omega (arith, n_blocks, ge));
        }

  module _ (eos : Eos) (block_size scratch bucket : ℕ)
      (replayed : (bucket segment : ℕ) → Device X C Q K V → Device X C Q K V) where
    -- Both return the same results, or neither does, and the pools are then equal but for the scratch
    -- block.
    abbrev pub ReplaysAs : Resolved → Device X C Q K V → KvPools K V → Type 0
    ReplaysAs plan st pools =
        (results : Option (List TokenResult)) × (pools' : KvPools K V) × (st' : Device X C Q K V)
        × (forward_paged w kernel eos block_size plan pools ≡ (results >>= λ r. some (r, pools')))
        × (replay_piecewise w kernel replayed eos block_size scratch plan bucket st
            ≡ (results >>= λ r. some (r, st')))
        × Agree scratch st'.pools pools'

    module _ (plan : Resolved) (rows : FlatRows) (paging : List PagingRow) (st : Device X C Q K V)
        (pools : KvPools K V) where
      ragged-ReplaysAs :
          flat_rows 0 plan ≡ some rows
          → paging_rows block_size (plan_tables plan) rows.offsets ≡ some paging
          → is_rectangular rows paging ≡ false
          → ReplaysAs plan st pools
      unfolding forward_paged replay_piecewise
      ragged-ReplaysAs flat paged ragged = (
        none,
        pools,
        record st { pools = pools },
        rw (flat, paged, ragged, ◌>>=◌) refl,
        rw (flat, paged, ragged, ◌>>=◌) refl,
        record { k_agree = λ l b x off. refl; v_agree = λ l b x off. refl },
      )

      tensors-ReplaysAs :
          IsCaptured w kernel replayed
          → 0 < w.n_layers
          → All (EndsBy (length rows.token_ids)) rows.offsets
          → flat_rows 0 plan ≡ some rows
          → paging_rows block_size (plan_tables plan) rows.offsets ≡ some paging
          → length rows.token_ids ≤ bucket
          → IsLocal w kernel (length rows.token_ids) scratch paging
          → Agree scratch st.pools pools
          → is_rectangular rows paging ≡ true
          → ReplaysAs plan st pools
      unfolding forward_paged replay_piecewise
      tensors-ReplaysAs captured some_layer spans flat paged le local agree tensors =
          let n = length rows.token_ids in
          let start =
            with_rows w kernel replayed bucket rows.token_ids rows.positions (dests paging) scratch
              st in
          let st' = run w kernel replayed true bucket paging start in
          let decoded =
            decoder_hidden w kernel n (λ i. get_or rows.token_ids i 0)
              (λ i. get_or rows.positions i 0) paging (λ i. get_or (dests paging) i (0, 0)) pools in
          let fits : leb n bucket ≡ true = ground (arith, le) in
          let size : length rows.positions ≡ n = ground (arith, tensors) in
          let size' : length (dests paging) ≡ n = ground (arith, tensors) in
          let at_start =
            with_rows-Fed bucket scratch replayed rows.token_ids rows.positions (dests paging)
              paging st size size' le in
          let (same, agree') =
            run-Same w kernel n bucket scratch paging _ _ _ start pools some_layer le local at_start
              agree in
          let eager = run-eager w kernel replayed captured bucket paging start in
          let emits =
            emit_owed-Same n w kernel eos decoded.0 st'.buffers.hidden plan rows.offsets
              (λ i lt. sym (ap (λ d. d.buffers.hidden i) eager ∙ same i lt)) spans in
          (
            emit_owed eos (sample_rows w kernel decoded.0) plan rows.offsets,
            decoded.1,
            st',
            rw (flat, paged, tensors, ◌>>=◌) refl,
            rw (flat, paged, tensors, fits, ◌>>=◌) (ap (λ o. o >>= λ r. some (r, st')) (sym emits)),
            subst (λ d. Agree scratch d.pools decoded.1) (sym eager) agree',
          )

      -- For any model with a layer and any kernel that for the rows of a plan reads no other rows
      -- and nothing of the scratch block: if captured segments do on replay what they did at
      -- capture, each entry feeds as many tokens as it plans and some, flat_rows and paging_rows
      -- return, the tokens are no more than the bucket, and the pools agree but for the scratch block, then the piecewise replay and
      -- the eager forward pass both return the same results, or neither returns, and the pools
      -- after them agree but for the scratch block.
      pub replay_piecewise-ReplaysAs :
          IsCaptured w kernel replayed
          → 0 < w.n_layers
          → All IsFed plan
          → flat_rows 0 plan ≡ some rows
          → paging_rows block_size (plan_tables plan) rows.offsets ≡ some paging
          → length rows.token_ids ≤ bucket
          → IsLocal w kernel (length rows.token_ids) scratch paging
          → Agree scratch st.pools pools
          → ReplaysAs plan st pools
      replay_piecewise-ReplaysAs captured some_layer fed flat paged le local agree =
          let (rows', flat', ends) = flat_rows-fed 0 (length rows.token_ids) plan fed in
          let same : rows' ≡ rows = some_or-eq rows' rows (sym flat' ∙ flat) in
          let size = ap (λ r. length r.token_ids) same in
          let spans =
            subst (λ r. All (EndsBy (length rows.token_ids)) r.offsets) same
              (ends (omega (arith, size))) in
          elim (Bool-cases (is_rectangular rows paging)) [
            | inl tensors ↦
                tensors-ReplaysAs captured some_layer spans flat paged le local agree tensors
            | inr ragged ↦ ragged-ReplaysAs flat paged ragged
          ]
