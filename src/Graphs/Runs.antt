-- ===== src/Graphs/Runs.antt =====
-- `_run` of src/llm_serving_engine/model/piecewise_graph.py: on replayed segments, and against `decoder_hidden`.
use llm_serving_engine.Base.{
  ℕ, zero, suc, ◌-◌, ◌≤◌, ◌<◌, ◌≡◌, refl, ap, ◌∙◌, subst, true, false, List, arith,
}
use llm_serving_engine.Paging.{PagingRow}
use llm_serving_engine.Decoder.{Weights, KvPools, Kernel, layers_from, decoder_hidden}
use llm_serving_engine.Decoder.Pools.{Same, same_of, Agree}
use llm_serving_engine.Graphs.Segments.{
  Device, dest_of, embedded, rotated, with_tables, segment, attend_into, run_layers, run,
}
use llm_serving_engine.Graphs.Entered.{
  copied-Same, IsLocal, Placed, IsDone, enter_layer-Entered, run_layers-IsDone,
}

module _ {X C Q K V L : Type 0} (w : Weights X C Q K V L) (kernel : Kernel Q K V) where
  abbrev pub eager_segment : (bucket segment : ℕ) → Device X C Q K V → Device X C Q K V
  eager_segment = segment w kernel

  module _ (replayed : (bucket segment : ℕ) → Device X C Q K V → Device X C Q K V) where
    -- A captured segment does when it is replayed what it did when it was captured.
    pub record IsCaptured : Type 0 where
      pub replays :
          (bucket s : ℕ) (st : Device X C Q K V)
          → replayed bucket s st ≡ segment w kernel bucket s st

    run_layers-eager :
        IsCaptured
        → (bucket : ℕ) (paging : List PagingRow) (count layer : ℕ) (st : Device X C Q K V)
        → run_layers w kernel replayed true bucket paging count layer st
          ≡ run_layers w kernel eager_segment false bucket paging count layer st
    unfolding run_layers
    run_layers-eager h bucket paging zero layer st = refl
    run_layers-eager h bucket paging (suc count) layer st =
        let next = attend_into w kernel bucket layer paging st in
        ap (run_layers w kernel replayed true bucket paging count (suc layer))
          (h.replays bucket (suc layer) next)
        ∙ run_layers-eager h bucket paging count (suc layer)
            (segment w kernel bucket (suc layer) next)

    pub run-eager :
        IsCaptured
        → (bucket : ℕ) (paging : List PagingRow) (st : Device X C Q K V)
        → run w kernel replayed true bucket paging st
          ≡ run w kernel eager_segment false bucket paging st
    unfolding run
    run-eager h bucket paging st =
        ap (run_layers w kernel replayed true bucket paging w.n_layers 0) (h.replays bucket 0 st)
        ∙ run_layers-eager h bucket paging w.n_layers 0 (segment w kernel bucket 0 st)

  module _ (n bucket scratch : ℕ) (paging : List PagingRow) (ids position_ids : ℕ → ℕ)
      (dest : ℕ → ℕ × ℕ) where
    -- The rows that an iteration starts from.
    pub record Fed (st : Device X C Q K V) : Type 0 where
      pub tokens : Same n st.buffers.input_ids ids
      pub places : Same n st.buffers.position_ids position_ids
      pub rows : Same n (dest_of w kernel st) dest
      pub pads : (i : ℕ) → n ≤ i → i < bucket → st.buffers.dest_block_id i ≡ scratch

    pub run-Same :
        (st : Device X C Q K V) (pools : KvPools K V)
        → 0 < w.n_layers
        → n ≤ bucket
        → IsLocal w kernel n scratch paging
        → Fed st
        → Agree scratch st.pools pools
        → Same n
            (run w kernel eager_segment false bucket paging st).buffers.hidden
            (decoder_hidden w kernel n ids position_ids paging dest pools).0
          × Agree scratch
              (run w kernel eager_segment false bucket paging st).pools
              (decoder_hidden w kernel n ids position_ids paging dest pools).1
    unfolding run segment decoder_hidden
    run-Same st pools some_layer le local f agree =
        let hidden = λ (i : ℕ). w.embed (ids i) in
        let positions = λ (i : ℕ). w.rotary_emb (hidden i) (position_ids i) in
        let embeds = λ (i : ℕ) (lt : i < n). ap w.embed (f.tokens i lt) in
        let rotates =
          same_of n w.rotary_emb (embedded w kernel st) hidden st.buffers.position_ids position_ids
            embeds f.places in
        let placed : Placed w kernel n bucket scratch paging dest positions le local
            (with_tables w kernel bucket st) =
          record {
            tables = λ i lt.
                same_of n (λ c s. (c, s)) _ (λ i. (rotated w kernel st i).0) _
                  (λ i. (rotated w kernel st i).1)
                  (copied-Same n bucket (λ i. (rotated w kernel st i).0) st.buffers.cos le)
                  (copied-Same n bucket (λ i. (rotated w kernel st i).1) st.buffers.sin le) i lt
                ∙ rotates i lt;
            rows = f.rows;
            pads = f.pads;
          } in
        let count = w.n_layers - 1 in
        let all : suc count ≡ w.n_layers = omega (arith, some_layer) in
        subst
          (λ m.
            IsDone w kernel n bucket scratch paging dest positions le local
              (layers_from w kernel n paging dest positions m 0 (hidden, pools))
              (run_layers w kernel eager_segment false bucket paging m 0
                (segment w kernel bucket 0 st)))
          all
          (run_layers-IsDone w kernel n bucket scratch paging dest positions le local count 0 hidden
            pools (segment w kernel bucket 0 st) (omega (arith, some_layer))
            (enter_layer-Entered w kernel n bucket scratch paging dest positions le local 0
              (embedded w kernel st) hidden pools (with_tables w kernel bucket st) placed embeds
              agree))
