-- ===== src/Graphs/Entered.antt =====
-- The buffers of a piecewise iteration against the loop of `decoder_hidden`, layer by layer.
use llm_serving_engine.Base.{
  ℕ, zero, suc, ◌+◌, ◌≤◌, ◌<◌, ◌≡◌, refl, ap, ◌∙◌, true, false, List, ltb, arith,
}
use llm_serving_engine.Paging.{PagingRow}
use llm_serving_engine.Decoder.{
  Weights, KvPools, Kernel, q_of, write_kv, attend_paged, after_attention, layer_step,
  paged_attention, layers_from,
}
use llm_serving_engine.Decoder.Pools.{Same, same_of, Agree, write_kv-Agree}
use llm_serving_engine.Graphs.Segments.{
  Device, copied, positions_of, dest_of, enter_layer, layer_output, segment, attend_into,
  run_layers,
}

pub copied-Same :
    {A : Type 0} (n bucket : ℕ) (rows buffer : ℕ → A)
    → n ≤ bucket
    → Same n (copied bucket rows buffer) rows
copied-Same n bucket rows buffer le i lt =
    let inside : ltb i bucket ≡ true = ground (arith, le, lt) in rw inside refl

module _ {X C Q K V L : Type 0} (w : Weights X C Q K V L) (kernel : Kernel Q K V) where
  -- For the first `n` rows the kernel reads no other row, and nothing of the scratch block.
  abbrev pub IsLocal : (n scratch : ℕ) → List PagingRow → Type 0
  IsLocal n scratch paging =
      (layer : ℕ) (pools pools' : KvPools K V) (q q' : ℕ → Q)
      → Agree scratch pools pools'
      → Same n q q'
      → Same n (kernel (pools.k_pool layer) (pools.v_pool layer) paging q)
          (kernel (pools'.k_pool layer) (pools'.v_pool layer) paging q')

  module _ (n bucket scratch : ℕ) (paging : List PagingRow) (dest : ℕ → ℕ × ℕ)
      (positions : ℕ → C × C) (le : n ≤ bucket) (local : IsLocal n scratch paging) where
    -- What the segments only read: the tables and where the rows go.
    pub record Placed (st : Device X C Q K V) : Type 0 where
      pub tables : Same n (positions_of w kernel st) positions
      pub rows : Same n (dest_of w kernel st) dest
      pub pads : (i : ℕ) → n ≤ i → i < bucket → st.buffers.dest_block_id i ≡ scratch

    -- After the segment that enters `layer`, of the loop that is about to do that layer.
    pub record Entered (layer : ℕ) (hidden : ℕ → X) (pools : KvPools K V) (st : Device X C Q K V)
        : Type 0 where
      pub placed : Placed st
      pub residual : Same n st.buffers.residual hidden
      pub q :
          Same n st.buffers.q (λ i. q_of w layer (w.input_layernorm layer (hidden i)) (positions i))
      pub written :
          Agree scratch st.pools
            (write_kv w n (λ i. w.input_layernorm layer (hidden i)) positions layer dest pools)

    pub enter_layer-Entered :
        (layer : ℕ) (hidden hidden' : ℕ → X) (pools : KvPools K V) (st : Device X C Q K V)
        → Placed st
        → Same n hidden hidden'
        → Agree scratch st.pools pools
        → Entered layer hidden' pools (enter_layer w kernel bucket hidden layer st)
    unfolding enter_layer
    enter_layer-Entered layer hidden hidden' pools st p same h =
        let normed = λ (i : ℕ) (lt : i < n). ap (w.input_layernorm layer) (same i lt) in
        record {
          placed = record { tables = p.tables; rows = p.rows; pads = p.pads };
          residual = λ i lt. copied-Same n bucket hidden st.buffers.residual le i lt ∙ same i lt;
          q = λ i lt.
              copied-Same n bucket
                (λ i.
                  q_of w layer (w.input_layernorm layer (hidden i)) (positions_of w kernel st i))
                st.buffers.q le i lt
              ∙ same_of n (q_of w layer) (λ i. w.input_layernorm layer (hidden i))
                  (λ i. w.input_layernorm layer (hidden' i)) (positions_of w kernel st) positions
                  normed p.tables i lt;
          written =
              write_kv-Agree scratch w n bucket layer _ _ (positions_of w kernel st) positions
                (dest_of w kernel st) dest st.pools pools le p.pads normed p.tables p.rows h;
        }

    abbrev after : ℕ → (ℕ → X) → KvPools K V → (ℕ → X) × KvPools K V
    after layer hidden pools = layer_step w kernel n paging dest positions layer (hidden, pools)

    layer_output-Same :
        (layer : ℕ) (hidden : ℕ → X) (pools : KvPools K V) (st : Device X C Q K V)
        → Entered layer hidden pools st
        → Same n
            (layer_output w kernel layer (attend_into w kernel bucket layer paging st))
            (after layer hidden pools).0
    unfolding layer_step paged_attention
    layer_output-Same layer hidden pools st e =
        same_of n (after_attention w kernel layer) _ _ _ _ e.residual (λ i lt.
          copied-Same n bucket (attend_paged w kernel st.buffers.q layer paging st.pools)
            st.buffers.attn le i lt
          ∙ local layer _ _ _ _ e.written e.q i lt)

    abbrev pub IsDone : (ℕ → X) × KvPools K V → Device X C Q K V → Type 0
    IsDone (hidden, pools) st =
        Same n st.buffers.hidden (λ i. w.norm (hidden i)) × Agree scratch st.pools pools

    -- The last layer, and the one before another.
    last-IsDone :
        (layer : ℕ) (hidden : ℕ → X) (pools : KvPools K V) (st : Device X C Q K V)
        → suc layer ≡ w.n_layers
        → Entered layer hidden pools st
        → IsDone
            (after layer hidden pools)
            (segment w kernel bucket (suc layer) (attend_into w kernel bucket layer paging st))
    unfolding segment layer_step paged_attention
    last-IsDone layer hidden pools st last e =
        let out : ltb (suc layer) w.n_layers ≡ false = ground (arith, last) in
        let same = layer_output-Same layer hidden pools st e in
        rw out (
          λ i lt.
              copied-Same n bucket
                (λ i.
                  w.norm
                    (layer_output w kernel layer (attend_into w kernel bucket layer paging st) i))
                st.buffers.hidden le i lt
              ∙ ap w.norm (same i lt),
          e.written,
        )

    next-Entered :
        (layer : ℕ) (hidden : ℕ → X) (pools : KvPools K V) (st : Device X C Q K V)
        → suc layer < w.n_layers
        → Entered layer hidden pools st
        → Entered
            (suc layer)
            (after layer hidden pools).0
            (after layer hidden pools).1
            (segment w kernel bucket (suc layer) (attend_into w kernel bucket layer paging st))
    unfolding segment layer_step paged_attention
    next-Entered layer hidden pools st more e =
        let inside : ltb (suc layer) w.n_layers ≡ true = ground (arith, more) in
        let st' = attend_into w kernel bucket layer paging st in
        rw inside (
          enter_layer-Entered (suc layer) (layer_output w kernel layer st')
            (after layer hidden pools).0 (after layer hidden pools).1 st'
            (record { tables = e.placed.tables; rows = e.placed.rows; pads = e.placed.pads })
            (layer_output-Same layer hidden pools st e) e.written)

    abbrev no_replay : (bucket segment : ℕ) → Device X C Q K V → Device X C Q K V
    no_replay = segment w kernel

    -- The rest of the loop, of which at least one layer is left.
    pub run_layers-IsDone :
        (count layer : ℕ) (hidden : ℕ → X) (pools : KvPools K V) (st : Device X C Q K V)
        → layer + suc count ≡ w.n_layers
        → Entered layer hidden pools st
        → IsDone
            (layers_from w kernel n paging dest positions (suc count) layer (hidden, pools))
            (run_layers w kernel no_replay false bucket paging (suc count) layer st)
    unfolding run_layers layers_from
    run_layers-IsDone zero layer hidden pools st left e =
        last-IsDone layer hidden pools st (omega (arith, left)) e
    run_layers-IsDone (suc count) layer hidden pools st left e =
        run_layers-IsDone count (suc layer) (after layer hidden pools).0
          (after layer hidden pools).1
          (segment w kernel bucket (suc layer) (attend_into w kernel bucket layer paging st))
          (omega (arith, left)) (next-Entered layer hidden pools st (omega (arith, left)) e)
