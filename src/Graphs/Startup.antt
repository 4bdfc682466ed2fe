-- ===== src/Graphs/Startup.antt =====
-- What capturing the piecewise graphs leaves on the device.
use llm_serving_engine.Base.{
  ℕ, zero, suc, ◌<◌, ◌≡◌, ◌⊎◌, refl, sym, ap, subst, Bool, true, false, Option, none, some, List,
  [], ◌∷◌, min, ltb, if◌then◌else◌, arith, Bool-cases, inl, inr,
}
use llm_serving_engine.Paging.{PagingRow}
use llm_serving_engine.Decoder.{Weights, KvPools, Kernel}
use llm_serving_engine.Decoder.Pools.{Agree, write_kv-scratch}
use llm_serving_engine.Graphs.Segments.{
  Device, dest_of, enter_layer, embedded, with_tables, layer_output, attend_into, segment,
  run_layers, run,
}
use llm_serving_engine.Graphs.Entered.{copied-Same}
use llm_serving_engine.Graphs.Runs.{IsCaptured}
use llm_serving_engine.Graphs.Capture.{
  dummy_run, dummy_filled, self_check, warm_up, capture_all, unless_out, kept_graphs, descending,
  capture,
}

module _ {X C Q K V L : Type 0} (w : Weights X C Q K V L) (kernel : Kernel Q K V)
    (scratch : ℕ) where
  -- The rows go to the scratch block, and nothing else has been written since.
  record Quiet (bucket : ℕ) (pools : KvPools K V) (st : Device X C Q K V) : Type 0 where
    rows : (i : ℕ) → i < bucket → st.buffers.dest_block_id i ≡ scratch
    unwritten : Agree scratch st.pools pools

  module _ (bucket : ℕ) (pools : KvPools K V) where
    enter_layer-Quiet :
        (layer : ℕ) (hidden : ℕ → X) (st : Device X C Q K V)
        → Quiet bucket pools st
        → Quiet bucket pools (enter_layer w kernel bucket hidden layer st)
    unfolding enter_layer
    enter_layer-Quiet layer hidden st h = record {
      rows = h.rows;
      unwritten =
          write_kv-scratch scratch w bucket layer _ _ (dest_of w kernel st) st.pools pools h.rows
            h.unwritten;
    }

    segment-Quiet :
        (s : ℕ) (st : Device X C Q K V)
        → Quiet bucket pools st
        → Quiet bucket pools (segment w kernel bucket s st)
    unfolding segment
    segment-Quiet zero st h =
        enter_layer-Quiet 0 (embedded w kernel st) (with_tables w kernel bucket st)
          (record { rows = h.rows; unwritten = h.unwritten })
    segment-Quiet (suc layer) st h = elim (Bool-cases (ltb (suc layer) w.n_layers)) [
      | inl more ↦ rw more (enter_layer-Quiet (suc layer) (layer_output w kernel layer st) st h)
      | inr last ↦ rw last (record { rows = h.rows; unwritten = h.unwritten })
    ]

    module _ (replayed : (bucket segment : ℕ) → Device X C Q K V → Device X C Q K V)
        (captured : IsCaptured w kernel replayed) where
      run_segment-Quiet :
          (replay : Bool) (s : ℕ) (st : Device X C Q K V)
          → Quiet bucket pools st
          → Quiet bucket pools
              (if replay then replayed bucket s st else segment w kernel bucket s st)
      run_segment-Quiet true s st h =
          subst (Quiet bucket pools) (sym (captured.replays bucket s st)) (segment-Quiet s st h)
      run_segment-Quiet false s st h = segment-Quiet s st h

      run_layers-Quiet :
          (replay : Bool) (paging : List PagingRow) (count layer : ℕ) (st : Device X C Q K V)
          → Quiet bucket pools st
          → Quiet bucket pools (run_layers w kernel replayed replay bucket paging count layer st)
      unfolding run_layers
      run_layers-Quiet replay paging zero layer st h = h
      run_layers-Quiet replay paging (suc count) layer st h =
          run_layers-Quiet replay paging count (suc layer) _ (
            run_segment-Quiet replay (suc layer) (attend_into w kernel bucket layer paging st)
              (record { rows = h.rows; unwritten = h.unwritten }))

      run-Quiet :
          (replay : Bool) (paging : List PagingRow) (st : Device X C Q K V)
          → Quiet bucket pools st
          → Quiet bucket pools (run w kernel replayed replay bucket paging st)
      unfolding run
      run-Quiet replay paging st h =
          run_layers-Quiet replay paging w.n_layers 0 _ (run_segment-Quiet replay 0 st h)

  module _ (replayed : (bucket segment : ℕ) → Device X C Q K V → Device X C Q K V)
      (captured : IsCaptured w kernel replayed) (allclose : (bucket : ℕ) → (ℕ → X) → (ℕ → X) → Bool)
      (block_size : ℕ) where
    module _ (bucket : ℕ) (pools : KvPools K V) where
      dummy_run-Quiet :
          (replay : Bool) (st : Device X C Q K V)
          → Quiet bucket pools st
          → Quiet bucket pools
              (dummy_run w kernel replayed allclose block_size scratch replay bucket st)
      unfolding dummy_run
      dummy_run-Quiet replay st h = run-Quiet bucket pools replayed captured replay _ st h

      warm_up-Quiet :
          (count : ℕ) (st : Device X C Q K V)
          → Quiet bucket pools st
          → Quiet bucket pools
              (warm_up w kernel replayed allclose block_size scratch count bucket st)
      unfolding warm_up
      warm_up-Quiet zero st h = h
      warm_up-Quiet (suc count) st h = warm_up-Quiet count _ (dummy_run-Quiet false st h)

      dummy_filled-Quiet :
          (st : Device X C Q K V)
          → Agree scratch st.pools pools
          → Quiet bucket pools
              (dummy_filled w kernel replayed allclose block_size scratch bucket st)
      dummy_filled-Quiet st h = record {
        rows = λ i lt.
            copied-Same bucket bucket (λ i. scratch) st.buffers.dest_block_id (omega arith) i lt;
        unwritten = h;
      }

    module _ (pools : KvPools K V) where
      either-Agree :
          {A : Type 0} (b : Bool) (x y : A × Device X C Q K V)
          → Agree scratch x.1.pools pools
          → Agree scratch y.1.pools pools
          → Agree scratch (if b then x else y).1.pools pools
      either-Agree true x y hx hy = hx
      either-Agree false x y hx hy = hy

      self_check-Agree :
          (graphs : List ℕ) (st : Device X C Q K V)
          → Agree scratch st.pools pools
          → Agree scratch
              (self_check w kernel replayed allclose block_size scratch graphs st).1.pools
              pools
      unfolding self_check
      self_check-Agree [] st h = h
      self_check-Agree (bucket ∷ graphs) st h =
          let eager = dummy_run-Quiet bucket pools false _ (dummy_filled-Quiet bucket pools st h) in
          let again = dummy_run-Quiet bucket pools true _ eager in
          either-Agree _ _ _ (self_check-Agree graphs _ again.unwritten) again.unwritten

      -- If the loop ends, it has captured all buckets.
      abbrev IsWhole : List ℕ → Bool × List ℕ × Device X C Q K V → Type 0
      IsWhole buckets (ends, graphs, last) =
          Agree scratch last.pools pools × (ends ≡ true → graphs ≡ buckets)

      unless_out-Whole :
          (buckets : List ℕ) (o : Option ℕ) (out : ℕ → Bool × List ℕ × Device X C Q K V)
          (fine : Bool × List ℕ × Device X C Q K V)
          → ((runs : ℕ) → IsWhole buckets (out runs))
          → IsWhole buckets fine
          → IsWhole buckets (unless_out o out fine)
      unless_out-Whole buckets (some runs) out fine h h' = h runs
      unless_out-Whole buckets none out fine h h' = h'

      capture_all-Agree :
          (runs_out : ℕ → Option ℕ) (buckets : List ℕ) (st : Device X C Q K V)
          → Agree scratch st.pools pools
          → IsWhole buckets
              (capture_all w kernel replayed allclose block_size scratch runs_out buckets st)
      unfolding capture_all
      capture_all-Agree runs_out [] st h = (h, λ e. refl)
      capture_all-Agree runs_out (bucket ∷ buckets) st h =
          let start = dummy_filled-Quiet bucket pools st h in
          let (agree, all) =
            capture_all-Agree runs_out buckets _ (warm_up-Quiet bucket pools 3 _ start).unwritten in
          unless_out-Whole (bucket ∷ buckets) (runs_out bucket) _ _
            (λ runs. (
              (warm_up-Quiet bucket pools (min runs 3) _ start).unwritten,
              λ e. absurd (ground (arith, e)),
            ))
            (agree, λ e. ap (◌∷◌ bucket) (all e))

      kept_graphs-Agree :
          (ends agrees : Bool) (graphs sizes : List ℕ) (checked last : Device X C Q K V)
          → Agree scratch checked.pools pools
          → Agree scratch last.pools pools
          → (ends ≡ true → graphs ≡ sizes)
          → (let (keeps, st) = kept_graphs ends agrees graphs checked last in
              Agree scratch st.pools pools × ((keeps ≡ []) ⊎ (keeps ≡ sizes)))
      kept_graphs-Agree true true graphs sizes checked last c l all = (c, inr (all refl))
      kept_graphs-Agree true false graphs sizes checked last c l all = (c, inl refl)
      kept_graphs-Agree false agrees graphs sizes checked last c l all = (l, inl refl)

      -- If captured segments do on replay what they did at capture, then whatever runs out of
      -- memory and whatever the self-check finds, capture leaves pools that agree with given ones
      -- but for the scratch block in such agreement, and keeps either no piecewise graphs or those
      -- of all bucket sizes, in descending order.
      pub capture-Agree :
          (runs_out : ℕ → Option ℕ) (bucket_sizes : List ℕ) (st : Device X C Q K V)
          → Agree scratch st.pools pools
          → (let (graphs, last) =
                capture w kernel replayed allclose block_size scratch runs_out bucket_sizes st in
              Agree scratch last.pools pools × ((graphs ≡ []) ⊎ (graphs ≡ descending bucket_sizes)))
      unfolding capture
      capture-Agree runs_out bucket_sizes st h =
          let (agree, all) = capture_all-Agree runs_out (descending bucket_sizes) st h in
          kept_graphs-Agree
            (capture_all w kernel replayed allclose block_size scratch runs_out
              (descending bucket_sizes) st).0
            _ _ (descending bucket_sizes) _ _ (self_check-Agree _ _ agree) agree all
