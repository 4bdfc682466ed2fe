-- ===== src/Graphs/Served.antt =====
-- The piecewise replay with the model of the paged kernel, model/piecewise_graph.py and
-- kernels/flash_attention.py.
use llm_serving_engine.Base.{ℕ, ◌≤◌, ◌<◌, ◌≡◌, ◌≢◌, true, some, List, length, All}
use llm_serving_engine.Paging.{Resolved, FlatRows, flat_rows, PagingRow, paging_rows}
use llm_serving_engine.Paging.Emit.{Eos, plan_tables}
use llm_serving_engine.Decoder.{Weights, KvPools}
use llm_serving_engine.Decoder.Pools.{Agree}
use llm_serving_engine.Decoder.Served.{HeadRow, HeadShape, q_tensor, pool_tensor, paged_kernel}
use llm_serving_engine.Decoder.Local.{paged_kernel-local}
use llm_serving_engine.Decoder.Planned.{IsOwned, paging_rows-IsServed}
use llm_serving_engine.Kernels.Numbers.{Numbers}
use llm_serving_engine.Kernels.Flash.{Triton, other_dtype}
use llm_serving_engine.Kernels.Paged.{paged_checks}
use llm_serving_engine.Graphs.Segments.{Device}
use llm_serving_engine.Graphs.Padding.{IsFed}
use llm_serving_engine.Graphs.Runs.{IsCaptured}
use llm_serving_engine.Graphs.Piecewise.{ReplaysAs, replay_piecewise-ReplaysAs}

module _ {X C L R : Type 0} (num : Numbers R) (triton : Triton R) (unset : R) (s : HeadShape)
    (w : Weights X C (HeadRow R) (HeadRow R) (HeadRow R) L) (eos : Eos)
    (block_size scratch bucket : ℕ)
    (replayed : (bucket segment : ℕ)
      → Device X C (HeadRow R) (HeadRow R) (HeadRow R)
      → Device X C (HeadRow R) (HeadRow R) (HeadRow R)) where
  -- For any model with a layer, whose attention is the model of paged_attention_forward on tensors
  -- of a supported dtype that pass its assertions, with a positive block size: if captured
  -- segments do on replay what they did at capture, each entry feeds as many tokens as it plans
  -- and some, flat_rows and paging_rows return, the tokens are no more than the bucket, each
  -- planned table has tokens and just the blocks they need, none of them the scratch block, and
  -- the pools agree but for the scratch block, then the piecewise replay and the eager forward
  -- pass both return the same results, or neither returns, and the pools after them agree but for
  -- the scratch block.
  pub replay_paged-ReplaysAs :
      (plan : Resolved) (rows : FlatRows) (paging : List PagingRow)
      (st : Device X C (HeadRow R) (HeadRow R) (HeadRow R))
      (pools : KvPools (HeadRow R) (HeadRow R))
      → s.dtype ≢ other_dtype
      → ((q : ℕ → HeadRow R) (k v : ℕ → ℕ → HeadRow R)
          → paged_checks (q_tensor s q) (pool_tensor s block_size k) (pool_tensor s block_size v)
            ≡ true)
      → IsCaptured w (paged_kernel num triton unset s block_size) replayed
      → 0 < w.n_layers
      → 0 < block_size
      → All IsFed plan
      → flat_rows 0 plan ≡ some rows
      → paging_rows block_size (plan_tables plan) rows.offsets ≡ some paging
      → length rows.token_ids ≤ bucket
      → All (IsOwned block_size scratch) (plan_tables plan)
      → Agree scratch st.pools pools
      → ReplaysAs w
          (paged_kernel num triton unset s block_size)
          eos
          block_size
          scratch
          bucket
          replayed
          plan
          st
          pools
  replay_paged-ReplaysAs plan rows paging st pools supported checks captured some_layer some_slot
        fed flat paged le owned agree =
      replay_piecewise-ReplaysAs w (paged_kernel num triton unset s block_size) eos block_size
        scratch bucket replayed plan rows paging st pools captured some_layer fed flat paged le
        (λ layer pools' pools'' q q' agree' same.
          paged_kernel-local num triton unset s block_size scratch paging supported some_slot checks
            (paging_rows-IsServed block_size scratch some_slot (plan_tables plan) rows.offsets
              paging owned paged)
            (pools'.k_pool layer) (pools''.k_pool layer) (pools'.v_pool layer)
            (pools''.v_pool layer) q q' (length rows.token_ids) (agree'.k_agree layer)
            (agree'.v_agree layer) same)
        agree
