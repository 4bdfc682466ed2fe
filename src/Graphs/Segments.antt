-- ===== src/Graphs/Segments.antt =====
-- The segments of src/llm_serving_engine/model/piecewise_graph.py and the iterations that run them.
-- `replayed` is what the replay of a captured segment does to the device's memory.
use llm_serving_engine.Base.{
  ◌>>=◌, ℕ, zero, suc, ◌-◌, ◌%◌, Bool, true, false, ◌&&◌, Option, none, some, List, [], ◌∷◌, ◌++◌,
  length, map, get_or, replicate, range, ltb, leb, if◌then◌else◌,
}
use llm_serving_engine.Allocator.Block.{ceil_div}
use llm_serving_engine.Scheduler.Results.{TokenResult}
use llm_serving_engine.Paging.{Resolved, flat_rows, PagingRow, paging_rows}
use llm_serving_engine.Paging.Emit.{plan_tables, dests, is_rectangular, Eos, emit_owed}
use llm_serving_engine.Decoder.{
  Weights, KvPools, Kernel, q_of, write_kv, attend_paged, after_attention, sample_rows,
}

-- `index_rows` is the four fields that its rows hold.
pub record SegmentBuffers (X C Q : Type 0) : Type 0 where
  pub input_ids : ℕ → ℕ
  pub position_ids : ℕ → ℕ
  pub dest_block_id : ℕ → ℕ
  pub dest_within : ℕ → ℕ
  pub cos : ℕ → C
  pub sin : ℕ → C
  pub residual : ℕ → X
  pub q : ℕ → Q
  pub attn : ℕ → Q
  pub hidden : ℕ → X

pub record Device (X C Q K V : Type 0) : Type 0 where
  pub buffers : SegmentBuffers X C Q
  pub pools : KvPools K V

-- `buffer[:, :bucket].copy_(rows)`
abbrev pub copied : {A : Type 0} → ℕ → (ℕ → A) → (ℕ → A) → ℕ → A
copied bucket rows buffer i = if ltb i bucket then rows i else buffer i

abbrev pub padded : {A : Type 0} → ℕ → List A → A → ℕ → A
padded bucket xs d i = get_or (xs ++ replicate (bucket - length xs) d) i d

module _ {X C Q K V L : Type 0} (w : Weights X C Q K V L) (kernel : Kernel Q K V) where
  abbrev pub positions_of : Device X C Q K V → ℕ → C × C
  positions_of st i = (st.buffers.cos i, st.buffers.sin i)

  abbrev pub dest_of : Device X C Q K V → ℕ → ℕ × ℕ
  dest_of st i = (st.buffers.dest_block_id i, st.buffers.dest_within i)

  -- `_enter_layer`
  unfoldable pub enter_layer :
      (bucket : ℕ) → (ℕ → X) → (layer : ℕ) → Device X C Q K V → Device X C Q K V
  unfolding write_kv
  enter_layer bucket hidden layer st =
      let normed = λ (i : ℕ). w.input_layernorm layer (hidden i) in
      let positions = positions_of st in
      record {
        buffers = record st.buffers {
          residual = copied bucket hidden st.buffers.residual;
          q = copied bucket (λ i. q_of w layer (normed i) (positions i)) st.buffers.q;
        };
        pools = write_kv w bucket normed positions layer (dest_of st) st.pools;
      }

  abbrev pub embedded : Device X C Q K V → ℕ → X
  embedded st i = w.embed (st.buffers.input_ids i)

  abbrev pub rotated : Device X C Q K V → ℕ → C × C
  rotated st i = w.rotary_emb (embedded st i) (st.buffers.position_ids i)

  abbrev fst_of : C × C → C
  fst_of (c, s) = c

  abbrev snd_of : C × C → C
  snd_of (c, s) = s

  -- The rotary tables of the iteration's positions.
  abbrev pub with_tables : (bucket : ℕ) → Device X C Q K V → Device X C Q K V
  with_tables bucket st = record st {
    buffers = record st.buffers {
      cos = copied bucket (λ i. fst_of (rotated st i)) st.buffers.cos;
      sin = copied bucket (λ i. snd_of (rotated st i)) st.buffers.sin;
    };
  }

  -- The hidden states behind layer `layer`, from its residual and its attention.
  abbrev pub layer_output : (layer : ℕ) → Device X C Q K V → ℕ → X
  layer_output layer st i =
      after_attention w kernel layer (st.buffers.residual i) (st.buffers.attn i)

  abbrev pub with_hidden : (bucket : ℕ) → (ℕ → X) → Device X C Q K V → Device X C Q K V
  with_hidden bucket hidden st = record st {
    buffers = record st.buffers {
      hidden = copied bucket (λ i. w.norm (hidden i)) st.buffers.hidden;
    };
  }

  -- `_segment`
  unfoldable pub segment : (bucket segment : ℕ) → Device X C Q K V → Device X C Q K V
  unfolding enter_layer
  segment bucket zero st = enter_layer bucket (embedded st) 0 (with_tables bucket st)
  segment bucket (suc layer) st =
      let hidden = layer_output layer st in
      if ltb (suc layer) w.n_layers
      then enter_layer bucket hidden (suc layer) st
      else with_hidden bucket hidden st

  -- The eager attention of a layer, copied into `attn`.
  abbrev pub attend_into : (bucket layer : ℕ) → List PagingRow → Device X C Q K V → Device X C Q K V
  attend_into bucket layer paging st = record st {
    buffers = record st.buffers {
      attn =
          copied bucket (attend_paged w kernel st.buffers.q layer paging st.pools) st.buffers.attn;
    };
  }

  module _ (replayed : (bucket segment : ℕ) → Device X C Q K V → Device X C Q K V) where
    abbrev pub run_segment : Bool → (bucket s : ℕ) → Device X C Q K V → Device X C Q K V
    run_segment replay bucket s st = if replay then replayed bucket s st else segment bucket s st

    -- `for layer_idx in range(len(runner._layers))`
    unfoldable pub run_layers :
        Bool → ℕ → List PagingRow → (count layer : ℕ) → Device X C Q K V → Device X C Q K V
    unfolding segment
    run_layers replay bucket paging zero layer st = st
    run_layers replay bucket paging (suc count) layer st =
        run_layers replay bucket paging count (suc layer)
          (run_segment replay bucket (suc layer) (attend_into bucket layer paging st))

    -- `_run`
    unfoldable pub run : Bool → ℕ → List PagingRow → Device X C Q K V → Device X C Q K V
    unfolding run_layers
    run replay bucket paging st =
        run_layers replay bucket paging w.n_layers 0 (run_segment replay bucket 0 st)

    abbrev pub with_rows :
        (bucket : ℕ)
        → (token_ids positions : List ℕ) → List (ℕ × ℕ)
        → (scratch : ℕ) → Device X C Q K V
        → Device X C Q K V
    with_rows bucket token_ids positions dest scratch st = record st {
      buffers = record st.buffers {
        input_ids = copied bucket (padded bucket token_ids 0) st.buffers.input_ids;
        position_ids = copied bucket (padded bucket positions 0) st.buffers.position_ids;
        dest_block_id =
            copied bucket (padded bucket (map (λ (b, x). b) dest) scratch) st.buffers.dest_block_id;
        dest_within =
            copied bucket (padded bucket (map (λ (b, x). x) dest) 0) st.buffers.dest_within;
      };
    }

    -- `replay`, of a plan whose sequences are found; `none` also where the lists are no tensor.
    unfoldable pub replay_piecewise :
        Eos
        → (block_size scratch : ℕ) → Resolved
        → (bucket : ℕ) → Device X C Q K V
        → Option (List TokenResult × Device X C Q K V)
    unfolding flat_rows paging_rows run emit_owed
    replay_piecewise eos block_size scratch plan bucket st = flat_rows 0 plan >>= λ rows.
        paging_rows block_size (plan_tables plan) rows.offsets >>= λ paging.
        if is_rectangular rows paging && leb (length rows.token_ids) bucket
        then (let st' =
              run true bucket paging
                (with_rows bucket rows.token_ids rows.positions (dests paging) scratch st) in
            emit_owed eos (sample_rows w kernel st'.buffers.hidden) plan rows.offsets >>= λ results.
            some (results, st'))
        else none

    -- `_fill_dummy`: the rows of one entry over the whole bucket, and its `PagedBatch`.
    abbrev pub with_dummy : (block_size scratch bucket : ℕ) → Device X C Q K V → Device X C Q K V
    with_dummy block_size scratch bucket st = record st {
      buffers = record st.buffers {
        input_ids = copied bucket (λ i. 0) st.buffers.input_ids;
        position_ids = copied bucket (λ i. i) st.buffers.position_ids;
        dest_block_id = copied bucket (λ i. scratch) st.buffers.dest_block_id;
        dest_within = copied bucket (λ i. i % block_size) st.buffers.dest_within;
      };
    }

    abbrev pub dummy_paging : (block_size scratch bucket : ℕ) → List PagingRow
    dummy_paging block_size scratch bucket =
        record {
          block_row = replicate (ceil_div bucket block_size) scratch;
          context_len = bucket;
          query_offset = 0;
          q_start = 0;
          q_len = bucket;
          dest = map (λ i. (scratch, i % block_size)) (range 0 bucket);
        }
        ∷ []

    -- `run_eager_dummy`, on buffers that are large enough.
    unfoldable pub run_eager_dummy :
        (block_size scratch n_tokens : ℕ) → Device X C Q K V → Device X C Q K V
    unfolding run ceil_div
    run_eager_dummy block_size scratch n_tokens st =
        run false n_tokens (dummy_paging block_size scratch n_tokens)
          (with_dummy block_size scratch n_tokens st)
