-- ===== src/Decoder.antt =====
-- The tensor side of a paged forward pass, src/llm_serving_engine/model/model_runner.py: `decoder_hidden`
-- and the parts of `paged_attention`. A tensor over the tokens is a function of the token's row. What
-- torch, transformers and the weights compute of one row is a parameter, and so is the kernel,
-- which Decoder/Served gives.
pub mod Pools
pub mod Served
pub mod Local
pub mod Planned
use llm_serving_engine.Base.{
  ◌>>=◌, ℕ, zero, suc, ◌+◌, Bool, ◌&&◌, Option, none, some, List, [], ◌∷◌, ◌++◌, length, map,
  get_or, ◌==◌, if◌then◌else◌,
}
use llm_serving_engine.Sampling.{SamplingParams}
use llm_serving_engine.Sequence.{Sequence, BatchEntry, BlockTable}
use llm_serving_engine.Scheduler.Results.{TokenResult}
use llm_serving_engine.Paging.{Resolved, FlatRows, flat_rows, PagingRow, paging_rows}
use llm_serving_engine.Paging.Emit.{Eos, plan_tables, dests, is_rectangular, emit_owed}

-- Of one row: X is a hidden state, C a row of a rotary table, Q, K and V all heads of a query, key
-- and value, L the logits.
pub record Weights (X C Q K V L : Type 0) : Type 0 where
  pub n_layers : ℕ
  pub embed : ℕ → X
  pub rotary_emb : X → ℕ → C × C
  pub input_layernorm : ℕ → X → X
  pub post_attention_layernorm : ℕ → X → X
  pub q_proj : ℕ → X → Q
  pub k_proj : ℕ → X → K
  pub v_proj : ℕ → X → V
  pub apply_rotary_pos_emb : Q → K → C × C → Q × K
  pub o_proj : ℕ → Q → X
  pub mlp : ℕ → X → X
  pub add_rows : X → X → X
  pub norm : X → X
  pub lm_head : X → L
  pub sample_tokens : List L → List SamplingParams → List ℕ

-- By layer, block and place in the block.
pub record KvPools (K V : Type 0) : Type 0 where
  pub k_pool : ℕ → ℕ → ℕ → K
  pub v_pool : ℕ → ℕ → ℕ → V

-- `paged_attention_forward` on the pools of a layer, for the rows of q.
abbrev pub Kernel : (Q K V : Type 0) → Type 0
Kernel Q K V = (ℕ → ℕ → K) → (ℕ → ℕ → V) → List PagingRow → (ℕ → Q) → ℕ → Q

module _ {A : Type 0} where
  abbrev pub put_slot : (ℕ → ℕ → A) → ℕ × ℕ → A → ℕ → ℕ → A
  put_slot pool (block, within) a b w = if b == block && w == within then a else pool b w

  -- `pool[dest_block_id, dest_within] = a` for the first `n` rows; of two for one slot the later one.
  unfoldable pub put_rows : (dest : ℕ → ℕ × ℕ) (a : ℕ → A) → ℕ → (ℕ → ℕ → A) → ℕ → ℕ → A
  put_rows dest a zero pool = pool
  put_rows dest a (suc n) pool = put_slot (put_rows dest a n pool) (dest n) (a n)

  abbrev pub put_layer : (ℕ → ℕ → ℕ → A) → ℕ → (ℕ → ℕ → A) → ℕ → ℕ → ℕ → A
  put_layer pools layer pool l = if l == layer then pool else pools l

module _ {X C Q K V L : Type 0} (w : Weights X C Q K V L) where
  abbrev pub project_qkv : ℕ → X → C × C → Q × K × V
  project_qkv layer normed position =
      let (q, k) =
        w.apply_rotary_pos_emb (w.q_proj layer normed) (w.k_proj layer normed) position in
      (q, k, w.v_proj layer normed)

  abbrev pub q_of : ℕ → X → C × C → Q
  q_of layer normed position = let (q, k, v) = project_qkv layer normed position in q

  abbrev pub k_of : ℕ → X → C × C → K
  k_of layer normed position = let (q, k, v) = project_qkv layer normed position in k

  abbrev pub v_of : ℕ → X → C × C → V
  v_of layer normed position = let (q, k, v) = project_qkv layer normed position in v

  -- `write_kv_and_project_q` on `n` rows: the pools after it; its q is `q_of` of each row.
  unfoldable pub write_kv :
      ℕ → (ℕ → X) → (ℕ → C × C) → (layer : ℕ) → (ℕ → ℕ × ℕ) → KvPools K V → KvPools K V
  unfolding put_rows
  write_kv n normed positions layer dest pools = record {
    k_pool =
        put_layer pools.k_pool layer
          (put_rows dest (λ i. k_of layer (normed i) (positions i)) n (pools.k_pool layer));
    v_pool =
        put_layer pools.v_pool layer
          (put_rows dest (λ i. v_of layer (normed i) (positions i)) n (pools.v_pool layer));
  }

  module _ (kernel : Kernel Q K V) where
    abbrev pub attend_paged : (ℕ → Q) → (layer : ℕ) → List PagingRow → KvPools K V → ℕ → Q
    attend_paged q layer paging pools = kernel (pools.k_pool layer) (pools.v_pool layer) paging q

    abbrev pub attention_output : (layer : ℕ) → Q → X
    attention_output layer attn = w.o_proj layer attn

    abbrev pub after_mlp : (layer : ℕ) → X → X
    after_mlp layer hidden =
        w.add_rows hidden (w.mlp layer (w.post_attention_layernorm layer hidden))

    -- The layer after its attention: both sums.
    abbrev pub after_attention : (layer : ℕ) → X → Q → X
    after_attention layer residual attn =
        after_mlp layer (w.add_rows residual (attention_output layer attn))

    module _ (n : ℕ) (paging : List PagingRow) (dest : ℕ → ℕ × ℕ) (positions : ℕ → C × C) where
      unfoldable pub paged_attention : (ℕ → X) → ℕ → KvPools K V → (ℕ → X) × KvPools K V
      unfolding write_kv
      paged_attention normed layer pools =
          let q = λ (i : ℕ). q_of layer (normed i) (positions i) in
          let pools' = write_kv n normed positions layer dest pools in
          let attn = attend_paged q layer paging pools' in
          (λ i. attention_output layer (attn i), pools')

      -- One round of the loop of `decoder_hidden`, with `paged_attention` as its `attend`.
      unfoldable pub layer_step : ℕ → (ℕ → X) × KvPools K V → (ℕ → X) × KvPools K V
      unfolding paged_attention
      layer_step layer (hidden, pools) =
          let normed = λ (i : ℕ). w.input_layernorm layer (hidden i) in
          let (attended, pools') = paged_attention normed layer pools in
          (λ i. after_mlp layer (w.add_rows (hidden i) (attended i)), pools')

      unfoldable pub layers_from : (count layer : ℕ) → (ℕ → X) × KvPools K V → (ℕ → X) × KvPools K V
      unfolding layer_step
      layers_from zero layer st = st
      layers_from (suc count) layer st = layers_from count (suc layer) (layer_step layer st)

    unfoldable pub decoder_hidden :
        ℕ
        → (input_ids position_ids : ℕ → ℕ) → List PagingRow
        → (ℕ → ℕ × ℕ)
        → KvPools K V
        → (ℕ → X) × KvPools K V
    unfolding layers_from
    decoder_hidden n input_ids position_ids paging dest pools =
        let hidden = λ (i : ℕ). w.embed (input_ids i) in
        let positions = λ (i : ℕ). w.rotary_emb (hidden i) (position_ids i) in
        let (last, pools') = layers_from n paging dest positions w.n_layers 0 (hidden, pools) in
        (λ i. w.norm (last i), pools')

    -- `emit_owed` on the rows of the final hidden states.
    abbrev pub sample_rows : (ℕ → X) → List ℕ → List SamplingParams → List ℕ
    sample_rows hidden rows params = w.sample_tokens (map (λ r. w.lm_head (hidden r)) rows) params

    -- `forward_fused` on the paged pool, of a plan whose sequences are found.
    unfoldable pub forward_paged :
        Eos → (block_size : ℕ) → Resolved → KvPools K V → Option (List TokenResult × KvPools K V)
    unfolding flat_rows paging_rows decoder_hidden emit_owed
    forward_paged eos block_size plan pools = flat_rows 0 plan >>= λ rows.
        paging_rows block_size (plan_tables plan) rows.offsets >>= λ paging.
        if is_rectangular rows paging
        then (let (hidden, pools') =
              decoder_hidden (length rows.token_ids) (λ i. get_or rows.token_ids i 0)
                (λ i. get_or rows.positions i 0) paging (λ i. get_or (dests paging) i (0, 0))
                pools in
            emit_owed eos (sample_rows hidden) plan rows.offsets >>= λ results.
            some (results, pools'))
        else none
