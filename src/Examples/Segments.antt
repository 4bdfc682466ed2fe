-- ===== src/Examples/Segments.antt =====
-- A piecewise iteration of four tokens in a bucket of six, over a model of two layers whose numbers
-- are small.
use llm_serving_engine.Base.{
  ℕ, ◌+◌, ◌*◌, ◌≡◌, refl, true, false, ◌⊎◌, if◌then◌else◌, Option, none, some, List, [], ◌∷◌, All,
  ◌==◌, arith,
}
use llm_serving_engine.Sequence.{prefill_token_ids}
use llm_serving_engine.Paging.{
  Resolved, FlatRows, PagingRow, flat_rows, entry_token_ids, last_token, paging_rows, rows_of,
  paging_row, slots_from, slot,
}
use llm_serving_engine.Decoder.{Weights, KvPools, Kernel}
use llm_serving_engine.Decoder.Pools.{Agree}
use llm_serving_engine.Graphs.Segments.{Device, segment}
use llm_serving_engine.Graphs.Padding.{IsFed}
use llm_serving_engine.Graphs.Capture.{descending, capture}
use llm_serving_engine.Graphs.Startup.{capture-Agree}
use llm_serving_engine.Graphs.Piecewise.{ReplaysAs}
use llm_serving_engine.Graphs.Served.{replay_paged-ReplaysAs}
use llm_serving_engine.Decoder.Served.{HeadRow, HeadShape, paged_kernel}
use llm_serving_engine.Allocator.Block.{ceil_div}
use llm_serving_engine.Decoder.Planned.{IsOwned}
use llm_serving_engine.Kernels.Flash.{float16}
use llm_serving_engine.Paging.Emit.{no_eos, plan_tables}
use llm_serving_engine.Examples.Attention.{flat, powers, some_type}
use llm_serving_engine.Examples.{first, second}

abbrev small_model : Weights ℕ ℕ ℕ ℕ ℕ ℕ
small_model = record {
  n_layers = 2;
  embed = λ t. t;
  rotary_emb = λ x p. (p, p + 1);
  input_layernorm = λ l x. x + l;
  post_attention_layernorm = λ l x. x;
  q_proj = λ l x. x;
  k_proj = λ l x. x * 2;
  v_proj = λ l x. x * 3;
  apply_rotary_pos_emb = λ q k (c, s). (q + c, k + s);
  o_proj = λ l a. a;
  mlp = λ l x. x + l;
  add_rows = ◌+◌;
  norm = λ x. x;
  lm_head = λ x. x;
  sample_tokens = λ logits params. logits;
}

-- Each row gets the value in the first slot of the first entry.
abbrev first_value : (ℕ → ℕ → ℕ) → List PagingRow → ℕ
first_value pool [] = 0
first_value pool (r ∷ rows) = elim r.block_row [ [] ↦ 0 | b ∷ bs ↦ pool b 0 ]

abbrev small_kernel : Kernel ℕ ℕ ℕ
small_kernel k v paging q i = q i + first_value v paging

abbrev two_spans : Resolved
two_spans =
    (record { seq_id = 0; n_tokens = 1; is_prefill_chunk = false }, first)
    ∷ (record { seq_id = 1; n_tokens = 3; is_prefill_chunk = true }, second)
    ∷ []

abbrev flat_of_spans : FlatRows
flat_of_spans = record {
  token_ids = 15 ∷ 21 ∷ 22 ∷ 23 ∷ [];
  positions = 4 ∷ 0 ∷ 1 ∷ 2 ∷ [];
  offsets = (0, 1) ∷ (1, 4) ∷ [];
}

abbrev paging_of_spans : List PagingRow
paging_of_spans =
    record {
      block_row = 0 ∷ [];
      context_len = 4;
      query_offset = 3;
      q_start = 0;
      q_len = 1;
      dest = (0, 3) ∷ [];
    }
    ∷ record {
      block_row = 1 ∷ [];
      context_len = 3;
      query_offset = 0;
      q_start = 1;
      q_len = 3;
      dest = (1, 0) ∷ (1, 1) ∷ (1, 2) ∷ [];
    }
    ∷ []

abbrev empty_pools : KvPools ℕ ℕ
empty_pools = record { k_pool = λ l b x. 0; v_pool = λ l b x. 0 }

abbrev blank_device : Device ℕ ℕ ℕ ℕ ℕ
blank_device = record {
  buffers = record {
    input_ids = λ i. 0;
    position_ids = λ i. 0;
    dest_block_id = λ i. 0;
    dest_within = λ i. 0;
    cos = λ i. 0;
    sin = λ i. 0;
    residual = λ i. 0;
    q = λ i. 0;
    attn = λ i. 0;
    hidden = λ i. 0;
  };
  pools = empty_pools;
}

spans-IsFed : All IsFed two_spans
unfolding entry_token_ids last_token prefill_token_ids
spans-IsFed =
    ((15 ∷ [], refl, refl, omega arith), ((21 ∷ 22 ∷ 23 ∷ [], refl, refl, omega arith), tt))

flattens : flat_rows 0 two_spans ≡ some flat_of_spans
unfolding flat_rows entry_token_ids last_token
flattens = refl

pages :
    paging_rows 4 (first.block_table ∷ second.block_table ∷ []) ((0, 1) ∷ (1, 4) ∷ [])
    ≡ some paging_of_spans
unfolding paging_rows rows_of paging_row slots_from slot
pages = refl

abbrev one_fails : ℕ → Option ℕ
one_fails bucket = if bucket == 2 then some 1 else none

-- The second bucket runs out of memory in its second warm-up run.
capture-Agree_example :
    Agree 8
      (capture small_model small_kernel
        (segment small_model small_kernel)
        (λ b x y. true)
        4
        8
        one_fails
        (2 ∷ 6 ∷ [])
        blank_device).1.pools
      empty_pools
    × (((capture small_model small_kernel
            (segment small_model small_kernel)
            (λ b x y. true)
            4
            8
            one_fails
            (2 ∷ 6 ∷ [])
            blank_device).0
          ≡ [])
        ⊎ ((capture small_model small_kernel
              (segment small_model small_kernel)
              (λ b x y. true)
              4
              8
              one_fails
              (2 ∷ 6 ∷ [])
              blank_device).0
            ≡ descending (2 ∷ 6 ∷ [])))
capture-Agree_example =
    capture-Agree small_model small_kernel 8 (segment small_model small_kernel)
      (record { replays = λ bucket s st. refl }) (λ b x y. true) 4 empty_pools one_fails
      (2 ∷ 6 ∷ []) blank_device
      (record { k_agree = λ l b x off. refl; v_agree = λ l b x off. refl })

-- The same model with one head of one number, and the paged kernel.
abbrev one_head : HeadShape
one_head = record { heads = 1; kv_heads = 1; head_dim = 1; dtype = float16 }

abbrev head_model : Weights ℕ ℕ (HeadRow ℕ) (HeadRow ℕ) (HeadRow ℕ) ℕ
head_model = record {
  n_layers = 2;
  embed = λ t. t;
  rotary_emb = λ x p. (p, p + 1);
  input_layernorm = λ l x. x + l;
  post_attention_layernorm = λ l x. x;
  q_proj = λ l x h d. x;
  k_proj = λ l x h d. x * 2;
  v_proj = λ l x h d. x * 3;
  apply_rotary_pos_emb = λ q k (c, s). (λ h d. q h d + c, λ h d. k h d + s);
  o_proj = λ l a. a 0 0;
  mlp = λ l x. x + l;
  add_rows = ◌+◌;
  norm = λ x. x;
  lm_head = λ x. x;
  sample_tokens = λ logits params. logits;
}

abbrev head_pools : KvPools (HeadRow ℕ) (HeadRow ℕ)
head_pools = record { k_pool = λ l b x h d. 0; v_pool = λ l b x h d. 0 }

abbrev head_device : Device ℕ ℕ (HeadRow ℕ) (HeadRow ℕ) (HeadRow ℕ)
head_device = record {
  buffers = record {
    input_ids = λ i. 0;
    position_ids = λ i. 0;
    dest_block_id = λ i. 0;
    dest_within = λ i. 0;
    cos = λ i. 0;
    sin = λ i. 0;
    residual = λ i. 0;
    q = λ i h d. 0;
    attn = λ i h d. 0;
    hidden = λ i. 0;
  };
  pools = head_pools;
}

spans-IsOwned : All (IsOwned 4 8) (plan_tables two_spans)
unfolding ceil_div
spans-IsOwned = (
  record { some_token = omega arith; covered = refl; apart = (λ e. omega (arith, e), tt) },
  (record { some_token = omega arith; covered = refl; apart = (λ e. omega (arith, e), tt) }, tt),
)

replay_paged-ReplaysAs_example :
    ReplaysAs head_model
      (paged_kernel flat powers 0 one_head 4)
      no_eos
      4
      8
      6
      (segment head_model (paged_kernel flat powers 0 one_head 4))
      two_spans
      head_device
      head_pools
replay_paged-ReplaysAs_example =
    replay_paged-ReplaysAs flat powers 0 one_head head_model no_eos 4 8 6
      (segment head_model (paged_kernel flat powers 0 one_head 4)) two_spans flat_of_spans
      paging_of_spans head_device head_pools some_type (λ q k v. refl)
      (record { replays = λ bucket s st. refl }) (omega arith) (omega arith) spans-IsFed flattens
      pages (omega arith) spans-IsOwned
      (record { k_agree = λ l b x off. refl; v_agree = λ l b x off. refl })
