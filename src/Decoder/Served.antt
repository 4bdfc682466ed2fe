-- ===== src/Decoder/Served.antt =====
-- `attend_paged` of model/model_runner.py on the model of the paged kernel, and `to_device` of
-- model/paged_batch.py. A row of q, of a pool or of the output is a function of the head and of the
-- place in the head. `unset` stands for what `torch.empty_like` holds where the kernel stores nothing,
-- and for a failed assertion or a NaN.
use llm_serving_engine.Base.{
  ℕ, suc, ◌+◌, ◌*◌, ◌-◌, ◌/◌, ◌%◌, max, true, ◌&&◌, ltb, leb, Option, none, some, List, [], ◌∷◌,
  length, get_or, if◌then◌else◌,
}
use llm_serving_engine.Paging.{PagingRow}
use llm_serving_engine.Decoder.{Kernel}
use llm_serving_engine.Kernels.Numbers.{Numbers}
use llm_serving_engine.Kernels.Flash.{Triton, DType}
use llm_serving_engine.Kernels.Paged.{Rows, PagedPool, Entries, paged_attention_forward}

abbrev pub HeadRow : Type 0 → Type 0
HeadRow R = ℕ → ℕ → R

pub record HeadShape : Type 0 where
  pub heads : ℕ
  pub kv_heads : ℕ
  pub head_dim : ℕ
  pub dtype : DType

module _ {R : Type 0} (s : HeadShape) where
  -- q as (H, total_tokens, D), a transpose of the projection's rows.
  abbrev pub q_tensor : (ℕ → HeadRow R) → Rows R
  q_tensor q = record {
    memory = λ a. q (a / s.head_dim / s.heads) (a / s.head_dim % s.heads) (a % s.head_dim);
    heads = s.heads;
    head_dim = s.head_dim;
    stride_h = s.head_dim;
    stride_m = s.heads * s.head_dim;
    stride_d = 1;
    dtype = s.dtype;
    is_cuda = true;
  }

  -- A layer's pool as (num_blocks, block_size, H_KV, D).
  abbrev pub pool_tensor : (block_size : ℕ) → (ℕ → ℕ → HeadRow R) → PagedPool R
  pool_tensor block_size pool = record {
    memory = λ a.
        let slot_head = a / s.head_dim in
        let slot = slot_head / s.kv_heads in
        pool (slot / block_size) (slot % block_size) (slot_head % s.kv_heads) (a % s.head_dim);
    heads = s.kv_heads;
    stride_b = block_size * s.kv_heads * s.head_dim;
    stride_s = s.kv_heads * s.head_dim;
    stride_h = s.head_dim;
    stride_d = 1;
    dtype = s.dtype;
    is_cuda = true;
  }

abbrev pub no_row : PagingRow
no_row = record {
  block_row = [];
  context_len = 0;
  query_offset = 0;
  q_start = 0;
  q_len = 0;
  dest = [];
}

abbrev pub widest_row : List PagingRow → ℕ
widest_row paging = length (get_or paging 0 no_row).block_row

-- `to_device`: the columns as tensors, the block rows one after the other.
abbrev pub entries_of : List PagingRow → Entries
entries_of paging = record {
  count = length paging;
  block_table = λ a.
      get_or (get_or paging (a / widest_row paging) no_row).block_row (a % widest_row paging) 0;
  stride_row = widest_row paging;
  context_len = λ entry. (get_or paging entry no_row).context_len;
  query_offset = λ entry. (get_or paging entry no_row).query_offset;
  q_start = λ entry. (get_or paging entry no_row).q_start;
  q_len = λ entry. (get_or paging entry no_row).q_len;
}

abbrev pub max_q_len : List PagingRow → ℕ
max_q_len [] = 0
max_q_len (r ∷ rows) = max r.q_len (max_q_len rows)

-- The entry whose rows have row `i` of the output.
abbrev pub owner : ℕ → List PagingRow → Option ℕ
owner i [] = none
owner i (r ∷ rows) =
    if leb r.q_start i && ltb i (r.q_start + r.q_len)
    then some 0
    else elim (owner i rows) [ none ↦ none | some entry ↦ some (suc entry) ]

module _ {R : Type 0} (num : Numbers R) (triton : Triton R) (unset : R) where
  abbrev pub or_unset : Option R → R
  or_unset none = unset
  or_unset (some r) = r

  -- Row `i` of the output, from what is stored for the entries.
  abbrev pub row_from :
      HeadShape → Option (ℕ → ℕ → ℕ → ℕ → Option R) → List PagingRow → Option ℕ → ℕ → HeadRow R
  row_from s (some out) paging (some entry) i h d =
      if ltb h s.heads && ltb d s.head_dim
      then or_unset (out entry h (i - (get_or paging entry no_row).q_start) d)
      else unset
  row_from s _ _ _ i h d = unset

  unfoldable pub paged_kernel :
      HeadShape → (block_size : ℕ) → Kernel (HeadRow R) (HeadRow R) (HeadRow R)
  unfolding paged_attention_forward
  paged_kernel s block_size k_pool v_pool paging q i =
      row_from s
        (paged_attention_forward num triton (q_tensor s q) (pool_tensor s block_size k_pool)
          (pool_tensor s block_size v_pool) (entries_of paging) block_size (max_q_len paging))
        paging (owner i paging) i
