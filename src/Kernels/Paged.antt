-- ===== src/Kernels/Paged.antt =====
-- `paged_attention_2` and `paged_attention_forward`.
use llm_serving_engine.Base.{
  ℕ, ◌+◌, ◌*◌, ◌/◌, ◌%◌, min, Bool, not, ◌&&◌, Option, none, some, ◌>>=◌, ltb, leb, ◌==◌,
  if◌then◌else◌,
}
use llm_serving_engine.Kernels.Numbers.{Numbers}
use llm_serving_engine.Kernels.Lanes.{LaneReads, Blocks, scan}
use llm_serving_engine.Kernels.Flash.{Triton, DType, same_dtype, tile_sizes}

-- q, (H, total_tokens, D).
pub record Rows (R : Type 0) : Type 0 where
  pub memory : ℕ → R
  pub heads : ℕ
  pub head_dim : ℕ
  pub stride_h : ℕ
  pub stride_m : ℕ
  pub stride_d : ℕ
  pub dtype : DType
  pub is_cuda : Bool

abbrev pub in_rows : {R : Type 0} → Rows R → (head row d : ℕ) → R
in_rows q head row d = q.memory (head * q.stride_h + row * q.stride_m + d * q.stride_d)

-- A pool, (num_blocks, block_size, H_KV, D).
pub record PagedPool (R : Type 0) : Type 0 where
  pub memory : ℕ → R
  pub heads : ℕ
  pub stride_b : ℕ
  pub stride_s : ℕ
  pub stride_h : ℕ
  pub stride_d : ℕ
  pub dtype : DType
  pub is_cuda : Bool

abbrev pub in_pool : {R : Type 0} → PagedPool R → (block within head d : ℕ) → R
in_pool p block within head d =
    p.memory (block * p.stride_b + within * p.stride_s + head * p.stride_h + d * p.stride_d)

-- One row for each batch entry.
pub record Entries : Type 0 where
  pub count : ℕ
  pub block_table : ℕ → ℕ
  pub stride_row : ℕ
  pub context_len : ℕ → ℕ
  pub query_offset : ℕ → ℕ
  pub q_start : ℕ → ℕ
  pub q_len : ℕ → ℕ

-- The block of position `j` of an entry.
abbrev pub block_id : Entries → (block_size entry j : ℕ) → ℕ
block_id e block_size entry j = e.block_table (entry * e.stride_row + j / block_size)

-- The assertions on the dtypes, the devices and the heads.
abbrev pub paged_checks : {R : Type 0} → Rows R → (k_pool v_pool : PagedPool R) → Bool
paged_checks q k_pool v_pool =
    (q.is_cuda && k_pool.is_cuda && v_pool.is_cuda)
    && (same_dtype q.dtype k_pool.dtype && same_dtype k_pool.dtype v_pool.dtype)
    && (not (k_pool.heads == 0) && q.heads % k_pool.heads == 0)

pub record PagedLaunch (R : Type 0) : Type 0 where
  pub q : Rows R
  pub k_pool : PagedPool R
  pub v_pool : PagedPool R
  pub entries : Entries
  pub block_size : ℕ
  pub blocks : Blocks R
  pub n_groups : ℕ

module _ {R : Type 0} (num : Numbers R) where
  module _ (g : PagedLaunch R) where
    abbrev pub paged_reads : (entry head offs_m : ℕ) → LaneReads R
    paged_reads entry head offs_m =
        let kv_head = head / g.n_groups in
        let row = g.entries.q_start entry + offs_m in
        record {
          query = λ d. in_rows g.q head row d;
          key = λ j d.
              in_pool g.k_pool (block_id g.entries g.block_size entry j) (j % g.block_size) kv_head
                d;
          value = λ j d.
              in_pool g.v_pool (block_id g.entries g.block_size entry j) (j % g.block_size) kv_head
                d;
        }

    abbrev pub paged_visible : (entry offs_m : ℕ) → ℕ → Bool
    paged_visible entry offs_m j = leb j (g.entries.query_offset entry + offs_m)

    abbrev pub paged_end : (entry start_m : ℕ) → ℕ
    paged_end entry start_m =
        min (g.entries.query_offset entry + (start_m + 1) * g.blocks.block_m)
          (g.entries.context_len entry)

    -- What a program stores from row `i` of its tile in lane `d`; one past the entry's rows returns.
    unfoldable pub paged_attention_2 : (start_m entry_head i d : ℕ) → Option R
    unfolding scan
    paged_attention_2 start_m entry_head i d =
        let entry = entry_head / g.q.heads in
        let head = entry_head % g.q.heads in
        let offs_m = start_m * g.blocks.block_m + i in
        let m_mask = ltb offs_m (g.entries.q_len entry) in
        if leb (g.entries.q_len entry) (start_m * g.blocks.block_m)
        then none
        else if m_mask && ltb d g.blocks.head_dim
        then (scan num g.blocks (paged_reads entry head offs_m) m_mask (g.entries.context_len entry)
              (paged_visible entry offs_m) (paged_end entry start_m)
            >>= λ row. some (row d))
        else none

  module _ (triton : Triton R) where
    abbrev pub paged_launch :
        Rows R → (k_pool v_pool : PagedPool R) → Entries → ℕ → ℕ × ℕ → PagedLaunch R
    paged_launch q k_pool v_pool entries block_size (block_m, block_n) = record {
      q = q;
      k_pool = k_pool;
      v_pool = v_pool;
      entries = entries;
      block_size = block_size;
      blocks = record {
        block_m = block_m;
        block_n = block_n;
        block_d = triton.next_power_of_2 q.head_dim;
        head_dim = q.head_dim;
        softmax_scale = triton.inv_sqrt q.head_dim;
      };
      n_groups = q.heads / k_pool.heads;
    }

    -- What is stored for row `m` of an entry, at row `q_start + m` of the output. The grid is
    -- (cdiv(max_q_len, BLOCK_M), entries * H).
    unfoldable pub launch_paged : PagedLaunch R → (max_q_len entry head m d : ℕ) → Option R
    unfolding paged_attention_2
    launch_paged g max_q_len entry head m d =
        let start_m = m / g.blocks.block_m in
        let entry_head = entry * g.q.heads + head in
        if ltb start_m (triton.cdiv max_q_len g.blocks.block_m)
          && ltb entry_head (g.entries.count * g.q.heads)
        then paged_attention_2 g start_m entry_head (m % g.blocks.block_m) d
        else none

    -- `none` is a failed assertion.
    unfoldable pub paged_attention_forward :
        Rows R
        → (k_pool v_pool : PagedPool R) → Entries
        → (block_size max_q_len : ℕ) → Option ((entry head m d : ℕ) → Option R)
    unfolding launch_paged
    paged_attention_forward q k_pool v_pool entries block_size max_q_len =
        if paged_checks q k_pool v_pool
        then (tile_sizes q.dtype >>= λ sizes.
            some (launch_paged (paged_launch q k_pool v_pool entries block_size sizes) max_q_len))
        else none
