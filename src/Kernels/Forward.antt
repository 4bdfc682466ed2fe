-- ===== src/Kernels/Forward.antt =====
-- What `flash_attention_forward` and `paged_attention_forward` return, against attention as a formula.
use llm_serving_engine.Base.{
  ℕ, ◌+◌, ◌*◌, ◌/◌, ◌%◌, ◌≤◌, ◌<◌, ◌≡◌, ◌≢◌, refl, ap, ◌∙◌, Bool, true, not, ◌||◌, Option, some,
  ◌>>=◌, ltb, leb, arith,
}
use llm_serving_engine.Kernels.Numbers.{Numbers}
use llm_serving_engine.Kernels.Lanes.{LaneReads, reference}
use llm_serving_engine.Kernels.Flash.{
  Triton, DType, float16, bfloat16, float32, other_dtype, tile_sizes, Tensor, at_axes, flash_checks,
  flash_launch, launch_flash, flash_attention_forward,
}
use llm_serving_engine.Kernels.Paged.{
  Rows, PagedPool, Entries, in_rows, in_pool, paged_checks, paged_launch, launch_paged,
  paged_attention_forward,
}
use llm_serving_engine.Kernels.Rows.{
  row_of_tile, entry_of, head_of, entry_head_lt, flash_attention_2-reference,
  paged_attention_2-reference,
}
use native.Mathlib.Nat.{mod-lt}

-- A supported dtype's tiles have rows and keys.
tile_sizes-pos :
    (t : DType)
    → t ≢ other_dtype
    → (block_m block_n : ℕ) × (tile_sizes t ≡ some (block_m, block_n))
      × (0 < block_m)
      × (0 < block_n)
tile_sizes-pos float16 h = (128, 64, refl, omega arith, omega arith)
tile_sizes-pos bfloat16 h = (128, 64, refl, omega arith, omega arith)
tile_sizes-pos float32 h = (64, 32, refl, omega arith, omega arith)
tile_sizes-pos other_dtype h = absurd (h refl)

abbrev pub sees : Bool → (offset m : ℕ) → ℕ → Bool
sees is_causal offset m j = not is_causal || leb j (offset + m)

-- The block in which an entry has its position `j`, by its row of the block table.
abbrev pub named_block : Entries → (block_size entry j : ℕ) → ℕ
named_block e block_size entry j = e.block_table (entry * e.stride_row + j / block_size)

module _ {R : Type 0} where
  -- Query row `m` of head `h`, and the keys and values of its group.
  abbrev pub head_reads : (q k v : Tensor R) → (z h m : ℕ) → LaneReads R
  head_reads q k v z h m =
      let kv = h / (q.shape.h / k.shape.h) in
      record {
        query = λ d. at_axes q z h m d;
        key = λ j d. at_axes k z kv j d;
        value = λ j d. at_axes v z kv j d;
      }

  -- The same of an entry's row, through the entry's row of the block table.
  abbrev pub entry_reads :
      Rows R → (k_pool v_pool : PagedPool R) → Entries → (block_size entry h m : ℕ) → LaneReads R
  entry_reads q k_pool v_pool e block_size entry h m =
      let kv = h / (q.heads / k_pool.heads) in
      record {
        query = λ d. in_rows q h (e.q_start entry + m) d;
        key = λ j d. in_pool k_pool (named_block e block_size entry j) (j % block_size) kv d;
        value = λ j d. in_pool v_pool (named_block e block_size entry j) (j % block_size) kv d;
      }

  module _ (num : Numbers R) (triton : Triton R) where
    -- The grid has a program for every row and head.
    launch_flash-reference :
        (q k v : Tensor R) (is_causal : Bool) (query_offset block_m block_n : ℕ)
        → 0 < block_m
        → 0 < block_n
        → 0 < k.shape.n
        → (z h m d : ℕ) → z < q.shape.z
        → h < q.shape.h
        → m < q.shape.n
        → d < q.shape.d
        → launch_flash num triton
            (flash_launch num triton q k v is_causal query_offset (block_m, block_n))
            z
            h
            m
            d
          ≡ reference num q.shape.d
              (triton.inv_sqrt q.shape.d)
              (head_reads q k v z h m)
              k.shape.n
              (sees is_causal query_offset m)
              d
    unfolding launch_flash
    launch_flash-reference q k v is_causal query_offset block_m block_n rows keys some_key z h m d
          in_z in_h in_m in_d =
        let g = flash_launch num triton q k v is_causal query_offset (block_m, block_n) in
        let placed = λ (z' h' m' : ℕ).
          reference num q.shape.d (triton.inv_sqrt q.shape.d) (head_reads q k v z' h' m') k.shape.n
            (sees is_causal query_offset m') d in
        let off_hz = z * q.shape.h + h in
        let in_grid : ltb (m / block_m) (triton.cdiv q.shape.n block_m) ≡ true =
          ground (arith, triton.cdiv_covers m q.shape.n block_m rows in_m) in
        let in_heads : ltb off_hz (q.shape.z * q.shape.h) ≡ true =
          ground (arith, entry_head_lt h q.shape.h z q.shape.z in_h in_z) in
        let row = row_of_tile m block_m in
        rw (in_grid, in_heads)
          (flash_attention_2-reference num g (m / block_m) off_hz (m % block_m) d (mod-lt m rows)
              (rw row in_m) in_d (triton.power_fits q.shape.d) keys some_key
            ∙ (ap (placed (off_hz / q.shape.h) (off_hz % q.shape.h)) row
                ∙ (ap (λ x. placed x (off_hz % q.shape.h) m) (entry_of h q.shape.h z in_h)
                    ∙ ap (λ x. placed z x m) (head_of h q.shape.h z in_h))))

    -- If the assertions hold, the dtype is a supported one and there is a key,
    -- flash_attention_forward returns, and it stores for each batch, head, row and lane of q the
    -- softmax attention of that row over the keys it may see: the maximum of all their scores is
    -- taken off first and one division comes last, without tiles and without padded lanes.
    pub flash_attention_forward-reference :
        (q k v : Tensor R) (is_causal : Bool) (query_offset : ℕ)
        → flash_checks q k v is_causal query_offset ≡ true
        → q.dtype ≢ other_dtype
        → 0 < k.shape.n
        → (out : (z h m d : ℕ) → Option R) × (flash_attention_forward num triton q k v is_causal
              query_offset
            ≡ some out)
          × ((z h m d : ℕ)
              → z < q.shape.z
              → h < q.shape.h
              → m < q.shape.n
              → d < q.shape.d
              → out z h m d
                ≡ reference num q.shape.d
                    (triton.inv_sqrt q.shape.d)
                    (head_reads q k v z h m)
                    k.shape.n
                    (sees is_causal query_offset m)
                    d)
    unfolding flash_attention_forward
    flash_attention_forward-reference q k v is_causal query_offset checks supported some_key =
        let (block_m, block_n, sized, rows, keys) = tile_sizes-pos q.dtype supported in
        (
          launch_flash num triton
              (flash_launch num triton q k v is_causal query_offset (block_m, block_n)),
          rw (checks, sized, ◌>>=◌) refl,
          launch_flash-reference q k v is_causal query_offset block_m block_n rows keys some_key,
        )

    launch_paged-reference :
        (q : Rows R) (k_pool v_pool : PagedPool R) (e : Entries)
        (block_size max_q_len block_m block_n : ℕ)
        → 0 < block_m
        → 0 < block_n
        → (entry h m d : ℕ) → entry < e.count
        → h < q.heads
        → m < e.q_len entry
        → e.q_len entry ≤ max_q_len
        → 0 < e.context_len entry
        → d < q.head_dim
        → launch_paged num triton
            (paged_launch num triton q k_pool v_pool e block_size (block_m, block_n))
            max_q_len
            entry
            h
            m
            d
          ≡ reference num q.head_dim
              (triton.inv_sqrt q.head_dim)
              (entry_reads q k_pool v_pool e block_size entry h m)
              (e.context_len entry)
              (sees true (e.query_offset entry) m)
              d
    unfolding launch_paged
    launch_paged-reference q k_pool v_pool e block_size max_q_len block_m block_n rows keys entry h
          m d in_count in_h in_m longest some_key in_d =
        let g = paged_launch num triton q k_pool v_pool e block_size (block_m, block_n) in
        let placed = λ (entry' h' m' : ℕ).
          reference num q.head_dim (triton.inv_sqrt q.head_dim)
            (entry_reads q k_pool v_pool e block_size entry' h' m') (e.context_len entry')
            (sees true (e.query_offset entry') m') d in
        let entry_head = entry * q.heads + h in
        let in_grid : ltb (m / block_m) (triton.cdiv max_q_len block_m) ≡ true =
          ground
            (arith, triton.cdiv_covers m max_q_len block_m rows (omega (arith, in_m, longest))) in
        let in_heads : ltb entry_head (e.count * q.heads) ≡ true =
          ground (arith, entry_head_lt h q.heads entry e.count in_h in_count) in
        let row = row_of_tile m block_m in
        let here = entry_of h q.heads entry in_h in
        rw (in_grid, in_heads)
          (paged_attention_2-reference num g (m / block_m) entry_head (m % block_m) d
              (mod-lt m rows) (rw (row, here) in_m) in_d (triton.power_fits q.head_dim) keys
              (rw here some_key)
            ∙ (ap (placed (entry_head / q.heads) (entry_head % q.heads)) row
                ∙ (ap (λ x. placed x (entry_head % q.heads) m) here
                    ∙ ap (λ x. placed entry x m) (head_of h q.heads entry in_h))))

    -- If the assertions hold and the dtype is a supported one, paged_attention_forward returns,
    -- and for each entry that has a key and at most max_q_len rows, each head, row and lane of it,
    -- it stores the softmax attention of that row over the keys up to its position, read through
    -- the entry's row of the block table.
    pub paged_attention_forward-reference :
        (q : Rows R) (k_pool v_pool : PagedPool R) (e : Entries) (block_size max_q_len : ℕ)
        → paged_checks q k_pool v_pool ≡ true
        → q.dtype ≢ other_dtype
        → (out : (entry h m d : ℕ) → Option R) × (paged_attention_forward num triton q k_pool v_pool
              e block_size max_q_len
            ≡ some out)
          × ((entry h m d : ℕ)
              → entry < e.count
              → h < q.heads
              → m < e.q_len entry
              → e.q_len entry ≤ max_q_len
              → 0 < e.context_len entry
              → d < q.head_dim
              → out entry h m d
                ≡ reference num q.head_dim
                    (triton.inv_sqrt q.head_dim)
                    (entry_reads q k_pool v_pool e block_size entry h m)
                    (e.context_len entry)
                    (sees true (e.query_offset entry) m)
                    d)
    unfolding paged_attention_forward
    paged_attention_forward-reference q k_pool v_pool e block_size max_q_len checks supported =
        let (block_m, block_n, sized, rows, keys) = tile_sizes-pos q.dtype supported in
        (
          launch_paged num triton
              (paged_launch num triton q k_pool v_pool e block_size (block_m, block_n)) max_q_len,
          rw (checks, sized, ◌>>=◌) refl,
          launch_paged-reference q k_pool v_pool e block_size max_q_len block_m block_n rows keys,
        )
