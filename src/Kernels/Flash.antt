-- ===== src/Kernels/Flash.antt =====
-- `flash_attention_2` and `flash_attention_forward`. A tensor is its memory with its shape and its
-- strides, in elements; `none` in an output is an element that no program stores, or a NaN.
use llm_serving_engine.Base.{
  ℕ, ◌+◌, ◌*◌, ◌/◌, ◌%◌, ◌≤◌, ◌<◌, min, Bool, true, false, not, ◌&&◌, ◌||◌, Option, none, some,
  ◌>>=◌, ltb, leb, ◌==◌, if◌then◌else◌,
}
use llm_serving_engine.Kernels.Numbers.{Numbers}
use llm_serving_engine.Kernels.Lanes.{LaneReads, Blocks, scan}

-- What the wrappers take from `triton` and `math`: `cdiv`, `next_power_of_2` and 1 / sqrt.
pub record Triton (R : Type 0) : Type 0 where
  pub cdiv : ℕ → ℕ → ℕ
  pub next_power_of_2 : ℕ → ℕ
  pub inv_sqrt : ℕ → R
  pub cdiv_covers : (m n size : ℕ) → 0 < size → m < n → m / size < cdiv n size
  pub power_fits : (n : ℕ) → n ≤ next_power_of_2 n

pub data DType : Type 0 where
  float16 bfloat16 float32 other_dtype : DType

abbrev pub same_dtype : DType → DType → Bool
same_dtype float16 float16 = true
same_dtype bfloat16 bfloat16 = true
same_dtype float32 float32 = true
same_dtype other_dtype other_dtype = true
same_dtype _ _ = false

-- `_TILES`: BLOCK_M and BLOCK_N.
abbrev pub tile_sizes : DType → Option (ℕ × ℕ)
tile_sizes float16 = some (128, 64)
tile_sizes bfloat16 = some (128, 64)
tile_sizes float32 = some (64, 32)
tile_sizes other_dtype = none

-- The axes of a (Z, H, N, D) tensor.
pub record Axes : Type 0 where
  pub z : ℕ
  pub h : ℕ
  pub n : ℕ
  pub d : ℕ

pub record Tensor (R : Type 0) : Type 0 where
  pub memory : ℕ → R
  pub shape : Axes
  pub stride : Axes
  pub dtype : DType
  pub is_cuda : Bool

abbrev pub at_axes : {R : Type 0} → Tensor R → (z h n d : ℕ) → R
at_axes t z h n d = t.memory (z * t.stride.z + h * t.stride.h + n * t.stride.n + d * t.stride.d)

-- The assertions on the shapes, the dtypes and the devices.
abbrev pub flash_checks : {R : Type 0} → (q k v : Tensor R) → Bool → ℕ → Bool
flash_checks q k v is_causal query_offset =
    (q.shape.z == k.shape.z && q.shape.d == k.shape.d)
    && (not (k.shape.h == 0) && q.shape.h % k.shape.h == 0)
    && (k.shape.z == v.shape.z
        && k.shape.h == v.shape.h
        && k.shape.n == v.shape.n
        && k.shape.d == v.shape.d)
    && (same_dtype q.dtype k.dtype && same_dtype k.dtype v.dtype)
    && (q.is_cuda && k.is_cuda && v.is_cuda)
    && (leb (query_offset + q.shape.n) k.shape.n || not is_causal)

-- What a launch fixes for all its programs.
pub record FlashLaunch (R : Type 0) : Type 0 where
  pub q : Tensor R
  pub k : Tensor R
  pub v : Tensor R
  pub blocks : Blocks R
  pub query_offset : ℕ
  pub is_causal : Bool
  pub n_groups : ℕ

module _ {R : Type 0} (num : Numbers R) where
  module _ (g : FlashLaunch R) where
    -- The pointers of row `offs_m`; `off_hz` is the second axis of the grid.
    abbrev pub flash_reads : (off_hz offs_m : ℕ) → LaneReads R
    flash_reads off_hz offs_m =
        let off_z = off_hz / g.q.shape.h in
        let off_h = off_hz % g.q.shape.h in
        let off_kv_h = off_h / g.n_groups in
        record {
          query = λ d. at_axes g.q off_z off_h offs_m d;
          key = λ j d. at_axes g.k off_z off_kv_h j d;
          value = λ j d. at_axes g.v off_z off_kv_h j d;
        }

    abbrev pub flash_visible : (offs_m : ℕ) → ℕ → Bool
    flash_visible offs_m j = not g.is_causal || leb j (g.query_offset + offs_m)

    abbrev pub flash_end : (start_m : ℕ) → ℕ
    flash_end start_m =
        if g.is_causal
        then min (g.query_offset + (start_m + 1) * g.blocks.block_m) g.k.shape.n
        else g.k.shape.n

    -- What a program stores from row `i` of its tile in lane `d`.
    unfoldable pub flash_attention_2 : (start_m off_hz i d : ℕ) → Option R
    unfolding scan
    flash_attention_2 start_m off_hz i d =
        let offs_m = start_m * g.blocks.block_m + i in
        let m_mask = ltb offs_m g.q.shape.n in
        if m_mask && ltb d g.blocks.head_dim
        then (scan num g.blocks (flash_reads off_hz offs_m) m_mask g.k.shape.n
              (flash_visible offs_m) (flash_end start_m)
            >>= λ row. some (row d))
        else none

  module _ (triton : Triton R) where
    abbrev pub flash_launch : (q k v : Tensor R) → Bool → ℕ → ℕ × ℕ → FlashLaunch R
    flash_launch q k v is_causal query_offset (block_m, block_n) = record {
      q = q;
      k = k;
      v = v;
      blocks = record {
        block_m = block_m;
        block_n = block_n;
        block_d = triton.next_power_of_2 q.shape.d;
        head_dim = q.shape.d;
        softmax_scale = triton.inv_sqrt q.shape.d;
      };
      query_offset = query_offset;
      is_causal = is_causal;
      n_groups = q.shape.h / k.shape.h;
    }

    -- The output, by its axes. The grid is (cdiv(N_Q, BLOCK_M), Z * H).
    unfoldable pub launch_flash : FlashLaunch R → (z h m d : ℕ) → Option R
    unfolding flash_attention_2
    launch_flash g z h m d =
        let start_m = m / g.blocks.block_m in
        let off_hz = z * g.q.shape.h + h in
        if ltb start_m (triton.cdiv g.q.shape.n g.blocks.block_m)
          && ltb off_hz (g.q.shape.z * g.q.shape.h)
        then flash_attention_2 g start_m off_hz (m % g.blocks.block_m) d
        else none

    -- `none` is a failed assertion; a launch that runs out of shared memory is not modelled.
    unfoldable pub flash_attention_forward :
        (q k v : Tensor R) → Bool → ℕ → Option ((z h m d : ℕ) → Option R)
    unfolding launch_flash
    flash_attention_forward q k v is_causal query_offset =
        if flash_checks q k v is_causal query_offset
        then (tile_sizes q.dtype >>= λ sizes.
            some (launch_flash (flash_launch q k v is_causal query_offset sizes)))
        else none
