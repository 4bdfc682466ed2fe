-- ===== src/Config/Sizes.antt =====
-- The pool that the configuration asks for, and the memory that there is.
use llm_serving_engine.Base.{ℕ, ◌+◌, ◌*◌}
use llm_serving_engine.Config.{KvCacheConfig}

-- One of the two tensors of a layer that `allocate_kv_pool` makes: (blocks, block_size, n_kv_heads, head_dim).
abbrev pub tensor_bytes : KvCacheConfig → ℕ → ℕ
tensor_bytes c blocks = blocks * c.block_size * c.n_kv_heads * c.head_dim * c.dtype_bytes

-- A K and a V tensor for each layer.
abbrev pub pool_bytes : KvCacheConfig → ℕ → ℕ
pool_bytes c blocks = c.n_layers * (tensor_bytes c blocks + tensor_bytes c blocks)
