-- ===== src/Config.antt =====
-- src/llm_serving_engine/config.py: the sizing of the KV pool, and how engine.py builds the scheduler
-- and the allocator from the configuration. `gpu_memory_utilization` is counted in thousandths, and
-- its product with the memory is exact here.
pub mod Sizes
pub mod Environment
use llm_serving_engine.Base.{ℕ, ◌*◌, ◌/◌, ◌-◌, if◌then◌else◌}
use llm_serving_engine.Allocator.Block
use llm_serving_engine.Allocator.Contiguous
use llm_serving_engine.Allocator.Block.{BlockAllocator}
use llm_serving_engine.Allocator.Contiguous.{ContiguousAllocator}
use llm_serving_engine.Scheduler.State.{
  Scheduler, SchedulerKind, continuous, static, new_scheduler, default_token_budget,
  default_batch_size, default_max_concurrent,
}

pub record KvCacheConfig : Type 0 where
  pub block_size : ℕ
  pub n_kv_heads : ℕ
  pub head_dim : ℕ
  pub n_layers : ℕ
  pub dtype_bytes : ℕ
  pub gpu_memory_utilization : ℕ

abbrev pub default_kv_cache : KvCacheConfig
default_kv_cache = record {
  block_size = 16;
  n_kv_heads = 8;
  head_dim = 128;
  n_layers = 32;
  dtype_bytes = 2;
  gpu_memory_utilization = 950;
}

unfoldable pub bytes_per_token : KvCacheConfig → ℕ
bytes_per_token c = 2 * c.n_kv_heads * c.head_dim * c.dtype_bytes * c.n_layers

unfoldable pub num_blocks : KvCacheConfig → ℕ → ℕ
unfolding bytes_per_token
num_blocks c free_memory_bytes =
    (free_memory_bytes * c.gpu_memory_utilization / 1000) / (bytes_per_token c * c.block_size)

pub data AllocatorKind : Type 0 where
  paged contiguous : AllocatorKind

pub record EngineConfig : Type 0 where
  pub kv_cache : KvCacheConfig
  pub token_budget : ℕ
  pub scheduler : SchedulerKind
  pub static_batch_size : ℕ
  pub max_concurrent_sequences : ℕ
  pub kv_allocator : AllocatorKind

-- `_build_scheduler`
unfoldable pub build_scheduler : EngineConfig → Scheduler
build_scheduler c = elim c.scheduler [
  | static ↦ new_scheduler static c.token_budget c.static_batch_size
  | continuous ↦ new_scheduler continuous c.token_budget c.max_concurrent_sequences
]

-- The two classes that `_build_allocator` returns.
pub data AnyAllocator : Type 0 where
  in_blocks : BlockAllocator → AnyAllocator
  in_tokens : ContiguousAllocator → AnyAllocator

-- `_build_allocator`, given the free memory; below zero, as the reserved bytes can make it, the
-- source floors to a negative number of blocks, and here there are none.
unfoldable pub build_allocator : EngineConfig → (free_bytes reserved_bytes : ℕ) → AnyAllocator
unfolding num_blocks Block.new Contiguous.new
build_allocator c free_bytes reserved_bytes =
    let blocks = num_blocks c.kv_cache (free_bytes - reserved_bytes) in
    elim c.kv_allocator [
      | paged ↦ in_blocks (Block.new blocks c.kv_cache.block_size)
      | contiguous ↦ in_tokens (Contiguous.new (blocks * c.kv_cache.block_size))
    ]
