-- ===== src/Allocator/Block.antt =====
-- `BlockAllocator`: the paged pool. `block_size` is positive wherever a division by it counts
-- (Python raises on zero), and `ceil` of a float quotient is the exact one below 2 ^ 53.
use llm_serving_engine.Base.{
  ℕ, ◌+◌, ◌-◌, ◌/◌, Bool, Option, none, some, List, [], ◌++◌, length, take, drop, range, ℤ, pos,
  sub_ℕ, pos_part, ◌+ℤ◌, ltb_ℤ, leb, ◌==◌, if◌then◌else◌,
}
use llm_serving_engine.Sequence.{Sequence, BlockTable, num_tokens}

pub record BlockAllocator : Type 0 where
  pub num_blocks : ℕ
  pub block_size : ℕ
  pub free_blocks : List ℕ

unfoldable pub new : ℕ → ℕ → BlockAllocator
new num_blocks block_size = record {
  num_blocks = num_blocks;
  block_size = block_size;
  free_blocks = range 0 num_blocks;
}

-- `ceil(a / b)`
unfoldable pub ceil_div : ℕ → ℕ → ℕ
ceil_div a b = (a + (b - 1)) / b

-- Below zero where the table has more blocks than it needs.
unfoldable pub needed_blocks : BlockAllocator → BlockTable → ℕ → ℤ
needed_blocks a t new_tokens =
    sub_ℕ (ceil_div (t.num_tokens + new_tokens) a.block_size) (length t.physical_blocks)

-- `for _ in range(needed)` moves the first `needed` free blocks to the end of the table.
unfoldable pub allocate : BlockAllocator → Sequence → ℕ → ℕ → Option (BlockAllocator × BlockTable)
unfolding needed_blocks ◌+ℤ◌
allocate a s new_tokens decode_reserve =
    let t = s.block_table in
    let needed = needed_blocks a t new_tokens in
    if ltb_ℤ (pos (length a.free_blocks)) (needed +ℤ pos decode_reserve)
    then none
    else some (
      record a { free_blocks = drop (pos_part needed) a.free_blocks },
      record t {
        num_tokens = t.num_tokens + new_tokens;
        physical_blocks = t.physical_blocks ++ take (pos_part needed) a.free_blocks;
      },
    )

unfoldable pub free : BlockAllocator → BlockTable → BlockAllocator × BlockTable
free a t = (
  record a { free_blocks = a.free_blocks ++ t.physical_blocks },
  record t { physical_blocks = []; num_tokens = 0 },
)

unfoldable pub can_ever_fit : BlockAllocator → Sequence → Bool
can_ever_fit a s = leb (ceil_div (num_tokens s + 1) a.block_size) a.num_blocks

-- A fraction, as its numerator and denominator: `1 - free / num_blocks`, or 0.0 without blocks.
unfoldable pub utilization : BlockAllocator → ℤ × ℕ
utilization a =
    if a.num_blocks == 0
    then (pos 0, 1)
    else (sub_ℕ a.num_blocks (length a.free_blocks), a.num_blocks)
