-- ===== src/Allocator/Contiguous.antt =====
-- `ContiguousAllocator`: one reservation for a sequence's whole lifetime.
use llm_serving_engine.Base.{
  ℕ, ◌+◌, Bool, Option, none, some, length, ℤ, pos, ◌+ℤ◌, ◌-ℤ◌, ltb_ℤ, leb, ◌==◌, if◌then◌else◌,
}
use llm_serving_engine.Sequence.{Sequence, BlockTable}

pub record ContiguousAllocator : Type 0 where
  pub capacity_tokens : ℕ
  pub used_tokens : ℤ

unfoldable pub new : ℕ → ContiguousAllocator
new capacity = record { capacity_tokens = capacity; used_tokens = pos 0 }

unfoldable pub reservation : Sequence → ℕ
reservation s = length s.prompt_tokens + s.sampling_params.max_tokens

unfoldable pub allocate :
    ContiguousAllocator → Sequence → ℕ → ℕ → Option (ContiguousAllocator × BlockTable)
unfolding reservation
allocate a s new_tokens decode_reserve =
    let t = s.block_table in
    if t.reserved_tokens == 0
    then if ltb_ℤ (pos a.capacity_tokens) (a.used_tokens +ℤ pos (reservation s))
      then none
      else some (
        record a { used_tokens = a.used_tokens +ℤ pos (reservation s) },
        record t { reserved_tokens = reservation s; num_tokens = t.num_tokens + new_tokens },
      )
    else some (a, record t { num_tokens = t.num_tokens + new_tokens })

unfoldable pub free : ContiguousAllocator → BlockTable → ContiguousAllocator × BlockTable
free a t = (
  record a { used_tokens = a.used_tokens -ℤ pos t.reserved_tokens },
  record t { reserved_tokens = 0; num_tokens = 0 },
)

unfoldable pub can_ever_fit : ContiguousAllocator → Sequence → Bool
unfolding reservation
can_ever_fit a s = leb (reservation s) a.capacity_tokens

unfoldable pub utilization : ContiguousAllocator → ℤ × ℕ
utilization a = if a.capacity_tokens == 0 then (pos 0, 1) else (a.used_tokens, a.capacity_tokens)
