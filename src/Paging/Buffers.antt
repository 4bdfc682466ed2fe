-- ===== src/Paging/Buffers.antt =====
-- `contiguous_attention` and `free` of src/llm_serving_engine/model/model_runner.py: how far each
-- sequence's own K/V buffer is filled. All layers have the same; the tensors are left out.
use llm_serving_engine.Base.{
  ◌>>=◌, ℕ, ◌+◌, ◌-◌, min, Bool, ◌||◌, Option, none, some, List, [], ◌∷◌, length, ◌==◌,
  if◌then◌else◌,
}
use llm_serving_engine.Sequence.{Sequence}
use llm_serving_engine.Paging.{Resolved}

pub record Buffer : Type 0 where
  pub capacity : ℕ
  pub filled : ℕ

abbrev pub Buffers : Type 0
Buffers = List (ℕ × Buffer)

-- `cache.get(seq_id)`
unfoldable pub buffer_of : ℕ → Buffers → Option Buffer
buffer_of id [] = none
buffer_of id ((j, b) ∷ cache) = if j == id then some b else buffer_of id cache

-- `cache[seq_id] = ...`
unfoldable pub put_buffer : ℕ → Buffer → Buffers → Buffers
put_buffer id b [] = (id, b) ∷ []
put_buffer id b ((j, old) ∷ cache) =
    let rest = put_buffer id b cache in if j == id then (j, b) ∷ cache else (j, old) ∷ rest

-- `layer_cache.pop(seq_id, None)`
unfoldable pub free_buffer : ℕ → Buffers → Buffers
free_buffer id [] = []
free_buffer id ((j, b) ∷ cache) =
    let rest = free_buffer id cache in if j == id then rest else (j, b) ∷ rest

abbrev pub capacity_for : Sequence → ℕ
capacity_for s = length s.prompt_tokens + s.sampling_params.max_tokens

abbrev pub buffer_for : Sequence → Buffers → Buffer
buffer_for s cache = elim (buffer_of s.seq_id cache) [
  | none ↦ record { capacity = capacity_for s; filled = 0 }
  | some b ↦ b
]

-- What the kernel is launched with: the place of the first query and how many keys there are.
pub record Span : Type 0 where
  pub query_offset : ℕ
  pub keys : ℕ

-- `k_buf[:, :, filled : filled + n_new] = ...`: the slice ends with the buffer, and a value of
-- another length is refused, but one of length 1 is broadcast to it.
abbrev pub accepts : Buffer → ℕ → Bool
accepts b n = min (b.filled + n) b.capacity - min b.filled b.capacity == n || n == 1

-- One round of the loop; `none` is the error of the assignment.
unfoldable pub fill_buffer : Sequence → ℕ → Buffers → Option (Span × Buffers)
unfolding buffer_of put_buffer
fill_buffer s n cache =
    let b = buffer_for s cache in
    let filled = b.filled + n in
    if accepts b n
    then some (
      record { query_offset = filled - n; keys = min filled b.capacity },
      put_buffer s.seq_id (record b { filled = filled }) cache,
    )
    else none

-- The loop; `zip(..., strict=True)`.
unfoldable pub fill_buffers : Resolved → List (ℕ × ℕ) → Buffers → Option (List Span × Buffers)
unfolding fill_buffer
fill_buffers [] [] cache = some ([], cache)
fill_buffers ((e, s) ∷ plan) ((start, end) ∷ offsets) cache = do
  (span, mid) ← fill_buffer s (end - start) cache
  (spans, last) ← fill_buffers plan offsets mid
  some (span ∷ spans, last)
fill_buffers _ _ cache = none
