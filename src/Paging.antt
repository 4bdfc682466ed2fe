-- ===== src/Paging.antt =====
-- The host side of a forward pass: src/llm_serving_engine/model/model_runner.py and paged_batch.py.
-- Which tokens and positions a plan feeds to the model, and which pool slots their K/V goes to.
-- `none` is a KeyError or an IndexError.
pub mod Slots
pub mod Emit
pub mod Buffers
use llm_serving_engine.Base.{
  ◌>>=◌, ℕ, zero, suc, ◌+◌, ◌-◌, ◌/◌, ◌%◌, max, Bool, true, false, not, ◌&&◌, Option, none, some,
  List, [], ◌∷◌, ◌++◌, length, get_elem?, replicate, range, if◌then◌else◌, last_or,
}
use llm_serving_engine.Sequence.{
  Sequence, BlockTable, BatchEntry, num_tokens, prefill_token_ids, is_prefilling,
}
use llm_serving_engine.Scheduler.Results.{find}

abbrev pub Resolved : Type 0
Resolved = List (BatchEntry × Sequence)

-- `seqs[entry.seq_id]` for every entry of the plan.
unfoldable pub resolve : List BatchEntry → List Sequence → Option Resolved
unfolding find
resolve [] seqs = some []
resolve (e ∷ es) seqs = do s ← find e.seq_id seqs; rest ← resolve es seqs; some ((e, s) ∷ rest)

-- `generated_tokens[-1]`
unfoldable pub last_token : List ℕ → Option ℕ
last_token [] = none
last_token (t ∷ ts) = some (last_or t ts)

unfoldable pub entry_token_ids : BatchEntry → Sequence → Option (List ℕ)
unfolding prefill_token_ids last_token
entry_token_ids e s =
    if e.is_prefill_chunk
    then some (prefill_token_ids s (s.prefill_progress - e.n_tokens) s.prefill_progress)
    else (last_token s.generated_tokens >>= λ t. some (t ∷ []))

unfoldable pub owes_token : BatchEntry → Sequence → Bool
owes_token e s = not (e.is_prefill_chunk && is_prefilling s.status)

pub record FlatRows : Type 0 where
  pub token_ids : List ℕ
  pub positions : List ℕ
  pub offsets : List (ℕ × ℕ)

abbrev pub start_pos : BatchEntry → Sequence → ℕ
start_pos e s = if e.is_prefill_chunk then s.prefill_progress - e.n_tokens else num_tokens s - 1

-- `_flat_rows`; `at` is the number of tokens that the loop has collected.
unfoldable pub flat_rows : ℕ → Resolved → Option FlatRows
unfolding entry_token_ids
flat_rows at [] = some (record { token_ids = []; positions = []; offsets = [] })
flat_rows at ((e, s) ∷ plan) = do
  ids ← entry_token_ids e s
  rest ← flat_rows (at + length ids) plan
  some (record {
    token_ids = ids ++ rest.token_ids;
    positions = range (start_pos e s) e.n_tokens ++ rest.positions;
    offsets = (at, at + e.n_tokens) ∷ rest.offsets;
  })

-- The pool slot of position `pos`: `physical[pos // block_size]` and `pos % block_size`.
unfoldable pub slot : ℕ → BlockTable → ℕ → Option (ℕ × ℕ)
slot block_size t pos = do
  b ← get_elem? t.physical_blocks (pos / block_size)
  some (b, pos % block_size)

-- `for pos in range(cached, num_tokens)`: the slots of `n` positions from `pos` on.
unfoldable pub slots_from : ℕ → BlockTable → ℕ → ℕ → Option (List (ℕ × ℕ))
unfolding slot
slots_from block_size t pos zero = some []
slots_from block_size t pos (suc n) = do
  first ← slot block_size t pos
  rest ← slots_from block_size t (suc pos) n
  some (first ∷ rest)

pub record PagingRow : Type 0 where
  pub block_row : List ℕ
  pub context_len : ℕ
  pub query_offset : ℕ
  pub q_start : ℕ
  pub q_len : ℕ
  pub dest : List (ℕ × ℕ)

abbrev pub max_blocks : List BlockTable → ℕ
max_blocks [] = 0
max_blocks (t ∷ ts) = max (length t.physical_blocks) (max_blocks ts)

-- One round of the loop of `_paging_rows`, for the span [start, end) of an entry.
unfoldable pub paging_row : (block_size widest : ℕ) → BlockTable → ℕ × ℕ → Option PagingRow
unfolding slots_from
paging_row block_size widest t (start, end) =
    let n = end - start in
    let cached = t.num_tokens - n in
    slots_from block_size t cached (t.num_tokens - cached) >>= λ dest. some (record {
      block_row = t.physical_blocks ++ replicate (widest - length t.physical_blocks) 0;
      context_len = t.num_tokens;
      query_offset = cached;
      q_start = start;
      q_len = n;
      dest = dest;
    })

-- `zip(tables, offsets, strict=True)`
unfoldable pub rows_of :
    (block_size widest : ℕ) → List BlockTable → List (ℕ × ℕ) → Option (List PagingRow)
unfolding paging_row
rows_of block_size widest [] [] = some []
rows_of block_size widest (t ∷ ts) (o ∷ os) = do
  row ← paging_row block_size widest t o
  rest ← rows_of block_size widest ts os
  some (row ∷ rest)
rows_of block_size widest _ _ = none

unfoldable pub paging_rows : ℕ → List BlockTable → List (ℕ × ℕ) → Option (List PagingRow)
unfolding rows_of
paging_rows block_size tables offsets = rows_of block_size (max_blocks tables) tables offsets
