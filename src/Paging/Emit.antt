-- ===== src/Paging/Emit.antt =====
-- The results of a forward pass, src/llm_serving_engine/model/model_runner.py: `forward_fused` up to
-- `emit_tokens`. `sample` stands for the model and `sample_tokens`: the tokens for the logits of the
-- rows, one for each of the sampling parameters.
use llm_serving_engine.Base.{
  ◌>>=◌, ℕ, ◌+◌, ◌-◌, Bool, false, ◌||◌, ◌&&◌, ◌++◌, Option, none, some, List, [], ◌∷◌, length, map,
  leb, ◌==◌, if◌then◌else◌,
}
use llm_serving_engine.Sampling.{SamplingParams}
use llm_serving_engine.Sequence.{Sequence, BatchEntry, BlockTable}
use llm_serving_engine.Scheduler.Results.{TokenResult}
use llm_serving_engine.Paging.{
  Resolved, FlatRows, PagingRow, resolve, owes_token, flat_rows, paging_rows,
}

-- The values of `eos_token_id` in a model's configuration.
pub data Eos : Type 0 where
  no_eos : Eos
  one_eos : ℕ → Eos
  eos_list : List ℕ → Eos

abbrev pub eos_token_ids : Eos → List ℕ
eos_token_ids no_eos = []
eos_token_ids (one_eos id) = id ∷ []
eos_token_ids (eos_list ids) = ids

abbrev pub is_in : ℕ → List ℕ → Bool
is_in id [] = false
is_in id (x ∷ xs) = x == id || is_in id xs

-- The sequences that owe a token, each with its last row; `zip(..., strict=True)`.
unfoldable pub owed_rows : Resolved → List (ℕ × ℕ) → Option (List (Sequence × ℕ))
unfolding owes_token
owed_rows [] [] = some []
owed_rows ((e, s) ∷ plan) ((start, end) ∷ offsets) = do
  rest ← owed_rows plan offsets
  some (if owes_token e s then (s, end - 1) ∷ rest else rest)
owed_rows _ _ = none

abbrev pub is_last : Eos → Sequence → ℕ → Bool
is_last eos s token =
    is_in token (eos_token_ids eos)
    || leb s.sampling_params.max_tokens (length s.generated_tokens + 1)

-- `zip(owed, tokens, strict=True)`
unfoldable pub results_of : Eos → List (Sequence × ℕ) → List ℕ → Option (List TokenResult)
results_of eos [] [] = some []
results_of eos ((s, row) ∷ owed) (token ∷ tokens) = do
  rest ← results_of eos owed tokens
  some (record { seq_id = s.seq_id; token = token; finished = is_last eos s token } ∷ rest)
results_of eos _ _ = none

abbrev pub row_of : Sequence × ℕ → ℕ
row_of (s, row) = row

abbrev pub params_of : Sequence × ℕ → SamplingParams
params_of (s, row) = s.sampling_params

abbrev pub plan_tables : Resolved → List BlockTable
plan_tables [] = []
plan_tables ((e, s) ∷ plan) = s.block_table ∷ plan_tables plan

abbrev pub dests : List PagingRow → List (ℕ × ℕ)
dests [] = []
dests (r ∷ rows) = r.dest ++ dests rows

-- The lists that become one tensor, or that index one, are of one length.
abbrev pub is_rectangular : FlatRows → List PagingRow → Bool
is_rectangular rows paging =
    length rows.positions == length rows.token_ids && length (dests paging) == length rows.token_ids

-- `_paging_rows`, of which `max` raises where there are no tables.
unfoldable pub paging_of : ℕ → Resolved → List (ℕ × ℕ) → Option (List PagingRow)
unfolding paging_rows
paging_of block_size [] offsets = none
paging_of block_size (p ∷ plan) offsets = paging_rows block_size (plan_tables (p ∷ plan)) offsets

module _ (eos : Eos) (sample : List ℕ → List SamplingParams → List ℕ) where
  -- `emit_tokens`, on the logits of the owed rows.
  unfoldable pub emit_tokens : List (Sequence × ℕ) → Option (List TokenResult)
  unfolding results_of
  emit_tokens owed = results_of eos owed (sample (map row_of owed) (map params_of owed))

  -- `if not owed: return []`
  unfoldable pub emit_any : List (Sequence × ℕ) → Option (List TokenResult)
  unfolding emit_tokens
  emit_any [] = some []
  emit_any (o ∷ owed) = emit_tokens (o ∷ owed)

  unfoldable pub emit_owed : Resolved → List (ℕ × ℕ) → Option (List TokenResult)
  unfolding owed_rows emit_any
  emit_owed plan offsets = owed_rows plan offsets >>= λ owed. emit_any owed

  -- `forward_fused` on the paged pool; `none` also where `max` of no tables or a ragged tensor raises.
  unfoldable pub forward_fused : ℕ → List BatchEntry → List Sequence → Option (List TokenResult)
  unfolding resolve flat_rows paging_of emit_owed
  forward_fused block_size entries running = resolve entries running >>= λ plan.
      flat_rows 0 plan >>= λ rows. paging_of block_size plan rows.offsets >>= λ paging.
      if is_rectangular rows paging then emit_owed plan rows.offsets else none
