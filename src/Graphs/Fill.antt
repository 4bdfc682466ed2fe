-- ===== src/Graphs/Fill.antt =====
-- src/llm_serving_engine/model/decode_graph.py: what a replay writes into a captured graph's tensors.
-- A row here is one index of the tensors of `DecodeGraph`, with the entries of its two lists.
use llm_serving_engine.Base.{
  ◌>>=◌, ℕ, zero, suc, Bool, false, Option, none, some, List, [], ◌∷◌, map, length, drop, replicate,
  ◌==◌, if◌then◌else◌,
}
use llm_serving_engine.Sequence.{Sequence}
use llm_serving_engine.Paging.{last_token, slot}

pub record GraphRow : Type 0 where
  pub input_id : ℕ
  pub position_id : ℕ
  pub dest_block_id : ℕ
  pub dest_within : ℕ
  pub context_len : ℕ
  pub query_offset : ℕ
  pub q_len : ℕ
  pub block_row : List ℕ
  pub row_seq_id : Option ℕ
  pub blocks_written : ℕ

-- `_alloc`: `bucket` rows of zeros, with a cell for every block of the pool.
abbrev pub alloc : (bucket num_blocks : ℕ) → List GraphRow
alloc bucket num_blocks = replicate bucket (record {
  input_id = 0;
  position_id = 0;
  dest_block_id = 0;
  dest_within = 0;
  context_len = 0;
  query_offset = 0;
  q_len = 0;
  block_row = replicate num_blocks 0;
  row_seq_id = none;
  blocks_written = 0;
})

-- `_fill_dummy`
abbrev pub dummy_row : ℕ → GraphRow → GraphRow
dummy_row scratch row = record row {
  input_id = 0;
  position_id = 0;
  dest_block_id = scratch;
  dest_within = 0;
  context_len = 1;
  query_offset = 0;
  q_len = 1;
  block_row = map (λ cell. scratch) row.block_row;
  row_seq_id = none;
}

abbrev pub fill_dummy : ℕ → List GraphRow → List GraphRow
fill_dummy scratch rows = map (dummy_row scratch) rows

abbrev pub holds_id : ℕ → Option ℕ → Bool
holds_id id none = false
holds_id id (some j) = j == id

-- `forget`
unfoldable pub forget_row : ℕ → GraphRow → GraphRow
forget_row id row = if holds_id id row.row_seq_id then record row { row_seq_id = none } else row

abbrev pub forget : ℕ → List GraphRow → List GraphRow
forget id rows = map (forget_row id) rows

-- `index_put_` of `vs` at the columns from `at` on; `none` is a column that is not there.
unfoldable pub put_cells : (at : ℕ) → (vs cells : List ℕ) → Option (List ℕ)
put_cells at [] cells = some cells
put_cells at (v ∷ vs) [] = none
put_cells zero (v ∷ vs) (c ∷ cells) = do rest ← put_cells zero vs cells; some (v ∷ rest)
put_cells (suc at) (v ∷ vs) (c ∷ cells) = do rest ← put_cells at (v ∷ vs) cells; some (c ∷ rest)

-- The cells of a row that already hold the sequence's blocks.
abbrev pub written_of : ℕ → GraphRow → ℕ
written_of id row = if holds_id id row.row_seq_id then row.blocks_written else 0

-- The loop of `_fill_real` for one sequence, whose token goes to position `pos`.
unfoldable pub fill_at : ℕ → ℕ → Sequence → GraphRow → Option GraphRow
unfolding last_token slot put_cells
fill_at block_size pos seq row = do
  token ← last_token seq.generated_tokens
  (block, within) ← slot block_size seq.block_table pos
  let physical = seq.block_table.physical_blocks
  let written = written_of seq.seq_id row
  cells ← put_cells written (drop written physical) row.block_row
  some (record {
    input_id = token;
    position_id = pos;
    dest_block_id = block;
    dest_within = within;
    context_len = suc pos;
    query_offset = pos;
    q_len = 1;
    block_row = cells;
    row_seq_id = some seq.seq_id;
    blocks_written = length physical;
  })

-- `pos = seq.block_table.num_tokens - 1`. A table without a token, whose position would be -1, is
-- in no plan, and `none` here, as an IndexError is.
unfoldable pub fill_row : ℕ → Sequence → GraphRow → Option GraphRow
unfolding fill_at
fill_row block_size seq row = elim seq.block_table.num_tokens [
  | zero ↦ none
  | suc pos ↦ fill_at block_size pos seq row
]

-- What a row past the sequences is left with.
abbrev pub pad_row : ℕ → GraphRow → GraphRow
pad_row scratch row = record row {
  input_id = 0;
  position_id = 0;
  dest_block_id = scratch;
  dest_within = 0;
  context_len = 0;
  query_offset = 0;
  q_len = 0;
}

unfoldable pub fill_real :
    (block_size scratch : ℕ) → List Sequence → List GraphRow → Option (List GraphRow)
unfolding fill_row
fill_real block_size scratch [] rows = some (map (pad_row scratch) rows)
fill_real block_size scratch (s ∷ ss) [] = none
fill_real block_size scratch (s ∷ ss) (row ∷ rows) = do
  first ← fill_row block_size s row
  rest ← fill_real block_size scratch ss rows
  some (first ∷ rest)
