-- ===== src/Graphs/Cells.antt =====
-- One row of a decode graph of model/decode_graph.py after a fill.
use mathlib.Core.List.{append-nil}
use llm_serving_engine.Base.{
  ℕ, zero, suc, ◌+◌, ◌-◌, ◌≤◌, ◌≡◌, refl, sym, ap, ◌∙◌, subst, inl, inr, true, Option, none, some,
  List, [], ◌∷◌, ◌++◌, length, take, drop, replicate, length-drop, take-append, take-append-drop,
  arith, Bool-cases,
}
use llm_serving_engine.Sequence.{Sequence, BlockTable}
use llm_serving_engine.Paging.{PagingRow, last_token, slot, slots_from, paging_row}
use llm_serving_engine.Graphs.Fill.{GraphRow, holds_id, put_cells, written_of, fill_at, fill_row}

-- `put_cells` overwrites the cells behind `at` and no others.
put_cells-take :
    (at : ℕ) (vs cells : List ℕ)
    → at + length vs ≤ length cells
    → (cells' : List ℕ) × (put_cells at vs cells ≡ some cells')
      × (take (at + length vs) cells' ≡ take at cells ++ vs)
      × (length cells' ≡ length cells)
unfolding put_cells
put_cells-take at [] cells h =
    let same : at + 0 ≡ at = omega arith in
    (cells, refl, ap (λ n. take n cells) same ∙ sym (append-nil (take at cells)), refl)
put_cells-take zero (v ∷ vs) [] h = absurd (omega arith)
put_cells-take (suc at) (v ∷ vs) [] h = absurd (omega arith)
put_cells-take zero (v ∷ vs) (c ∷ cells) h =
    let (rest, e, t, l) = put_cells-take zero vs cells (omega arith) in
    let all : 0 + suc (length vs) ≡ suc (length vs) = omega arith in
    let tail : length vs ≡ 0 + length vs = omega arith in
    (
      v ∷ rest,
      rw e refl,
      ap (λ n. take n (v ∷ rest)) all ∙ ap (λ l. v ∷ l) (ap (λ n. take n rest) tail ∙ t),
      ap suc l,
    )
put_cells-take (suc at) (v ∷ vs) (c ∷ cells) h =
    let (rest, e, t, l) = put_cells-take at (v ∷ vs) cells (omega arith) in
    let all : suc at + suc (length vs) ≡ suc (at + suc (length vs)) = omega arith in
    (c ∷ rest, rw e refl, ap (λ n. take n (c ∷ rest)) all ∙ ap (λ l. c ∷ l) t, ap suc l)

holds_id-some : (id : ℕ) (o : Option ℕ) → holds_id id o ≡ true → o ≡ some id
holds_id-some id none h = absurd (ground arith)
holds_id-some id (some j) h = ap some (ground arith)

module _ (tables : ℕ → List ℕ) where
  -- What a row records is so: its first cells are the first blocks of its sequence's table.
  abbrev pub IsCurrent : GraphRow → Type 0
  IsCurrent row =
      (id : ℕ)
      → row.row_seq_id ≡ some id
      → (take row.blocks_written row.block_row ≡ take row.blocks_written (tables id))
        × (row.blocks_written ≤ length (tables id))

  written_of-IsCurrent :
      (id : ℕ) (row : GraphRow)
      → IsCurrent row
      → (take (written_of id row) row.block_row ≡ take (written_of id row) (tables id))
        × (written_of id row ≤ length (tables id))
  written_of-IsCurrent id row h = elim (Bool-cases (holds_id id row.row_seq_id)) [
    | inl same ↦ rw same (h id (holds_id-some id row.row_seq_id same))
    | inr other ↦ rw other (refl, omega arith)
  ]

-- What a sequence of a decode plan has: a last token, and a slot for its position.
pub record IsReady (block_size cells : ℕ) (s : Sequence) : Type 0 where
  pub token : ℕ
  pub pos : ℕ
  pub dest : ℕ × ℕ
  pub token_is : last_token s.generated_tokens ≡ some token
  pub pos_is : s.block_table.num_tokens ≡ suc pos
  pub dest_is : slot block_size s.block_table pos ≡ some dest
  pub fits : length s.block_table.physical_blocks ≤ cells

-- The row of the graph that a replay reads, and the row that the eager pass builds.
pub record Reads (s : Sequence) (row : GraphRow) (eager : PagingRow) : Type 0 where
  pub input : last_token s.generated_tokens ≡ some row.input_id
  pub position : row.position_id ≡ eager.query_offset
  pub context_len : row.context_len ≡ eager.context_len
  pub query_offset : row.query_offset ≡ eager.query_offset
  pub q_len : row.q_len ≡ eager.q_len
  pub dest : (row.dest_block_id, row.dest_within) ∷ [] ≡ eager.dest
  pub blocks :
      let n = length s.block_table.physical_blocks in take n row.block_row ≡ take n eager.block_row

abbrev eager_row : (widest at : ℕ) → BlockTable → ℕ → ℕ × ℕ → PagingRow
eager_row widest at t pos dest = record {
  block_row = t.physical_blocks ++ replicate (widest - length t.physical_blocks) 0;
  context_len = suc pos;
  query_offset = pos;
  q_start = at;
  q_len = 1;
  dest = dest ∷ [];
}

paging_row-decode :
    (block_size widest at : ℕ) (t : BlockTable) (pos : ℕ) (dest : ℕ × ℕ)
    → t.num_tokens ≡ suc pos
    → slot block_size t pos ≡ some dest
    → paging_row block_size widest t (at, suc at) ≡ some (eager_row widest at t pos dest)
unfolding paging_row slots_from
paging_row-decode block_size widest at t pos dest num h =
    let one : suc at - at ≡ 1 = omega arith in
    let cached : t.num_tokens - 1 ≡ pos = omega (arith, num) in
    let new : t.num_tokens - pos ≡ 1 = omega (arith, num) in rw (one, cached, new, h) (rw num refl)

take-all : (xs : List ℕ) → take (length xs) xs ≡ xs
take-all xs = ap (take (length xs)) (sym (append-nil xs)) ∙ take-append xs []

abbrev filled : (s : Sequence) (token pos : ℕ) → ℕ × ℕ → List ℕ → GraphRow
filled s token pos dest cells = record {
  input_id = token;
  position_id = pos;
  dest_block_id = dest.0;
  dest_within = dest.1;
  context_len = suc pos;
  query_offset = pos;
  q_len = 1;
  block_row = cells;
  row_seq_id = some s.seq_id;
  blocks_written = length s.block_table.physical_blocks;
}

fill_row-returns :
    (block_size : ℕ) (s : Sequence) (row : GraphRow) (token pos : ℕ) (dest : ℕ × ℕ) (cells : List ℕ)
    → last_token s.generated_tokens ≡ some token
    → s.block_table.num_tokens ≡ suc pos
    → slot block_size s.block_table pos ≡ some dest
    → put_cells
        (written_of s.seq_id row)
        (drop (written_of s.seq_id row) s.block_table.physical_blocks)
        row.block_row
      ≡ some cells
    → fill_row block_size s row ≡ some (filled s token pos dest cells)
unfolding fill_row fill_at
fill_row-returns block_size s row token pos dest cells t p d put =
    ap (λ n. elim n [ zero ↦ none | suc q ↦ fill_at block_size q s row ]) p ∙ rw (t, d, put) refl

module _ (tables : ℕ → List ℕ) where
  -- After the cells behind those that are recorded are written, the row begins with the blocks.
  fill_row-cells :
      (s : Sequence) (row : GraphRow)
      → length s.block_table.physical_blocks ≤ length row.block_row
      → tables s.seq_id ≡ s.block_table.physical_blocks
      → IsCurrent tables row
      → let physical = s.block_table.physical_blocks in
        let w = written_of s.seq_id row in
        (cells : List ℕ) × (put_cells w (drop w physical) row.block_row ≡ some cells)
        × (take (length physical) cells ≡ physical)
        × (length cells ≡ length row.block_row)
  fill_row-cells s row fits at h =
      let physical = s.block_table.physical_blocks in
      let w = written_of s.seq_id row in
      let (same, inside) = written_of-IsCurrent tables s.seq_id row h in
      let size : w + length (drop w physical) ≡ length physical =
        omega (arith, inside, length-drop w physical, ap length at) in
      let (cells, put, shown, wide) =
        put_cells-take w (drop w physical) row.block_row (omega (arith, fits, size)) in
      (
        cells,
        put,
        ap (λ n. take n cells) (sym size)
            ∙ (shown
                ∙ (ap (λ l. l ++ drop w physical) (same ∙ ap (take w) at)
                    ∙ take-append-drop w physical)),
        wide,
      )

  -- What `fill_row` leaves of a row that records what is so.
  pub record IsFilled (block_size : ℕ) (s : Sequence) (row result : GraphRow) : Type 0 where
    pub reads :
        (widest at : ℕ)
        → (eager : PagingRow) × (paging_row block_size widest s.block_table (at, suc at)
            ≡ some eager)
          × Reads s result eager
    pub still_current : IsCurrent tables result
    pub wide : length result.block_row ≡ length row.block_row

  pub fill_row-IsFilled :
      (block_size : ℕ) (s : Sequence) (row : GraphRow)
      → IsReady block_size (length row.block_row) s
      → tables s.seq_id ≡ s.block_table.physical_blocks
      → IsCurrent tables row
      → (result : GraphRow) × (fill_row block_size s row ≡ some result)
        × IsFilled block_size s row result
  fill_row-IsFilled block_size s row r at h =
      let physical = s.block_table.physical_blocks in
      let n = length physical in
      let (cells, put, all, wide) = fill_row-cells s row r.fits at h in
      (
        filled s r.token r.pos r.dest cells,
        fill_row-returns block_size s row r.token r.pos r.dest cells r.token_is r.pos_is r.dest_is
            put,
        record {
          reads = λ widest here. (
            eager_row widest here s.block_table r.pos r.dest,
            paging_row-decode block_size widest here s.block_table r.pos r.dest r.pos_is r.dest_is,
            record {
              input = r.token_is;
              position = refl;
              context_len = refl;
              query_offset = refl;
              q_len = refl;
              dest = refl;
              blocks = all ∙ sym (take-append physical (replicate (widest - n) 0));
            },
          );
          still_current = λ id e.
              subst
                (λ o. elim o [
                  | none ↦ Unit
                  | some j ↦ (take n cells ≡ take n (tables j)) × (n ≤ length (tables j))
                ])
                e (all ∙ sym (ap (take n) at ∙ take-all physical), omega (arith, ap length at));
          wide = wide;
        },
      )
