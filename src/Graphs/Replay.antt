-- ===== src/Graphs/Replay.antt =====
-- The life of a decode graph of model/decode_graph.py, and its rows against the eager ones.
use llm_serving_engine.Base.{
  ℕ, suc, ◌≤◌, ◌≡◌, refl, sym, ap, ◌∙◌, subst, inl, inr, false, some, List, [], ◌∷◌, ◌++◌, map,
  length, length-append, length-replicate, All, All-map, length-map, All-weaken, All-replicate,
  take-append_le, some_or-eq, arith, ◌==◌, if◌then◌else◌, Bool-cases,
}
use llm_serving_engine.Sequence.{Sequence, BlockTable}
use llm_serving_engine.Paging.{PagingRow, rows_of, paging_rows, max_blocks}
use llm_serving_engine.Graphs.Fill.{
  GraphRow, alloc, dummy_row, fill_dummy, holds_id, forget_row, forget, pad_row, fill_real,
}
use llm_serving_engine.Graphs.Cells.{IsCurrent, IsReady, Reads, fill_row-IsFilled}

abbrev table_of : Sequence → BlockTable
table_of s = s.block_table

-- `_flat_rows` gives the decodes of a plan the spans from `at` on, of one token each.
abbrev pub spans : ℕ → List Sequence → List (ℕ × ℕ)
spans at [] = []
spans at (s ∷ ss) = (at, suc at) ∷ spans (suc at) ss

-- A row that the kernel skips, and whose K/V goes to the scratch block.
abbrev pub IsPadding : ℕ → GraphRow → Type 0
IsPadding scratch row = (row.q_len ≡ 0) × (row.dest_block_id ≡ scratch)

-- The rows of the graph against the eager ones, with padding behind them.
pub data Agree (scratch : ℕ) : List Sequence → List GraphRow → List PagingRow → Type 0 where
  padding : (rows : List GraphRow) → All (IsPadding scratch) rows → Agree scratch [] rows []
  row_of :
      (s : Sequence) (ss : List Sequence) (row : GraphRow) (rows : List GraphRow)
      (eager : PagingRow) (eagers : List PagingRow)
      → Reads s row eager
      → Agree scratch ss rows eagers
      → Agree scratch (s ∷ ss) (row ∷ rows) (eager ∷ eagers)

-- The rows have `cells` cells each, and what they record is so.
abbrev pub IsTrue : (tables : ℕ → List ℕ) (cells : ℕ) → GraphRow → Type 0
IsTrue tables cells row = IsCurrent tables row × (length row.block_row ≡ cells)

pads : (scratch : ℕ) (rows : List GraphRow) → All (IsPadding scratch) (map (pad_row scratch) rows)
pads scratch [] = tt
pads scratch (row ∷ rows) = ((refl, refl), pads scratch rows)

module _ (block_size cells : ℕ) (tables : ℕ → List ℕ) where
  -- A sequence whose decode is planned.
  abbrev pub IsOwed : Sequence → Type 0
  IsOwed s = IsReady block_size cells s × (tables s.seq_id ≡ s.block_table.physical_blocks)

module _ (block_size scratch widest cells : ℕ) (tables : ℕ → List ℕ) where
  pub fill_real-agrees :
      (ss : List Sequence) (rows : List GraphRow) (at : ℕ)
      → length ss ≤ length rows
      → All (IsOwed block_size cells tables) ss
      → All (IsTrue tables cells) rows
      → (rows' : List GraphRow) × (eagers : List PagingRow) × (fill_real block_size scratch ss rows
          ≡ some rows')
        × (rows_of block_size widest (map table_of ss) (spans at ss) ≡ some eagers)
        × Agree scratch ss rows' eagers
        × All (IsTrue tables cells) rows'
        × (length rows' ≡ length rows)
  unfolding fill_real rows_of
  fill_real-agrees [] rows at h _ all = (
    map (pad_row scratch) rows,
    [],
    refl,
    refl,
    padding _ (pads scratch rows),
    All-map (IsTrue tables cells) (pad_row scratch) rows (λ row true. true) all,
    length-map (pad_row scratch) rows,
  )
  fill_real-agrees (s ∷ ss) [] at h _ _ = absurd (omega arith)
  fill_real-agrees (s ∷ ss) (row ∷ rows) at h ((ready, table), owed) ((current, wide), all) =
      let (row', fills, f) =
        fill_row-IsFilled tables block_size s row
          (subst (λ n. IsReady block_size n s) (sym wide) ready) table current in
      let (eager, builds, reads) = f.reads widest at in
      let (rows', eagers, fill, build, agree, all', size) =
        fill_real-agrees ss rows (suc at) (omega arith) owed all in
      (
        row' ∷ rows',
        eager ∷ eagers,
        rw (fills, fill) refl,
        rw (builds, build) refl,
        row_of s ss row' rows' eager eagers reads agree,
        ((f.still_current, f.wide ∙ wide), all'),
        ap suc size,
      )

-- A graph, and the blocks that the tables of the sequences hold.
pub record GraphState : Type 0 where
  pub rows : List GraphRow
  pub tables : ℕ → List ℕ

module _ (block_size scratch cells : ℕ) where
  pub data Use : GraphState → GraphState → Type 0 where
    replays :
        (g : GraphState) (rows : List GraphRow) (ss : List Sequence)
        → length ss ≤ length g.rows
        → All (IsOwed block_size cells g.tables) ss
        → fill_real block_size scratch ss g.rows ≡ some rows
        → Use g (record g { rows = rows })
    checks : (g : GraphState) → Use g (record g { rows = fill_dummy scratch g.rows })
    -- The allocator appends blocks to tables.
    grows :
        (g : GraphState) (more : ℕ → List ℕ)
        → Use g (record g { tables = λ id. g.tables id ++ more id })
    -- The blocks of a sequence are freed, and `forget` is called; it may hold any blocks later.
    frees :
        (g : GraphState) (id : ℕ) (blocks : List ℕ)
        → Use g (record {
          rows = forget id g.rows;
          tables = λ j. if j == id then blocks else g.tables j;
        })

  -- Any number of uses.
  pub data Uses : GraphState → GraphState → Type 0 where
    stays : (g : GraphState) → Uses g g
    goes : (g mid g' : GraphState) → Uses g mid → Use mid g' → Uses g g'

  abbrev IsTruthful : GraphState → Type 0
  IsTruthful g = All (IsTrue g.tables cells) g.rows

  dummy-IsTrue :
      (tables : ℕ → List ℕ) (row : GraphRow)
      → IsTrue tables cells row
      → IsTrue tables cells (dummy_row scratch row)
  dummy-IsTrue tables row (current, wide) =
      (λ id e. absurd cc, length-map (λ cell. scratch) row.block_row ∙ wide)

  grow-IsTrue :
      (tables more : ℕ → List ℕ) (row : GraphRow)
      → IsTrue tables cells row
      → IsTrue (λ id. tables id ++ more id) cells row
  grow-IsTrue tables more row (current, wide) = (
    λ id e.
        let (same, inside) = current id e in
        (
          same ∙ sym (take-append_le row.blocks_written (tables id) (more id) inside),
          omega (arith, inside, length-append (tables id) (more id)),
        ),
    wide,
  )

  forget-IsTrue :
      (tables : ℕ → List ℕ) (id : ℕ) (blocks : List ℕ) (row : GraphRow)
      → IsTrue tables cells row
      → IsTrue (λ j. if j == id then blocks else tables j) cells (forget_row id row)
  unfolding forget_row
  forget-IsTrue tables id blocks row (current, wide) =
      elim (Bool-cases (holds_id id row.row_seq_id)) [
        | inl gone ↦ rw gone (λ j e. absurd cc, wide)
        | inr here ↦ rw here (
          λ j e.
              let other : (j == id) ≡ false = sym (ap (holds_id id) e) ∙ here in
              rw other (current j e),
          wide,
        )
      ]

  Use-IsTruthful : (g g' : GraphState) → Use g g' → IsTruthful g → IsTruthful g'
  Use-IsTruthful g _ (replays _ rows ss few owed fill) all =
      let (rows', eagers, fill', build, agree, all', size) =
        fill_real-agrees block_size scratch 0 cells g.tables ss g.rows 0 few owed all in
      subst (All (IsTrue g.tables cells)) (some_or-eq rows' rows (sym fill' ∙ fill)) all'
  Use-IsTruthful g _ (checks _) all =
      All-map (IsTrue g.tables cells) (dummy_row scratch) g.rows (dummy-IsTrue g.tables) all
  Use-IsTruthful g _ (grows _ more) all =
      All-weaken (IsTrue (λ id. g.tables id ++ more id) cells) g.rows (grow-IsTrue g.tables more)
        all
  Use-IsTruthful g _ (frees _ id blocks) all =
      All-map (IsTrue (λ j. if j == id then blocks else g.tables j) cells) (forget_row id) g.rows
        (forget-IsTrue g.tables id blocks) all

  Uses-IsTruthful : (g g' : GraphState) → Uses g g' → IsTruthful g → IsTruthful g'
  Uses-IsTruthful g _ (stays _) all = all
  Uses-IsTruthful g _ (goes _ mid g' before last) all =
      Use-IsTruthful mid g' last (Uses-IsTruthful g mid before all)

  -- What `capture` leaves before the first replay.
  abbrev pub new_graph : ℕ → (ℕ → List ℕ) → GraphState
  new_graph bucket tables = record {
    rows = fill_dummy scratch (alloc bucket cells);
    tables = tables;
  }

  new_graph-IsTruthful : (bucket : ℕ) (tables : ℕ → List ℕ) → IsTruthful (new_graph bucket tables)
  new_graph-IsTruthful bucket tables =
      All-map (IsTrue tables cells) (dummy_row scratch) (alloc bucket cells) (dummy-IsTrue tables)
        (All-replicate (IsTrue tables cells) bucket _ (λ id e. absurd cc, length-replicate cells 0))

  -- Over any life of a captured decode graph, in which it is filled and checked, tables grow, and
  -- freed sequences are forgotten: if a plan has no more sequences than the graph has rows, and
  -- each has a last token, a slot for its position and a table no wider than the rows, then
  -- fill_real returns, the eager paging_rows of the same decodes return, each filled row has the
  -- token, the position, the lengths, the destination and the blocks of the eager row, and the
  -- rows behind them are skipped and write to the scratch block.
  pub replay-agrees :
      (bucket : ℕ) (tables : ℕ → List ℕ) (g : GraphState) (ss : List Sequence)
      → Uses (new_graph bucket tables) g
      → length ss ≤ length g.rows
      → All (IsOwed block_size cells g.tables) ss
      → (rows : List GraphRow) × (eagers : List PagingRow) × (fill_real block_size scratch ss g.rows
          ≡ some rows)
        × (paging_rows block_size (map table_of ss) (spans 0 ss) ≡ some eagers)
        × Agree scratch ss rows eagers
  unfolding paging_rows
  replay-agrees bucket tables g ss uses few owed =
      let (rows, eagers, fill, build, agree, _, _) =
        fill_real-agrees block_size scratch (max_blocks (map table_of ss)) cells g.tables ss g.rows
          0 few owed
          (Uses-IsTruthful (new_graph bucket tables) g uses (new_graph-IsTruthful bucket tables)) in
      (rows, eagers, fill, build, agree)
