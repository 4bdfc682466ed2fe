-- ===== src/Examples/Replays.antt =====
-- A decode graph of two rows, src/llm_serving_engine/model/decode_graph.py, over the pool of eight
-- blocks: it is replayed, and the table of its sequence grows.
use llm_serving_engine.Base.{
  ℕ, ◌≡◌, refl, none, some, ◌++◌, List, [], ◌∷◌, ◌==◌, if◌then◌else◌, arith,
}
use llm_serving_engine.Sequence.{Sequence, BlockTable}
use llm_serving_engine.Paging.{PagingRow, slot, last_token, paging_rows}
use llm_serving_engine.Graphs.Fill.{GraphRow, fill_real, fill_row, fill_at, put_cells}
use llm_serving_engine.Graphs.Replay.{
  Agree, GraphState, new_graph, replays, grows, goes, stays, replay-agrees,
}
use llm_serving_engine.Examples.{first}

abbrev grown_table : BlockTable
grown_table = record { physical_blocks = 0 ∷ 6 ∷ []; num_tokens = 5; reserved_tokens = 0 }

abbrev grown : Sequence
grown = record first { block_table = grown_table; generated_tokens = 14 ∷ 15 ∷ 16 ∷ [] }

abbrev old_tables : ℕ → List ℕ
old_tables id = if id == 0 then 0 ∷ [] else []

abbrev one_more : ℕ → List ℕ
one_more id = if id == 0 then 6 ∷ [] else []

abbrev start : GraphState
start = new_graph 4 8 8 2 old_tables

abbrev once : List GraphRow
once =
    record {
      input_id = 15;
      position_id = 3;
      dest_block_id = 0;
      dest_within = 3;
      context_len = 4;
      query_offset = 3;
      q_len = 1;
      block_row = 0 ∷ 8 ∷ 8 ∷ 8 ∷ 8 ∷ 8 ∷ 8 ∷ 8 ∷ [];
      row_seq_id = some 0;
      blocks_written = 1;
    }
    ∷ record {
      input_id = 0;
      position_id = 0;
      dest_block_id = 8;
      dest_within = 0;
      context_len = 0;
      query_offset = 0;
      q_len = 0;
      block_row = 8 ∷ 8 ∷ 8 ∷ 8 ∷ 8 ∷ 8 ∷ 8 ∷ 8 ∷ [];
      row_seq_id = none;
      blocks_written = 0;
    }
    ∷ []

fills_once : fill_real 4 8 (first ∷ []) start.rows ≡ some once
unfolding fill_real fill_row fill_at put_cells slot last_token
fills_once = refl

abbrev replayed : GraphState
replayed = record start { rows = once }

abbrev later : GraphState
later = record { rows = once; tables = λ id. old_tables id ++ one_more id }

replay-agrees_example :
    (rows : List GraphRow) × (eagers : List PagingRow) × (fill_real 4 8 (grown ∷ []) once
      ≡ some rows)
    × (paging_rows 4 (grown_table ∷ []) ((0, 1) ∷ []) ≡ some eagers)
    × Agree 8 (grown ∷ []) rows eagers
unfolding slot last_token
replay-agrees_example =
    replay-agrees 4 8 8 2 old_tables later (grown ∷ [])
      (goes start replayed later
        (goes start start replayed (stays start) (
          replays start once (first ∷ []) (omega arith)
            (
              (
                record {
                  token = 15;
                  pos = 3;
                  dest = (0, 3);
                  token_is = refl;
                  pos_is = refl;
                  dest_is = refl;
                  fits = omega arith;
                },
                refl,
              ),
              tt,
            )
            fills_once))
        (grows replayed one_more))
      (omega arith)
      (
        (
          record {
            token = 16;
            pos = 4;
            dest = (6, 0);
            token_is = refl;
            pos_is = refl;
            dest_is = refl;
            fits = omega arith;
          },
          refl,
        ),
        tt,
      )
