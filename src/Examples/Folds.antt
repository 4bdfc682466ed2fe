-- ===== src/Examples/Folds.antt =====
-- Folding results and aborts, src/llm_serving_engine/scheduling/scheduler.py, on the example states.
use llm_serving_engine.Base.{ℕ, ◌+◌, ◌≡◌, refl, true, false, some, List, [], ◌∷◌, total, arith}
use llm_serving_engine.Sequence.{Sequence, BlockTable, empty_table, decoding}
use llm_serving_engine.Allocator.Block.{BlockAllocator, free, ceil_div}
use llm_serving_engine.Allocator.Books.{paged, block_ledger}
use llm_serving_engine.Allocator.Calls.{
  Call, grow, give_back, run_calls, Paged, on_pool, on_counter, view,
}
use llm_serving_engine.Allocator.Counter.{IsTight, run_calls-view}
use llm_serving_engine.Scheduler.Results.{TokenResult, Folded, take_token, mark_done, fold_results}
use llm_serving_engine.Scheduler.Folding.{live_holdings, fold_results-books}
use llm_serving_engine.Scheduler.Returns.{fold_results-total}
use llm_serving_engine.Scheduler.Census.{fold_results-census}
use llm_serving_engine.Examples.{first, second, busy_state}

-- The second sequence has decoded its last token, the first one goes on.
abbrev last_one : Sequence
last_one = record second { status = decoding }

abbrev reports : List TokenResult
reports =
    record { seq_id = 1; token = 26; finished = true }
    ∷ record { seq_id = 0; token = 16; finished = false }
    ∷ []

abbrev before : Folded paged
before = record { running = first ∷ last_one ∷ []; pool = busy_state.pool; done = [] }

abbrev folded : Folded paged
folded = record {
  running = take_token 50 16 first ∷ [];
  pool = (paged.free busy_state.pool second.block_table).0;
  done = mark_done 50 empty_table (take_token 50 26 last_one) ∷ [];
}

folds : fold_results paged 50 reports before ≡ some folded
unfolding fold_results take_token mark_done free
folds = refl

abbrev held : Sequence → ℕ
held s = (block_ledger 1).held s.block_table

fold_results-books_example :
    (live_holdings paged (block_ledger 1) folded + (block_ledger 1).used before.pool
      ≡ live_holdings paged (block_ledger 1) before + (block_ledger 1).used folded.pool)
    × (total held folded.done ≡ total held before.done)
fold_results-books_example =
    fold_results-books paged (block_ledger 1) 50 reports before folded folds

fold_results-census_example :
    total (λ s. s.seq_id + 1) folded.running + total (λ s. s.seq_id + 1) folded.done
    ≡ total (λ s. s.seq_id + 1) before.running + total (λ s. s.seq_id + 1) before.done
fold_results-census_example =
    fold_results-census paged (λ id. id + 1) 50 reports before folded folds

fold_results-total_example :
    (st' : Folded paged) × (fold_results paged 50 reports before ≡ some st')
unfolding fold_results
fold_results-total_example =
    fold_results-total paged 50 reports before
      ((last_one, refl), ((λ e. absurd (omega (arith, e))), tt), ((first, refl), tt, tt))

abbrev grown : BlockTable
grown = record { physical_blocks = 0 ∷ 2 ∷ []; num_tokens = 5; reserved_tokens = 0 }

abbrev left : BlockAllocator
left = record busy_state.pool { free_blocks = 3 ∷ 4 ∷ 5 ∷ 6 ∷ 7 ∷ [] }

abbrev two_tables : Paged
two_tables = record { pool = busy_state.pool; seqs = first ∷ second ∷ [] }

abbrev some_calls : List Call
some_calls = grow 0 1 0 ∷ grow 1 2 5 ∷ give_back 0 ∷ []

run_calls-view_example :
    (run_calls (on_counter 4) some_calls (record { spare = 6; tokens = 4 ∷ 3 ∷ [] }) ≡ (
      (run_calls on_pool some_calls two_tables).0,
      view (run_calls on_pool some_calls two_tables).1,
    ))
    × IsTight (run_calls on_pool some_calls two_tables).1
unfolding ceil_div
run_calls-view_example =
    run_calls-view some_calls two_tables
      (record { has_size = omega arith; covered = (refl, (refl, tt)) })
