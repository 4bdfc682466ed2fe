-- ===== src/Allocator/Calls.antt =====
-- Calls of `allocate` and `free` of src/llm_serving_engine/scheduling/allocator.py on the paged pool, and
-- on a counter that forgets which block is where: how many blocks are free, and the tokens of each table.
use llm_serving_engine.Base.{
  ℕ, ◌+◌, ◌-◌, Bool, true, false, Option, none, some, List, [], ◌∷◌, map, length, get_elem?, set,
  ltb, if◌then◌else◌,
}
use llm_serving_engine.Sequence.{Sequence, BlockTable}
use llm_serving_engine.Allocator.Block.{BlockAllocator, ceil_div, allocate, free}

-- A call for the sequence at an index.
pub data Call : Type 0 where
  grow : (i new_tokens decode_reserve : ℕ) → Call
  give_back : (i : ℕ) → Call

abbrev pub push : {S : Type 0} → Bool → List Bool × S → List Bool × S
push answer (answers, last) = (answer ∷ answers, last)

-- The answers of a list of calls, and the state after them.
unfoldable pub run_calls : {S : Type 0} → (Call → S → Bool × S) → List Call → S → List Bool × S
run_calls step [] st = ([], st)
run_calls step (c ∷ cs) st = let (answer, next) = step c st in push answer (run_calls step cs next)

pub record Paged : Type 0 where
  pub pool : BlockAllocator
  pub seqs : List Sequence

abbrev pub with_table : Paged → ℕ → Sequence → BlockAllocator × BlockTable → Paged
with_table st i s (pool, t) = record {
  pool = pool;
  seqs = set st.seqs i (record s { block_table = t });
}

abbrev pub grown : Paged → ℕ → Sequence → Option (BlockAllocator × BlockTable) → Bool × Paged
grown st i s none = (false, st)
grown st i s (some done) = (true, with_table st i s done)

abbrev pub grow_at : Paged → (i n reserve : ℕ) → Option Sequence → Bool × Paged
grow_at st i n reserve none = (false, st)
grow_at st i n reserve (some s) = grown st i s (allocate st.pool s n reserve)

abbrev pub give_back_at : Paged → ℕ → Option Sequence → Bool × Paged
give_back_at st i none = (false, st)
give_back_at st i (some s) = (true, with_table st i s (free st.pool s.block_table))

unfoldable pub on_pool : Call → Paged → Bool × Paged
unfolding allocate free
on_pool (grow i n reserve) st = grow_at st i n reserve (get_elem? st.seqs i)
on_pool (give_back i) st = give_back_at st i (get_elem? st.seqs i)

-- The counter: the blocks that are free, and the tokens of each table.
pub record Counter : Type 0 where
  pub spare : ℕ
  pub tokens : List ℕ

module _ (block_size : ℕ) where
  abbrev counted : Counter → (i n reserve : ℕ) → Option ℕ → Bool × Counter
  counted c i n reserve none = (false, c)
  counted c i n reserve (some k) =
      let has = c.spare + ceil_div k block_size in
      let needs = ceil_div (k + n) block_size in
      if ltb has (needs + reserve)
      then (false, c)
      else (true, record { spare = has - needs; tokens = set c.tokens i (k + n) })

  abbrev returned : Counter → ℕ → Option ℕ → Bool × Counter
  returned c i none = (false, c)
  returned c i (some k) =
      (true, record { spare = c.spare + ceil_div k block_size; tokens = set c.tokens i 0 })

  unfoldable pub on_counter : Call → Counter → Bool × Counter
  unfolding ceil_div
  on_counter (grow i n reserve) c = counted c i n reserve (get_elem? c.tokens i)
  on_counter (give_back i) c = returned c i (get_elem? c.tokens i)

abbrev pub tokens_of : Sequence → ℕ
tokens_of s = s.block_table.num_tokens

abbrev pub view : Paged → Counter
view st = record { spare = length st.pool.free_blocks; tokens = map tokens_of st.seqs }
