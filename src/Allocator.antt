-- ===== src/Allocator.antt =====
-- src/llm_serving_engine/scheduling/allocator.py. `KVAllocator`, there a union of two classes that
-- the scheduler drives alike, is an interface here; `Ledger` is what both classes promise of it.
pub mod Block
pub mod Contiguous
pub mod Books
pub mod Cover
pub mod Calls
pub mod Counter
use llm_serving_engine.Base.{ℕ, ◌+◌, ◌≡◌, Bool, Option, some}
use llm_serving_engine.Sequence.{Sequence, BlockTable}

-- `allocate` mutates the pool and the sequence's own table, so it returns the two; `none` is
-- False, which is returned before any write.
pub record KvAllocator : Type 1 where
  pub Pool : Type 0
  pub allocate : Pool → Sequence → (new_tokens decode_reserve : ℕ) → Option (Pool × BlockTable)
  pub free : Pool → BlockTable → Pool × BlockTable
  pub can_ever_fit : Pool → Sequence → Bool

-- A book-keeping of one resource: `spare` is what the pool still has, `used` what it has written
-- down as given out, and `held` what a table holds.
pub record Ledger (kv : KvAllocator) : Type 0 where
  pub spare : kv.Pool → ℕ
  pub used : kv.Pool → ℕ
  pub held : BlockTable → ℕ
  pub allocate_books :
      (p : kv.Pool) (s : Sequence) (n reserve : ℕ) (p' : kv.Pool) (t : BlockTable)
      → kv.allocate p s n reserve ≡ some (p', t)
      → spare p' + held t + used p ≡ spare p + held s.block_table + used p'
  pub free_books :
      (p : kv.Pool) (t : BlockTable)
      → spare (kv.free p t).0 + used p ≡ spare p + held t + used (kv.free p t).0
  pub free_held : (p : kv.Pool) (t : BlockTable) → held (kv.free p t).1 ≡ 0
