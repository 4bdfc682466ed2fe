-- ===== src/Allocator/Books.antt =====
-- The two allocators as implementations of the interface, and their books: each block is spare or
-- held, and the reserved tokens are those that the pool counts as used.
use llm_serving_engine.Base.{
  ℕ, ◌+◌, ◌≡◌, refl, some, count, count-append, count-take-drop, length, length-append, length-take,
  length-drop, pos, ◌++◌, ◌≤◌, pos_part, neg_part, +ℤ_parts, -ℤ_parts, take, drop, arith,
}
use llm_serving_engine.Sequence.{Sequence, BlockTable}
use llm_serving_engine.Allocator.{KvAllocator, Ledger}
use llm_serving_engine.Allocator.Block
use llm_serving_engine.Allocator.Block.{BlockAllocator}
use llm_serving_engine.Allocator.Contiguous
use llm_serving_engine.Allocator.Contiguous.{ContiguousAllocator}

abbrev pub paged : KvAllocator
paged = record {
  Pool = BlockAllocator;
  allocate = Block.allocate;
  free = Block.free;
  can_ever_fit = Block.can_ever_fit;
}

abbrev pub contiguous : KvAllocator
contiguous = record {
  Pool = ContiguousAllocator;
  allocate = Contiguous.allocate;
  free = Contiguous.free;
  can_ever_fit = Contiguous.can_ever_fit;
}

-- What a successful `allocate` of the paged pool did, for the `needed` blocks that it moved.
pub allocate-some :
    (a : BlockAllocator) (s : Sequence) (n reserve : ℕ) (a' : BlockAllocator) (t : BlockTable)
    → Block.allocate a s n reserve ≡ some (a', t)
    → (needed : ℕ) × (needed ≡ pos_part (Block.needed_blocks a s.block_table n))
      × (a' ≡ record a { free_blocks = drop needed a.free_blocks })
      × (t ≡ record s.block_table {
        num_tokens = s.block_table.num_tokens + n;
        physical_blocks = s.block_table.physical_blocks ++ take needed a.free_blocks;
      })
      × (needed ≤ length a.free_blocks)
unfolding Block.allocate
allocate-some a s n reserve a' t e = (
  pos_part (Block.needed_blocks a s.block_table n),
  refl,
  ground arith,
  ground arith,
  ground arith,
)

module _ (b : ℕ) where
  pub count-allocate :
      (p : BlockAllocator) (s : Sequence) (n reserve : ℕ) (p' : BlockAllocator) (t : BlockTable)
      → Block.allocate p s n reserve ≡ some (p', t)
      → count b p'.free_blocks + count b t.physical_blocks + 0
        ≡ count b p.free_blocks + count b s.block_table.physical_blocks + 0
  count-allocate p s n reserve p' t e =
      let (needed, _, pool, table, _) = allocate-some p s n reserve p' t e in
      let held = s.block_table.physical_blocks in
      rw (pool, table)
        (omega (
          arith,
          count-append b held (take needed p.free_blocks),
          count-take-drop b needed p.free_blocks,
        ))

  pub count-free :
      (p : BlockAllocator) (t : BlockTable)
      → count b (Block.free p t).0.free_blocks + 0
        ≡ count b p.free_blocks + count b t.physical_blocks + 0
  unfolding Block.free
  count-free p t = omega (arith, count-append b p.free_blocks t.physical_blocks)

  pub count-free_held :
      (p : BlockAllocator) (t : BlockTable) → count b (Block.free p t).1.physical_blocks ≡ 0
  unfolding Block.free
  count-free_held p t = refl

-- The book of one block: it is among the free blocks, or in a table.
abbrev pub block_ledger : ℕ → Ledger paged
block_ledger b = record {
  spare = λ p. count b p.free_blocks;
  used = λ p. 0;
  held = λ t. count b t.physical_blocks;
  allocate_books = count-allocate b;
  free_books = count-free b;
  free_held = count-free_held b;
}

pub length-allocate :
    (p : BlockAllocator) (s : Sequence) (n reserve : ℕ) (p' : BlockAllocator) (t : BlockTable)
    → Block.allocate p s n reserve ≡ some (p', t)
    → length p'.free_blocks + length t.physical_blocks + 0
      ≡ length p.free_blocks + length s.block_table.physical_blocks + 0
length-allocate p s n reserve p' t e =
    let (needed, _, pool, table, fits) = allocate-some p s n reserve p' t e in
    let held = s.block_table.physical_blocks in
    rw (pool, table)
      (omega (
        arith,
        fits,
        length-append held (take needed p.free_blocks),
        length-take needed p.free_blocks,
        length-drop needed p.free_blocks,
      ))

pub length-free :
    (p : BlockAllocator) (t : BlockTable)
    → length (Block.free p t).0.free_blocks + 0
      ≡ length p.free_blocks + length t.physical_blocks + 0
unfolding Block.free
length-free p t = omega (arith, length-append p.free_blocks t.physical_blocks)

pub length-free_held :
    (p : BlockAllocator) (t : BlockTable) → length (Block.free p t).1.physical_blocks ≡ 0
unfolding Block.free
length-free_held p t = refl

-- The book of the pool's size.
abbrev pub size_ledger : Ledger paged
size_ledger = record {
  spare = λ p. length p.free_blocks;
  used = λ p. 0;
  held = λ t. length t.physical_blocks;
  allocate_books = length-allocate;
  free_books = length-free;
  free_held = length-free_held;
}

pub reserved-allocate :
    (p : ContiguousAllocator) (s : Sequence) (n reserve : ℕ) (p' : ContiguousAllocator)
    (t : BlockTable)
    → Contiguous.allocate p s n reserve ≡ some (p', t)
    → neg_part p'.used_tokens + t.reserved_tokens + pos_part p.used_tokens
      ≡ neg_part p.used_tokens + s.block_table.reserved_tokens + pos_part p'.used_tokens
unfolding Contiguous.allocate
reserved-allocate p s n reserve p' t e =
    ground (arith, +ℤ_parts p.used_tokens (pos (Contiguous.reservation s)))

pub reserved-free :
    (p : ContiguousAllocator) (t : BlockTable)
    → neg_part (Contiguous.free p t).0.used_tokens + pos_part p.used_tokens
      ≡ neg_part p.used_tokens + t.reserved_tokens + pos_part (Contiguous.free p t).0.used_tokens
unfolding Contiguous.free
reserved-free p t = omega (arith, -ℤ_parts p.used_tokens (pos t.reserved_tokens))

pub reserved-free_held :
    (p : ContiguousAllocator) (t : BlockTable) → (Contiguous.free p t).1.reserved_tokens ≡ 0
unfolding Contiguous.free
reserved-free_held p t = refl

-- The book of the reserved tokens.
abbrev pub reservation_ledger : Ledger contiguous
reservation_ledger = record {
  spare = λ p. neg_part p.used_tokens;
  used = λ p. pos_part p.used_tokens;
  held = λ t. t.reserved_tokens;
  allocate_books = reserved-allocate;
  free_books = reserved-free;
  free_held = reserved-free_held;
}
