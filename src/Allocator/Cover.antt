-- ===== src/Allocator/Cover.antt =====
-- The blocks that a paged table needs for its tokens, and `allocate` on such tables.
use native.Mathlib.Nat.{div-lt_iff_lt-mul}
use llm_serving_engine.Base.{
  ℕ, ◌+◌, ◌-◌, ◌*◌, ◌/◌, ◌≤◌, ◌<◌, ◌≡◌, ◌↔◌, some, none, refl, length-drop, take, length,
  length-append, length-take, pos_part, arith,
}
use llm_serving_engine.Sequence.{Sequence, BlockTable}
use llm_serving_engine.Allocator.Block.{BlockAllocator, ceil_div, needed_blocks, allocate}
use llm_serving_engine.Allocator.Books.{allocate-some}

-- `ceil_div` is the least number of blocks that hold the tokens.
pub ceil_div-le_iff : (a b k : ℕ) → 0 < b → (ceil_div a b ≤ k) ↔ (a ≤ k * b)
unfolding ceil_div
ceil_div-le_iff a b k h =
    let (down, up) = div-lt_iff_lt-mul {k = b} {x = a + (b - 1)} {y = k + 1} h in
    (
      λ le. let lt = down (omega arith) in omega (arith, lt),
      λ le. let lt = up (omega arith) in omega (arith, lt),
    )

pub le-ceil_div-mul : (a b : ℕ) → 0 < b → a ≤ ceil_div a b * b
le-ceil_div-mul a b h = (ceil_div-le_iff a b (ceil_div a b) h).0 (omega arith)

pub ceil_div_mono : (a c b : ℕ) → 0 < b → a ≤ c → ceil_div a b ≤ ceil_div c b
ceil_div_mono a c b h le =
    (ceil_div-le_iff a b (ceil_div c b) h).1 (omega (arith, le-ceil_div-mul c b h))

pub div-lt-ceil_div : (p n b : ℕ) → 0 < b → p < n → p / b < ceil_div n b
div-lt-ceil_div p n b h lt =
    (div-lt_iff_lt-mul {k = b} {x = p} {y = ceil_div n b} h).1
      (omega (arith, le-ceil_div-mul n b h))

pub ceil_div-zero : (b : ℕ) → 0 < b → ceil_div 0 b ≡ 0
ceil_div-zero b h = omega (arith, (ceil_div-le_iff 0 b 0 h).1 (omega arith))

-- The table has just the blocks that its tokens need.
abbrev pub IsCovered : ℕ → BlockTable → Type 0
IsCovered block_size t = length t.physical_blocks ≡ ceil_div t.num_tokens block_size

-- Of a table that has no block too many, the guard of `allocate` is the sum of needs.
allocate_guard :
    (a : BlockAllocator) (s : Sequence) (n reserve : ℕ) (a' : BlockAllocator) (t : BlockTable)
    → length s.block_table.physical_blocks ≤ ceil_div (s.block_table.num_tokens + n) a.block_size
    → allocate a s n reserve ≡ some (a', t)
    → ceil_div (s.block_table.num_tokens + n) a.block_size + reserve
      ≤ length a.free_blocks + length s.block_table.physical_blocks
unfolding allocate
allocate_guard a s n reserve a' t le e = ground arith

needed_exact :
    (a : BlockAllocator) (t : BlockTable) (n : ℕ)
    → length t.physical_blocks ≤ ceil_div (t.num_tokens + n) a.block_size
    → pos_part (needed_blocks a t n) + length t.physical_blocks
      ≡ ceil_div (t.num_tokens + n) a.block_size
unfolding needed_blocks
needed_exact a t n le = ground arith

covered_room :
    (a : BlockAllocator) (t : BlockTable) (n : ℕ)
    → 0 < a.block_size
    → IsCovered a.block_size t
    → length t.physical_blocks ≤ ceil_div (t.num_tokens + n) a.block_size
covered_room a t n h c =
    omega (arith, ceil_div_mono t.num_tokens (t.num_tokens + n) a.block_size h (omega arith), c)

-- With a positive block size and a table that has just the blocks its tokens need, an allocate on
-- the paged pool that succeeds adds the new tokens to the table, leaves it with just the blocks
-- they need, leaves the decode reserve free and keeps the sizes of the pool.
pub allocate-IsCovered :
    (a : BlockAllocator) (s : Sequence) (n reserve : ℕ) (a' : BlockAllocator) (t : BlockTable)
    → 0 < a.block_size
    → IsCovered a.block_size s.block_table
    → allocate a s n reserve ≡ some (a', t)
    → IsCovered a.block_size t
      × (t.num_tokens ≡ s.block_table.num_tokens + n)
      × (reserve ≤ length a'.free_blocks)
      × (a'.block_size ≡ a.block_size)
      × (a'.num_blocks ≡ a.num_blocks)
allocate-IsCovered a s n reserve a' t h c e =
    let (needed, need, pool, table, fits) = allocate-some a s n reserve a' t e in
    let room = covered_room a s.block_table n h c in
    let exact = needed_exact a s.block_table n room in
    let guard = allocate_guard a s n reserve a' t room e in
    let held = s.block_table.physical_blocks in
    rw (pool, table)
      (
        omega (
          arith,
          need,
          exact,
          fits,
          length-append held (take needed a.free_blocks),
          length-take needed a.free_blocks,
        ),
        omega arith,
        omega (arith, need, exact, guard, length-drop needed a.free_blocks),
        refl,
        refl,
      )

-- With a positive block size and a table that has just the blocks its tokens need, allocate on the
-- paged pool refuses if and only if the blocks of all tokens and the decode reserve are more than
-- the free blocks and those of the table.
pub allocate-none_iff :
    (a : BlockAllocator) (s : Sequence) (n reserve : ℕ)
    → 0 < a.block_size
    → IsCovered a.block_size s.block_table
    → (allocate a s n reserve ≡ none) ↔ (
        length a.free_blocks + length s.block_table.physical_blocks
        < ceil_div (s.block_table.num_tokens + n) a.block_size + reserve)
unfolding allocate
allocate-none_iff a s n reserve h c =
    let room = covered_room a s.block_table n h c in
    (λ e. ground (arith, room), λ lt. ground (arith, room))
