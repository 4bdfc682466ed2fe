-- ===== src/Scheduler/Ownership.antt =====
-- Where the blocks of the paged pool are, over `scheduler_step`.
use llm_serving_engine.Base.{
  ℕ, zero, suc, ◌+◌, ◌≤◌, ◌≡◌, ◌≢◌, refl, ap, some, List, [], ◌∷◌, get_elem?, total, count,
  count-range, ltb, if◌then◌else◌, arith,
}
use llm_serving_engine.Sequence.{Sequence, empty_plan}
use llm_serving_engine.Allocator.Block.{new}
use llm_serving_engine.Allocator.Books.{paged, block_ledger}
use llm_serving_engine.Scheduler.State.{Scheduler, SchedulerState}
use llm_serving_engine.Scheduler.Step.{scheduler_step}
use llm_serving_engine.Scheduler.Books.{scheduler_step-books}

abbrev pub blocks_of : ℕ → Sequence → ℕ
blocks_of b s = count b s.block_table.physical_blocks

-- How often a block stands in the free list, in the tables of the two lists and in those of the
-- sequences that the plan rejects.
abbrev pub places : ℕ → SchedulerState paged → ℕ
places b st =
    count b st.pool.free_blocks
    + total (blocks_of b) st.running
    + total (blocks_of b) st.queue
    + total (blocks_of b) st.plan.rejected

-- Every block is in one place.
abbrev pub OwnsOnce : ℕ → SchedulerState paged → Type 0
OwnsOnce num_blocks st = (b : ℕ) → places b st ≡ (if ltb b num_blocks then 1 else 0)

abbrev pub idle_state : ℕ → ℕ → SchedulerState paged
idle_state num_blocks block_size = record {
  running = [];
  queue = [];
  pool = new num_blocks block_size;
  plan = empty_plan;
}

pub idle-OwnsOnce :
    (num_blocks block_size : ℕ) → OwnsOnce num_blocks (idle_state num_blocks block_size)
unfolding new
idle-OwnsOnce num_blocks block_size b = ground (arith, count-range b 0 num_blocks)

-- From a state whose plan rejects nothing and in which each block below num_blocks is in exactly
-- one place (the free list, or the table of a running, waiting or rejected sequence) and no other
-- block is in any, scheduler_step on the paged pool leads to such a state, whatever it preempts,
-- continues, admits or rejects.
pub scheduler_step-OwnsOnce :
    (sched : Scheduler) (clock : ℕ → ℕ) (num_blocks : ℕ) (st : SchedulerState paged)
    → st.plan.rejected ≡ []
    → OwnsOnce num_blocks st
    → OwnsOnce num_blocks (scheduler_step paged sched clock st)
scheduler_step-OwnsOnce sched clock num_blocks st none_left own b = omega (
  arith,
  own b,
  scheduler_step-books paged (block_ledger b) sched clock st,
  ap (total (blocks_of b)) none_left,
)

module _ (f : Sequence → ℕ) where
  le_total :
      (ss : List Sequence) (i : ℕ) (s : Sequence) → get_elem? ss i ≡ some s → f s ≤ total f ss
  le_total [] i s e = absurd (ground arith)
  le_total (x ∷ ss) zero s e = ground arith
  le_total (x ∷ ss) (suc i) s e = omega (arith, le_total ss i s e)

  -- Two positions of a list count apart.
  pub add-le_total :
      (ss : List Sequence) (i j : ℕ) (s t : Sequence)
      → i ≢ j
      → get_elem? ss i ≡ some s
      → get_elem? ss j ≡ some t
      → f s + f t ≤ total f ss
  add-le_total [] i j s t ne e g = absurd (ground arith)
  add-le_total (x ∷ ss) zero zero s t ne e g = absurd (ne refl)
  add-le_total (x ∷ ss) zero (suc j) s t ne e g = ground (arith, le_total ss j t g)
  add-le_total (x ∷ ss) (suc i) zero s t ne e g = ground (arith, le_total ss i s e)
  add-le_total (x ∷ ss) (suc i) (suc j) s t ne e g =
      omega (arith, add-le_total ss i j s t (λ e. ne (ap suc e)) e g)

pub OwnsOnce-running :
    (num_blocks : ℕ) (st : SchedulerState paged) (i : ℕ) (s : Sequence) (b : ℕ)
    → OwnsOnce num_blocks st
    → get_elem? st.running i ≡ some s
    → blocks_of b s ≤ (if ltb b num_blocks then 1 else 0)
OwnsOnce-running num_blocks st i s b own at =
    omega (arith, own b, le_total (blocks_of b) st.running i s at)

pub OwnsOnce-two :
    (num_blocks : ℕ) (st : SchedulerState paged) (i j : ℕ) (s t : Sequence) (b : ℕ)
    → OwnsOnce num_blocks st
    → i ≢ j
    → get_elem? st.running i ≡ some s
    → get_elem? st.running j ≡ some t
    → blocks_of b s + blocks_of b t ≤ 1
OwnsOnce-two num_blocks st i j s t b own ne at at' =
    ground (arith, own b, add-le_total (blocks_of b) st.running i j s t ne at at')
