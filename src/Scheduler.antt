-- ===== src/Scheduler.antt =====
-- src/llm_serving_engine/scheduling/scheduler.py, over any allocator: the three passes of
-- `scheduler_step` and what folds an iteration's tokens back in.
pub mod State
pub mod Decodes
pub mod Prefills
pub mod Admissions
pub mod Step
pub mod Results
pub mod Rules
pub mod Admitting
pub mod Books
pub mod Folding
pub mod Returns
pub mod Phase
pub mod Lifecycle
pub mod Ownership
pub mod Census
pub mod Entries
pub mod Budget
pub mod Progress
pub mod Fuel
