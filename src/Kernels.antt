-- ===== src/Kernels.antt =====
-- src/llm_serving_engine/kernels/flash_attention.py: the two attention kernels, over an arithmetic
-- that is a parameter. A kernel's program is modelled lane by lane.
pub mod Numbers
pub mod Folds
pub mod Softmax
pub mod Online
pub mod Lanes
pub mod Scan
pub mod Flash
pub mod Paged
pub mod Rows
pub mod Forward
pub mod Agreement
pub mod Isolation
