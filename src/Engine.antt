-- ===== src/Engine.antt =====
-- src/llm_serving_engine/engine.py: the requests between `submit` and their end, over any allocator.
pub mod State
pub mod Moves
pub mod Lists
pub mod Conservation
pub mod Tracking
pub mod Forward
