-- ===== src/Pool.antt =====
-- The engine pool, src/py-inference/src/inference/engine_pool.py.
pub mod State
pub mod Sessions
pub mod Pick
pub mod Choice
pub mod Balance
pub mod Pinned
pub mod Affinity
pub mod Rotation
pub mod Fanout
pub mod Yielding
pub mod Report
pub mod Routes
mod Examples
