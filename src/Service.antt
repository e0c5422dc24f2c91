-- ===== src/Service.antt =====
-- The listener and the pool together, src/py-inference/src/scheduler_client/listener.py and
-- src/py-inference/src/inference/engine_pool.py.
pub mod Dispatch
pub mod Told
pub mod Obeyed
pub mod Fencing
mod Examples
