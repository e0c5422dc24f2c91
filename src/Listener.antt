-- ===== src/Listener.antt =====
-- The scheduler listener, src/py-inference/src/scheduler_client/listener.py.
pub mod Poll
pub mod Client
pub mod Heartbeat
pub mod Thread
pub mod Fence
pub mod Failsafe
mod Examples
