-- ===== src/Startup.antt =====
-- The process entry, src/py-inference/src/main.py.
pub mod Boot
pub mod Shutdown
pub mod Wiring
pub mod Fresh
pub mod Deferral
mod Examples
