-- ===== src/Config.antt =====
-- The configuration, src/py-inference/src/config.py, and the pool that is built from it.
pub mod Devices
pub mod Load
pub mod Build
pub mod Covers
pub mod Environment
pub mod Interpolate
pub mod Examples
