-- ===== src/Models.antt =====
-- Models and their download, src/py-inference/src/model.
pub mod Foc
pub mod Cids
pub mod Cache
pub mod Download
pub mod Crash
pub mod Outcome
pub mod Archive
pub mod Paths
pub mod Confined
pub mod Manager
pub mod Local
pub mod MockClient
pub mod Ensure
mod Examples
