-- ===== src/Api.antt =====
-- The HTTP API, src/py-inference/src/inference/api_server.py.
pub mod Names
pub mod Matching
pub mod Requests
pub mod Stream
pub mod Attested
pub mod Handlers
pub mod Gates
pub mod Switch
pub mod Once
mod Examples
