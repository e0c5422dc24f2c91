-- ===== src/Mock.antt =====
-- The mock engine, class MockEngine of src/py-inference/src/inference/engine.py.
pub mod Tasks
pub mod Laws
pub mod Answers
