-- ===== src/Receipt.antt =====
-- Signed inference receipts, src/py-inference/src/inference/receipt.py.
pub mod Json
pub mod Character
pub mod Reader
pub mod Decimal
pub mod Payload
pub mod Decode
pub mod Signer
pub mod Examples
