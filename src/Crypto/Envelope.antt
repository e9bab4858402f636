-- ===== src/Crypto/Envelope.antt =====
-- crates/misty-crypto/src/envelope.
pub mod Pad
pub mod Header
pub mod Seal
