-- ===== src/Crypto.antt =====
-- crates/misty-crypto: device identities and rosters, and envelopes.
pub mod Error
pub mod Primitives
pub mod Identity
pub mod Envelope
pub mod Derive
