-- ===== src/Otp.antt =====
-- crates/misty-otp: one-time passwords.
pub mod Error
pub mod Config
pub mod Raw
pub mod Generate
pub mod Resync
pub mod Base32
