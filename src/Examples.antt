-- ===== src/Examples.antt =====
-- Concrete runs of the model: the data they share, and each theorem at one input.
pub mod Data
pub mod Keys
mod Sets
mod Items
mod Clocks
mod Codes
mod Envelopes
mod Feeds
mod Pulls
mod Vaults
mod Syncs
