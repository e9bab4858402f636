-- ===== src/Vault.antt =====
-- crates/misty-vault: the item model, its replicated types and their merge.
pub mod Error
pub mod Hlc
pub mod Crdt
pub mod Tombstone
pub mod Conflict
pub mod Item
pub mod ItemSet
pub mod Group
pub mod Store
pub mod Same
pub mod State
pub mod Change
pub mod Remote
