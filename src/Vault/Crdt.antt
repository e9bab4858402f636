-- ===== src/Vault/Crdt.antt =====
-- crates/misty-vault/src/crdt: the replicated types. Each child has the type, its operations and
-- its merge, with the laws that `trait Merge` of crdt/mod.rs asks of it.
pub mod Lww
pub mod Scalar
pub mod Usage
pub mod OrSet
