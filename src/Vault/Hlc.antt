-- ===== src/Vault/Hlc.antt =====
-- crates/misty-vault/src/hlc.rs: the hybrid logical clock reading and its derived order.
-- `Clock` below it has the clock of one device, `Wire` the wire form.
pub mod Order
pub mod Wire
pub mod Clock
