-- ===== src/Sync.antt =====
-- crates/misty-sync: the client's side of synchronisation.
pub mod Backoff
pub mod Error
pub mod State
pub mod Page
pub mod Pull
pub mod Queue
pub mod Client
pub mod Resolve
pub mod Push
pub mod Once
pub mod Run
pub mod Local
