-- ===== src/Sync/Once.antt =====
-- crates/misty-sync/src/engine.rs: `sync_once`, the deletes, the pull and the writes of one sync.
pub mod Guarded
pub mod Refused
use misty.Prelude.{
  ℕ, zero, suc, ◌||◌, Bool, true, false, ◌==◌, leb, Option, some, none, List, [], ◌∷◌, length, ok,
  err,
}
use misty.Crypto.Error.{Bytes, CryptoResult}
use misty.Crypto.Primitives.{Primitives}
use misty.Crypto.Identity.{Roster}
use misty.Sync.Error.{SyncResult}
use misty.Sync.State.{StateStore}
use misty.Sync.Page.{SyncReport, VaultOps, Engine}
use misty.Sync.Pull.{pull}
use misty.Sync.Queue.{PendingWrite, pending}
use misty.Sync.Client.{Remote}
use misty.Sync.Push.{push_deletes, push_writes}

-- `SyncReport::default`
abbrev pub new_report : SyncReport
new_report = record {
  pages = 0;
  changes_seen = 0;
  applied = 0;
  ignored = 0;
  rejected = [];
  pushed = 0;
  deleted = 0;
  conflicts_resolved = 0;
  pending_after = 0;
  cursor = none;
  conflicts = [];
  roster_update = none;
}

module _ {V S R : Type 0} (vault_ops : VaultOps V) (store : StateStore S) (p : Primitives)
    (fingerprint_of : Bytes → CryptoResult Bytes) (roster : Roster) (remote : Remote R) where
  abbrev pub Synced : Type 0
  Synced = Engine V S × R × SyncResult SyncReport

  abbrev pub reported : Engine V S → R → SyncResult (List PendingWrite) → Synced
  reported e r (err error) = (e, r, err error)
  reported e r (ok left) =
      let report : SyncReport = record (e.report) {
        cursor = e.state.cursor;
        pending_after = length left;
      } in
      (record e { report = report }, r, ok report)

  abbrev pub after_writes : Engine V S × R × SyncResult {0} Unit → Synced
  after_writes (e, r, err error) = (e, r, err error)
  after_writes (e, r, ok done) = reported e r (pending fingerprint_of vault_ops e.state e.vault)

  abbrev pub after_pull : R → Option (Engine V S × SyncResult {0} Unit) → Option Synced
  after_pull r none = none
  after_pull r (some (e, err error)) = some (e, remote.meanwhile r, err error)
  after_pull r (some (e, ok done)) = some (
      after_writes
        (push_writes vault_ops store p fingerprint_of roster remote e (remote.meanwhile r)))

  abbrev pub after_deletes : ℕ → Engine V S × R × SyncResult {0} Unit → Option Synced
  after_deletes page_limit (e, r, err error) = some (e, r, err error)
  after_deletes page_limit (e, r, ok done) =
      after_pull r (pull vault_ops store p fingerprint_of roster (remote.feed r) page_limit e)

  unfoldable pub sync_once : ℕ → Engine V S → R → Option Synced
  sync_once page_limit e r = after_deletes page_limit (
      push_deletes vault_ops store p fingerprint_of roster remote (record e { report = new_report })
        r)
