-- ===== src/Sync/Once/Guarded.antt =====
-- What a whole sync of crates/misty-sync/src/engine.rs lets reach the vault.
use misty.Prelude.{ℕ, Option, some, none, List, ok, err}
use misty.Crypto.Error.{Bytes, CryptoResult}
use misty.Crypto.Primitives.{Primitives}
use misty.Crypto.Identity.{Roster}
use misty.Vault.Change.{RemoteChange}
use misty.Sync.Error.{SyncResult}
use misty.Sync.State.{StateStore}
use misty.Sync.Page.{SyncReport, VaultOps, Engine}
use misty.Sync.Page.Batch.{AllVouchedFor}
use misty.Sync.Pull.{pull}
use misty.Sync.Pull.Guarded.{Kept, pull-keeps}
use misty.Sync.Pull.Ends.{Arrives, pull-Arrives}
use misty.Sync.Queue.{PendingWrite, pending}
use misty.Sync.Client.{Remote}
use misty.Sync.Push.{push_deletes, push_writes}
use misty.Sync.Push.Guarded.{push_deletes-keeps, push_writes-keeps}
use misty.Sync.Once.{new_report, reported, after_writes, after_pull, after_deletes, sync_once}

-- A sync returns, and the vault has the property then.
abbrev pub Returns :
    {V S R : Type 0} → (V → Type 0) → Option (Engine V S × R × SyncResult SyncReport) → Type 0
Returns P none = ⊥
Returns P (some (e, r, result)) = P e.vault

module _ {V S R : Type 0} (vault_ops : VaultOps V) (store : StateStore S) (p : Primitives)
    (fingerprint_of : Bytes → CryptoResult Bytes) (roster : Roster) (remote : Remote R)
    (P : V → Type 0)
    (keeps : (cs : List RemoteChange) (v : V)
      → AllVouchedFor p roster cs
      → P v
      → P (vault_ops.merge_remote cs v).0) where
  reported-keeps :
      (e : Engine V S) (r : R) (left : SyncResult (List PendingWrite))
      → P e.vault
      → P (reported vault_ops store p fingerprint_of roster remote e r left).0.vault
  reported-keeps e r (err error) h = h
  reported-keeps e r (ok left) h = h

  after_writes-keeps :
      (a : Engine V S × R × SyncResult {0} Unit)
      → P a.0.vault
      → P (after_writes vault_ops store p fingerprint_of roster remote a).0.vault
  after_writes-keeps (e, r, err error) h = h
  after_writes-keeps (e, r, ok done) h =
      reported-keeps e r (pending fingerprint_of vault_ops e.state e.vault) h

  after_pull-Returns :
      (r : R) (before : Engine V S) (a : Option (Engine V S × SyncResult {0} Unit))
      → Arrives vault_ops store p fingerprint_of roster (remote.feed r) before a
      → Kept vault_ops store p fingerprint_of roster P keeps a
      → Returns P (after_pull vault_ops store p fingerprint_of roster remote r a)
  after_pull-Returns r before none arrives h = arrives
  after_pull-Returns r before (some (e, err error)) arrives h = h
  after_pull-Returns r before (some (e, ok done)) arrives h =
      after_writes-keeps
        (push_writes vault_ops store p fingerprint_of roster remote e (remote.meanwhile r))
        (push_writes-keeps vault_ops store p fingerprint_of roster P keeps remote e
          (remote.meanwhile r) h)

  after_deletes-Returns :
      (page_limit : ℕ) (a : Engine V S × R × SyncResult {0} Unit)
      → P a.0.vault
      → Returns P (after_deletes vault_ops store p fingerprint_of roster remote page_limit a)
  after_deletes-Returns page_limit (e, r, err error) h = h
  after_deletes-Returns page_limit (e, r, ok done) h =
      after_pull-Returns r e
        (pull vault_ops store p fingerprint_of roster (remote.feed r) page_limit e)
        (pull-Arrives vault_ops store p fingerprint_of roster (remote.feed r) page_limit e)
        (pull-keeps vault_ops store p fingerprint_of roster P keeps (remote.feed r) page_limit e h)

  -- Nothing unverified is merged. Whatever the server does, a sync returns, and a property of the
  -- vault that no batch breaks, all of whose changes a device of the roster vouches for, holds after
  -- it if it held before it: nothing else in a sync touches the vault.
  pub sync_once-Returns :
      (page_limit : ℕ) (e : Engine V S) (r : R)
      → P e.vault
      → Returns P (sync_once vault_ops store p fingerprint_of roster remote page_limit e r)
  unfolding sync_once
  sync_once-Returns page_limit e r h =
      after_deletes-Returns page_limit
        (push_deletes vault_ops store p fingerprint_of roster remote
          (record e { report = new_report }) r)
        (push_deletes-keeps vault_ops store p fingerprint_of roster P keeps remote
          (record e { report = new_report }) r h)
