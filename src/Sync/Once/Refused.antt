-- ===== src/Sync/Once/Refused.antt =====
-- `sync_once` of crates/misty-sync/src/engine.rs where the server refuses a delete.
use misty.Prelude.{ℕ, ◌≡◌, refl, some, List, ◌∷◌, ok, err}
use misty.Crypto.Error.{Bytes, CryptoResult}
use misty.Crypto.Primitives.{Primitives}
use misty.Crypto.Identity.{Roster}
use misty.Sync.Error.{server}
use misty.Sync.State.{StateStore, version_of}
use misty.Sync.Page.{VaultOps, Engine}
use misty.Sync.Queue.{PendingAction, PendingWrite, pending}
use misty.Sync.Client.{Remote, delete_item}
use misty.Sync.Push.{push_deletes, delete_each}
use misty.Sync.Once.{new_report, sync_once}

module _ {V S R : Type 0} (vault_ops : VaultOps V) (store : StateStore S) (p : Primitives)
    (fingerprint_of : Bytes → CryptoResult Bytes) (roster : Roster) (remote : Remote R) where
  -- A delete that the server refuses with 409, since the item has changed there, ends the sync: where
  -- a delete comes first in the queue and is refused, the sync fails with that status before anything
  -- is pulled, and the vault, the state and the state store, from which the next sync derives its
  -- queue, are what they were.
  pub sync_once_refused :
      (page_limit : ℕ) (e : Engine V S) (r after : R) (w : PendingWrite) (ws : List PendingWrite)
      (body : Bytes)
      → pending fingerprint_of vault_ops e.state e.vault ≡ ok (w ∷ ws)
      → w.action ≡ PendingAction.delete
      → remote.send_delete w.item_id (version_of e.state w.item_id) r
        ≡ (after, ok (record { status = 409; body = body }))
      → sync_once vault_ops store p fingerprint_of roster remote page_limit e r
        ≡ some (record e { report = new_report }, after, err (server "delete item" 409))
  unfolding sync_once push_deletes delete_each delete_item
  sync_once_refused page_limit e r after w ws body queue action answer =
      rw (queue, action, answer) refl
