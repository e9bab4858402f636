-- ===== src/Sync/Push/Guarded.antt =====
-- What a push of crates/misty-sync/src/engine.rs lets reach the vault.
use misty.Prelude.{
  ℕ, zero, suc, inl, inr, Bool-cases, Option, some, none, List, [], ◌∷◌, ok, err, list_ord, nat_ord,
  option_ord,
}
use misty.Prelude.Map.{get, put, remove}
use misty.Crypto.Error.{Bytes, ItemId, CryptoResult}
use misty.Crypto.Primitives.{Primitives}
use misty.Crypto.Identity.{Roster}
use misty.Crypto.Envelope.Header.{as_u8}
use misty.Vault.Error.{VaultResult}
use misty.Vault.Store.{StoredEnvelope}
use misty.Vault.Change.{RemoteChange}
use misty.Sync.Error.{SyncResult}
use misty.Sync.State.{StateStore, version_of}
use misty.Sync.Page.{VaultOps, Engine}
use misty.Sync.Page.Batch.{AllVouchedFor}
use misty.Sync.Queue.{PendingWrite, PendingAction, is_confirmed, pending}
use misty.Sync.Client.{PutOutcome, applied, conflict, Remote, put_item, delete_item}
use misty.Sync.Resolve.{set_known}
use misty.Sync.Push.{
  count_pushed, Round, finished, again, answered, offered, read_row, push_round, next_round,
  push_rounds, push_one, next_write, push_write, count_deleted, delete_write, push_each, push_queue,
  push_writes, deleted_row, delete_each, delete_queue, push_deletes,
}
use misty.Sync.Resolve.Guarded.{after_save-keeps, resolve_conflict-keeps}

module _ {V S : Type 0} (vault_ops : VaultOps V) (store : StateStore S) (p : Primitives)
    (fingerprint_of : Bytes → CryptoResult Bytes) (roster : Roster) where
  -- A property of the vault that a merge keeps when a device of the roster vouches for every change.
  module _ (P : V → Type 0)
      (keeps : (cs : List RemoteChange) (v : V)
        → AllVouchedFor p roster cs
        → P v
        → P (vault_ops.merge_remote cs v).0) where
    module _ {R : Type 0} (remote : Remote R) where
      answered-keeps :
          (row : StoredEnvelope) (id : ItemId) (fingerprint : Bytes) (e : Engine V S)
          (a : R × SyncResult PutOutcome)
          → P e.vault
          → P
              (answered vault_ops store p fingerprint_of roster remote row id fingerprint e
                a).0.vault
      answered-keeps row id fingerprint e (r, err error) h = h
      answered-keeps row id fingerprint e (r, ok (applied seq version)) h =
          let next =
            set_known
              (put id
                (record {
                  kind = as_u8 row.kind;
                  fingerprint = some fingerprint;
                  version = some version;
                  seq = some seq;
                })
                e.state.known)
              e in
          after_save-keeps vault_ops store p fingerprint_of roster P keeps
            (count_pushed vault_ops store p fingerprint_of roster) next
            (store.save next.state next.store) (λ s. h) h
      answered-keeps row id fingerprint e (r, ok (conflict version envelope)) h =
          resolve_conflict-keeps vault_ops store p fingerprint_of roster P keeps id version envelope
            e h

      offered-keeps :
          (row : StoredEnvelope) (id : ItemId) (e : Engine V S) (r : R) (f : CryptoResult Bytes)
          → P e.vault
          → P (offered vault_ops store p fingerprint_of roster remote row id e r f).0.vault
      offered-keeps row id e r (err error) h = h
      offered-keeps row id e r (ok fingerprint) h =
          elim (Bool-cases (is_confirmed fingerprint (get id e.state.known))) [
            | inl sure ↦ rw sure h
            | inr unsure ↦ rw unsure (
                answered-keeps row id fingerprint e
                  (put_item remote id row.envelope (version_of e.state id) r) h)
          ]

      read_row-keeps :
          (id : ItemId) (e : Engine V S) (r : R) (row : VaultResult (Option StoredEnvelope))
          → P e.vault
          → P (read_row vault_ops store p fingerprint_of roster remote id e r row).0.vault
      read_row-keeps id e r (err error) h = h
      read_row-keeps id e r (ok none) h = h
      read_row-keeps id e r (ok (some row)) h =
          offered-keeps row id e r (fingerprint_of row.envelope) h

      next_round-keeps :
          (rest : Engine V S → R → Engine V S × R × SyncResult {0} Unit)
          (a : Engine V S × R × Round)
          → P a.0.vault
          → ((e : Engine V S) (r : R) → P e.vault → P (rest e r).0.vault)
          → P (next_round vault_ops store p fingerprint_of roster remote rest a).0.vault
      next_round-keeps rest (e, r, finished result) h ih = h
      next_round-keeps rest (e, r, again) h ih = ih e r h

      push_rounds-keeps :
          (n : ℕ) (id : ItemId) (e : Engine V S) (r : R)
          → P e.vault
          → P (push_rounds vault_ops store p fingerprint_of roster remote n id e r).0.vault
      unfolding push_rounds push_round
      push_rounds-keeps zero id e r h = h
      push_rounds-keeps (suc n) id e r h =
          next_round-keeps (push_rounds vault_ops store p fingerprint_of roster remote n id)
            (push_round vault_ops store p fingerprint_of roster remote id e r)
            (read_row-keeps id e r (vault_ops.stored id e.vault) h) (push_rounds-keeps n id)

      next_write-keeps :
          (rest : Engine V S → R → Engine V S × R × SyncResult {0} Unit)
          (a : Engine V S × R × SyncResult {0} Unit)
          → P a.0.vault
          → ((e : Engine V S) (r : R) → P e.vault → P (rest e r).0.vault)
          → P (next_write vault_ops store p fingerprint_of roster remote rest a).0.vault
      next_write-keeps rest (e, r, err error) h ih = h
      next_write-keeps rest (e, r, ok done) h ih = ih e r h

      push_write-keeps :
          (rest : Engine V S → R → Engine V S × R × SyncResult {0} Unit) (id : ItemId)
          (e : Engine V S) (r : R) (a : PendingAction)
          → P e.vault
          → ((e : Engine V S) (r : R) → P e.vault → P (rest e r).0.vault)
          → P (push_write vault_ops store p fingerprint_of roster remote rest id e r a).0.vault
      unfolding push_one
      push_write-keeps rest id e r PendingAction.put h ih =
          next_write-keeps rest (push_one vault_ops store p fingerprint_of roster remote id e r)
            (push_rounds-keeps 9 id e r h) ih
      push_write-keeps rest id e r PendingAction.delete h ih = ih e r h

      push_each-keeps :
          (ws : List PendingWrite) (e : Engine V S) (r : R)
          → P e.vault
          → P (push_each vault_ops store p fingerprint_of roster remote ws e r).0.vault
      unfolding push_each
      push_each-keeps [] e r h = h
      push_each-keeps (w ∷ ws) e r h =
          push_write-keeps (push_each vault_ops store p fingerprint_of roster remote ws) w.item_id e
            r w.action h (push_each-keeps ws)

      push_queue-keeps :
          (e : Engine V S) (r : R) (queue : SyncResult (List PendingWrite))
          → P e.vault
          → P (push_queue vault_ops store p fingerprint_of roster remote e r queue).0.vault
      push_queue-keeps e r (err error) h = h
      push_queue-keeps e r (ok writes) h = push_each-keeps writes e r h

      pub push_writes-keeps :
          (e : Engine V S) (r : R)
          → P e.vault
          → P (push_writes vault_ops store p fingerprint_of roster remote e r).0.vault
      unfolding push_writes
      push_writes-keeps e r h =
          push_queue-keeps e r (pending fingerprint_of vault_ops e.state e.vault) h

      deleted_row-keeps :
          (id : ItemId) (e : Engine V S) (a : R × SyncResult {0} Unit)
          → P e.vault
          → P (deleted_row vault_ops store p fingerprint_of roster remote id e a).0.vault
      deleted_row-keeps id e (r, err error) h = h
      deleted_row-keeps id e (r, ok done) h =
          let next = set_known (remove id e.state.known) e in
          after_save-keeps vault_ops store p fingerprint_of roster P keeps
            (count_deleted vault_ops store p fingerprint_of roster) next
            (store.save next.state next.store) (λ s. h) h

      delete_write-keeps :
          (rest : Engine V S → R → Engine V S × R × SyncResult {0} Unit) (id : ItemId)
          (e : Engine V S) (r : R) (a : PendingAction)
          → P e.vault
          → ((e : Engine V S) (r : R) → P e.vault → P (rest e r).0.vault)
          → P (delete_write vault_ops store p fingerprint_of roster remote rest id e r a).0.vault
      delete_write-keeps rest id e r PendingAction.put h ih = ih e r h
      delete_write-keeps rest id e r PendingAction.delete h ih =
          let answer = delete_item remote id (version_of e.state id) r in
          next_write-keeps rest
            (deleted_row vault_ops store p fingerprint_of roster remote id e answer)
            (deleted_row-keeps id e answer h) ih

      delete_each-keeps :
          (ws : List PendingWrite) (e : Engine V S) (r : R)
          → P e.vault
          → P (delete_each vault_ops store p fingerprint_of roster remote ws e r).0.vault
      unfolding delete_each
      delete_each-keeps [] e r h = h
      delete_each-keeps (w ∷ ws) e r h =
          delete_write-keeps (delete_each vault_ops store p fingerprint_of roster remote ws)
            w.item_id e r w.action h (delete_each-keeps ws)

      delete_queue-keeps :
          (e : Engine V S) (r : R) (queue : SyncResult (List PendingWrite))
          → P e.vault
          → P (delete_queue vault_ops store p fingerprint_of roster remote e r queue).0.vault
      delete_queue-keeps e r (err error) h = h
      delete_queue-keeps e r (ok writes) h = delete_each-keeps writes e r h

      pub push_deletes-keeps :
          (e : Engine V S) (r : R)
          → P e.vault
          → P (push_deletes vault_ops store p fingerprint_of roster remote e r).0.vault
      unfolding push_deletes
      push_deletes-keeps e r h =
          delete_queue-keeps e r (pending fingerprint_of vault_ops e.state e.vault) h
