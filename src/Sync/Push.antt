-- ===== src/Sync/Push.antt =====
-- crates/misty-sync/src/engine.rs: the push half of a sync.
pub mod Settles
pub mod Guarded
use misty.Prelude.{
  saturated, ℕ, zero, suc, ◌+◌, Bool, true, false, ◌&&◌, if◌then◌else◌, ltb, Option, some, none,
  List, [], ◌∷◌, length, ok, err, ◌>>=◌, list_ord, nat_ord, option_ord, same_key,
}
use misty.Prelude.Map.{Map, get, put, remove}
use misty.Crypto.Error.{Bytes, ItemId, CryptoError, CryptoResult}
use misty.Crypto.Primitives.{Primitives}
use misty.Crypto.Identity.{Roster}
use misty.Crypto.Envelope.Header.{EnvelopeKind, as_u8}
use misty.Crypto.Envelope.Seal.{Envelope, Verified, parse, verify_envelope}
use misty.Vault.Error.{VaultResult}
use misty.Vault.Conflict.{Conflict, add_conflicts}
use misty.Vault.Store.{StoredEnvelope}
use misty.Vault.Change.{RemoteChange, MergeReport, is_mergeable}
use misty.Sync.Error.{
  SyncError, SyncResult, crypto, vault, unknown_signer, envelope_too_large, conflict_loop,
}
use misty.Sync.State.{KnownRow, SyncState, StateStore, version_of}
use misty.Sync.Page.{VaultOps, Engine, max_envelope_len}
use misty.Sync.Queue.{PendingWrite, PendingAction, from_crypto, from_vault, is_confirmed, pending}
use misty.Sync.Client.{PutOutcome, applied, conflict, Remote, put_item, delete_item}
use misty.Sync.Resolve.{
  max_conflict_retries, set_known, known_without_bytes, already_merged, verify_conflict, after_save,
  saving, count_resolved, resolve_conflict,
}

-- What a round of `push_one` comes to.
pub data Round : Type 0 where
  finished : SyncResult {0} Unit → Round
  again : Round

abbrev pub retry : SyncResult {0} Unit → Round
retry (ok done) = again
retry (err e) = finished (err e)

module _ {V S : Type 0} (vault_ops : VaultOps V) (store : StateStore S) (p : Primitives)
    (fingerprint_of : Bytes → CryptoResult Bytes) (roster : Roster) where
  abbrev pub count_pushed : Engine V S → Engine V S
  count_pushed e = record e {
    report = record (e.report) { pushed = saturated (e.report.pushed + 1) };
  }

  abbrev pub count_deleted : Engine V S → Engine V S
  count_deleted e = record e {
    report = record (e.report) { deleted = saturated (e.report.deleted + 1) };
  }

  module _ {R : Type 0} (remote : Remote R) where
    -- The answer to a put of a row with this fingerprint.
    abbrev pub answered :
        StoredEnvelope
        → ItemId
        → Bytes
        → Engine V S
        → R × SyncResult PutOutcome
        → Engine V S × R × Round
    answered row id fingerprint e (r, err error) = (e, r, finished (err error))
    answered row id fingerprint e (r, ok (applied seq version)) =
        let (next, result) = saving vault_ops store p fingerprint_of roster count_pushed (
          set_known
            (put id
              (record {
                kind = as_u8 row.kind;
                fingerprint = some fingerprint;
                version = some version;
                seq = some seq;
              })
              e.state.known)
            e) in
        (next, r, finished result)
    answered row id fingerprint e (r, ok (conflict version envelope)) =
        let (next, result) =
          resolve_conflict vault_ops store p fingerprint_of roster id version envelope e in
        (next, r, retry result)

    abbrev pub offered :
        StoredEnvelope → ItemId → Engine V S → R → CryptoResult Bytes → Engine V S × R × Round
    offered row id e r (err error) = (e, r, finished (err (crypto error)))
    offered row id e r (ok fingerprint) =
        if is_confirmed fingerprint (get id e.state.known)
        then (e, r, finished (ok tt))
        else answered row id fingerprint e
            (put_item remote id row.envelope (version_of e.state id) r)

    abbrev pub read_row :
        ItemId → Engine V S → R → VaultResult (Option StoredEnvelope) → Engine V S × R × Round
    read_row id e r (err error) = (e, r, finished (err (vault "read the item" error)))
    read_row id e r (ok none) = (e, r, finished (ok tt))
    read_row id e r (ok (some row)) = offered row id e r (fingerprint_of row.envelope)

    -- One round of the loop of `push_one`.
    unfoldable pub push_round : ItemId → Engine V S → R → Engine V S × R × Round
    push_round id e r = read_row id e r (vault_ops.stored id e.vault)

    abbrev pub next_round :
        (Engine V S → R → Engine V S × R × SyncResult {0} Unit)
        → Engine V S × R × Round
        → Engine V S × R × SyncResult {0} Unit
    next_round rest (e, r, finished result) = (e, r, result)
    next_round rest (e, r, again) = rest e r

    unfoldable pub push_rounds : ℕ → ItemId → Engine V S → R → Engine V S × R × SyncResult {0} Unit
    push_rounds zero id e r = (e, r, err (conflict_loop max_conflict_retries))
    push_rounds (suc n) id e r = next_round (push_rounds n id) (push_round id e r)

    unfoldable pub push_one : ItemId → Engine V S → R → Engine V S × R × SyncResult {0} Unit
    push_one id e r = push_rounds (suc max_conflict_retries) id e r

    abbrev pub next_write :
        (Engine V S → R → Engine V S × R × SyncResult {0} Unit)
        → Engine V S × R × SyncResult {0} Unit
        → Engine V S × R × SyncResult {0} Unit
    next_write rest (e, r, err error) = (e, r, err error)
    next_write rest (e, r, ok done) = rest e r

    abbrev pub push_write :
        (Engine V S → R → Engine V S × R × SyncResult {0} Unit)
        → ItemId
        → Engine V S
        → R
        → PendingAction
        → Engine V S × R × SyncResult {0} Unit
    push_write rest id e r PendingAction.put = next_write rest (push_one id e r)
    push_write rest id e r PendingAction.delete = rest e r

    -- The loop of `push_writes` over the queue: deletes are passed over.
    unfoldable pub push_each :
        List PendingWrite → Engine V S → R → Engine V S × R × SyncResult {0} Unit
    push_each [] e r = (e, r, ok tt)
    push_each (w ∷ ws) e r = push_write (push_each ws) w.item_id e r w.action

    abbrev pub push_queue :
        Engine V S → R → SyncResult (List PendingWrite) → Engine V S × R × SyncResult {0} Unit
    push_queue e r (err error) = (e, r, err error)
    push_queue e r (ok writes) = push_each writes e r

    unfoldable pub push_writes : Engine V S → R → Engine V S × R × SyncResult {0} Unit
    push_writes e r = push_queue e r (pending fingerprint_of vault_ops e.state e.vault)

    abbrev pub deleted_row :
        ItemId → Engine V S → R × SyncResult {0} Unit → Engine V S × R × SyncResult {0} Unit
    deleted_row id e (r, err error) = (e, r, err error)
    deleted_row id e (r, ok done) =
        let (next, result) =
          saving vault_ops store p fingerprint_of roster count_deleted
            (set_known (remove id e.state.known) e) in
        (next, r, result)

    abbrev pub delete_write :
        (Engine V S → R → Engine V S × R × SyncResult {0} Unit)
        → ItemId
        → Engine V S
        → R
        → PendingAction
        → Engine V S × R × SyncResult {0} Unit
    delete_write rest id e r PendingAction.put = rest e r
    delete_write rest id e r PendingAction.delete =
        next_write rest (deleted_row id e (delete_item remote id (version_of e.state id) r))

    unfoldable pub delete_each :
        List PendingWrite → Engine V S → R → Engine V S × R × SyncResult {0} Unit
    delete_each [] e r = (e, r, ok tt)
    delete_each (w ∷ ws) e r = delete_write (delete_each ws) w.item_id e r w.action

    abbrev pub delete_queue :
        Engine V S → R → SyncResult (List PendingWrite) → Engine V S × R × SyncResult {0} Unit
    delete_queue e r (err error) = (e, r, err error)
    delete_queue e r (ok writes) = delete_each writes e r

    unfoldable pub push_deletes : Engine V S → R → Engine V S × R × SyncResult {0} Unit
    push_deletes e r = delete_queue e r (pending fingerprint_of vault_ops e.state e.vault)
