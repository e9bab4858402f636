-- ===== src/Sync/Resolve.antt =====
-- crates/misty-sync/src/engine.rs: `resolve_conflict`, the merge of what a `409` brings back.
pub mod Guarded
use misty.Prelude.{
  saturated, ℕ, zero, suc, ◌+◌, Bool, true, false, ◌&&◌, if◌then◌else◌, ltb, Option, some, none,
  List, [], ◌∷◌, length, ok, err, ◌>>=◌, list_ord, nat_ord, option_ord, same_key,
}
use misty.Prelude.Map.{Map, get, put, remove}
use misty.Crypto.Error.{Bytes, ItemId, CryptoError, CryptoResult}
use misty.Crypto.Primitives.{Primitives}
use misty.Crypto.Identity.{Roster}
use misty.Crypto.Envelope.Header.{EnvelopeKind, as_u8}
use misty.Crypto.Envelope.Seal.{Envelope, Verified, parse, verify_envelope}
use misty.Vault.Error.{VaultResult}
use misty.Vault.Conflict.{Conflict, add_conflicts}
use misty.Vault.Store.{StoredEnvelope}
use misty.Vault.Change.{RemoteChange, MergeReport, is_mergeable}
use misty.Sync.Error.{
  SyncError, SyncResult, crypto, vault, unknown_signer, envelope_too_large, conflict_loop,
}
use misty.Sync.State.{KnownRow, SyncState, StateStore, version_of}
use misty.Sync.Page.{VaultOps, Engine, max_envelope_len}
use misty.Sync.Queue.{PendingWrite, PendingAction, from_crypto, from_vault, is_confirmed, pending}
use misty.Sync.Client.{PutOutcome, applied, conflict, Remote, put_item, delete_item}

abbrev pub max_conflict_retries : ℕ
max_conflict_retries = 8

abbrev pub set_known : {V S : Type 0} → Map ItemId KnownRow → Engine V S → Engine V S
set_known known e = record e { state = record (e.state) { known = known } }

abbrev pub known_kind_of : Option KnownRow → ℕ
known_kind_of (some row) = row.kind
known_kind_of none = 0

-- `known.fingerprint == Some(fingerprint) && known.version == version`
unfoldable pub already_merged : Bytes → Option Bytes → Option KnownRow → Bool
already_merged fingerprint version none = false
already_merged fingerprint version (some row) =
    same_key row.fingerprint (some fingerprint) && same_key row.version version

-- What is known of an item whose bytes the server no longer has, or that it does not have.
unfoldable pub known_without_bytes :
    ItemId → Option Bytes → Map ItemId KnownRow → Map ItemId KnownRow
known_without_bytes id none known = remove id known
known_without_bytes id (some version) known =
    put id
      (record {
        kind = known_kind_of (get id known);
        fingerprint = none;
        version = some version;
        seq = none;
      })
      known

abbrev conflict_error : CryptoError → SyncError
conflict_error (CryptoError.unknown_signer signer) = unknown_signer signer
conflict_error e = crypto e

abbrev pub attributed : EnvelopeKind → CryptoResult Verified → SyncResult EnvelopeKind
attributed kind (err e) = err (conflict_error e)
attributed kind (ok verified) = ok kind

-- `verify_conflict`: the check of a change from the feed, as a hard error.
unfoldable pub verify_conflict : Primitives → ItemId → Bytes → Roster → SyncResult EnvelopeKind
verify_conflict p id envelope roster =
    if ltb max_envelope_len (length envelope)
    then err (envelope_too_large (length envelope) max_envelope_len)
    else do
      parsed ← from_crypto (parse envelope)
      attributed parsed.header.kind (verify_envelope p parsed id roster)

module _ {V S : Type 0} (vault_ops : VaultOps V) (store : StateStore S) (p : Primitives)
    (fingerprint_of : Bytes → CryptoResult Bytes) (roster : Roster) where
  -- `self.store.save(&self.state)?`, with what follows it.
  abbrev pub after_save :
      (Engine V S → Engine V S)
      → Engine V S
      → S × SyncResult {0} Unit
      → Engine V S × SyncResult {0} Unit
  after_save f e (s, err error) = (record e { store = s }, err error)
  after_save f e (s, ok done) = (f (record e { store = s }), ok tt)

  abbrev pub saving : (Engine V S → Engine V S) → Engine V S → Engine V S × SyncResult {0} Unit
  saving f e = after_save f e (store.save e.state e.store)

  abbrev pub count_resolved : Engine V S → Engine V S
  count_resolved e = record e {
    report = record (e.report) { conflicts_resolved = saturated (e.report.conflicts_resolved + 1) };
  }

  abbrev pub after_conflict_merge :
      Engine V S → V × VaultResult MergeReport → Engine V S × SyncResult {0} Unit
  after_conflict_merge e (new, err error) =
      (record e { vault = new }, err (vault "merge a conflicting write" error))
  after_conflict_merge e (new, ok merged) = saving count_resolved (record e {
    vault = new;
    report = record (e.report) { conflicts = add_conflicts e.report.conflicts merged.conflicts };
  })

  abbrev pub single : ItemId → Bytes → List RemoteChange
  single id envelope =
      (record { item_id = id; seq = none; version = none; envelope = envelope }) ∷ []

  unfoldable pub merge_conflict :
      ItemId → Bytes → EnvelopeKind → Engine V S → Engine V S × SyncResult {0} Unit
  merge_conflict id envelope kind e =
      if is_mergeable kind
      then after_conflict_merge e (vault_ops.merge_remote (single id envelope) e.vault)
      else saving count_resolved e

  -- A conflicting write that was attributed and fingerprinted.
  unfoldable pub take_conflict :
      ItemId
      → Option Bytes
      → Bytes
      → EnvelopeKind
      → Bytes
      → Engine V S
      → Engine V S × SyncResult {0} Unit
  take_conflict id version envelope kind fingerprint e =
      if already_merged fingerprint version (get id e.state.known)
      then (e, err (conflict_loop max_conflict_retries))
      else merge_conflict id envelope kind (
          set_known
            (put id
              (record {
                kind = as_u8 kind;
                fingerprint = some fingerprint;
                version = version;
                seq = none;
              })
              e.state.known)
            e)

  abbrev pub with_fingerprint :
      ItemId
      → Option Bytes
      → Bytes
      → EnvelopeKind
      → Engine V S
      → CryptoResult Bytes
      → Engine V S × SyncResult {0} Unit
  with_fingerprint id version envelope kind e (err error) = (e, err (crypto error))
  with_fingerprint id version envelope kind e (ok fingerprint) =
      take_conflict id version envelope kind fingerprint e

  abbrev pub with_kind :
      ItemId
      → Option Bytes
      → Bytes
      → Engine V S
      → SyncResult EnvelopeKind
      → Engine V S × SyncResult {0} Unit
  with_kind id version envelope e (err error) = (e, err error)
  with_kind id version envelope e (ok kind) =
      with_fingerprint id version envelope kind e (fingerprint_of envelope)

  unfoldable pub resolve_conflict :
      ItemId → Option Bytes → Option Bytes → Engine V S → Engine V S × SyncResult {0} Unit
  resolve_conflict id version none e =
      saving count_resolved (set_known (known_without_bytes id version e.state.known) e)
  resolve_conflict id version (some envelope) e =
      with_kind id version envelope e (verify_conflict p id envelope roster)
