-- ===== src/Sync/Page.antt =====
-- crates/misty-sync/src/engine.rs: `verify_change` and `apply_page`.
pub mod Accepted
pub mod Batch
use misty.Prelude.{
  saturated, ℕ, ◌+◌, Bool, true, false, ◌&&◌, ◌||◌, if◌then◌else◌, ltb, ◌==◌, Option, some, none,
  List, [], ◌∷◌, ◌++◌, length, ok, err, Result, list_ord, nat_ord, same_key,
}
use misty.Prelude.Map.{Map, get, put}
use misty.Crypto.Error.{Bytes, ItemId, CryptoError, CryptoResult, bad_verifying_key}
use misty.Crypto.Primitives.{Primitives}
use misty.Crypto.Identity.{Roster}
use misty.Crypto.Envelope.Header.{EnvelopeKind, item, group, device_roster, as_u8}
use misty.Crypto.Envelope.Seal.{Envelope, parse, verify_envelope}
use misty.Vault.Error.{VaultResult}
use misty.Vault.Conflict.{Conflict, add_conflicts}
use misty.Vault.Store.{StoredEnvelope}
use misty.Vault.Change.{RemoteChange, MergeReport, is_mergeable}
use misty.Sync.Error.{SyncResult, crypto, vault}
use misty.Sync.State.{KnownRow, SyncState}

abbrev pub max_envelope_len : ℕ
max_envelope_len = 540672

abbrev pub max_pages_per_sync : ℕ
max_pages_per_sync = 4096

pub data Rejection : Type 0 where
  malformed too_large unknown_signer signature_invalid : Rejection

pub record FeedChange : Type 0 where
  pub item_id : ItemId
  pub seq : ℕ
  pub version : Option Bytes
  pub envelope : Option Bytes
  pub deleted : Bool

pub record ChangeFeed : Type 0 where
  pub changes : List FeedChange
  pub next_seq : ℕ
  pub has_more : Bool

pub record SyncReport : Type 0 where
  pub pages : ℕ
  pub changes_seen : ℕ
  pub applied : ℕ
  pub ignored : ℕ
  pub rejected : List Rejection
  pub pushed : ℕ
  pub deleted : ℕ
  pub conflicts_resolved : ℕ
  pub pending_after : ℕ
  pub cursor : Option ℕ
  pub conflicts : List Conflict
  pub roster_update : Option (ItemId × Bytes)

abbrev is_roster_kind : CryptoResult Envelope → Bool
is_roster_kind (ok e) = as_u8 e.header.kind == as_u8 device_roster
is_roster_kind (err e) = false

unfoldable pub is_roster_change : FeedChange → Bool
is_roster_change change = elim change.envelope [
  | some envelope ↦ is_roster_kind (parse envelope)
  | none ↦ false
]

abbrev pub keep_before : FeedChange → Option (List FeedChange × ℕ) → Option (List FeedChange × ℕ)
keep_before c none = none
keep_before c (some (slice, seq)) = some (c ∷ slice, seq)

-- The part of a page up to its first roster change, and the place where the feed resumes.
unfoldable pub up_to_roster : List FeedChange → Option (List FeedChange × ℕ)
up_to_roster [] = none
up_to_roster (c ∷ cs) =
    let rest = up_to_roster cs in
    if is_roster_change c then some (c ∷ [], c.seq) else keep_before c rest

abbrev rejection : CryptoError → Rejection
rejection (CryptoError.unknown_signer signer) = unknown_signer
rejection CryptoError.signature_invalid = signature_invalid
rejection bad_verifying_key = signature_invalid
rejection _ = malformed

-- What `apply_page` has sorted out of a page so far.
pub record Sorted : Type 0 where
  pub batch : List RemoteChange
  pub accepted : List (FeedChange × Option EnvelopeKind)
  pub report : SyncReport

abbrev note_roster : EnvelopeKind → ItemId → Bytes → SyncReport → SyncReport
note_roster device_roster id envelope report = record report { roster_update = some (id, envelope) }
note_roster _ id envelope report = report

module _ (p : Primitives) where
  unfoldable pub verify_change : ItemId → Bytes → Roster → Result Rejection EnvelopeKind
  verify_change id envelope roster =
      if ltb max_envelope_len (length envelope) then err too_large else elim (parse envelope) [
        | err e ↦ err malformed
        | ok parsed ↦ elim (verify_envelope p parsed id roster) [
          | err e ↦ err (rejection e)
          | ok verified ↦ ok parsed.header.kind
        ]
      ]

  -- A change whose envelope was verified.
  unfoldable pub accept_change : FeedChange → Bytes → EnvelopeKind → Sorted → Sorted
  accept_change change envelope kind s =
      if is_mergeable kind
      then record s {
        accepted = s.accepted ++ (change, some kind) ∷ [];
        batch =
            s.batch
            ++ (record {
              item_id = change.item_id;
              seq = some change.seq;
              version = change.version;
              envelope = envelope;
            })
              ∷ [];
      }
      else record s {
        accepted = s.accepted ++ (change, some kind) ∷ [];
        report =
            note_roster kind change.item_id envelope
              (record (s.report) { ignored = saturated (s.report.ignored + 1) });
      }

  abbrev pub sort_verified : FeedChange → Bytes → Result Rejection EnvelopeKind → Sorted → Sorted
  sort_verified change envelope (err reason) s = record s {
    report = record (s.report) { rejected = s.report.rejected ++ reason ∷ [] };
  }
  sort_verified change envelope (ok kind) s = accept_change change envelope kind s

  -- `deleted` is not looked at.
  abbrev pub sort_envelope : Roster → FeedChange → Option Bytes → Sorted → Sorted
  sort_envelope roster change none s = record s { accepted = s.accepted ++ (change, none) ∷ [] }
  sort_envelope roster change (some envelope) s =
      sort_verified change envelope (verify_change change.item_id envelope roster) s

  abbrev pub sort_change : Roster → FeedChange → Sorted → Sorted
  sort_change roster change s = sort_envelope roster change change.envelope s

  unfoldable pub sort_changes : Roster → List FeedChange → Sorted → Sorted
  sort_changes roster [] s = s
  sort_changes roster (c ∷ cs) s = sort_changes roster cs (sort_change roster c s)

-- What the engine asks of the vault.
pub record VaultOps (V : Type 0) : Type 0 where
  pub merge_remote : List RemoteChange → V → V × VaultResult MergeReport
  pub load_all : V → VaultResult (List StoredEnvelope)
  pub stored : ItemId → V → VaultResult (Option StoredEnvelope)

-- The engine's state, with the vault, the state store and the report that a sync works on.
pub record Engine (V S : Type 0) : Type 0 where
  pub vault : V
  pub store : S
  pub state : SyncState
  pub report : SyncReport

-- `kind` of a change, or the one that was known of a row whose bytes were reclaimed.
unfoldable pub known_kind : Option EnvelopeKind → Option KnownRow → ℕ
known_kind (some kind) known = as_u8 kind
known_kind none (some row) = row.kind
known_kind none none = 0

module _ (fingerprint_of : Bytes → CryptoResult Bytes) where
  -- `map(Fingerprint::of).transpose()`
  abbrev pub fingerprint : Option Bytes → CryptoResult (Option Bytes)
  fingerprint none = ok none
  fingerprint (some envelope) = elim (fingerprint_of envelope) [
    | ok f ↦ ok (some f)
    | err e ↦ err e
  ]

  unfoldable pub record_known :
      List (FeedChange × Option EnvelopeKind)
      → Map ItemId KnownRow
      → Map ItemId KnownRow × SyncResult {0} Unit
  record_known [] known = (known, ok tt)
  record_known ((change, kind) ∷ rest) known = elim (fingerprint change.envelope) [
    | err e ↦ (known, err (crypto e))
    | ok f ↦ record_known rest (
        put change.item_id
          (record {
            kind = known_kind kind (get change.item_id known);
            fingerprint = f;
            version = change.version;
            seq = some change.seq;
          })
          known)
  ]

abbrev pub merged_report : SyncReport → MergeReport → SyncReport
merged_report report merged = record report {
  applied = saturated (report.applied + merged.applied);
  ignored = saturated (report.ignored + merged.ignored);
  conflicts = add_conflicts report.conflicts merged.conflicts;
}

module _ {V S : Type 0} (vault_ops : VaultOps V) (p : Primitives)
    (fingerprint_of : Bytes → CryptoResult Bytes) where
  -- The batch goes to the vault first; an empty one does not.
  abbrev pub after_merge :
      Engine V S → V × VaultResult MergeReport → Engine V S × SyncResult {0} Unit
  after_merge e (new, err error) =
      (record e { vault = new }, err (vault "merge remote changes" error))
  after_merge e (new, ok merged) =
      (record e { vault = new; report = merged_report e.report merged }, ok tt)

  unfoldable pub merge_batch : List RemoteChange → Engine V S → Engine V S × SyncResult {0} Unit
  merge_batch [] e = (e, ok tt)
  merge_batch (c ∷ cs) e = after_merge e (vault_ops.merge_remote (c ∷ cs) e.vault)

  unfoldable pub learn :
      List (FeedChange × Option EnvelopeKind) → Engine V S → Engine V S × SyncResult {0} Unit
  learn accepted e =
      let (known, result) = record_known fingerprint_of accepted e.state.known in
      (record e { state = record (e.state) { known = known } }, result)

  abbrev pub after_batch :
      List (FeedChange × Option EnvelopeKind)
      → Engine V S × SyncResult {0} Unit
      → Engine V S × SyncResult {0} Unit
  after_batch accepted (e, err error) = (e, err error)
  after_batch accepted (e, ok done) = learn accepted e

  unfoldable pub apply_page :
      Roster → List FeedChange → Engine V S → Engine V S × SyncResult {0} Unit
  apply_page roster changes e =
      let sorted =
        sort_changes p roster changes (record { batch = []; accepted = []; report = e.report }) in
      after_batch sorted.accepted (merge_batch sorted.batch (record e { report = sorted.report }))
