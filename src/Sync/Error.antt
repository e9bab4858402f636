-- ===== src/Sync/Error.antt =====
-- crates/misty-sync/src/error.rs. A sequence number is an `i64`
-- that `checked_seq` of wire.rs has found in `0..MAX_SEQ`, so it is a number here.
use misty.Prelude.{ℕ, String, Result, ℤ}
use misty.Crypto.Error.{CryptoError, DeviceId}
use misty.Vault.Error.{VaultError}

pub data TransportKind : Type 0 where
  connect tls pin_mismatch timeout protocol environment : TransportKind

pub data RosterRejection : Type 0 where
  unsigned bad_signature signer_not_trusted wrong_address wrong_kind : RosterRejection

pub data SyncError : Type 0 where
  crypto : CryptoError → SyncError
  vault : String → VaultError → SyncError
  transport : String → TransportKind → SyncError
  server : String → ℕ → SyncError
  auth_refused : String → SyncError
  malformed : String → String → SyncError
  response_too_large : String → ℕ → SyncError
  envelope_too_large : ℕ → ℕ → SyncError
  seq_rollback : ℕ → ℕ → SyncError
  feed_out_of_order : ℕ → ℕ → SyncError
  seq_out_of_range : ℤ → ℕ → SyncError
  feed_too_long : ℕ → SyncError
  unknown_signer : DeviceId → SyncError
  roster_rejected : RosterRejection → SyncError
  revoked : DeviceId → SyncError
  time_signature_invalid time_nonce_mismatch : SyncError
  time_went_backwards : ℤ → ℤ → SyncError
  conflict_loop : ℕ → SyncError
  conflict_without_envelope unusable_version_token : SyncError
  quota_exhausted : String → SyncError
  state_store : String → SyncError
  state_too_new : ℕ → ℕ → SyncError
  bad_server_url : SyncError
  bad_pin : ℕ → ℕ → SyncError

abbrev pub SyncResult {ℓ} : Type ℓ → Type ℓ
SyncResult A = Result SyncError A
