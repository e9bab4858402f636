-- ===== src/Crypto/Error.antt =====
-- crates/misty-crypto/src/error.rs: the errors, with the data that each carries.
use misty.Prelude.{ℕ, List, String, Result}

abbrev pub Bytes : Type 0
Bytes = List ℕ

-- The identifiers of types.rs are arrays of 16 bytes.
abbrev pub DeviceId : Type 0
DeviceId = Bytes

abbrev pub ItemId : Type 0
ItemId = Bytes

pub data CryptoError : Type 0 where
  random_failed : ℕ → CryptoError
  truncated : String → ℕ → ℕ → CryptoError
  bad_envelope_magic bad_backup_magic : CryptoError
  unsupported_format_version : String → ℕ → ℕ → CryptoError
  unknown_envelope_kind : ℕ → CryptoError
  reserved_not_zero : String → CryptoError
  malformed_body : String → CryptoError
  epoch_mismatch : ℕ → ℕ → CryptoError
  unknown_signer : DeviceId → CryptoError
  signature_invalid item_key_unwrap_failed payload_decrypt_failed : CryptoError
  bad_padding_length : ℕ → ℕ → CryptoError
  bad_padding : String → CryptoError
  payload_too_large : ℕ → ℕ → CryptoError
  unknown_kdf_id : ℕ → CryptoError
  kdf_params_rejected : ℕ → ℕ → ℕ → String → CryptoError
  kdf : String → CryptoError
  aead_encrypt : CryptoError
  cbor : String → String → CryptoError
  inflate : String → CryptoError
  inflate_limit : ℕ → CryptoError
  backup_decrypt_failed : CryptoError
  wrong_word_count : ℕ → ℕ → CryptoError
  unknown_word : ℕ → CryptoError
  word_checksum_mismatch : CryptoError
  bad_compact_length : ℕ → ℕ → CryptoError
  bad_compact_char : ℕ → CryptoError
  bad_compact_padding crc32_mismatch bad_qr_prefix recovery_blob_malformed : CryptoError
  recovery_unwrap_failed roster_unsigned : CryptoError
  roster_signer_not_in_roster : DeviceId → CryptoError
  roster_signature_invalid : CryptoError
  duplicate_device : DeviceId → CryptoError
  device_not_in_roster : DeviceId → CryptoError
  bad_verifying_key non_contributory_key_exchange enrollment_unseal_failed : CryptoError
  confirmation_code_mismatch enroll_id_mismatch enrollment_approver_unknown : CryptoError
  enrollment_signature_invalid : CryptoError
  string_too_long : String → ℕ → CryptoError

abbrev pub CryptoResult {ℓ} : Type ℓ → Type ℓ
CryptoResult A = Result CryptoError A
