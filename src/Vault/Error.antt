-- ===== src/Vault/Error.antt =====
-- crates/misty-vault/src/error.rs: the errors, and the byte arrays they name. An id is the list
-- of its 16 bytes. The detail of a storage error is its format text with the numbers that fill it.
use Prim.Native.Nat.{ℕ}
use Prim.Native.String.{String}
use mathlib.Core.List.{List}
use misty.Prelude.Fallible.{Result}
use misty.Otp.Error.{OtpError}
use misty.Crypto.Error.{CryptoError}

abbrev pub Bytes : Type 0
Bytes = List ℕ

abbrev pub DeviceId : Type 0
DeviceId = Bytes

abbrev pub ItemId : Type 0
ItemId = Bytes

pub data VaultError : Type 0 where
  crypto : CryptoError → VaultError
  otp_error : OtpError → VaultError
  cbor : String → String → VaultError
  unsupported_format_version : String → ℕ → ℕ → VaultError
  payload_too_large : String → ℕ → ℕ → VaultError
  string_too_long : String → ℕ → ℕ → VaultError
  disallowed_character : String → ℕ → ℕ → VaultError
  empty_field : String → VaultError
  too_many_elements : String → ℕ → ℕ → VaultError
  duplicate_key : String → VaultError
  unknown_enum_value : String → ℕ → VaultError
  hlc_out_of_range : ℕ → ℕ → ℕ → VaultError
  clock_exhausted : VaultError
  clock_collision : String → VaultError
  id_mismatch : ItemId → ItemId → VaultError
  kind_mismatch : String → String → VaultError
  secret_is_immutable : ItemId → VaultError
  no_such_item : ItemId → VaultError
  no_such_group : Bytes → VaultError
  item_exists : ItemId → VaultError
  ambiguous_account : ItemId → VaultError
  duplicate_account : ItemId → VaultError
  merge_did_not_settle : ℕ → VaultError
  corrupt_record : ItemId → VaultError → VaultError
  device_not_in_roster : DeviceId → VaultError
  storage : String → List ℕ → VaultError
  no_transaction : VaultError
  schema_too_new : ℕ → ℕ → VaultError
  epoch_exhausted : VaultError

abbrev pub VaultResult {ℓ} : Type ℓ → Type ℓ
VaultResult A = Result VaultError A
