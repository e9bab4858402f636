-- ===== src/Crypto/Identity.antt =====
-- crates/misty-crypto/src/identity.rs: device identities, device records and the roster.
pub mod Devices
pub mod Signing
pub mod Signed
use misty.Prelude.{
  ◌>>◌, ℕ, ◌+◌, ◌-◌, Bool, not, false, ◌||◌, if◌then◌else◌, ltb, leb, ◌==◌, ◌++◌, List, [], ◌∷◌,
  length, ok, err, some, none, Option, same_key, list_ord, nat_ord, ℤ, pos, negsuc,
}
use misty.Prelude.Little.{le_bytes}
use misty.Crypto.Error.{
  Bytes, DeviceId, CryptoResult, string_too_long, bad_verifying_key, duplicate_device,
  roster_unsigned, roster_signer_not_in_roster, roster_signature_invalid,
}
use misty.Crypto.Primitives.{Primitives}

abbrev pub max_name_len : ℕ
max_name_len = 64

abbrev pub max_platform_len : ℕ
max_platform_len = 32

-- `b"misty/roster/v1"`
abbrev pub roster_signing_context : Bytes
roster_signing_context =
    109 ∷ 105 ∷ 115 ∷ 116 ∷ 121 ∷ 47 ∷ 114 ∷ 111 ∷ 115 ∷ 116 ∷ 101 ∷ 114 ∷ 47 ∷ 118 ∷ 49 ∷ []

-- A name is its UTF-8 bytes.
pub record DeviceRecord : Type 0 where
  pub device_id : DeviceId
  pub ed25519_pub : Bytes
  pub name : Bytes
  pub platform : Bytes
  pub enrolled_at : ℤ
  pub enrolled_by : Option DeviceId

pub record DeviceIdentity : Type 0 where
  pub device_id : DeviceId
  pub signing : Bytes
  pub agreement : Bytes

pub record Roster : Type 0 where
  pub devices : List DeviceRecord
  pub signed_by : Option DeviceId
  pub signature : Option Bytes

-- `i64::to_le_bytes`
abbrev pub int_bytes : ℤ → Bytes
int_bytes (pos n) = le_bytes 8 n
int_bytes (negsuc n) = le_bytes 8 (18446744073709551615 - n)

-- `u32::try_from(n).unwrap_or(u32::MAX).to_le_bytes()`
unfoldable pub word_bytes : ℕ → Bytes
word_bytes n = le_bytes 4 (if leb n 4294967295 then n else 4294967295)

unfoldable pub append_str : Bytes → Bytes
append_str value = word_bytes (length value) ++ value

abbrev pub enrolled_by_bytes : Option DeviceId → Bytes
enrolled_by_bytes none = 0 ∷ []
enrolled_by_bytes (some id) = 1 ∷ id

unfoldable pub append_signing_bytes : DeviceRecord → Bytes
append_signing_bytes r =
    r.device_id
    ++ (r.ed25519_pub
        ++ (append_str r.name
            ++ (append_str r.platform
                ++ (int_bytes r.enrolled_at ++ enrolled_by_bytes r.enrolled_by))))

unfoldable pub all_signing_bytes : List DeviceRecord → Bytes
all_signing_bytes [] = []
all_signing_bytes (r ∷ rs) = append_signing_bytes r ++ all_signing_bytes rs

unfoldable pub signing_bytes : Roster → DeviceId → Bytes
signing_bytes roster signer =
    roster_signing_context
    ++ (word_bytes (length roster.devices) ++ (signer ++ all_signing_bytes roster.devices))

unfoldable pub find : DeviceId → List DeviceRecord → Option DeviceRecord
find id [] = none
find id (r ∷ rs) = if same_key r.device_id id then some r else find id rs

abbrev pub contains : Roster → DeviceId → Option DeviceRecord
contains roster id = find id roster.devices

unfoldable pub retain_not : DeviceId → List DeviceRecord → List DeviceRecord
retain_not id [] = []
retain_not id (r ∷ rs) = if same_key r.device_id id then retain_not id rs else r ∷ retain_not id rs

-- `remove`: the roster, and whether a device was taken out.
unfoldable pub remove : DeviceId → Roster → Roster × Bool
remove id roster =
    let kept = retain_not id roster.devices in
    (
      record { devices = kept; signed_by = none; signature = none },
      not (length roster.devices == length kept),
    )

unfoldable pub any_with_id : DeviceId → List DeviceRecord → Bool
any_with_id id [] = false
any_with_id id (r ∷ rs) = same_key r.device_id id || any_with_id id rs

module _ (p : Primitives) where
  unfoldable pub validate_record : DeviceRecord → CryptoResult {0} Unit
  validate_record r =
      if ltb max_name_len (length r.name)
      then err (string_too_long "device name" max_name_len)
      else if ltb max_platform_len (length r.platform)
      then err (string_too_long "device platform" max_platform_len)
      else if p.is_verifying_key r.ed25519_pub
      then ok tt
      else err bad_verifying_key

  unfoldable pub validate_devices : List DeviceRecord → CryptoResult {0} Unit
  validate_devices [] = ok tt
  validate_devices (r ∷ rs) = do
    validate_record r
    if any_with_id r.device_id rs then err (duplicate_device r.device_id) else validate_devices rs

  abbrev pub validate : Roster → CryptoResult {0} Unit
  validate roster = validate_devices roster.devices

  -- `add`: a roster that is refused is left as it was.
  unfoldable pub add : DeviceRecord → Roster → CryptoResult Roster
  add r roster = do
    validate_record r
    elim (contains roster r.device_id) [
      | some old ↦ err (duplicate_device r.device_id)
      | none ↦
          ok (record { devices = roster.devices ++ (r ∷ []); signed_by = none; signature = none })
    ]

  unfoldable pub sign : DeviceIdentity → Roster → CryptoResult Roster
  sign identity roster = do
    validate roster
    elim (contains roster identity.device_id) [
      | none ↦ err (roster_signer_not_in_roster identity.device_id)
      | some r ↦
          if not (same_key r.ed25519_pub (p.verifying_key identity.signing))
          then err roster_signature_invalid
          else ok (record {
            devices = roster.devices;
            signed_by = some identity.device_id;
            signature =
                some (p.sign_message identity.signing (signing_bytes roster identity.device_id));
          })
    ]

  unfoldable pub verify_signed : Roster → DeviceId → Bytes → CryptoResult DeviceRecord
  verify_signed roster signer signature = elim (contains roster signer) [
    | none ↦ err (roster_signer_not_in_roster signer)
    | some r ↦
        if not (p.is_verifying_key r.ed25519_pub)
        then err bad_verifying_key
        else if p.verify_strict r.ed25519_pub (signing_bytes roster signer) signature
        then ok r
        else err roster_signature_invalid
  ]

  abbrev pub verify_parts : Roster → Option DeviceId → Option Bytes → CryptoResult DeviceRecord
  verify_parts roster (some signer) (some signature) = verify_signed roster signer signature
  verify_parts roster (some signer) none = err roster_unsigned
  verify_parts roster none signature = err roster_unsigned

  unfoldable pub verify : Roster → CryptoResult DeviceRecord
  verify roster = do validate roster; verify_parts roster roster.signed_by roster.signature
