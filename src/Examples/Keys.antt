-- ===== src/Examples/Keys.antt =====
-- Devices, a roster and keys. The primitives are stand-ins that keep what their crates document: a
-- tag of zeros is appended and taken off, and every signature is accepted.
use misty.Prelude.{
  ◌+◌, ◌-◌, ◌≡◌, refl, sym, ap, subst, ◌∙◌, true, some, none, [], ◌∷◌, ◌++◌, ok, length,
  length-append, arith, pos,
}
use misty.Prelude.Bytes.{take, take-append}
use misty.Prelude.Little.{zero_fill, length-zero_fill}
use misty.Crypto.Error.{Bytes, DeviceId}
use misty.Crypto.Primitives.{Primitives, Documented}
use misty.Crypto.Identity.{
  DeviceRecord, DeviceIdentity, Roster, contains, find, validate, validate_record, validate_devices,
  any_with_id,
}

abbrev pub tagging : Primitives
tagging = record {
  aead_encrypt = λ key nonce aad text. some (text ++ zero_fill 16);
  aead_decrypt = λ key nonce aad sealed. some (take (length sealed - 16) sealed);
  verifying_key = λ key. key;
  sign_message = λ key message. zero_fill 64;
  is_verifying_key = λ key. true;
  verify_strict = λ key message signature. true;
}

length-tagged : (text : Bytes) → length (text ++ zero_fill 16) ≡ length text + 16
length-tagged text = omega (arith, length-append text (zero_fill 16), length-zero_fill 16)

unwrap : {x : Bytes} {y : Bytes} → some x ≡ some y → x ≡ y
unwrap h = cc

untag :
    (text sealed : Bytes)
    → some (text ++ zero_fill 16) ≡ some sealed
    → some (take (length sealed - 16) sealed) ≡ some text
untag text sealed h =
    subst (λ s. some (take (length s - 16) s) ≡ some text) (unwrap h)
      (ap some (take-append _ text (zero_fill 16) (omega (arith, length-tagged text))))

pub tagging-Documented : Documented tagging
tagging-Documented = record {
  decrypts = λ key nonce aad text sealed h. untag text sealed h;
  encrypts = λ key nonce aad text k n t. (text ++ zero_fill 16, refl);
  tagged = λ key nonce aad text sealed h. sym (ap length (unwrap h)) ∙ length-tagged text;
  signature_sized = λ key message. length-zero_fill 64;
  key_accepted = λ key. refl;
  signature_accepted = λ key message. refl;
}

abbrev pub phone_key : Bytes
phone_key = zero_fill 32

abbrev pub phone : DeviceIdentity
phone = record { device_id = zero_fill 16; signing = phone_key; agreement = phone_key }

abbrev pub phone_record : DeviceRecord
phone_record = record {
  device_id = zero_fill 16;
  ed25519_pub = phone_key;
  name = 80 ∷ [];
  platform = 65 ∷ [];
  enrolled_at = pos 1000;
  enrolled_by = none;
}

abbrev pub laptop_id : DeviceId
laptop_id = 7 ∷ zero_fill 15

abbrev pub laptop_record : DeviceRecord
laptop_record = record {
  device_id = laptop_id;
  ed25519_pub = zero_fill 32;
  name = 76 ∷ [];
  platform = [];
  enrolled_at = pos 2000;
  enrolled_by = some (zero_fill 16);
}

abbrev pub home_roster : Roster
home_roster = record { devices = phone_record ∷ []; signed_by = none; signature = none }

pub phone_found : contains home_roster phone.device_id ≡ some phone_record
unfolding find zero_fill
phone_found = refl

pub home_roster_valid : validate tagging home_roster ≡ ok tt
unfolding validate_devices validate_record any_with_id
home_roster_valid = refl
