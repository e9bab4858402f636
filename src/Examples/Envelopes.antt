-- ===== src/Examples/Envelopes.antt =====
-- Rosters and envelopes of crates/misty-crypto, at the keys of Keys.
use misty.Prelude.{◌≡◌, ◌≢◌, ◌↔◌, refl, true, some, none, [], ◌∷◌, ◌++◌, ok, arith}
use misty.Prelude.Little.{
  le_bytes, zero_fill, AreBytes, AreBytes-append, le_bytes-AreBytes, zero_fill-AreBytes,
  length-zero_fill,
}
use misty.Crypto.Error.{Bytes, ItemId}
use misty.Crypto.Identity.{
  DeviceRecord, Roster, contains, find, validate, add, remove, verify, signing_bytes,
  validate_devices, validate_record, any_with_id, verify_signed,
}
use misty.Crypto.Identity.Devices.{Added, add-Added, remove-validate}
use misty.Crypto.Identity.Signed.{IsSignedBy, verify-IsSignedBy}
use misty.Crypto.Identity.Signing.{IsSizedRecord, signing_bytes-injective}
use misty.Crypto.Envelope.Pad.{pad, unpad}
use misty.Crypto.Envelope.Pad.Framed.{framed}
use misty.Crypto.Envelope.Pad.Exact.{pad-unpad_iff}
use misty.Crypto.Envelope.Header.{item, take_at}
use misty.Crypto.Envelope.Seal.{Envelope, EpochKey, parse, seal, open_envelope, signed_message}
use misty.Crypto.Envelope.Seal.RoundTrip.{IsTyped, open_envelope-seal}
use misty.Crypto.Envelope.Seal.Authentic.{Holds, open_envelope-authentic, signed_message-injective}
use misty.Examples.Keys.{
  tagging, tagging-Documented, phone, phone_record, laptop_id, laptop_record, home_roster,
  phone_found, home_roster_valid,
}

abbrev note : Bytes
note = 104 ∷ 105 ∷ []

abbrev note_buffer : Bytes
note_buffer = framed 250 note

note_buffer-AreBytes : AreBytes note_buffer
unfolding framed
note_buffer-AreBytes =
    AreBytes-append (le_bytes 4 2) (note ++ zero_fill 250) (le_bytes-AreBytes 4 2) (
      AreBytes-append note (zero_fill 250) (omega arith, (omega arith, tt))
        (zero_fill-AreBytes 250))

pad-unpad_iff_example : (pad note ≡ ok note_buffer) ↔ (unpad note_buffer ≡ ok note)
pad-unpad_iff_example = pad-unpad_iff note note_buffer note_buffer-AreBytes

add-Added_example : Added tagging laptop_record home_roster (add tagging laptop_record home_roster)
add-Added_example = add-Added tagging laptop_record home_roster home_roster_valid

phone_not_laptop : phone.device_id ≢ laptop_id
unfolding zero_fill
phone_not_laptop h = ground (arith, h)

remove-validate_example :
    (validate tagging (remove laptop_id home_roster).0 ≡ ok tt)
    × (contains (remove laptop_id home_roster).0 laptop_id ≡ none)
    × ((remove laptop_id home_roster).0.signed_by ≡ none)
    × ((remove laptop_id home_roster).0.signature ≡ none)
    × (contains (remove laptop_id home_roster).0 phone.device_id
        ≡ contains home_roster phone.device_id)
remove-validate_example =
    remove-validate tagging laptop_id phone.device_id home_roster home_roster_valid phone_not_laptop

-- The roster of the phone, signed by it.
abbrev signed_roster : Roster
signed_roster = record {
  devices = home_roster.devices;
  signed_by = some phone.device_id;
  signature = some (zero_fill 64);
}

verify_home : verify tagging signed_roster ≡ ok phone_record
unfolding verify validate_devices validate_record any_with_id find zero_fill verify_signed
verify_home = refl

verify-IsSignedBy_example : IsSignedBy tagging signed_roster phone_record
verify-IsSignedBy_example = verify-IsSignedBy tagging signed_roster phone_record verify_home

phone_record-IsSized : IsSizedRecord phone_record
phone_record-IsSized = record {
  id_sized = length-zero_fill 16;
  key_sized = length-zero_fill 32;
  name_sized = omega arith;
  platform_sized = omega arith;
  time_word = omega arith;
  by_sized = tt;
}

same_bytes : signing_bytes home_roster phone.device_id ≡ signing_bytes signed_roster phone.device_id
unfolding signing_bytes
same_bytes = refl

signing_bytes-injective_example :
    (phone.device_id ≡ phone.device_id) × (home_roster.devices ≡ signed_roster.devices)
signing_bytes-injective_example =
    signing_bytes-injective home_roster signed_roster phone.device_id phone.device_id
      (phone_record-IsSized, tt) (phone_record-IsSized, tt) (omega arith) (omega arith)
      (length-zero_fill 16) (length-zero_fill 16) same_bytes

abbrev epoch_key : EpochKey
epoch_key = record { epoch = 3; key = zero_fill 32 }

abbrev note_id : ItemId
note_id = zero_fill 16

typed : IsTyped epoch_key phone (zero_fill 32) (zero_fill 24) (zero_fill 24)
typed = record {
  epoch_word = omega arith;
  epoch_key_sized = length-zero_fill 32;
  device_sized = length-zero_fill 16;
  item_key_sized = length-zero_fill 32;
  wik_sized = length-zero_fill 24;
  payload_sized = length-zero_fill 24;
}

-- The note, sealed by the phone.
sealed_note :
    (bytes : Bytes) × (seal tagging item 3 note_id note epoch_key phone (record {
      item_key = ok (zero_fill 32);
      wik = ok (zero_fill 24);
      payload = ok (zero_fill 24);
    })
      ≡ ok bytes)
    × (open_envelope tagging bytes note_id epoch_key home_roster ≡ ok note)
sealed_note =
    open_envelope-seal tagging tagging-Documented item epoch_key phone (zero_fill 32) (zero_fill 24)
      (zero_fill 24) note_id typed note home_roster phone_record (omega arith) phone_found refl

open_envelope-seal_example :
    (bytes : Bytes) × (seal tagging item 3 note_id note epoch_key phone (record {
      item_key = ok (zero_fill 32);
      wik = ok (zero_fill 24);
      payload = ok (zero_fill 24);
    })
      ≡ ok bytes)
    × (open_envelope tagging bytes note_id epoch_key home_roster ≡ ok note)
open_envelope-seal_example =
    open_envelope-seal tagging tagging-Documented item epoch_key phone (zero_fill 32) (zero_fill 24)
      (zero_fill 24) note_id typed note home_roster phone_record (omega arith) phone_found refl

abbrev Authentic : Type 0
Authentic =
    (e : Envelope) × (r : DeviceRecord) × (signature : Bytes) × (parse sealed_note.0 ≡ ok e)
    × (contains home_roster e.header.signer ≡ some r)
    × (take_at e.signature 0 64 "envelope header" ≡ ok signature)
    × (tagging.verify_strict r.ed25519_pub (signed_message e note_id) signature ≡ true)
    × (e.header.epoch ≡ epoch_key.epoch)
    × Holds tagging e note_id epoch_key note

opened : Authentic
opened =
    open_envelope-authentic tagging sealed_note.0 note_id epoch_key home_roster note sealed_note.2

open_envelope-authentic_example : Authentic
open_envelope-authentic_example =
    open_envelope-authentic tagging sealed_note.0 note_id epoch_key home_roster note sealed_note.2

signed_message-injective_example :
    (note_id ≡ note_id)
    × (opened.0.header_bytes ≡ opened.0.header_bytes)
    × (opened.0.wrapped_item_key ≡ opened.0.wrapped_item_key)
    × (opened.0.ciphertext ≡ opened.0.ciphertext)
signed_message-injective_example =
    signed_message-injective sealed_note.0 sealed_note.0 opened.0 opened.0 note_id note_id opened.3
      opened.3 (length-zero_fill 16) (length-zero_fill 16) refl
