-- ===== src/Crypto/Envelope/Seal/RoundTrip.antt =====
-- An envelope of crates/misty-crypto/src/envelope/mod.rs that is sealed can be opened.
use misty.Prelude.{
  ◌+◌, ◌%◌, ◌<◌, ◌≤◌, ◌≡◌, refl, sym, subst, true, ◌==◌, length, ok, Result-cases, inl, inr, some,
  [], ◌++◌, arith, append-nil,
}
use misty.Crypto.Error.{Bytes, ItemId}
use misty.Crypto.Primitives.{Primitives, Documented}
use misty.Crypto.Identity.{DeviceIdentity, DeviceRecord, Roster, contains}
use misty.Crypto.Envelope.Pad.{pad, unpad, max_payload_len}
use misty.Crypto.Envelope.Pad.Exact.{unpad-pad, pad-PadsWell, PadsWell}
use misty.Crypto.Envelope.Header.{EnvelopeKind, Header, to_bytes, take_at}
use misty.Crypto.Envelope.Header.Slices.{take_at-slice}
use misty.Crypto.Envelope.Header.RoundTrip.{IsSized}
use misty.Crypto.Envelope.Seal.{
  Envelope, EpochKey, SealInputs, seal_with, seal, aad, signed_message, verify_with_signer,
  verify_envelope, open_verified, open_envelope,
}
use misty.Crypto.Envelope.Seal.Parsed.{assembled, IsWhole, parse-assembled}

-- What the arrays of the source are by their types: keys of 32 bytes, nonces of 24, ids of 16.
pub record IsTyped (epoch_key : EpochKey) (identity : DeviceIdentity) (item_key wik payload : Bytes)
    : Type 0 where
  pub epoch_word : epoch_key.epoch < 4294967296
  pub epoch_key_sized : length epoch_key.key ≡ 32
  pub device_sized : length identity.device_id ≡ 16
  pub item_key_sized : length item_key ≡ 32
  pub wik_sized : length wik ≡ 24
  pub payload_sized : length payload ≡ 24

abbrev header_of : EnvelopeKind → EpochKey → DeviceIdentity → Bytes → Bytes → Header
header_of kind epoch_key identity wik payload = record {
  kind = kind;
  epoch = epoch_key.epoch;
  signer = identity.device_id;
  wik_nonce = wik;
  payload_nonce = payload;
}

pads :
    (text : Bytes)
    → length text ≤ max_payload_len
    → (b : Bytes) × (pad text ≡ ok b)
      × (length b % 256 ≡ 0)
      × (length text + 4 ≤ length b)
      × (length b < length text + 260)
pads text h = elim (Result-cases (pad text)) [
  | inl (b, e) ↦
      let (small, whole, holds, below) = subst (PadsWell text) e (pad-PadsWell text) in
      (b, e, whole, holds, below)
  | inr (f, e) ↦ absurd (omega (arith, subst (PadsWell text) e (pad-PadsWell text)))
]

module _ (p : Primitives) (d : Documented p) (kind : EnvelopeKind) (epoch_key : EpochKey)
    (identity : DeviceIdentity) (item_key wik payload : Bytes) (item_id : ItemId)
    (sized : IsTyped epoch_key identity item_key wik payload) where
  abbrev header : Header
  header = header_of kind epoch_key identity wik payload

  abbrev data_of : Bytes
  data_of = to_bytes header ++ item_id

  abbrev inputs : SealInputs
  inputs = record {
    kind = kind;
    item_id = item_id;
    epoch_key = epoch_key;
    item_key = item_key;
    identity = identity;
    nonces = record { wik = wik; payload = payload };
  }

  seal_with-assembled :
      (w c padded : Bytes)
      → p.aead_encrypt epoch_key.key wik data_of item_key ≡ some w
      → p.aead_encrypt item_key payload data_of padded ≡ some c
      → seal_with p inputs padded
        ≡ ok (assembled header w c (p.sign_message identity.signing ((data_of ++ w) ++ c)))
  unfolding seal_with assembled
  seal_with-assembled w c padded e f = rw (e, f) refl

  -- What `parse` reads in the sealed bytes.
  abbrev sealed : Bytes → Bytes → Envelope
  sealed w c = record {
    header = header;
    header_bytes = to_bytes header;
    wrapped_item_key = w;
    ciphertext = c;
    signature = p.sign_message identity.signing ((data_of ++ w) ++ c);
  }

  header-IsSized : IsSized header
  header-IsSized = record {
    epoch_word = sized.epoch_word;
    signer_sized = sized.device_sized;
    wik_sized = sized.wik_sized;
    payload_sized = sized.payload_sized;
  }

  verify_sealed :
      (w c : Bytes) (roster : Roster) (r : DeviceRecord)
      → contains roster identity.device_id ≡ some r
      → r.ed25519_pub ≡ p.verifying_key identity.signing
      → verify_envelope p (sealed w c) item_id roster
        ≡ ok (record { envelope = sealed w c; item_id = item_id })
  unfolding verify_envelope verify_with_signer signed_message aad
  verify_sealed w c roster r found key =
      let message : Bytes = (data_of ++ w) ++ c in
      let signature = p.sign_message identity.signing message in
      let read : take_at signature 0 64 "envelope header" ≡ ok signature =
        take_at-slice signature [] signature [] 0 64 "envelope header" (sym (append-nil signature))
          refl (d.signature_sized identity.signing message) (omega arith) in
      rw (verify_envelope, found)
        (rw
          (
            verify_with_signer,
            key,
            read,
            d.key_accepted identity.signing,
            d.signature_accepted identity.signing message,
          )
          refl)

  open_sealed :
      (w c padded text : Bytes)
      → p.aead_decrypt epoch_key.key wik data_of w ≡ some item_key
      → p.aead_decrypt item_key payload data_of c ≡ some padded
      → unpad padded ≡ ok text
      → open_verified p (record { envelope = sealed w c; item_id = item_id }) epoch_key ≡ ok text
  unfolding open_verified aad
  open_sealed w c padded text e f u =
      let same : epoch_key.epoch == epoch_key.epoch ≡ true = ground arith in
      let size : length item_key == 32 ≡ true = ground (arith, sized.item_key_sized) in
      rw (same, e, size, f, u) refl

  -- With primitives that do what their crates document, and keys, nonces and ids of their sizes:
  -- sealing a payload of at most `MAX_PAYLOAD_LEN` bytes succeeds, and opening the bytes for the
  -- same item with the same epoch key returns the payload, for every roster that names the sealing
  -- device with its key.
  pub open_envelope-seal :
      (text : Bytes) (roster : Roster) (r : DeviceRecord)
      → length text ≤ max_payload_len
      → contains roster identity.device_id ≡ some r
      → r.ed25519_pub ≡ p.verifying_key identity.signing
      → (bytes : Bytes) × (seal p kind epoch_key.epoch item_id text epoch_key identity
            (record { item_key = ok item_key; wik = ok wik; payload = ok payload })
          ≡ ok bytes)
        × (open_envelope p bytes item_id epoch_key roster ≡ ok text)
  unfolding seal open_envelope
  open_envelope-seal text roster r small found key =
      let (padded, pad_ok, whole, holds, below) = pads text small in
      let (w, wrapped) =
        d.encrypts epoch_key.key wik data_of item_key sized.epoch_key_sized sized.wik_sized
          (omega (arith, sized.item_key_sized)) in
      let (c, hidden) =
        d.encrypts item_key payload data_of padded sized.item_key_sized sized.payload_sized
          (omega arith) in
      let w_size = d.tagged epoch_key.key wik data_of item_key w wrapped in
      let c_size = d.tagged item_key payload data_of padded c hidden in
      let s = p.sign_message identity.signing ((data_of ++ w) ++ c) in
      let is_whole : IsWhole header w c s = record {
        header_sized = header-IsSized;
        wrapped_sized = omega (arith, w_size, sized.item_key_sized);
        blocks = omega (arith, c_size, whole);
        not_empty = omega (arith, c_size, whole, holds);
        not_huge = omega (arith, c_size, below, small);
        signature_sized = d.signature_sized identity.signing ((data_of ++ w) ++ c);
      } in
      let same : epoch_key.epoch == epoch_key.epoch ≡ true = ground arith in
      (
        assembled header w c s,
        rw (same, pad_ok) (seal_with-assembled w c padded wrapped hidden),
        rw (parse-assembled header w c s is_whole, verify_sealed w c roster r found key)
            (open_sealed w c padded text (d.decrypts epoch_key.key wik data_of item_key w wrapped)
              (d.decrypts item_key payload data_of padded c hidden) (unpad-pad text padded pad_ok)),
      )
