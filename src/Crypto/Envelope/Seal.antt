-- ===== src/Crypto/Envelope/Seal.antt =====
-- crates/misty-crypto/src/envelope/mod.rs: sealing, parsing, verifying and opening an envelope, with
-- src/aead.rs.
pub mod Parsed
pub mod Authentic
pub mod RoundTrip
use misty.Prelude.{
  ◌>>=◌, ℕ, ◌+◌, ◌-◌, ◌%◌, not, if◌then◌else◌, ltb, ◌==◌, ◌++◌, length, ok, err, some, none, Option,
}
use misty.Crypto.Error.{
  Bytes, ItemId, CryptoError, CryptoResult, truncated, malformed_body, epoch_mismatch,
  unknown_signer, signature_invalid, bad_verifying_key, aead_encrypt, item_key_unwrap_failed,
  payload_decrypt_failed,
}
use misty.Crypto.Primitives.{Primitives}
use misty.Crypto.Identity.{DeviceIdentity, Roster, contains}
use misty.Crypto.Envelope.Pad.{pad, unpad, pad_block}
use misty.Crypto.Envelope.Header.{
  EnvelopeKind, Header, to_bytes, parse_header, take_at, array_at, header_len,
}

abbrev pub key_len : ℕ
key_len = 32

abbrev pub tag_len : ℕ
tag_len = 16

abbrev pub wrapped_item_key_len : ℕ
wrapped_item_key_len = key_len + tag_len

abbrev pub signature_len : ℕ
signature_len = 64

abbrev pub min_envelope_len : ℕ
min_envelope_len = header_len + wrapped_item_key_len + pad_block + tag_len + signature_len

pub record EpochKey : Type 0 where
  pub epoch : ℕ
  pub key : Bytes

pub record Nonces : Type 0 where
  pub wik : Bytes
  pub payload : Bytes

pub record SealInputs : Type 0 where
  pub kind : EnvelopeKind
  pub item_id : ItemId
  pub epoch_key : EpochKey
  pub item_key : Bytes
  pub identity : DeviceIdentity
  pub nonces : Nonces

pub record Envelope : Type 0 where
  pub header : Header
  pub header_bytes : Bytes
  pub wrapped_item_key : Bytes
  pub ciphertext : Bytes
  pub signature : Bytes

pub record Verified : Type 0 where
  pub envelope : Envelope
  pub item_id : ItemId

-- The draws from the operating system's generator, each of which can fail: the item key and the two
-- nonces, in the order in which `seal` asks for them.
pub record Draws : Type 0 where
  pub item_key : CryptoResult Bytes
  pub wik : CryptoResult Bytes
  pub payload : CryptoResult Bytes

abbrev pub random_nonces : Draws → CryptoResult Nonces
random_nonces draws = do
  wik ← draws.wik
  payload ← draws.payload
  ok (record { wik = wik; payload = payload })

-- `Option::ok_or`, for the crates' errors that are mapped to one error.
abbrev pub ok_or : CryptoError → Option Bytes → CryptoResult Bytes
ok_or e (some x) = ok x
ok_or e none = err e

unfoldable pub parse : Bytes → CryptoResult Envelope
parse bytes =
    if ltb (length bytes) min_envelope_len
    then err (truncated "envelope" min_envelope_len (length bytes))
    else do
      header ← parse_header bytes
      let ciphertext_len = length bytes - (header_len + wrapped_item_key_len + signature_len)
      if not ((ciphertext_len - tag_len) % pad_block == 0)
          then err (malformed_body "ciphertext length is not a multiple of 256 plus a 16-byte tag")
          else do
            header_bytes ← take_at bytes 0 header_len "envelope header"
            wrapped_item_key ← take_at bytes header_len wrapped_item_key_len "wrapped item key"
            ciphertext ←
                take_at bytes (header_len + wrapped_item_key_len) ciphertext_len "ciphertext"
            signature ←
                take_at bytes (header_len + wrapped_item_key_len + ciphertext_len) signature_len
                  "signature"
            ok (record {
              header = header;
              header_bytes = header_bytes;
              wrapped_item_key = wrapped_item_key;
              ciphertext = ciphertext;
              signature = signature;
            })

unfoldable pub aad : Envelope → ItemId → Bytes
aad e item_id = e.header_bytes ++ item_id

unfoldable pub signed_message : Envelope → ItemId → Bytes
signed_message e item_id = (aad e item_id ++ e.wrapped_item_key) ++ e.ciphertext

module _ (p : Primitives) where
  abbrev pub encrypt : Bytes → Bytes → Bytes → Bytes → CryptoResult Bytes
  encrypt key nonce aad text = ok_or aead_encrypt (p.aead_encrypt key nonce aad text)

  abbrev pub decrypt : Bytes → Bytes → Bytes → Bytes → CryptoError → CryptoResult Bytes
  decrypt key nonce aad sealed on_failure = ok_or on_failure (p.aead_decrypt key nonce aad sealed)

  unfoldable pub seal_with : SealInputs → Bytes → CryptoResult Bytes
  seal_with inputs padded = do
    let header : Header = record {
      kind = inputs.kind;
      epoch = inputs.epoch_key.epoch;
      signer = inputs.identity.device_id;
      wik_nonce = inputs.nonces.wik;
      payload_nonce = inputs.nonces.payload;
    }
    let header_bytes = to_bytes header
    let aad = header_bytes ++ inputs.item_id
    wrapped ← encrypt inputs.epoch_key.key inputs.nonces.wik aad inputs.item_key
    ciphertext ← encrypt inputs.item_key inputs.nonces.payload aad padded
    let signature = p.sign_message inputs.identity.signing ((aad ++ wrapped) ++ ciphertext)
    ok (((header_bytes ++ wrapped) ++ ciphertext) ++ signature)

  unfoldable pub seal :
      EnvelopeKind → ℕ → ItemId → Bytes → EpochKey → DeviceIdentity → Draws → CryptoResult Bytes
  seal kind epoch item_id payload epoch_key identity draws =
      if not (epoch == epoch_key.epoch) then err (epoch_mismatch epoch_key.epoch epoch) else do
        item_key ← draws.item_key
        padded ← pad payload
        nonces ← random_nonces draws
        seal_with
            (record {
              kind = kind;
              item_id = item_id;
              epoch_key = epoch_key;
              item_key = item_key;
              identity = identity;
              nonces = nonces;
            })
            padded

  unfoldable pub verify_with_signer : Envelope → ItemId → Bytes → CryptoResult Verified
  verify_with_signer e item_id signer_public_key = do
    signature ← array_at signature_len e.signature 0
    if not (p.is_verifying_key signer_public_key)
        then err bad_verifying_key
        else if p.verify_strict signer_public_key (signed_message e item_id) signature
        then ok (record { envelope = e; item_id = item_id })
        else err signature_invalid

  unfoldable pub verify_envelope : Envelope → ItemId → Roster → CryptoResult Verified
  verify_envelope e item_id roster = elim (contains roster e.header.signer) [
    | none ↦ err (unknown_signer e.header.signer)
    | some r ↦ verify_with_signer e item_id r.ed25519_pub
  ]

  unfoldable pub open_verified : Verified → EpochKey → CryptoResult Bytes
  open_verified v epoch_key =
      let header = v.envelope.header in
      if not (header.epoch == epoch_key.epoch)
      then err (epoch_mismatch epoch_key.epoch header.epoch)
      else do
        unwrapped ←
            decrypt epoch_key.key header.wik_nonce (aad v.envelope v.item_id)
              v.envelope.wrapped_item_key item_key_unwrap_failed
        if not (length unwrapped == key_len) then err item_key_unwrap_failed else do
          padded ←
              decrypt unwrapped header.payload_nonce (aad v.envelope v.item_id)
                v.envelope.ciphertext payload_decrypt_failed
          unpad padded

  unfoldable pub open_envelope : Bytes → ItemId → EpochKey → Roster → CryptoResult Bytes
  open_envelope bytes item_id epoch_key roster = do
    envelope ← parse bytes
    verified ← verify_envelope envelope item_id roster
    open_verified verified epoch_key

  unfoldable pub open_with_signer : Bytes → ItemId → EpochKey → Bytes → CryptoResult Bytes
  open_with_signer bytes item_id epoch_key signer_public_key = do
    envelope ← parse bytes
    verified ← verify_with_signer envelope item_id signer_public_key
    open_verified verified epoch_key
