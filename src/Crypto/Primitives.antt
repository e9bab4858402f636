-- ===== src/Crypto/Primitives.antt =====
-- What crates/misty-crypto calls of the crates `chacha20poly1305` and `ed25519_dalek`.
use misty.Prelude.{◌+◌, ◌<◌, ◌≡◌, Bool, true, Option, some, length}
use misty.Crypto.Error.{Bytes}

pub record Primitives : Type 0 where
  -- XChaCha20-Poly1305: the key, the nonce, the associated data and the text.
  pub aead_encrypt : Bytes → Bytes → Bytes → Bytes → Option Bytes
  pub aead_decrypt : Bytes → Bytes → Bytes → Bytes → Option Bytes
  -- `SigningKey::verifying_key` and `SigningKey::sign`
  pub verifying_key : Bytes → Bytes
  pub sign_message : Bytes → Bytes → Bytes
  -- `VerifyingKey::from_bytes` succeeds, and `verify_strict` of a key, a message and a signature.
  pub is_verifying_key : Bytes → Bool
  pub verify_strict : Bytes → Bytes → Bytes → Bool

-- What the documentation of those crates says of them.
pub record Documented (p : Primitives) : Type 0 where
  -- Decryption with the same key, nonce and associated data gives the text back.
  pub decrypts :
      (key nonce aad text sealed : Bytes)
      → p.aead_encrypt key nonce aad text ≡ some sealed
      → p.aead_decrypt key nonce aad sealed ≡ some text
  -- Texts of less than 2^38 - 64 bytes are encrypted.
  pub encrypts :
      (key nonce aad text : Bytes)
      → length key ≡ 32
      → length nonce ≡ 24
      → length text < 274877906880
      → (sealed : Bytes) × (p.aead_encrypt key nonce aad text ≡ some sealed)
  -- A tag of 16 bytes is appended.
  pub tagged :
      (key nonce aad text sealed : Bytes)
      → p.aead_encrypt key nonce aad text ≡ some sealed
      → length sealed ≡ length text + 16
  -- A signature has 64 bytes, and verifies under the key that belongs to the signing key.
  pub signature_sized : (key message : Bytes) → length (p.sign_message key message) ≡ 64
  pub key_accepted : (key : Bytes) → p.is_verifying_key (p.verifying_key key) ≡ true
  pub signature_accepted :
      (key message : Bytes)
      → p.verify_strict (p.verifying_key key) message (p.sign_message key message) ≡ true
