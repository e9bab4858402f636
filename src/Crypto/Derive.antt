-- ===== src/Crypto/Derive.antt =====
-- crates/misty-crypto/src/derive.rs: key schedules. HKDF-SHA-512 of the crate `hkdf` is a parameter: the input key,
-- the salt, the info and the length wanted give that many bytes, or nothing where it is too long.
use misty.Prelude.{ℕ, Option, some, none, [], ◌∷◌, ◌++◌, ok, err, ◌>>=◌}
use misty.Prelude.Little.{le_bytes}
use misty.Crypto.Error.{Bytes, CryptoResult, kdf}
use misty.Crypto.Envelope.Seal.{EpochKey, key_len}

abbrev pub Hkdf : Type 0
Hkdf = Bytes → Bytes → Bytes → ℕ → Option Bytes

-- `b"misty/epoch/v1"`
abbrev pub epoch_salt : Bytes
epoch_salt = 109 ∷ 105 ∷ 115 ∷ 116 ∷ 121 ∷ 47 ∷ 101 ∷ 112 ∷ 111 ∷ 99 ∷ 104 ∷ 47 ∷ 118 ∷ 49 ∷ []

-- `b"misty/enroll/v1"`
abbrev pub enrollment_info_prefix : Bytes
enrollment_info_prefix =
    109 ∷ 105 ∷ 115 ∷ 116 ∷ 121 ∷ 47 ∷ 101 ∷ 110 ∷ 114 ∷ 111 ∷ 108 ∷ 108 ∷ 47 ∷ 118 ∷ 49 ∷ []

module _ (hkdf : Hkdf) where
  unfoldable pub hkdf_sha512 : Bytes → Bytes → Bytes → ℕ → CryptoResult Bytes
  hkdf_sha512 ikm salt info n = elim (hkdf ikm salt info n) [
    | some okm ↦ ok okm
    | none ↦ err (kdf "HKDF-SHA-512 cannot produce an output that long")
  ]

  unfoldable pub epoch_key : Bytes → ℕ → CryptoResult EpochKey
  epoch_key vault_key epoch = do
    okm ← hkdf_sha512 vault_key epoch_salt (le_bytes 4 epoch) key_len
    ok (record { epoch = epoch; key = okm })

  unfoldable pub enrollment_sealing_key : Bytes → Bytes → Bytes → Bytes → CryptoResult Bytes
  enrollment_sealing_key shared_secret enroll_id approver_x25519_pub new_device_x25519_pub =
      hkdf_sha512 shared_secret enroll_id
        ((enrollment_info_prefix ++ approver_x25519_pub) ++ new_device_x25519_pub) key_len
