-- ===== src/Crypto/Envelope/Pad.antt =====
-- crates/misty-crypto/src/envelope/pad.rs: `pad` and `unpad`.
pub mod Framed
pub mod Exact
use misty.Prelude.{
  saturated, ℕ, ◌-◌, ◌+◌, ◌*◌, ◌/◌, ◌%◌, ◌||◌, if◌then◌else◌, leb, ltb, not, ◌==◌, some, none,
  Option, ◌++◌, length, ok, err,
}
use misty.Prelude.Little.{le_bytes, from_le, any_nonzero, get_range, split_at_checked, resize}
use misty.Crypto.Error.{Bytes, CryptoResult, payload_too_large, bad_padding, bad_padding_length}

abbrev pub pad_block : ℕ
pad_block = 256

abbrev pub max_payload_len : ℕ
max_payload_len = 16777216

abbrev pub prefix_len : ℕ
prefix_len = 4

unfoldable pub padded_len : ℕ → ℕ
padded_len len =
    saturated (saturated (saturated (len + prefix_len) + (pad_block - 1)) / pad_block * pad_block)

-- `u32::try_from(payload.len()).unwrap_or(u32::MAX)`
abbrev pub declared_len : ℕ → ℕ
declared_len len = if leb len 4294967295 then len else 4294967295

unfoldable pub pad : Bytes → CryptoResult Bytes
pad payload =
    if ltb max_payload_len (length payload)
    then err (payload_too_large (length payload) max_payload_len)
    else ok (
        resize (padded_len (length payload))
          (le_bytes 4 (declared_len (length payload)) ++ payload))

-- The last check of `unpad`, on the two parts after the prefix.
unfoldable pub check_filler : Option (Bytes × Bytes) → CryptoResult Bytes
check_filler none = err (bad_padding "declared length does not fit the buffer")
check_filler (some (payload, filler)) =
    if any_nonzero filler then err (bad_padding "padding bytes are not zero") else ok payload

abbrev pub and_then_split : ℕ → Option Bytes → Option (Bytes × Bytes)
and_then_split n none = none
and_then_split n (some rest) = split_at_checked n rest

-- `unpad` once the length prefix is read.
unfoldable pub unpad_declared : ℕ → Bytes → CryptoResult Bytes
unpad_declared declared padded =
    if ltb (length padded - prefix_len) declared
    then err (bad_padding_length declared (length padded - prefix_len))
    else if ltb max_payload_len declared
    then err (payload_too_large declared max_payload_len)
    else if not (padded_len declared == length padded)
    then err (bad_padding "padding is not the minimal amount for the declared length")
    else check_filler (and_then_split declared (get_range prefix_len (length padded) padded))

unfoldable pub unpad : Bytes → CryptoResult Bytes
unpad padded =
    if (length padded == 0) || not (length padded % pad_block == 0)
    then err (bad_padding "padded length is not a positive multiple of 256")
    else elim (get_range 0 prefix_len padded) [
      | none ↦ err (bad_padding "padded buffer is shorter than its length prefix")
      | some prefix ↦ unpad_declared (from_le prefix) padded
    ]
