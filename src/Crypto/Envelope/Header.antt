-- ===== src/Crypto/Envelope/Header.antt =====
-- crates/misty-crypto/src/envelope/mod.rs: the header, its encoding and its parser.
pub mod Slices
pub mod RoundTrip
use misty.Prelude.{
  ◌>>=◌, saturated, ℕ, ◌+◌, not, ◌&&◌, suc, zero, if◌then◌else◌, leb, ◌==◌, ◌++◌, [], ◌∷◌, length,
  ok, err, some, none, Option, same_key, list_ord, nat_ord, String,
}
use misty.Prelude.Bytes.{take, drop}
use misty.Prelude.Little.{le_bytes, from_le, get_range, zero_fill}
use misty.Crypto.Error.{
  Bytes, DeviceId, CryptoResult, truncated, bad_envelope_magic, unsupported_format_version,
  unknown_envelope_kind,
}

abbrev pub envelope_magic : Bytes
envelope_magic = 77 ∷ 83 ∷ 84 ∷ 89 ∷ []

abbrev pub envelope_format_version : ℕ
envelope_format_version = 1

abbrev pub header_len : ℕ
header_len = 74

abbrev pub nonce_len : ℕ
nonce_len = 24

pub data EnvelopeKind : Type 0 where
  item device_roster settings group custom_icon : EnvelopeKind

unfoldable pub as_u8 : EnvelopeKind → ℕ
as_u8 item = 1
as_u8 device_roster = 2
as_u8 settings = 3
as_u8 group = 4
as_u8 custom_icon = 5

unfoldable pub from_u8 : ℕ → CryptoResult EnvelopeKind
from_u8 byte =
    if byte == 1
    then ok item
    else if byte == 2
    then ok device_roster
    else if byte == 3
    then ok settings
    else if byte == 4
    then ok group
    else if byte == 5
    then ok custom_icon
    else err (unknown_envelope_kind byte)

pub record Header : Type 0 where
  pub kind : EnvelopeKind
  pub epoch : ℕ
  pub signer : DeviceId
  pub wik_nonce : Bytes
  pub payload_nonce : Bytes

pub record Cursor : Type 0 where
  pub buffer : Bytes
  pub offset : ℕ

-- `Cursor::put`: what does not fit is not written.
unfoldable pub put : Bytes → Cursor → Cursor
put bytes c =
    let end = saturated (c.offset + length bytes) in
    if leb c.offset end && leb end (length c.buffer)
    then record { buffer = take c.offset c.buffer ++ (bytes ++ drop end c.buffer); offset = end }
    else c

unfoldable pub to_bytes : Header → Bytes
to_bytes h =
    let start : Cursor = record { buffer = zero_fill header_len; offset = 0 } in
    (put h.payload_nonce (
      put h.wik_nonce (
        put h.signer (
          put (le_bytes 4 h.epoch) (
            put (as_u8 h.kind ∷ [])
              (put (envelope_format_version ∷ []) (put envelope_magic start))))))).buffer

-- The free functions `take`, `byte_at` and `array_at`.
unfoldable pub take_at : Bytes → ℕ → ℕ → String → CryptoResult Bytes
take_at bytes offset len context = elim (get_range offset (saturated (offset + len)) bytes) [
  | some slice ↦ ok slice
  | none ↦ err (truncated context (saturated (offset + len)) (length bytes))
]

abbrev pub get : Bytes → ℕ → Option ℕ
get [] i = none
get (b ∷ bs) zero = some b
get (b ∷ bs) (suc i) = get bs i

unfoldable pub byte_at : Bytes → ℕ → CryptoResult ℕ
byte_at bytes offset = elim (get bytes offset) [
  | some b ↦ ok b
  | none ↦ err (truncated "envelope header" (offset + 1) (length bytes))
]

abbrev pub array_at : ℕ → Bytes → ℕ → CryptoResult Bytes
array_at n bytes offset = take_at bytes offset n "envelope header"

unfoldable pub parse_fields : Bytes → CryptoResult Header
parse_fields header = do
  kind_byte ← byte_at header 5
  kind ← from_u8 kind_byte
  epoch ← array_at 4 header 6
  signer ← array_at 16 header 10
  wik_nonce ← array_at nonce_len header 26
  payload_nonce ← array_at nonce_len header 50
  ok (record {
    kind = kind;
    epoch = from_le epoch;
    signer = signer;
    wik_nonce = wik_nonce;
    payload_nonce = payload_nonce;
  })

unfoldable pub parse_versioned : Bytes → CryptoResult Header
parse_versioned header = do
  format_version ← byte_at header 4
  if not (format_version == envelope_format_version)
      then err (unsupported_format_version "envelope" format_version envelope_format_version)
      else parse_fields header

unfoldable pub parse_header : Bytes → CryptoResult Header
parse_header bytes = do
  header ← take_at bytes 0 header_len "envelope header"
  magic ← take_at header 0 4 "envelope magic"
  if not (same_key magic envelope_magic) then err bad_envelope_magic else parse_versioned header
