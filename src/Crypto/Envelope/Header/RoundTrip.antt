-- ===== src/Crypto/Envelope/Header/RoundTrip.antt =====
-- The header of crates/misty-crypto/src/envelope/mod.rs, written and read back.
use misty.Prelude.{
  ℕ, zero, suc, ◌+◌, ◌<◌, ◌≤◌, ◌≡◌, refl, ap, ◌∙◌, length, length-append, leb, true, ok, [], ◌∷◌,
  ◌++◌, append_assoc, append-nil, arith, list_ord, nat_ord,
}
use misty.Prelude.Bytes.{drop, take-append}
use misty.Prelude.Little.{le_bytes, zero_fill, length-le_bytes, from_le-le_bytes, length-zero_fill}
use misty.Crypto.Error.{Bytes}
use misty.Crypto.Envelope.Header.Slices.{drop-over, take_at-slice}
use misty.Crypto.Envelope.Header.{
  EnvelopeKind, item, device_roster, settings, group, custom_icon, as_u8, from_u8, Header, Cursor,
  put, to_bytes, take_at, byte_at, parse_fields, parse_versioned, parse_header, envelope_magic,
}

-- The arrays of a header have their sizes, and the epoch is a `u32`.
pub record IsSized (h : Header) : Type 0 where
  pub epoch_word : h.epoch < 4294967296
  pub signer_sized : length h.signer ≡ 16
  pub wik_sized : length h.wik_nonce ≡ 24
  pub payload_sized : length h.payload_nonce ≡ 24

-- The parts of a header, in order.
unfoldable pub layout : Header → Bytes
layout h =
    envelope_magic
    ++ (1 ∷ as_u8 h.kind ∷ (le_bytes 4 h.epoch ++ (h.signer ++ (h.wik_nonce ++ h.payload_nonce))))

-- A cursor that has written `done`, and has `n` bytes left.
abbrev written : Bytes → ℕ → Cursor
written xs n = record { buffer = xs ++ zero_fill n; offset = length xs }

drop-zero_fill : (m k n : ℕ) → m ≡ k + n → drop k (zero_fill m) ≡ zero_fill n
unfolding zero_fill
drop-zero_fill m zero n h = ap zero_fill (omega arith)
drop-zero_fill zero (suc k) n h = absurd (omega arith)
drop-zero_fill (suc m) (suc k) n h = drop-zero_fill m k n (omega arith)

put-written :
    (bytes xs : Bytes) (m n : ℕ)
    → m ≡ length bytes + n
    → length xs + m ≤ 74
    → put bytes (written xs m) ≡ written (xs ++ bytes) n
unfolding put
put-written bytes xs m n split h =
    let total = length-append xs (zero_fill m) in
    let fill = length-zero_fill m in
    let word : leb (length xs + length bytes) 18446744073709551615 ≡ true = ground arith in
    let from_ok : leb (length xs) (length xs + length bytes) ≡ true = ground arith in
    let to_ok : leb (length xs + length bytes) (length (xs ++ zero_fill m)) ≡ true = ground arith in
    let rest : drop (length xs + length bytes) (xs ++ zero_fill m) ≡ zero_fill n =
      drop-over xs _ _ (length bytes) refl ∙ drop-zero_fill m (length bytes) n split in
    let kept = take-append (length xs) xs (zero_fill m) refl in
    rw (word, from_ok, to_ok, rest, kept, length-append xs bytes, append_assoc) refl

-- `to_bytes` writes every part.
pub to_bytes-layout : (h : Header) → IsSized h → to_bytes h ≡ layout h
unfolding to_bytes layout
to_bytes-layout h s =
    let word = length-le_bytes 4 h.epoch in
    let six : Bytes = envelope_magic ++ (1 ∷ as_u8 h.kind ∷ []) in
    let ten = length-append six (le_bytes 4 h.epoch) in
    let signed = length-append (six ++ le_bytes 4 h.epoch) h.signer in
    let keyed = length-append ((six ++ le_bytes 4 h.epoch) ++ h.signer) h.wik_nonce in
    rw
      (
        to_bytes,
        put-written envelope_magic [] 74 70 refl (omega arith),
        put-written (1 ∷ []) envelope_magic 70 69 refl (omega arith),
        put-written (as_u8 h.kind ∷ []) (envelope_magic ++ (1 ∷ [])) 69 68 refl (omega arith),
        put-written (le_bytes 4 h.epoch) six 68 64 (omega (arith, word)) (omega arith),
        put-written h.signer (six ++ le_bytes 4 h.epoch) 64 48 (omega (arith, s.signer_sized))
            (omega (arith, word, ten)),
        put-written h.wik_nonce ((six ++ le_bytes 4 h.epoch) ++ h.signer) 48 24
            (omega (arith, s.wik_sized)) (omega (arith, word, ten, signed, s.signer_sized)),
        put-written h.payload_nonce (((six ++ le_bytes 4 h.epoch) ++ h.signer) ++ h.wik_nonce) 24 0
            (omega (arith, s.payload_sized))
            (omega (arith, word, ten, signed, keyed, s.signer_sized, s.wik_sized)),
      )
      (unfold zero_fill in simp (append_assoc, append-nil))

pub length-layout : (h : Header) → IsSized h → length (layout h) ≡ 74
unfolding layout
length-layout h s = omega (
  arith,
  length-append (le_bytes 4 h.epoch) (h.signer ++ (h.wik_nonce ++ h.payload_nonce)),
  length-append h.signer (h.wik_nonce ++ h.payload_nonce),
  length-append h.wik_nonce h.payload_nonce,
  length-le_bytes 4 h.epoch,
  s.signer_sized,
  s.wik_sized,
  s.payload_sized,
)

from_u8-as_u8 : (k : EnvelopeKind) → from_u8 (as_u8 k) ≡ ok k
unfolding from_u8 as_u8
from_u8-as_u8 item = refl
from_u8-as_u8 device_roster = refl
from_u8-as_u8 settings = refl
from_u8-as_u8 group = refl
from_u8-as_u8 custom_icon = refl

parse_fields-layout : (h : Header) → IsSized h → parse_fields (layout h) ≡ ok h
unfolding parse_fields layout byte_at
parse_fields-layout h s =
    let six : Bytes = envelope_magic ++ (1 ∷ as_u8 h.kind ∷ []) in
    let e = le_bytes 4 h.epoch in
    let word = length-le_bytes 4 h.epoch in
    let ten = length-append six e in
    let signed = length-append (six ++ e) h.signer in
    let keyed = length-append ((six ++ e) ++ h.signer) h.wik_nonce in
    let b = layout h in
    let epoch : take_at b 6 4 "envelope header" ≡ ok e =
      take_at-slice b six e (h.signer ++ (h.wik_nonce ++ h.payload_nonce)) 6 4 "envelope header"
        refl refl word (omega arith) in
    let signer : take_at b 10 16 "envelope header" ≡ ok h.signer =
      take_at-slice b (six ++ e) h.signer (h.wik_nonce ++ h.payload_nonce) 10 16 "envelope header"
        (simp append_assoc) (omega (arith, ten, word)) s.signer_sized (omega arith) in
    let wik : take_at b 26 24 "envelope header" ≡ ok h.wik_nonce =
      take_at-slice b ((six ++ e) ++ h.signer) h.wik_nonce h.payload_nonce 26 24 "envelope header"
        (simp append_assoc) (omega (arith, ten, word, signed, s.signer_sized)) s.wik_sized
        (omega arith) in
    let payload : take_at b 50 24 "envelope header" ≡ ok h.payload_nonce =
      take_at-slice b (((six ++ e) ++ h.signer) ++ h.wik_nonce) h.payload_nonce [] 50 24
        "envelope header" (simp (append_assoc, append-nil))
        (omega (arith, ten, word, signed, keyed, s.signer_sized, s.wik_sized)) s.payload_sized
        (omega arith) in
    let number = from_le-le_bytes 4 h.epoch s.epoch_word in
    rw (from_u8-as_u8 h.kind, epoch, signer, wik, payload, number) refl

parse_versioned-layout : (h : Header) → IsSized h → parse_versioned (layout h) ≡ ok h
unfolding parse_versioned byte_at layout
parse_versioned-layout h s = parse_fields-layout h s

-- Bytes that begin with the encoding of a header, whose arrays have their sizes and whose epoch is a
-- `u32`, are read back as that header.
pub parse_header-to_bytes :
    (h : Header) (rest : Bytes) → IsSized h → parse_header (to_bytes h ++ rest) ≡ ok h
unfolding parse_header
parse_header-to_bytes h rest s =
    let whole = to_bytes-layout h s in
    let header : take_at (layout h ++ rest) 0 74 "envelope header" ≡ ok (layout h) =
      take_at-slice (layout h ++ rest) [] (layout h) rest 0 74 "envelope header" refl refl
        (length-layout h s) (omega arith) in
    let magic : take_at (layout h) 0 4 "envelope magic" ≡ ok envelope_magic =
      unfold layout in
      take_at-slice _ [] envelope_magic _ 0 4 "envelope magic" refl refl refl (omega arith) in
    rw whole (rw (header, magic) (parse_versioned-layout h s))
