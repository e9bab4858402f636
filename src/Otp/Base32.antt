-- ===== src/Otp/Base32.antt =====
-- crates/misty-otp/src/base32.rs: decoding and encoding. A text is its characters' code points.
pub mod Groups
pub mod RoundTrip
pub mod Padded
use misty.Prelude.{
  ℕ, zero, suc, ◌+◌, ◌-◌, ◌*◌, ◌/◌, ◌%◌, ◌^◌, ◌&&◌, ◌||◌, if◌then◌else◌, leb, ltb, ◌==◌, Option,
  some, none, Result, ok, err, [], ◌∷◌, ◌++◌,
}
use misty.Otp.Error.{Bytes, Base32Error, invalid_char, padding_in_middle, invalid_length, too_long}
use misty.Otp.Raw.{Text}

abbrev pub max_input_chars : ℕ
max_input_chars = 4096

-- What a character is to the decoder.
pub data Class : Type 0 where
  value : ℕ → Class
  separator padding other : Class

unfoldable pub classify : ℕ → Class
classify ch =
    if leb 65 ch && leb ch 90
    then value (ch - 65)
    else if leb 97 ch && leb ch 122
    then value (ch - 97)
    else if leb 50 ch && leb ch 55
    then value (ch - 50 + 26)
    else if ch == 32 || (leb 9 ch && leb ch 13) || ch == 45
    then separator
    else if ch == 61
    then padding
    else other

-- `char::len_utf8`, by which `char_indices` advances, and `str::len`.
unfoldable pub len_utf8 : ℕ → ℕ
len_utf8 ch = if ltb ch 128 then 1 else if ltb ch 2048 then 2 else if ltb ch 65536 then 3 else 4

unfoldable pub text_len : Text → ℕ
text_len [] = 0
text_len (ch ∷ text) = len_utf8 ch + text_len text

-- The variables of `decode`'s loop.
pub record Decoder : Type 0 where
  pub out : Bytes
  pub acc : ℕ
  pub bits : ℕ
  pub chars : ℕ
  pub padding_at : Option ℕ

unfoldable pub take_value : ℕ → Decoder → Decoder
take_value v d =
    let acc = (d.acc * 32 + v) % 4096 in
    if leb 8 (d.bits + 5)
    then record d {
      out = d.out ++ acc / 2 ^ (d.bits + 5 - 8) % 256 ∷ [];
      acc = acc;
      bits = d.bits + 5 - 8;
      chars = d.chars + 1;
    }
    else record d { acc = acc; bits = d.bits + 5; chars = d.chars + 1 }

abbrev pub note_padding : ℕ → Option ℕ → Option ℕ
note_padding offset none = some offset
note_padding offset (some at) = some at

abbrev pub take_unless_padded : ℕ → ℕ → Option ℕ → Decoder → Result Base32Error Decoder
take_unless_padded v offset (some at) d = err (padding_in_middle offset)
take_unless_padded v offset none d = ok (take_value v d)

abbrev pub take_class : Class → ℕ → ℕ → Decoder → Result Base32Error Decoder
take_class (value v) ch offset d = take_unless_padded v offset d.padding_at d
take_class separator ch offset d = ok d
take_class padding ch offset d = ok (record d { padding_at = note_padding offset d.padding_at })
take_class other ch offset d = err (invalid_char ch offset)

unfoldable pub decode_from : ℕ → Text → Decoder → Result Base32Error Decoder
decode_from offset [] d = ok d
decode_from offset (ch ∷ text) d = elim (take_class (classify ch) ch offset d) [
  | err e ↦ err e
  | ok next ↦ decode_from (offset + len_utf8 ch) text next
]

unfoldable pub finish : Decoder → Result Base32Error Bytes
finish d =
    let left = d.chars % 8 in
    if left == 1 || left == 3 || left == 6 then err (invalid_length d.chars) else ok d.out

abbrev pub fresh : Decoder
fresh = record { out = []; acc = 0; bits = 0; chars = 0; padding_at = none }

unfoldable pub decode : Text → Result Base32Error Bytes
decode input =
    if ltb max_input_chars (text_len input)
    then err (too_long (text_len input) max_input_chars)
    else elim (decode_from 0 input fresh) [ err e ↦ err e | ok d ↦ finish d ]

-- The alphabet is `A` to `Z` and `2` to `7`.
unfoldable pub symbol : ℕ → ℕ
symbol v = if ltb (v % 32) 26 then 65 + v % 32 else 50 + (v % 32 - 26)

-- `while bits >= 5`, with the number of bits as fuel: the symbols, and the bits that are left.
unfoldable pub drain : ℕ → ℕ → ℕ → Text × ℕ
drain zero acc bits = ([], bits)
drain (suc fuel) acc bits =
    let (symbols, left) = drain fuel acc (bits - 5) in
    if leb 5 bits then (symbol (acc / 2 ^ (bits - 5)) ∷ symbols, left) else ([], bits)

unfoldable pub encode_from : ℕ → ℕ → Bytes → Text
encode_from acc bits [] = if ltb 0 bits then symbol (acc * 2 ^ (5 - bits)) ∷ [] else []
encode_from acc bits (byte ∷ bytes) =
    let next = (acc * 256 + byte) % 4096 in
    let (symbols, left) = drain (bits + 8) next (bits + 8) in symbols ++ encode_from next left bytes

-- `=` until the length is a multiple of 8.
unfoldable pub padding_for : ℕ → ℕ → Text
padding_for zero len = []
padding_for (suc fuel) len =
    let rest = padding_for fuel (len + 1) in if len % 8 == 0 then [] else 61 ∷ rest

unfoldable pub encode : Bytes → Text
encode bytes = encode_from 0 0 bytes

unfoldable pub encode_padded : Bytes → Text
encode_padded bytes = let out = encode_from 0 0 bytes in out ++ padding_for 8 (text_len out)
