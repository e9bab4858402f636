-- ===== src/Otp/Base32/Groups.antt =====
-- Five bits at a time: what the loops of crates/misty-otp/src/base32.rs do to one byte.
use misty.Prelude.{ℕ, ◌+◌, ◌*◌, ◌/◌, ◌%◌, ◌<◌, ◌≡◌, refl, ap, ap₂, ◌∙◌, none, [], ◌∷◌, ◌++◌, arith}
use misty.Otp.Error.{Bytes}
use misty.Otp.Raw.{Text}
use misty.Otp.Base32.{
  value, classify, len_utf8, Decoder, take_value, decode_from, symbol, drain, encode_from,
}

classify-symbol : (v : ℕ) → classify (symbol v) ≡ value (v % 32)
unfolding classify symbol
classify-symbol v = ground arith

pub len_utf8-symbol : (v : ℕ) → len_utf8 (symbol v) ≡ 1
unfolding len_utf8 symbol
len_utf8-symbol v = ground arith

-- A symbol is taken in by its value.
pub decode_from-symbol :
    (offset v : ℕ) (rest : Text) (d : Decoder)
    → d.padding_at ≡ none
    → decode_from offset (symbol v ∷ rest) d ≡ decode_from (offset + 1) rest (take_value (v % 32) d)
unfolding decode_from
decode_from-symbol offset v rest d h =
    rw (decode_from, classify-symbol v, h, len_utf8-symbol v) refl

-- A decoder that has met no padding.
abbrev pub reading : Bytes → ℕ → ℕ → ℕ → Decoder
reading out acc bits chars = record {
  out = out;
  acc = acc;
  bits = bits;
  chars = chars;
  padding_at = none;
}

-- The encoder's state after a byte.
abbrev after : ℕ → ℕ → ℕ
after acc y = (acc * 256 + y) % 4096

abbrev pub taken : ℕ → ℕ → ℕ
taken acc v = (acc * 32 + v % 32) % 4096

-- A byte whose encoder starts with no bit left over: one symbol, and three bits are left.
pub step_first :
    (offset acc y c n : ℕ) (bs out : Bytes)
    → y < 256
    → (acc' : ℕ) × (c' : ℕ) × (decode_from offset (encode_from acc 0 (y ∷ bs)) (reading out c 0 n)
        ≡ decode_from (offset + 1) (encode_from acc' 3 bs) (reading out c' 5 (n + 1)))
      × (acc' % 8 ≡ y % 8)
      × (c' % 32 ≡ y / 8)
unfolding encode_from drain take_value
step_first offset acc y c n bs out small =
    let acc' = after acc y in
    (
      acc',
      taken c (acc' / 8),
      decode_from-symbol offset (acc' / 8) (encode_from acc' 3 bs) (reading out c 0 n) refl,
      omega (arith, small),
      omega (arith, small),
    )

pub step_second :
    (offset acc x y c n : ℕ) (bs out : Bytes)
    → x < 256
    → y < 256
    → acc % 8 ≡ x % 8
    → c % 32 ≡ x / 8
    → (acc' : ℕ) × (c' : ℕ) × (decode_from offset (encode_from acc 3 (y ∷ bs)) (reading out c 5 n)
        ≡ decode_from
            (offset + 1 + 1)
            (encode_from acc' 1 bs)
            (reading (out ++ x ∷ []) c' 7 (n + 1 + 1)))
      × (acc' % 2 ≡ y % 2)
      × (c' % 128 ≡ y / 2)
unfolding encode_from drain take_value
step_second offset acc x y c n bs out sx sy low high =
    let acc' = after acc y in
    let c1 = taken c (acc' / 64) in
    let rest = encode_from acc' 1 bs in
    let byte : c1 / 4 % 256 ≡ x = omega (arith, sx, sy, low, high) in
    (
      acc',
      taken c1 (acc' / 2),
      decode_from-symbol offset (acc' / 64) (symbol (acc' / 2) ∷ rest) (reading out c 5 n) refl
          ∙ decode_from-symbol (offset + 1) (acc' / 2) rest
              (reading (out ++ c1 / 4 % 256 ∷ []) c1 2 (n + 1)) refl
          ∙ ap
              (λ b.
                decode_from (offset + 1 + 1) rest
                  (reading (out ++ b ∷ []) (taken c1 (acc' / 2)) 7 (n + 1 + 1)))
              byte,
      omega (arith, sx, sy, low, high),
      omega (arith, sx, sy, low, high),
    )

pub step_third :
    (offset acc x y c n : ℕ) (bs out : Bytes)
    → x < 256
    → y < 256
    → acc % 2 ≡ x % 2
    → c % 128 ≡ x / 2
    → (acc' : ℕ) × (c' : ℕ) × (decode_from offset (encode_from acc 1 (y ∷ bs)) (reading out c 7 n)
        ≡ decode_from (offset + 1) (encode_from acc' 4 bs) (reading (out ++ x ∷ []) c' 4 (n + 1)))
      × (acc' % 16 ≡ y % 16)
      × (c' % 16 ≡ y / 16)
unfolding encode_from drain take_value
step_third offset acc x y c n bs out sx sy low high =
    let acc' = after acc y in
    let c1 = taken c (acc' / 16) in
    let rest = encode_from acc' 4 bs in
    let byte : c1 / 16 % 256 ≡ x = omega (arith, sx, sy, low, high) in
    (
      acc',
      c1,
      decode_from-symbol offset (acc' / 16) rest (reading out c 7 n) refl
          ∙ ap (λ b. decode_from (offset + 1) rest (reading (out ++ b ∷ []) c1 4 (n + 1))) byte,
      omega (arith, sx, sy, low, high),
      omega (arith, sx, sy, low, high),
    )

pub step_fourth :
    (offset acc x y c n : ℕ) (bs out : Bytes)
    → x < 256
    → y < 256
    → acc % 16 ≡ x % 16
    → c % 16 ≡ x / 16
    → (acc' : ℕ) × (c' : ℕ) × (decode_from offset (encode_from acc 4 (y ∷ bs)) (reading out c 4 n)
        ≡ decode_from
            (offset + 1 + 1)
            (encode_from acc' 2 bs)
            (reading (out ++ x ∷ []) c' 6 (n + 1 + 1)))
      × (acc' % 4 ≡ y % 4)
      × (c' % 64 ≡ y / 4)
unfolding encode_from drain take_value
step_fourth offset acc x y c n bs out sx sy low high =
    let acc' = after acc y in
    let c1 = taken c (acc' / 128) in
    let rest = encode_from acc' 2 bs in
    let byte : c1 / 2 % 256 ≡ x = omega (arith, sx, sy, low, high) in
    (
      acc',
      taken c1 (acc' / 4),
      decode_from-symbol offset (acc' / 128) (symbol (acc' / 4) ∷ rest) (reading out c 4 n) refl
          ∙ decode_from-symbol (offset + 1) (acc' / 4) rest
              (reading (out ++ c1 / 2 % 256 ∷ []) c1 1 (n + 1)) refl
          ∙ ap
              (λ b.
                decode_from (offset + 1 + 1) rest
                  (reading (out ++ b ∷ []) (taken c1 (acc' / 4)) 6 (n + 1 + 1)))
              byte,
      omega (arith, sx, sy, low, high),
      omega (arith, sx, sy, low, high),
    )

-- The fifth byte of a group leaves no bit over on either side.
pub step_fifth :
    (offset acc x y c n : ℕ) (bs out : Bytes)
    → x < 256
    → y < 256
    → acc % 4 ≡ x % 4
    → c % 64 ≡ x / 4
    → (acc' : ℕ) × (c' : ℕ) × (decode_from offset (encode_from acc 2 (y ∷ bs)) (reading out c 6 n)
        ≡ decode_from
            (offset + 1 + 1)
            (encode_from acc' 0 bs)
            (reading ((out ++ x ∷ []) ++ y ∷ []) c' 0 (n + 1 + 1)))
unfolding encode_from drain take_value
step_fifth offset acc x y c n bs out sx sy low high =
    let acc' = after acc y in
    let c1 = taken c (acc' / 32) in
    let c2 = taken c1 (acc' / 1) in
    let rest = encode_from acc' 0 bs in
    let first : c1 / 8 % 256 ≡ x = omega (arith, sx, sy, low, high) in
    let second : c2 / 1 % 256 ≡ y = omega (arith, sx, sy, low, high) in
    (
      acc',
      c2,
      decode_from-symbol offset (acc' / 32) (symbol (acc' / 1) ∷ rest) (reading out c 6 n) refl
          ∙ decode_from-symbol (offset + 1) (acc' / 1) rest
              (reading (out ++ c1 / 8 % 256 ∷ []) c1 3 (n + 1)) refl
          ∙ ap₂
              (λ a b.
                decode_from (offset + 1 + 1) rest
                  (reading ((out ++ a ∷ []) ++ b ∷ []) c2 0 (n + 1 + 1)))
              first second,
    )
