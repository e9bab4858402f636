-- ===== src/Otp/Base32/RoundTrip.antt =====
-- Decoding what `encode` of crates/misty-otp/src/base32.rs writes, byte after byte.
use misty.Prelude.{
  ℕ, ◌+◌, ◌*◌, ◌/◌, ◌%◌, ◌<◌, ◌≡◌, refl, subst, ◌∙◌, ok, [], ◌∷◌, ◌++◌, append_assoc, append-nil,
  arith,
}
use misty.Prelude.Little.{AreBytes}
use misty.Otp.Error.{Bytes}
use misty.Otp.Raw.{Text}
use misty.Otp.Base32.{Decoder, take_value, decode_from, finish, encode_from}
use misty.Otp.Base32.Groups.{
  reading, taken, decode_from-symbol, step_first, step_second, step_third, step_fourth, step_fifth,
}

-- The decoder read a text to its end, and `finish` gives `bytes`.
abbrev pub Reads : Text → ℕ → Decoder → Bytes → Type 0
Reads text offset d bytes =
    (last : Decoder) × (decode_from offset text d ≡ ok last) × (finish last ≡ ok bytes)

Reads-via :
    (t u : Text) (m n : ℕ) (d e : Decoder) (bytes : Bytes)
    → decode_from m t d ≡ decode_from n u e
    → Reads u n e bytes
    → Reads t m d bytes
Reads-via t u m n d e bytes same (last, read, done) = (last, same ∙ read, done)

end_first :
    (offset acc x c n : ℕ) (out : Bytes)
    → x < 256
    → n % 8 ≡ 1
    → acc % 8 ≡ x % 8
    → c % 32 ≡ x / 8
    → Reads (encode_from acc 3 []) offset (reading out c 5 n) (out ++ x ∷ [])
unfolding encode_from take_value decode_from finish
end_first offset acc x c n out small count low high =
    let c1 = taken c (acc * 4) in
    let byte : c1 / 4 % 256 ≡ x = omega (arith, small, low, high) in
    (
      reading (out ++ c1 / 4 % 256 ∷ []) c1 2 (n + 1),
      decode_from-symbol offset (acc * 4) [] (reading out c 5 n) refl,
      rw byte (ground (arith, count)),
    )

end_second :
    (offset acc x c n : ℕ) (out : Bytes)
    → x < 256
    → n % 8 ≡ 3
    → acc % 2 ≡ x % 2
    → c % 128 ≡ x / 2
    → Reads (encode_from acc 1 []) offset (reading out c 7 n) (out ++ x ∷ [])
unfolding encode_from take_value decode_from finish
end_second offset acc x c n out small count low high =
    let c1 = taken c (acc * 16) in
    let byte : c1 / 16 % 256 ≡ x = omega (arith, small, low, high) in
    (
      reading (out ++ c1 / 16 % 256 ∷ []) c1 4 (n + 1),
      decode_from-symbol offset (acc * 16) [] (reading out c 7 n) refl,
      rw byte (ground (arith, count)),
    )

end_third :
    (offset acc x c n : ℕ) (out : Bytes)
    → x < 256
    → n % 8 ≡ 4
    → acc % 16 ≡ x % 16
    → c % 16 ≡ x / 16
    → Reads (encode_from acc 4 []) offset (reading out c 4 n) (out ++ x ∷ [])
unfolding encode_from take_value decode_from finish
end_third offset acc x c n out small count low high =
    let c1 = taken c (acc * 2) in
    let byte : c1 / 2 % 256 ≡ x = omega (arith, small, low, high) in
    (
      reading (out ++ c1 / 2 % 256 ∷ []) c1 1 (n + 1),
      decode_from-symbol offset (acc * 2) [] (reading out c 4 n) refl,
      rw byte (ground (arith, count)),
    )

end_fourth :
    (offset acc x c n : ℕ) (out : Bytes)
    → x < 256
    → n % 8 ≡ 6
    → acc % 4 ≡ x % 4
    → c % 64 ≡ x / 4
    → Reads (encode_from acc 2 []) offset (reading out c 6 n) (out ++ x ∷ [])
unfolding encode_from take_value decode_from finish
end_fourth offset acc x c n out small count low high =
    let c1 = taken c (acc * 8) in
    let byte : c1 / 8 % 256 ≡ x = omega (arith, small, low, high) in
    (
      reading (out ++ c1 / 8 % 256 ∷ []) c1 3 (n + 1),
      decode_from-symbol offset (acc * 8) [] (reading out c 6 n) refl,
      rw byte (ground (arith, count)),
    )

end_group :
    (offset acc c n : ℕ) (out : Bytes)
    → n % 8 ≡ 0
    → Reads (encode_from acc 0 []) offset (reading out c 0 n) (out ++ [])
unfolding encode_from decode_from finish
end_group offset acc c n out count =
    (reading out c 0 n, refl, rw (append-nil out) (ground (arith, count)))

join : (out bs : Bytes) (x : ℕ) → (out ++ x ∷ []) ++ bs ≡ out ++ x ∷ bs
join out bs x = append_assoc out (x ∷ []) bs

-- Where a byte boundary falls in a group of five bytes: the bits that the encoder has left over, the
-- bits that the decoder holds, and the characters of the group so far.
pub data Phase : Type 0 where
  aligned three_left one_left four_left two_left : Phase

abbrev pub left_over : Phase → ℕ
left_over aligned = 0
left_over three_left = 3
left_over one_left = 1
left_over four_left = 4
left_over two_left = 2

abbrev pub held : Phase → ℕ
held aligned = 0
held three_left = 5
held one_left = 7
held four_left = 4
held two_left = 6

abbrev pub place : Phase → ℕ
place aligned = 0
place three_left = 1
place one_left = 3
place four_left = 4
place two_left = 6

-- Between groups nothing is pending; within one, the last byte `x` is split between the two sides.
abbrev pub Splits : Phase → ℕ → ℕ → ℕ → Type 0
Splits aligned acc x c = Unit
Splits three_left acc x c = (acc % 8 ≡ x % 8) × (c % 32 ≡ x / 8)
Splits one_left acc x c = (acc % 2 ≡ x % 2) × (c % 128 ≡ x / 2)
Splits four_left acc x c = (acc % 16 ≡ x % 16) × (c % 16 ≡ x / 16)
Splits two_left acc x c = (acc % 4 ≡ x % 4) × (c % 64 ≡ x / 4)

abbrev pub total : Phase → Bytes → ℕ → Bytes → Bytes
total aligned out x bs = out ++ bs
total _ out x bs = out ++ x ∷ bs

pub Reads-encode_from :
    (k : Phase) (bs : Bytes) (offset acc x c n : ℕ) (out : Bytes)
    → x < 256
    → AreBytes bs
    → n % 8 ≡ place k
    → Splits k acc x c
    → Reads (encode_from acc (left_over k) bs) offset (reading out c (held k) n) (total k out x bs)
Reads-encode_from aligned [] offset acc x c n out sx small at s = end_group offset acc c n out at
Reads-encode_from three_left [] offset acc x c n out sx small at s =
    end_first offset acc x c n out sx at s.0 s.1
Reads-encode_from one_left [] offset acc x c n out sx small at s =
    end_second offset acc x c n out sx at s.0 s.1
Reads-encode_from four_left [] offset acc x c n out sx small at s =
    end_third offset acc x c n out sx at s.0 s.1
Reads-encode_from two_left [] offset acc x c n out sx small at s =
    end_fourth offset acc x c n out sx at s.0 s.1
Reads-encode_from aligned (y ∷ bs) offset acc x c n out sx (sy, small) at s =
    let (acc', c', same, low, high) = step_first offset acc y c n bs out sy in
    Reads-via _ _ _ _ _ _ _ same (
      Reads-encode_from three_left bs (offset + 1) acc' y c' (n + 1) out sy small
        (omega (arith, at)) (low, high))
Reads-encode_from three_left (y ∷ bs) offset acc x c n out sx (sy, small) at s =
    let (acc', c', same, low, high) = step_second offset acc x y c n bs out sx sy s.0 s.1 in
    subst (Reads _ offset _) (join out (y ∷ bs) x) (
      Reads-via _ _ _ _ _ _ _ same (
        Reads-encode_from one_left bs (offset + 1 + 1) acc' y c' (n + 1 + 1) (out ++ x ∷ []) sy
          small (omega (arith, at)) (low, high)))
Reads-encode_from one_left (y ∷ bs) offset acc x c n out sx (sy, small) at s =
    let (acc', c', same, low, high) = step_third offset acc x y c n bs out sx sy s.0 s.1 in
    subst (Reads _ offset _) (join out (y ∷ bs) x) (
      Reads-via _ _ _ _ _ _ _ same (
        Reads-encode_from four_left bs (offset + 1) acc' y c' (n + 1) (out ++ x ∷ []) sy small
          (omega (arith, at)) (low, high)))
Reads-encode_from four_left (y ∷ bs) offset acc x c n out sx (sy, small) at s =
    let (acc', c', same, low, high) = step_fourth offset acc x y c n bs out sx sy s.0 s.1 in
    subst (Reads _ offset _) (join out (y ∷ bs) x) (
      Reads-via _ _ _ _ _ _ _ same (
        Reads-encode_from two_left bs (offset + 1 + 1) acc' y c' (n + 1 + 1) (out ++ x ∷ []) sy
          small (omega (arith, at)) (low, high)))
Reads-encode_from two_left (y ∷ bs) offset acc x c n out sx (sy, small) at s =
    let (acc', c', same) = step_fifth offset acc x y c n bs out sx sy s.0 s.1 in
    subst (Reads _ offset _) (join (out ++ x ∷ []) bs y ∙ join out (y ∷ bs) x) (
      Reads-via _ _ _ _ _ _ _ same (
        Reads-encode_from aligned bs (offset + 1 + 1) acc' y c' (n + 1 + 1)
          ((out ++ x ∷ []) ++ y ∷ []) sy small (omega (arith, at)) tt))
