-- ===== src/Otp/Base32/Padded.antt =====
-- What `encode` and `encode_padded` of crates/misty-otp/src/base32.rs write, `decode` reads back.
use misty.Prelude.{
  ℕ, zero, suc, ◌+◌, ◌*◌, ◌%◌, ◌≤◌, ◌≡◌, refl, ap, ap₂, ◌∙◌, Bool-cases, inl, inr, false, ltb, ◌==◌,
  ok, Result-cases, ok-injective, [], ◌∷◌, ◌++◌, arith, length,
}
use misty.Prelude.Little.{AreBytes}
use misty.Otp.Error.{Bytes}
use misty.Otp.Raw.{Text}
use misty.Otp.Base32.{
  Decoder, take_class, classify, note_padding, decode_from, finish, decode, drain, encode_from,
  encode, encode_padded, padding_for, text_len, fresh, max_input_chars, len_utf8,
}
use misty.Otp.Base32.Groups.{len_utf8-symbol}
use misty.Otp.Base32.RoundTrip.{
  Phase, aligned, three_left, one_left, four_left, two_left, left_over, Reads-encode_from,
}

-- Eight characters carry five bytes.
text_len-encode_from :
    (k : Phase) (bs : Bytes) (acc : ℕ)
    → text_len (encode_from acc (left_over k) bs) * 5 ≤ length bs * 8 + left_over k + 4
unfolding text_len encode_from drain
text_len-encode_from aligned [] acc = omega arith
text_len-encode_from three_left [] acc = rw len_utf8-symbol (omega arith)
text_len-encode_from one_left [] acc = rw len_utf8-symbol (omega arith)
text_len-encode_from four_left [] acc = rw len_utf8-symbol (omega arith)
text_len-encode_from two_left [] acc = rw len_utf8-symbol (omega arith)
text_len-encode_from aligned (y ∷ bs) acc =
    rw len_utf8-symbol (omega (arith, text_len-encode_from three_left bs ((acc * 256 + y) % 4096)))
text_len-encode_from three_left (y ∷ bs) acc =
    rw (len_utf8-symbol, len_utf8-symbol)
      (omega (arith, text_len-encode_from one_left bs ((acc * 256 + y) % 4096)))
text_len-encode_from one_left (y ∷ bs) acc =
    rw len_utf8-symbol (omega (arith, text_len-encode_from four_left bs ((acc * 256 + y) % 4096)))
text_len-encode_from four_left (y ∷ bs) acc =
    rw (len_utf8-symbol, len_utf8-symbol)
      (omega (arith, text_len-encode_from two_left bs ((acc * 256 + y) % 4096)))
text_len-encode_from two_left (y ∷ bs) acc =
    rw (len_utf8-symbol, len_utf8-symbol)
      (omega (arith, text_len-encode_from aligned bs ((acc * 256 + y) % 4096)))

decode_from-append :
    (t u : Text) (offset : ℕ) (d e : Decoder)
    → decode_from offset t d ≡ ok e
    → decode_from offset (t ++ u) d ≡ decode_from (offset + text_len t) u e
unfolding decode_from text_len
decode_from-append [] u offset d e h = ap₂ (λ n x. decode_from n u x) (omega arith) (ok-injective h)
decode_from-append (ch ∷ t) u offset d e h =
    elim (Result-cases (take_class (classify ch) ch offset d)) [
      | inr (error, bad) ↦ absurd (ground (arith, bad, h))
      | inl (next, taken) ↦
          let rest : decode_from (offset + len_utf8 ch) t next ≡ ok e = ground (arith, taken, h) in
          rw (decode_from, taken)
            (decode_from-append t u (offset + len_utf8 ch) next e rest
              ∙ ap (λ n. decode_from n u e) (omega arith))
    ]

-- Padding changes nothing that `finish` looks at.
finish-padding_for :
    (fuel len offset : ℕ) (d : Decoder)
    → (e : Decoder) × (decode_from offset (padding_for fuel len) d ≡ ok e) × (finish e ≡ finish d)
unfolding padding_for decode_from finish classify
finish-padding_for zero len offset d = (d, refl, refl)
finish-padding_for (suc fuel) len offset d = elim (Bool-cases (len % 8 == 0)) [
  | inl full ↦ rw full (d, refl, refl)
  | inr short ↦
      let next : Decoder = record d { padding_at = note_padding offset d.padding_at } in
      let (e, read, same) = finish-padding_for fuel (len + 1) (offset + len_utf8 61) next in
      rw short (e, read, same)
]

text_len-padding_for : (fuel len : ℕ) → len ≤ 4096 → len + text_len (padding_for fuel len) ≤ 4096
unfolding padding_for text_len len_utf8
text_len-padding_for zero len h = omega arith
text_len-padding_for (suc fuel) len h = ground (arith, text_len-padding_for fuel (len + 1))

text_len-append : (t u : Text) → text_len (t ++ u) ≡ text_len t + text_len u
unfolding text_len
text_len-append [] u = omega arith
text_len-append (ch ∷ t) u = omega (arith, text_len-append t u)

-- Decoding what `encode` makes of a byte string of at most 2560 bytes, and what `encode_padded` makes
-- of it, gives the byte string back: neither text is longer than the decoder looks at.
pub decode-encode :
    (bs : Bytes)
    → AreBytes bs
    → length bs ≤ 2560
    → (decode (encode bs) ≡ ok bs) × (decode (encode_padded bs) ≡ ok bs)
unfolding decode encode encode_padded
decode-encode bs small fits =
    let text = encode_from 0 0 bs in
    let filler = padding_for 8 (text_len text) in
    let (last, read, done) =
      Reads-encode_from aligned bs 0 0 0 0 0 [] (omega arith) small (omega arith) tt in
    let (end, padded, same) = finish-padding_for 8 (text_len text) (0 + text_len text) last in
    let bound : text_len text ≤ 4096 = omega (arith, text_len-encode_from aligned bs 0) in
    let short : ltb max_input_chars (text_len text) ≡ false = ground (arith, bound) in
    let short' : ltb max_input_chars (text_len (text ++ filler)) ≡ false =
      ground (arith, text_len-append text filler, text_len-padding_for 8 (text_len text) bound) in
    let read' = decode_from-append text filler 0 fresh last read ∙ padded in
    (rw (short, read) done, rw (short', read') (same ∙ done))
