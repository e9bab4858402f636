-- ===== src/Crypto/Envelope/Seal/Parsed.antt =====
-- Parsing the bytes that `seal_with` of crates/misty-crypto/src/envelope/mod.rs puts together.
use misty.Prelude.{
  ◌+◌, ◌-◌, ◌%◌, ◌<◌, ◌≤◌, ◌≡◌, refl, ap, ◌∙◌, true, false, ltb, ◌==◌, length, length-append, ok,
  [], ◌++◌, append_assoc, append-nil, arith,
}
use misty.Crypto.Error.{Bytes}
use misty.Crypto.Envelope.Header.{Header, to_bytes, parse_header, take_at}
use misty.Crypto.Envelope.Header.Slices.{take_at-slice}
use misty.Crypto.Envelope.Header.RoundTrip.{
  IsSized, to_bytes-layout, length-layout, parse_header-to_bytes,
}
use misty.Crypto.Envelope.Seal.{parse}

pub length-to_bytes : (h : Header) → IsSized h → length (to_bytes h) ≡ 74
length-to_bytes h s = ap length (to_bytes-layout h s) ∙ length-layout h s

-- The parts of an envelope, in order.
unfoldable pub assembled : Header → Bytes → Bytes → Bytes → Bytes
assembled h wrapped ciphertext signature = ((to_bytes h ++ wrapped) ++ ciphertext) ++ signature

-- The parts have the sizes of an envelope; the ciphertext is a number of blocks and a tag.
pub record IsWhole (h : Header) (wrapped ciphertext signature : Bytes) : Type 0 where
  pub header_sized : IsSized h
  pub wrapped_sized : length wrapped ≡ 48
  pub blocks : (length ciphertext - 16) % 256 ≡ 0
  pub not_empty : 272 ≤ length ciphertext
  pub not_huge : length ciphertext < 4294967296
  pub signature_sized : length signature ≡ 64

pub parse-assembled :
    (h : Header) (w c s : Bytes)
    → IsWhole h w c s
    → parse (assembled h w c s)
      ≡ ok (record {
        header = h;
        header_bytes = to_bytes h;
        wrapped_item_key = w;
        ciphertext = c;
        signature = s;
      })
unfolding parse
parse-assembled h w c s i =
    let hb = to_bytes h in
    let b = assembled h w c s in
    let n = length c in
    let head = length-to_bytes h i.header_sized in
    let two = length-append hb w in
    let three = length-append (hb ++ w) c in
    let four : length b ≡ 186 + n =
      unfold assembled in
      omega (
        arith,
        length-append ((hb ++ w) ++ c) s,
        three,
        two,
        head,
        i.wrapped_sized,
        i.signature_sized,
      ) in
    let long : ltb (186 + n) 458 ≡ false = ground (arith, i.not_empty) in
    let rest : 186 + n - 186 ≡ n = omega arith in
    let whole : (n - 16) % 256 == 0 ≡ true = ground (arith, i.blocks) in
    let header : parse_header b ≡ ok h =
      unfold assembled in
      ap parse_header (simp append_assoc)
      ∙ parse_header-to_bytes h (w ++ (c ++ s)) i.header_sized in
    let h1 : take_at b 0 74 "envelope header" ≡ ok hb =
      take_at-slice b [] hb (w ++ (c ++ s)) 0 74 "envelope header"
        (unfold assembled in simp append_assoc) refl head (omega arith) in
    let h2 : take_at b 74 48 "wrapped item key" ≡ ok w =
      take_at-slice b hb w (c ++ s) 74 48 "wrapped item key" (unfold assembled in simp append_assoc)
        head i.wrapped_sized (omega arith) in
    let h3 : take_at b 122 n "ciphertext" ≡ ok c =
      take_at-slice b (hb ++ w) c s 122 n "ciphertext" (unfold assembled in simp append_assoc)
        (omega (arith, two, head, i.wrapped_sized)) refl (omega (arith, i.not_huge)) in
    let h4 : take_at b (122 + n) 64 "signature" ≡ ok s =
      take_at-slice b ((hb ++ w) ++ c) s [] (122 + n) 64 "signature"
        (unfold assembled in simp (append_assoc, append-nil))
        (omega (arith, three, two, head, i.wrapped_sized)) i.signature_sized
        (omega (arith, i.not_huge)) in
    rw (parse, four, long, header, rest, whole, h1, h2, h3, h4) refl
