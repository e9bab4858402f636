-- ===== src/Crypto/Envelope/Pad/Framed.antt =====
-- `pad` and `unpad` of crates/misty-crypto/src/envelope/pad.rs on a framed payload.
use misty.Prelude.{
  ℕ, ◌/◌, ◌%◌, ◌+◌, ◌-◌, ◌*◌, ◌≤◌, ◌≡◌, refl, ◌++◌, length, length-append, ok, append_assoc, arith,
  true, false, ltb, leb, ◌==◌, some,
}
use misty.Prelude.Bytes.{take, drop, take-append, drop-append}
use misty.Prelude.Little.{
  le_bytes, length-le_bytes, from_le-le_bytes, zero_fill, length-zero_fill, any_nonzero-zero_fill,
  take-all, get_range, split_at_checked, resize-grow,
}
use misty.Crypto.Error.{Bytes}
use misty.Crypto.Envelope.Pad.{
  pad, unpad, unpad_declared, check_filler, padded_len, max_payload_len,
}

-- The length prefix, the payload and the filler.
unfoldable pub framed : ℕ → Bytes → Bytes
framed k payload = le_bytes 4 (length payload) ++ (payload ++ zero_fill k)

pub padded_len-exact : (n : ℕ) → n ≤ max_payload_len → padded_len n ≡ (n + 259) / 256 * 256
unfolding padded_len
padded_len-exact n h = ground arith

-- What is filled up.
abbrev pub filler_len : ℕ → ℕ
filler_len n = padded_len n - (n + 4)

pub length-framed : (k : ℕ) (p : Bytes) → length (framed k p) ≡ length p + 4 + k
unfolding framed
length-framed k p =
    rw
      (
        length-append (le_bytes 4 (length p)) (p ++ zero_fill k),
        length-append p (zero_fill k),
        length-le_bytes 4 (length p),
        length-zero_fill k,
      )
      (omega arith)

length-prefixed : (n : ℕ) (p : Bytes) → length (le_bytes 4 n ++ p) ≡ 4 + length p
length-prefixed n p = omega (arith, length-append (le_bytes 4 n) p, length-le_bytes 4 n)

pub pad-framed :
    (p : Bytes) → length p ≤ max_payload_len → pad p ≡ ok (framed (filler_len (length p)) p)
unfolding pad framed
pad-framed p h =
    let exact = padded_len-exact (length p) h in
    let fits : ltb max_payload_len (length p) ≡ false = ground arith in
    let word : leb (length p) 4294967295 ≡ true = ground arith in
    let prefix = length-prefixed (length p) p in
    rw (fits, word)
      (rw
        (resize-grow (padded_len (length p)) (filler_len (length p)) (le_bytes 4 (length p) ++ p)
          (omega arith))
        (rw append_assoc refl))

-- Reading a buffer that was framed, whatever its filler's length.
take-framed : (k : ℕ) (p : Bytes) → take 4 (framed k p) ≡ le_bytes 4 (length p)
unfolding framed
take-framed k p =
    take-append 4 (le_bytes 4 (length p)) (p ++ zero_fill k) (length-le_bytes 4 (length p))

drop-framed : (k : ℕ) (p : Bytes) → drop 4 (framed k p) ≡ p ++ zero_fill k
unfolding framed
drop-framed k p =
    drop-append 4 (le_bytes 4 (length p)) (p ++ zero_fill k) (length-le_bytes 4 (length p))

check_filler-split :
    (k : ℕ) (p : Bytes) → check_filler (split_at_checked (length p) (p ++ zero_fill k)) ≡ ok p
unfolding check_filler
check_filler-split k p = ground (
  arith,
  length-append p (zero_fill k),
  take-append (length p) p (zero_fill k) refl,
  drop-append (length p) p (zero_fill k) refl,
  any_nonzero-zero_fill k,
)

range_prefix : (k : ℕ) (p : Bytes) → get_range 0 4 (framed k p) ≡ some (le_bytes 4 (length p))
range_prefix k p = ground (arith, length-framed k p, take-framed k p)

range_rest :
    (k : ℕ) (p : Bytes) → get_range 4 (length (framed k p)) (framed k p) ≡ some (p ++ zero_fill k)
range_rest k p =
    let whole =
      take-all (length (framed k p) - 4) (p ++ zero_fill k)
        (omega (arith, length-framed k p, length-append p (zero_fill k), length-zero_fill k)) in
    ground (arith, length-framed k p, drop-framed k p, whole)

-- Reading back the framing of a payload, with the least filler.
pub unpad-framed :
    (k : ℕ) (p : Bytes)
    → length p ≤ max_payload_len
    → padded_len (length p) ≡ length p + 4 + k
    → unpad (framed k p) ≡ ok p
unfolding unpad unpad_declared
unpad-framed k p h least =
    let len = length-framed k p in
    let read = from_le-le_bytes 4 (length p) (omega arith) in
    let exact = padded_len-exact (length p) h in
    let positive : length p + 4 + k == 0 ≡ false = ground arith in
    let whole : (length p + 4 + k) % 256 == 0 ≡ true = ground arith in
    let fits : ltb (length p + 4 + k - 4) (length p) ≡ false = ground arith in
    let small : ltb max_payload_len (length p) ≡ false = ground arith in
    let minimal : padded_len (length p) == (length p + 4 + k) ≡ true = ground arith in
    let tail = range_rest k p in
    rw (range_prefix k p, read)
      (rw (range_rest k p)
        (rw (len, positive, whole, fits, small, minimal) (check_filler-split k p)))
