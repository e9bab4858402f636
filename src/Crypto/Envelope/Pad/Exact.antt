-- ===== src/Crypto/Envelope/Pad/Exact.antt =====
-- `pad` and `unpad` of crates/misty-crypto/src/envelope/pad.rs are inverse to each other.
use misty.Prelude.{
  ℕ, ◌%◌, ◌+◌, ◌-◌, ◌<◌, ◌≤◌, ◌≡◌, ◌↔◌, refl, sym, ap, ap₂, subst, ◌∙◌, ◌++◌, length, length-append,
  ok, err, arith, false, Bool-cases, inl, inr, ltb, ltb→lt, ok-injective, leb→le, leb, Option, some,
  none,
}
use misty.Prelude.Bytes.{take, drop}
use misty.Prelude.Little.{
  le_bytes, from_le, AreBytes, le_bytes-from_le, AreBytes-take, any_nonzero, eq_zero_fill,
  length-take_le, length-drop, take-all, append-take-drop, get_range, split_at_checked,
}
use misty.Crypto.Error.{Bytes, CryptoResult, payload_too_large}
use misty.Crypto.Envelope.Pad.{
  pad, unpad, unpad_declared, check_filler, and_then_split, padded_len, max_payload_len,
}
use misty.Crypto.Envelope.Pad.Framed.{
  framed, filler_len, padded_len-exact, length-framed, pad-framed, unpad-framed,
}

-- What an accepted buffer satisfies.
unpad_declared-inverse :
    (d : ℕ) (b p : Bytes)
    → unpad_declared d b ≡ ok p
    → (d ≤ length b - 4)
      × (d ≤ max_payload_len)
      × (padded_len d ≡ length b)
      × (check_filler (and_then_split d (get_range 4 (length b) b)) ≡ ok p)
unfolding unpad_declared
unpad_declared-inverse d b p h = ground arith

check_filler-inverse :
    (parts : Option (Bytes × Bytes)) (p : Bytes)
    → check_filler parts ≡ ok p
    → (filler : Bytes) × (parts ≡ some (p, filler)) × (any_nonzero filler ≡ false)
unfolding check_filler
check_filler-inverse none p h = absurd (ground arith)
check_filler-inverse (some (q, filler)) p h = elim (Bool-cases (any_nonzero filler)) [
  | inl bad ↦ absurd (ground (arith, bad))
  | inr good ↦ (filler, ground arith, good)
]

split-inverse :
    (d : ℕ) (xs p filler : Bytes)
    → split_at_checked d xs ≡ some (p, filler)
    → (xs ≡ p ++ filler) × (length p ≡ d)
split-inverse d xs p filler e = elim (Bool-cases (leb d (length xs))) [
  | inl fits ↦
      let whole = append-take-drop d xs in
      let sized = length-take_le d xs (leb→le d (length xs) fits) in
      ground (arith, e, fits, whole, sized)
  | inr long ↦ absurd (ground (arith, e, long))
]

range-drop : (b : Bytes) → 4 ≤ length b → get_range 4 (length b) b ≡ some (drop 4 b)
range-drop b h =
    let whole = take-all (length b - 4) (drop 4 b) (omega (arith, length-drop 4 b)) in
    ground (arith, whole)

split-append :
    (d : ℕ) (b p filler : Bytes)
    → 4 ≤ length b
    → and_then_split d (get_range 4 (length b) b) ≡ some (p, filler)
    → (b ≡ take 4 b ++ (p ++ filler)) × (length p ≡ d)
split-append d b p filler h e =
    let parts =
      split-inverse d (drop 4 b) p filler (sym (ap (and_then_split d) (range-drop b h)) ∙ e) in
    (sym (append-take-drop 4 b) ∙ ap (λ x. take 4 b ++ x) parts.0, parts.1)

unpad-inverse :
    (b p : Bytes) → unpad b ≡ ok p → (4 ≤ length b) × (unpad_declared (from_le (take 4 b)) b ≡ ok p)
unfolding unpad
unpad-inverse b p h = ground arith

-- A buffer that `unpad` accepts is the one that `pad` makes of its payload.
pad-unpad : (b p : Bytes) → AreBytes b → unpad b ≡ ok p → pad p ≡ ok b
unfolding framed
pad-unpad b p bytes h =
    let (long, declared) = unpad-inverse b p h in
    let d = from_le (take 4 b) in
    let (room, small, least, checked) = unpad_declared-inverse d b p declared in
    let (filler, parts, clear) = check_filler-inverse _ p checked in
    let (whole, sized) = split-append d b p filler long parts in
    let four = length-take_le 4 b long in
    let prefix : le_bytes 4 (length p) ≡ take 4 b = rw (sized) (
      subst (λ n. le_bytes n d ≡ take 4 b) four
        (le_bytes-from_le (take 4 b) (AreBytes-take 4 b bytes))) in
    let total : length p + 4 + length filler ≡ length b = omega (
      arith,
      ap length whole,
      four,
      length-append (take 4 b) (p ++ filler),
      length-append p filler,
    ) in
    let size : filler_len (length p) ≡ length filler =
      rw sized (omega (arith, least, total, sized)) in
    pad-framed p (omega arith)
    ∙ ap ok (
        ap (λ k. framed k p) size
        ∙ ap₂ (λ x y. x ++ (p ++ y)) prefix (sym (eq_zero_fill filler clear))
        ∙ sym whole)

pad-small : (p b : Bytes) → pad p ≡ ok b → length p ≤ max_payload_len
unfolding pad
pad-small p b h = ground arith

-- `unpad` gives back the payload that `pad` was given.
pub unpad-pad : (p b : Bytes) → pad p ≡ ok b → unpad b ≡ ok p
unpad-pad p b h =
    let small = pad-small p b h in
    let same : framed (filler_len (length p)) p ≡ b = ok-injective (sym (pad-framed p small) ∙ h) in
    let least : padded_len (length p) ≡ length p + 4 + filler_len (length p) =
      omega (arith, padded_len-exact (length p) small) in
    sym (ap unpad same) ∙ unpad-framed (filler_len (length p)) p small least

-- On byte strings, `pad` and `unpad` are inverse to each other: a buffer is what `pad` makes of a
-- payload exactly if `unpad` accepts the buffer and returns that payload.
pub pad-unpad_iff : (p b : Bytes) → AreBytes b → (pad p ≡ ok b) ↔ (unpad b ≡ ok p)
pad-unpad_iff p b bytes = (unpad-pad p b, pad-unpad b p bytes)

abbrev pub PadsWell : Bytes → CryptoResult Bytes → Type 0
PadsWell p (ok b) =
    (length p ≤ max_payload_len)
    × (length b % 256 ≡ 0)
    × (length p + 4 ≤ length b)
    × (length b < length p + 260)
PadsWell p (err e) =
    (max_payload_len < length p) × (e ≡ payload_too_large (length p) max_payload_len)

-- A payload of at most `MAX_PAYLOAD_LEN` bytes is padded, to a multiple of `PAD_BLOCK` that holds the
-- prefix and the payload and leaves less than one block over; a longer one is refused, with its
-- length.
pub pad-PadsWell : (p : Bytes) → PadsWell p (pad p)
pad-PadsWell p = elim (Bool-cases (ltb max_payload_len (length p))) [
  | inl long ↦ unfold pad in rw long (ltb→lt max_payload_len (length p) long, refl)
  | inr small ↦
      let fits : length p ≤ max_payload_len = ground arith in
      rw (pad-framed p fits)
        (omega (arith, length-framed (filler_len (length p)) p, padded_len-exact (length p) fits))
]
