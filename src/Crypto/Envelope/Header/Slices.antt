-- ===== src/Crypto/Envelope/Header/Slices.antt =====
-- Reading at an offset into the bytes of crates/misty-crypto/src/envelope/mod.rs.
use misty.Prelude.{
  saturated, ℕ, zero, suc, ◌+◌, ◌-◌, ◌≤◌, ◌≡◌, refl, sym, ap, inl, inr, Option-cases, ◌∙◌, length,
  length-append, leb, true, ok, [], ◌∷◌, ◌++◌, arith, String,
}
use misty.Prelude.Bytes.{drop, take-append}
use misty.Prelude.Little.{get_range, get_range-inverse, length-take_le, length-drop}
use misty.Crypto.Error.{Bytes}
use misty.Crypto.Envelope.Header.{take_at}

pub drop-over : (xs ys : Bytes) (n k : ℕ) → n ≡ length xs + k → drop n (xs ++ ys) ≡ drop k ys
drop-over [] ys n k h = ap (λ i. drop i ys) (omega arith)
drop-over (x ∷ xs) ys zero k h = absurd (omega arith)
drop-over (x ∷ xs) ys (suc n) k h = drop-over xs ys n k (omega arith)

pub take_at-slice :
    (b xs ys zs : Bytes) (from len : ℕ) (context : String)
    → b ≡ xs ++ (ys ++ zs)
    → length xs ≡ from
    → length ys ≡ len
    → from + len ≤ 18446744073709551615
    → take_at b from len context ≡ ok ys
unfolding take_at
take_at-slice b xs ys zs from len context whole start size word =
    let fits : leb (from + len) 18446744073709551615 ≡ true = ground arith in
    let forward : leb from (from + len) ≡ true = ground arith in
    let within : leb (from + len) (length (xs ++ (ys ++ zs))) ≡ true =
      ground (arith, length-append xs (ys ++ zs), length-append ys zs) in
    let skipped : drop from (xs ++ (ys ++ zs)) ≡ ys ++ zs =
      drop-over xs (ys ++ zs) from 0 (omega arith) in
    let size' : length ys ≡ from + len - from = omega arith in
    rw (whole, take_at, fits, forward, within, skipped, take-append (from + len - from) ys zs size')
      refl

pub length-take_at :
    (b : Bytes) (from len : ℕ) (context : String) (ys : Bytes)
    → from + len ≤ 18446744073709551615
    → take_at b from len context ≡ ok ys
    → length ys ≡ len
unfolding take_at
length-take_at b from len context ys word h =
    elim (Option-cases (get_range from (saturated (from + len)) b)) [
      | inr outside ↦ absurd (ground (arith, outside, h))
      | inl (zs, inside) ↦
          let (forward, within, same) =
            get_range-inverse from (saturated (from + len)) b zs inside in
          let fits : saturated (from + len) ≡ from + len = ground arith in
          let equal : zs ≡ ys = ground (arith, inside, h) in
          let size =
            length-take_le (saturated (from + len) - from) (drop from b)
              (omega (arith, length-drop from b)) in
          sym (ap length equal) ∙ sym (ap length same) ∙ size ∙ omega arith
    ]
