-- ===== src/Otp/Raw/Digits.antt =====
-- What `decimal_digits` and `dynamic_truncation` of crates/misty-otp/src/raw.rs promise.
use misty.Prelude.{
  ℕ, zero, suc, ◌/◌, ◌%◌, ◌+◌, ◌-◌, ◌*◌, ◌<◌, ◌≤◌, ◌^◌, ◌≡◌, refl, ap, ◌∙◌, true, ltb, [], ◌∷◌,
  ◌++◌, ok, err, nat_ord, list_ord, pair_ord, option_ord, length, length-append, arith, int_ord,
  le→leb, lt→ltb,
}
use native.Mathlib.Nat.{pow-suc, mod-lt, pow-le-pow_right, one-le-pow}
use misty.Otp.Error.{OtpResult}
use misty.Otp.Raw.{Text, to_decimal, zeros, zero_padded, decimal_digits}

-- Reading a decimal text back, without its leading zeros.
unfoldable pub of_decimal : Text → ℕ
of_decimal [] = 0
of_decimal (d ∷ ds) = (d - 48) * 10 ^ length ds + of_decimal ds

length-snoc : (ds : Text) (d : ℕ) → length (ds ++ (d ∷ [])) ≡ suc (length ds)
length-snoc [] d = refl
length-snoc (x ∷ ds) d = ap suc (length-snoc ds d)

of_decimal-snoc : (ds : Text) (d : ℕ) → of_decimal (ds ++ (d ∷ [])) ≡ of_decimal ds * 10 + (d - 48)
unfolding of_decimal
of_decimal-snoc [] d = omega arith
of_decimal-snoc (x ∷ ds) d =
    rw (length-snoc ds d, of_decimal-snoc ds d, pow-suc 10 (length ds)) (grind arith)

of_decimal-zeros : (k : ℕ) (ds : Text) → of_decimal (zeros k ++ ds) ≡ of_decimal ds
unfolding of_decimal zeros
of_decimal-zeros zero ds = refl
of_decimal-zeros (suc k) ds = omega (arith, of_decimal-zeros k ds)

length-zeros : (k : ℕ) (ds : Text) → length (zeros k ++ ds) ≡ k + length ds
unfolding zeros
length-zeros zero ds = omega arith
length-zeros (suc k) ds = omega (arith, length-zeros k ds)

pub of_decimal-to_decimal : (fuel n : ℕ) → n < 10 ^ fuel → of_decimal (to_decimal fuel n) ≡ n
unfolding of_decimal to_decimal
of_decimal-to_decimal zero n h = omega arith
of_decimal-to_decimal (suc fuel) n h = ground (
  arith,
  of_decimal-to_decimal fuel (n / 10) (omega (arith, pow-suc 10 fuel)),
  of_decimal-snoc (to_decimal fuel (n / 10)) (48 + n % 10),
)

-- A number below `10 ^ d` has at most `d` digits, and always one.
pub length-to_decimal : (fuel d n : ℕ) → 1 ≤ d → n < 10 ^ d → length (to_decimal fuel n) ≤ d
unfolding to_decimal
length-to_decimal zero d n h below = omega arith
length-to_decimal (suc fuel) zero n h below = absurd (omega arith)
length-to_decimal (suc fuel) (suc zero) n h below = ground arith
length-to_decimal (suc fuel) (suc (suc d)) n h below = ground (
  arith,
  length-to_decimal fuel (suc d) (n / 10) (omega arith) (omega (arith, pow-suc 10 (suc d))),
  length-append (to_decimal fuel (n / 10)) ((48 + n % 10) ∷ []),
)

-- A rendering of `value` in exactly `digits` characters.
abbrev pub Renders : ℕ → ℕ → OtpResult Text → Type 0
Renders value digits (err e) = ⊥
Renders value digits (ok text) = (length text ≡ digits) × (of_decimal text ≡ value % 10 ^ digits)

pow10_le : (d e : ℕ) → d ≤ e → 10 ^ d ≤ 10 ^ e
pow10_le d e h = pow-le-pow_right (omega arith) h

pow10_fits : (digits : ℕ) → digits ≤ 10 → ltb (10 ^ digits) (2 ^ 64) ≡ true
pow10_fits digits k = lt→ltb (10 ^ digits) (2 ^ 64) (omega (arith, pow10_le digits 10 k))

zero_padded-Renders :
    (value digits n : ℕ)
    → 1 ≤ digits
    → digits ≤ 10
    → n ≡ value % 10 ^ digits
    → Renders value digits (ok (zero_padded digits (to_decimal 20 n)))
zero_padded-Renders value digits n h k e =
    let below : n < 10 ^ digits =
      omega (arith, e, mod-lt value (one-le-pow digits 10 (omega arith))) in
    let text = to_decimal 20 n in
    (
      omega
          (arith, length-zeros (digits - length text) text, length-to_decimal 20 digits n h below),
      of_decimal-zeros (digits - length text) text
          ∙ of_decimal-to_decimal 20 n (omega (arith, below, pow10_le digits 20 (omega arith)))
          ∙ e,
    )

-- `decimal_digits` succeeds on 1 to 10 digits, and its text then has that many characters and reads
-- back as the value modulo that power of ten.
pub decimal_digits-Renders :
    (value digits : ℕ)
    → 1 ≤ digits
    → digits ≤ 10
    → Renders value digits (decimal_digits value digits)
unfolding decimal_digits
decimal_digits-Renders value digits h k =
    simp (le→leb 1 digits h, le→leb digits 10 k, pow10_fits digits k)
      (zero_padded-Renders value digits (value % 10 ^ digits) h k refl)
