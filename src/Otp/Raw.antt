-- ===== src/Otp/Raw.antt =====
-- crates/misty-otp/src/raw.rs: the truncation and the decimal rendering of RFC 4226. The HMAC is
-- a parameter: `hmac` and `hmac_counter` stand in Generate.
pub mod Digits
use misty.Prelude.{
  ◌>>=◌, ℕ, zero, suc, ◌/◌, ◌%◌, ◌+◌, ◌-◌, ◌^◌, ◌&&◌, if◌then◌else◌, leb, ltb, Option, none, some,
  List, [], ◌∷◌, ◌++◌, ok, err, length,
}
use misty.Prelude.Bytes.{from_be, take, drop}
use misty.Otp.Config.{min_digits, max_digits}
use misty.Otp.Error.{Bytes, OtpError, OtpResult, invalid_digits, internal}

-- The characters of a code, by their numbers.
abbrev pub Text : Type 0
Text = List ℕ

abbrev pub ok_or {ℓ} : {A : Type ℓ} → OtpError → Option A → OtpResult A
ok_or e none = err e
ok_or e (some x) = ok x

-- `slice.last()`
unfoldable pub last : Bytes → Option ℕ
last [] = none
last (b ∷ []) = some b
last (b ∷ (c ∷ bs)) = last (c ∷ bs)

-- `slice.get(from..from + count)`
abbrev pub get_range : ℕ → ℕ → Bytes → Option Bytes
get_range from count bytes =
    if leb (from + count) (length bytes) then some (take count (drop from bytes)) else none

-- The low nibble of the last byte is an offset; four bytes there, with the high bit cleared.
unfoldable pub dynamic_truncation : Bytes → OtpResult ℕ
unfolding last
dynamic_truncation digest = do
  final ← ok_or (internal "cannot truncate an empty digest") (last digest)
  selected ←
      ok_or (internal "digest too short for dynamic truncation") (get_range (final % 16) 4 digest)
  ok (from_be selected % 2 ^ 31)

-- The decimal text of a number below `10 ^ fuel`, as `to_string` writes it.
unfoldable pub to_decimal : ℕ → ℕ → Text
to_decimal zero n = []
to_decimal (suc fuel) n =
    let rest = to_decimal fuel (n / 10) in
    if ltb n 10 then (48 + n) ∷ [] else rest ++ ((48 + n % 10) ∷ [])

-- `{text:0width$}`: zeros on the left.
unfoldable pub zeros : ℕ → Text
zeros zero = []
zeros (suc n) = 48 ∷ zeros n

-- `10u64.checked_pow(digits)`
abbrev checked_pow10 : ℕ → Option ℕ
checked_pow10 digits = if ltb (10 ^ digits) (2 ^ 64) then some (10 ^ digits) else none

abbrev pub zero_padded : ℕ → Text → Text
zero_padded width text = zeros (width - length text) ++ text

-- A `u64` has at most twenty digits.
unfoldable pub decimal_digits : ℕ → ℕ → OtpResult Text
unfolding to_decimal zeros
decimal_digits value digits =
    if leb min_digits digits && leb digits max_digits
    then (do
      modulus ← ok_or (internal "digit count overflowed the modulus") (checked_pow10 digits)
      ok (zero_padded digits (to_decimal 20 (value % modulus))))
    else err (invalid_digits digits)
