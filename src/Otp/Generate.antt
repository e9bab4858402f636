-- ===== src/Otp/Generate.antt =====
-- crates/misty-otp/src/generate.rs, with the HMAC entry points of raw.rs and the Code of code.rs.
-- HMAC, MD5, SHA-256 and hex text are the parameter `Primitives`. A window keeps the fraction that
-- `progress` rounds to an f32 as its two integers.
pub mod Sized
pub mod Codes
use misty.Prelude.{
  ◌>>=◌, ℕ, zero, suc, ◌/◌, ◌%◌, ◌+◌, ◌-◌, ◌*◌, ◌^◌, if◌then◌else◌, ltb, ◌==◌, Option, none, some,
  [], ◌∷◌, ◌++◌, ok, err, length,
}
use misty.Prelude.Bytes.{from_be, be_bytes, take}
use misty.Otp.Config.{OtpConfig, uses_counter}
use misty.Otp.Error.{
  Bytes, HashAlg, sha1, sha256, OtpKind, steam, motp, yandex, OtpResult, missing_pin,
  time_out_of_range, counter_exhausted, internal,
}
use misty.Otp.Raw.{Text, last, get_range, dynamic_truncation, to_decimal, decimal_digits, ok_or}

-- The functions of the crates hmac, sha1, sha2, md-5 and hex. `mac` is none when the construction
-- rejects the key.
pub record Primitives : Type 0 where
  pub mac : HashAlg → Bytes → Bytes → Option Bytes
  pub md5_digest : Bytes → Bytes
  pub sha256_digest : Bytes → Bytes
  pub hex_encode : Bytes → Text

pub record CodeWindow : Type 0 where
  pub valid_from_ms : ℕ
  pub valid_until_ms : ℕ
  pub remaining_ms : ℕ
  pub progress : ℕ × ℕ

pub record Code : Type 0 where
  pub value : Text
  pub window : Option CodeWindow

abbrev pub steam_alphabet : Text
steam_alphabet =
    50 ∷ 51 ∷ 52 ∷ 53 ∷ 54 ∷ 55 ∷ 56 ∷ 57 ∷ 66 ∷ 67 ∷ 68 ∷ 70 ∷ 71 ∷ 72 ∷ 74 ∷ 75 ∷ 77 ∷ 78 ∷ 80
    ∷ 81 ∷ 82 ∷ 84 ∷ 86 ∷ 87 ∷ 88 ∷ 89 ∷ []

abbrev pub yandex_alphabet : Text
yandex_alphabet =
    97 ∷ 98 ∷ 99 ∷ 100 ∷ 101 ∷ 102 ∷ 103 ∷ 104 ∷ 105 ∷ 106 ∷ 107 ∷ 108 ∷ 109 ∷ 110 ∷ 111 ∷ 112 ∷ 113
    ∷ 114 ∷ 115 ∷ 116 ∷ 117 ∷ 118 ∷ 119 ∷ 120 ∷ 121 ∷ 122 ∷ []

-- `alphabet[i]`. The index is below 26, the length of both alphabets.
unfoldable pub char_at : Text → ℕ → ℕ
char_at [] i = 0
char_at (c ∷ cs) zero = c
char_at (c ∷ cs) (suc i) = char_at cs i

-- The low `digits` base-26 digits, least significant first.
unfoldable pub base26 : ℕ → ℕ → Text → Text
unfolding char_at
base26 value zero alphabet = []
base26 value (suc digits) alphabet =
    char_at alphabet (value % 26) ∷ base26 (value / 26) digits alphabet

unfoldable pub reverse : Text → Text
reverse [] = []
reverse (c ∷ cs) = reverse cs ++ (c ∷ [])

-- `hashed.split_first()`: a leading zero byte is dropped.
abbrev pub without_leading_zero : Bytes → Bytes
without_leading_zero [] = []
without_leading_zero (zero ∷ tail) = tail
without_leading_zero (suc b ∷ tail) = suc b ∷ tail

-- `value.checked_add`, on u64.
abbrev pub checked_add : ℕ → ℕ → Option ℕ
checked_add a b = if ltb (a + b) (2 ^ 64) then some (a + b) else none

-- The moving factor and the window covering `unix_ms`.
unfoldable pub window_at : ℕ → ℕ → OtpResult (ℕ × CodeWindow)
window_at period unix_ms = do
  let period_ms = period * 1000
  let counter = unix_ms / period_ms
  let from_ms = counter * period_ms
  until_ms ← ok_or (time_out_of_range unix_ms) (checked_add from_ms period_ms)
  ok (
    counter,
    record {
      valid_from_ms = from_ms;
      valid_until_ms = until_ms;
      remaining_ms = until_ms - unix_ms;
      progress = (unix_ms - from_ms, period_ms);
    },
  )

module _ (primitives : Primitives) where
  unfoldable pub hmac_counter : HashAlg → Bytes → ℕ → OtpResult Bytes
  hmac_counter alg key counter =
      ok_or (internal "hmac rejected the key length") (primitives.mac alg key (be_bytes 8 counter))

  unfoldable pub hotp_value : HashAlg → Bytes → ℕ → ℕ → OtpResult Text
  hotp_value algorithm secret counter digits = do
    digest ← hmac_counter algorithm secret counter
    truncated ← dynamic_truncation digest
    decimal_digits truncated digits

  unfoldable pub steam_value : Bytes → ℕ → ℕ → OtpResult Text
  steam_value secret counter digits = do
    digest ← hmac_counter sha1 secret counter
    truncated ← dynamic_truncation digest
    ok (base26 truncated digits steam_alphabet)

  unfoldable pub motp_value : Bytes → Bytes → ℕ → ℕ → OtpResult Text
  motp_value secret pin interval digits =
      let input = to_decimal 20 interval ++ (primitives.hex_encode secret ++ pin) in
      let truncated = take digits (primitives.hex_encode (primitives.md5_digest input)) in
      if length truncated == digits
      then ok truncated
      else err (internal "md5 digest shorter than the digit count")

  unfoldable pub yandex_value : Bytes → Bytes → ℕ → ℕ → OtpResult Text
  unfolding last
  yandex_value secret pin counter digits = do
    let key = without_leading_zero (primitives.sha256_digest (pin ++ take 16 secret))
    digest ← hmac_counter sha256 key counter
    final ← ok_or (internal "empty hmac output") (last digest)
    selected ← ok_or (internal "hmac output too short for yandex") (get_range (final % 16) 8 digest)
    ok (reverse (base26 (from_be selected % 2 ^ 63) digits yandex_alphabet))

  -- `OtpConfig::value_at`
  unfoldable pub value_at_kind : OtpKind → OtpConfig → ℕ → OtpResult Text
  value_at_kind steam c factor = steam_value c.secret factor c.digits
  value_at_kind motp c factor = do
    pin ← ok_or (missing_pin motp) c.pin
    motp_value c.secret pin factor c.digits
  value_at_kind yandex c factor = do
    pin ← ok_or (missing_pin yandex) c.pin
    yandex_value c.secret pin factor c.digits
  value_at_kind other c factor = hotp_value c.algorithm c.secret factor c.digits

  unfoldable pub value_at : OtpConfig → ℕ → OtpResult Text
  value_at c factor = value_at_kind c.kind c factor

  unfoldable pub generate_at : OtpConfig → ℕ → OtpResult Code
  generate_at c unix_ms =
      if uses_counter c.kind
      then (do value ← value_at c c.counter; ok (record { value = value; window = none }))
      else (do
        at ← window_at c.period unix_ms
        value ← value_at c at.0
        ok (record { value = value; window = some at.1 }))

  unfoldable pub next_code_at : OtpConfig → ℕ → OtpResult Code
  next_code_at c unix_ms =
      if uses_counter c.kind
      then (do
        next ← ok_or (counter_exhausted c.counter) (checked_add c.counter 1)
        value ← value_at c next
        ok (record { value = value; window = none }))
      else (do at ← window_at c.period unix_ms; generate_at c at.1.valid_until_ms)
