-- ===== src/Otp/Error.antt =====
-- crates/misty-otp/src/error.rs, with the kinds and the hashes of config.rs that errors and codes
-- name.
use misty.Prelude.{ℕ, List, String, Result}

abbrev pub Bytes : Type 0
Bytes = List ℕ

pub data HashAlg : Type 0 where
  sha1 sha256 sha512 : HashAlg

pub data OtpKind : Type 0 where
  totp hotp steam motp blizzard yandex : OtpKind

pub data Base32Error : Type 0 where
  invalid_char : ℕ → ℕ → Base32Error
  padding_in_middle : ℕ → Base32Error
  invalid_length : ℕ → Base32Error
  too_long : ℕ → ℕ → Base32Error

pub data UriError : Type 0 where
  uri_too_long : ℕ → ℕ → UriError
  canonical_too_long : ℕ → ℕ → UriError
  not_otpauth : UriError
  migration_uri : UriError
  unknown_kind : UriError
  missing_param : String → UriError
  duplicate_param : String → UriError
  invalid_param : String → UriError
  bad_percent_escape : ℕ → UriError
  not_utf8 : UriError
  control_char : ℕ → UriError
  malformed_query : UriError

pub data OtpError : Type 0 where
  invalid_digits : ℕ → OtpError
  invalid_period : ℕ → OtpError
  empty_secret : OtpError
  secret_too_long : ℕ → ℕ → OtpError
  missing_pin : OtpKind → OtpError
  base32 : Base32Error → OtpError
  invalid_hex_secret : OtpError
  uri : UriError → OtpError
  time_out_of_range : ℕ → OtpError
  counter_exhausted : ℕ → OtpError
  internal : String → OtpError

abbrev pub OtpResult {ℓ} : Type ℓ → Type ℓ
OtpResult A = Result OtpError A
