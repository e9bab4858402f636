-- ===== src/Otp/Config.antt =====
-- crates/misty-otp/src/config.rs and secret.rs: what a token is, the builder that
-- normalises it, and its setters.
pub mod Valid
use misty.Prelude.{
  ◌>>=◌, ◌>>◌, ℕ, Bool, true, false, ◌&&◌, if◌then◌else◌, leb, ltb, ◌==◌, Option, none, some, List,
  [], ◌∷◌, Result, ok, err, length, String,
}
use misty.Otp.Error.{
  Bytes, HashAlg, OtpKind, OtpResult, blizzard, empty_secret, hotp, invalid_digits, invalid_period,
  motp, secret_too_long, sha1, sha256, sha512, steam, totp, yandex,
}

abbrev pub min_digits : ℕ
min_digits = 1

abbrev pub max_digits : ℕ
max_digits = 10

abbrev pub min_period : ℕ
min_period = 1

abbrev pub max_period : ℕ
max_period = 3600

abbrev pub max_secret_len : ℕ
max_secret_len = 1024

-- `HashAlg::output_len`
abbrev pub output_len : HashAlg → ℕ
output_len sha1 = 20
output_len sha256 = 32
output_len sha512 = 64

abbrev pub default_digits : OtpKind → ℕ
default_digits totp = 6
default_digits hotp = 6
default_digits motp = 6
default_digits steam = 5
default_digits blizzard = 8
default_digits yandex = 8

abbrev pub default_period : OtpKind → ℕ
default_period motp = 10
default_period _ = 30

abbrev pub default_algorithm : OtpKind → HashAlg
default_algorithm yandex = sha256
default_algorithm _ = sha1

abbrev pub fixed_digits : OtpKind → Option ℕ
fixed_digits totp = none
fixed_digits hotp = none
fixed_digits other = some (default_digits other)

abbrev pub fixed_period : OtpKind → Option ℕ
fixed_period totp = none
fixed_period other = some (default_period other)

abbrev pub fixed_algorithm : OtpKind → Option HashAlg
fixed_algorithm totp = none
fixed_algorithm hotp = none
fixed_algorithm other = some (default_algorithm other)

abbrev pub uses_counter : OtpKind → Bool
uses_counter hotp = true
uses_counter _ = false

abbrev pub uses_pin : OtpKind → Bool
uses_pin motp = true
uses_pin yandex = true
uses_pin _ = false

pub record OtpConfig : Type 0 where
  pub kind : OtpKind
  pub secret : Bytes
  pub algorithm : HashAlg
  pub digits : ℕ
  pub period : ℕ
  pub counter : ℕ
  pub pin : Option Bytes

pub record OtpConfigBuilder : Type 0 where
  pub kind : OtpKind
  pub secret : Bytes
  pub algorithm : Option HashAlg
  pub digits : Option ℕ
  pub period : Option ℕ
  pub counter : ℕ
  pub pin : Option Bytes

-- `SecretBytes::check_len`
unfoldable pub check_len : Bytes → OtpResult (Unit {0})
check_len secret =
    if length secret == 0
    then err empty_secret
    else if ltb max_secret_len (length secret)
    then err (secret_too_long (length secret) max_secret_len)
    else ok tt

unfoldable pub check_digits : ℕ → OtpResult ℕ
check_digits digits =
    if leb min_digits digits && leb digits max_digits
    then ok digits
    else err (invalid_digits digits)

unfoldable pub check_period : ℕ → OtpResult ℕ
check_period period =
    if leb min_period period && leb period max_period
    then ok period
    else err (invalid_period period)

abbrev pub unwrap_or {ℓ} : {A : Type ℓ} → Option A → A → A
unwrap_or none d = d
unwrap_or (some x) d = x

-- `.filter(|pin| !pin.is_empty())`
abbrev pub non_empty : Option Bytes → Option Bytes
non_empty none = none
non_empty (some []) = none
non_empty (some (b ∷ bs)) = some (b ∷ bs)

-- A requested value is checked, an absent one is the default.
abbrev pub checked_or : (ℕ → OtpResult ℕ) → Option ℕ → ℕ → OtpResult ℕ
checked_or check none d = ok d
checked_or check (some x) d = check x

-- `OtpConfigBuilder::new`
abbrev pub builder : OtpKind → Bytes → OtpConfigBuilder
builder kind secret = record {
  kind = kind;
  secret = secret;
  algorithm = none;
  digits = none;
  period = none;
  counter = 0;
  pin = none;
}

-- `OtpConfigBuilder::build`
unfoldable pub build : OtpConfigBuilder → OtpResult OtpConfig
unfolding check_len check_digits check_period
build b = do
  check_len b.secret
  digits ← checked_or check_digits b.digits (default_digits b.kind)
  period ← checked_or check_period b.period (default_period b.kind)
  ok (record {
    kind = b.kind;
    secret = b.secret;
    algorithm =
        unwrap_or (fixed_algorithm b.kind) (unwrap_or b.algorithm (default_algorithm b.kind));
    digits = unwrap_or (fixed_digits b.kind) digits;
    period = unwrap_or (fixed_period b.kind) period;
    counter = if uses_counter b.kind then b.counter else 0;
    pin = if uses_pin b.kind then non_empty b.pin else none;
  })

-- The setters. One that fails leaves the configuration as it was.
unfoldable pub set_digits : ℕ → OtpConfig → OtpResult OtpConfig
unfolding check_digits
set_digits digits c = do
  checked ← check_digits digits
  ok (record c { digits = unwrap_or (fixed_digits c.kind) checked })

unfoldable pub set_period : ℕ → OtpConfig → OtpResult OtpConfig
unfolding check_period
set_period period c = do
  checked ← check_period period
  ok (record c { period = unwrap_or (fixed_period c.kind) checked })

unfoldable pub set_algorithm : HashAlg → OtpConfig → OtpConfig
set_algorithm algorithm c = record c { algorithm = unwrap_or (fixed_algorithm c.kind) algorithm }

unfoldable pub set_counter : ℕ → OtpConfig → OtpConfig
set_counter counter c = if uses_counter c.kind then record c { counter = counter } else c

unfoldable pub set_pin : Option Bytes → OtpConfig → OtpConfig
set_pin pin c = record c { pin = if uses_pin c.kind then non_empty pin else none }

unfoldable pub set_secret : Bytes → OtpConfig → OtpResult OtpConfig
unfolding check_len
set_secret secret c = do check_len secret; ok (record c { secret = secret })

-- `OtpConfig::with_kind`
unfoldable pub with_kind : OtpKind → OtpConfig → OtpConfig
with_kind kind c = record {
  kind = kind;
  secret = c.secret;
  algorithm = unwrap_or (fixed_algorithm kind) c.algorithm;
  digits = unwrap_or (fixed_digits kind) c.digits;
  period = unwrap_or (fixed_period kind) c.period;
  counter = if uses_counter kind then c.counter else 0;
  pin = if uses_pin kind then c.pin else none;
}
