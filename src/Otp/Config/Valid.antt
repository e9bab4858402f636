-- ===== src/Otp/Config/Valid.antt =====
-- crates/misty-otp/src/config.rs: what every configuration that the crate hands out satisfies.
use misty.Prelude.{
  ℕ, ◌<◌, ◌≤◌, ◌≡◌, Bool, true, false, Option, none, some, [], ◌∷◌, ok, nat_ord, list_ord, pair_ord,
  option_ord, length, arith, int_ord,
}
use misty.Otp.Config.{
  OtpConfig, OtpConfigBuilder, fixed_digits, fixed_period, fixed_algorithm, uses_counter, uses_pin,
  build, set_digits, set_period, set_algorithm, set_counter, set_pin, set_secret, with_kind,
}
use misty.Otp.Error.{Bytes, HashAlg, OtpKind}

-- A fixed parameter has its fixed value.
abbrev pub Fixed {ℓ} : {A : Type ℓ} → Option A → A → Type ℓ
Fixed none x = Unit
Fixed (some v) x = x ≡ v

-- A PIN is present only where the kind uses one, and is never empty.
abbrev pub PinFits : Bool → Option Bytes → Type 0
PinFits used none = Unit
PinFits used (some []) = ⊥
PinFits used (some (b ∷ bs)) = used ≡ true

pub record IsValid (c : OtpConfig) : Type 0 where
  pub secret_some : 0 < length c.secret
  pub secret_fits : length c.secret ≤ 1024
  pub digits_some : 1 ≤ c.digits
  pub digits_fit : c.digits ≤ 10
  pub period_some : 1 ≤ c.period
  pub period_fit : c.period ≤ 3600
  pub digits_fixed : Fixed (fixed_digits c.kind) c.digits
  pub period_fixed : Fixed (fixed_period c.kind) c.period
  pub algorithm_fixed : Fixed (fixed_algorithm c.kind) c.algorithm
  pub no_counter : uses_counter c.kind ≡ false → c.counter ≡ 0
  pub pin_fits : PinFits (uses_pin c.kind) c.pin

-- What the builder returns, when it returns a configuration, is valid, whatever was asked of it:
-- the secret has 1 to 1024 bytes, the digits and the period are in their ranges, what the kind
-- fixes is fixed, and there is no counter or PIN that the kind does not use.
pub build-IsValid : (b : OtpConfigBuilder) (c : OtpConfig) → build b ≡ ok c → IsValid c
unfolding build
build-IsValid b c h = ground arith

pub set_digits-IsValid :
    (n : ℕ) (c c' : OtpConfig) → IsValid c → set_digits n c ≡ ok c' → IsValid c'
unfolding set_digits
set_digits-IsValid n c c' v h = ground arith

pub set_period-IsValid :
    (n : ℕ) (c c' : OtpConfig) → IsValid c → set_period n c ≡ ok c' → IsValid c'
unfolding set_period
set_period-IsValid n c c' v h = ground arith

pub set_secret-IsValid :
    (s : Bytes) (c c' : OtpConfig) → IsValid c → set_secret s c ≡ ok c' → IsValid c'
unfolding set_secret
set_secret-IsValid s c c' v h = ground arith

pub set_algorithm-IsValid : (a : HashAlg) (c : OtpConfig) → IsValid c → IsValid (set_algorithm a c)
unfolding set_algorithm
set_algorithm-IsValid a c v = ground arith

pub set_counter-IsValid : (n : ℕ) (c : OtpConfig) → IsValid c → IsValid (set_counter n c)
unfolding set_counter
set_counter-IsValid n c v = ground arith

pub set_pin-IsValid : (p : Option Bytes) (c : OtpConfig) → IsValid c → IsValid (set_pin p c)
unfolding set_pin
set_pin-IsValid p c v = ground arith

-- Changing the kind of a valid configuration gives a valid one: what the new kind fixes is
-- fixed, and a counter or a PIN that it does not use is gone.
pub with_kind-IsValid : (k : OtpKind) (c : OtpConfig) → IsValid c → IsValid (with_kind k c)
unfolding with_kind
with_kind-IsValid k c v = ground arith
