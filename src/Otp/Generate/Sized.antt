-- ===== src/Otp/Generate/Sized.antt =====
-- The length of every code of crates/misty-otp/src/generate.rs.
use misty.Prelude.{
  ℕ, zero, suc, ◌/◌, ◌+◌, ◌<◌, ◌≤◌, ◌≡◌, refl, ap, Bool, true, Option, none, some, [], ◌∷◌, ◌++◌,
  ok, err, ◌>>=◌, nat_ord, list_ord, pair_ord, option_ord, length, length-append, arith, int_ord,
}
use misty.Prelude.Bytes.{be_bytes, take}
use misty.Otp.Config.{OtpConfig, uses_pin, output_len}
use misty.Otp.Error.{
  Bytes, HashAlg, sha1, sha256, OtpKind, totp, hotp, steam, motp, blizzard, yandex, OtpError,
  OtpResult, internal,
}
use misty.Otp.Config.Valid.{IsValid}
use misty.Otp.Raw.{Text, last, dynamic_truncation, to_decimal, ok_or}
use misty.Otp.Raw.Digits.{decimal_digits-Renders}
use misty.Otp.Generate.{
  Primitives, steam_alphabet, base26, reverse, hmac_counter, hotp_value, steam_value, motp_value,
  yandex_value, value_at_kind, value_at, without_leading_zero,
}

abbrev pub SizedBy : ℕ → Option Bytes → Type 0
SizedBy n none = ⊥
SizedBy n (some digest) = length digest ≡ n

-- What the hash crates document: the sizes of their outputs, and that HMAC takes any key.
pub record Documented (primitives : Primitives) : Type 0 where
  pub mac_sized :
      (alg : HashAlg) (key message : Bytes)
      → SizedBy (output_len alg) (primitives.mac alg key message)
  pub md5_sized : (message : Bytes) → length (primitives.md5_digest message) ≡ 16
  pub hex_sized :
      (bytes : Bytes) → length (primitives.hex_encode bytes) ≡ length bytes + length bytes

-- A result that is a text of `n` characters.
abbrev pub HasLength : ℕ → OtpResult Text → Type 0
HasLength n (err e) = ⊥
HasLength n (ok text) = length text ≡ n

-- The token has the PIN that its kind needs.
abbrev pub HasPin : Bool → Option Bytes → Type 0
HasPin true none = ⊥
HasPin _ _ = Unit

Succeeds : {A : Type 0} → OtpResult A → Type 0
Succeeds (err e) = ⊥
Succeeds (ok x) = Unit

length-base26 :
    (value digits : ℕ) (alphabet : Text) → length (base26 value digits alphabet) ≡ digits
unfolding base26
length-base26 value zero alphabet = refl
length-base26 value (suc digits) alphabet = ap suc (length-base26 (value / 26) digits alphabet)

length-reverse : (text : Text) → length (reverse text) ≡ length text
unfolding reverse
length-reverse [] = refl
length-reverse (c ∷ cs) = omega (arith, length-append (reverse cs) (c ∷ []), length-reverse cs)

length-take : (n : ℕ) (text : Text) → n ≤ length text → length (take n text) ≡ n
length-take zero text h = refl
length-take (suc n) [] h = absurd (omega arith)
length-take (suc n) (c ∷ cs) h = ap suc (length-take n cs (omega arith))

abbrev IsSome : Option ℕ → Type 0
IsSome none = ⊥
IsSome (some b) = Unit

last-IsSome : (bytes : Bytes) → 0 < length bytes → IsSome (last bytes)
unfolding last
last-IsSome [] h = omega arith
last-IsSome (b ∷ []) h = tt
last-IsSome (b ∷ (c ∷ bs)) h = last-IsSome (c ∷ bs) (omega arith)

-- A digest of 19 bytes or more has the four bytes that its last nibble names.
truncation-Succeeds : (digest : Bytes) → 19 ≤ length digest → Succeeds (dynamic_truncation digest)
unfolding dynamic_truncation Succeeds
truncation-Succeeds digest h = ground (arith, last-IsSome digest (omega arith))

-- A result that succeeds passes its value on.
bind_length :
    {A : Type 0} (n : ℕ) (r : OtpResult A) (f : A → OtpResult Text)
    → Succeeds r
    → ((x : A) → HasLength n (f x))
    → HasLength n (r >>= f)
unfolding Succeeds
bind_length n (ok x) f h k = k x
bind_length n (err e) f h k = h

bind_sized :
    (n : ℕ) (alg : HashAlg) (mac : Option Bytes) (f : Bytes → OtpResult Text)
    → SizedBy (output_len alg) mac
    → ((digest : Bytes)
        → 20 ≤ length digest
        → output_len alg ≤ length digest
        → HasLength n (f digest))
    → HasLength n (ok_or (internal "hmac rejected the key length") mac >>= f)
bind_sized n alg (some digest) f h k = k digest (at_least_20 alg h) (omega arith)
  where
    at_least_20 : (a : HashAlg) → length digest ≡ output_len a → 20 ≤ length digest
    at_least_20 a e = ground arith
bind_sized n alg none f h k = absurd h

module _ (primitives : Primitives) (documented : Documented primitives) where
  -- What an HMAC returns satisfies what holds of every digest of its length.
  bind_hmac :
      (n : ℕ) (alg : HashAlg) (key : Bytes) (factor : ℕ) (f : Bytes → OtpResult Text)
      → ((digest : Bytes)
          → 20 ≤ length digest
          → output_len alg ≤ length digest
          → HasLength n (f digest))
      → HasLength n (hmac_counter primitives alg key factor >>= f)
  unfolding hmac_counter
  bind_hmac n alg key factor f k =
      bind_sized n alg (primitives.mac alg key (be_bytes 8 factor)) f
        (documented.mac_sized alg key (be_bytes 8 factor)) k

  length-hotp_value :
      (alg : HashAlg) (secret : Bytes) (factor digits : ℕ)
      → 1 ≤ digits
      → digits ≤ 10
      → HasLength digits (hotp_value primitives alg secret factor digits)
  unfolding hotp_value
  length-hotp_value alg secret factor digits h k =
      bind_hmac digits alg secret factor _ (λ digest large _.
        bind_length digits (dynamic_truncation digest) _ (truncation-Succeeds digest (omega arith))
          (λ value. ground (arith, decimal_digits-Renders value digits h k)))

  length-steam_value :
      (secret : Bytes) (factor digits : ℕ)
      → HasLength digits (steam_value primitives secret factor digits)
  unfolding steam_value
  length-steam_value secret factor digits = bind_hmac digits sha1 secret factor _ (λ digest large _.
      bind_length digits (dynamic_truncation digest) _ (truncation-Succeeds digest (omega arith))
        (λ value. length-base26 value digits steam_alphabet))

  length-motp_value :
      (secret pin : Bytes) (factor digits : ℕ)
      → digits ≤ 32
      → HasLength digits (motp_value primitives secret pin factor digits)
  unfolding motp_value
  length-motp_value secret pin factor digits h =
      let message = to_decimal 20 factor ++ (primitives.hex_encode secret ++ pin) in
      let digest = primitives.md5_digest message in
      let text = primitives.hex_encode digest in
      let sized : length (take digits text) ≡ digits =
        length-take digits text
          (omega (arith, documented.hex_sized digest, documented.md5_sized message)) in
      ground (arith, sized)

  length-yandex_value :
      (secret pin : Bytes) (factor digits : ℕ)
      → HasLength digits (yandex_value primitives secret pin factor digits)
  unfolding yandex_value
  length-yandex_value secret pin factor digits =
      bind_hmac digits sha256
        (without_leading_zero (primitives.sha256_digest (pin ++ take 16 secret))) factor _
        (λ digest _ large.
          grind (arith, last-IsSome digest (omega arith), length-reverse, length-base26))

  -- A kind that needs a PIN goes on with it.
  with_pin :
      (n : ℕ) (pin : Option Bytes) (e : OtpError) (f : Bytes → OtpResult Text)
      → HasPin true pin
      → ((p : Bytes) → HasLength n (f p))
      → HasLength n (ok_or e pin >>= f)
  with_pin n none e f h k = absurd h
  with_pin n (some p) e f h k = k p

  length-by_kind :
      (kind : OtpKind) (c : OtpConfig) (factor : ℕ)
      → 1 ≤ c.digits
      → c.digits ≤ 10
      → HasPin (uses_pin kind) c.pin
      → HasLength c.digits (value_at_kind primitives kind c factor)
  unfolding value_at_kind
  length-by_kind totp c factor h k pinned =
      length-hotp_value c.algorithm c.secret factor c.digits h k
  length-by_kind hotp c factor h k pinned =
      length-hotp_value c.algorithm c.secret factor c.digits h k
  length-by_kind blizzard c factor h k pinned =
      length-hotp_value c.algorithm c.secret factor c.digits h k
  length-by_kind steam c factor h k pinned = length-steam_value c.secret factor c.digits
  length-by_kind motp c factor h k pinned =
      with_pin c.digits c.pin _ _ pinned
        (λ p. length-motp_value c.secret p factor c.digits (omega arith))
  length-by_kind yandex c factor h k pinned =
      with_pin c.digits c.pin _ _ pinned (λ p. length-yandex_value c.secret p factor c.digits)

  -- A valid token with the PIN its kind needs has a code of exactly its number of digits, at every
  -- moving factor.
  pub length-value_at :
      (c : OtpConfig) (factor : ℕ)
      → IsValid c
      → HasPin (uses_pin c.kind) c.pin
      → HasLength c.digits (value_at primitives c factor)
  unfolding value_at
  length-value_at c factor valid pinned =
      length-by_kind c.kind c factor valid.digits_some valid.digits_fit pinned
