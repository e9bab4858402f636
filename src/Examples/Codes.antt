-- ===== src/Examples/Codes.antt =====
-- One-time passwords and the retry schedule. The hash functions are stand-ins of the right sizes.
use misty.Prelude.{ℕ, zero, suc, some, [], ◌∷◌, ok, ◌≡◌, ◌+◌, refl, arith, length, ap}
use misty.Otp.Config.{OtpConfig, builder, build, output_len}
use misty.Otp.Error.{Bytes, hotp, totp}
use misty.Otp.Config.Valid.{build-IsValid}
use misty.Otp.Raw.{Text}
use misty.Otp.Generate.{Primitives, generate_at}
use misty.Otp.Generate.Sized.{Documented}
use misty.Otp.Resync.{resync_counter, clamp_window}
use misty.Otp.Resync.First.{FirstMatch, resync_counter-FirstMatch}
use misty.Otp.Generate.Codes.{IsCodeAt, generate_at-IsCodeAt}
use misty.Otp.Base32.{encode, encode_padded, decode}
use misty.Otp.Base32.Padded.{decode-encode}
use misty.Sync.Backoff.{default_backoff, ceiling_ms, delay_ms}
use misty.Sync.Backoff.Bands.{InBand, delay_ms-InBand}
use misty.Examples.Data.{token, first_secret}

zero_bytes : ℕ → Bytes
zero_bytes zero = []
zero_bytes (suc n) = 0 ∷ zero_bytes n

doubled : Bytes → Bytes
doubled [] = []
doubled (b ∷ bs) = 48 ∷ 48 ∷ doubled bs

length-zero_bytes : (n : ℕ) → length (zero_bytes n) ≡ n
unfolding zero_bytes
length-zero_bytes zero = refl
length-zero_bytes (suc n) = ap suc (length-zero_bytes n)

length-doubled : (bs : Bytes) → length (doubled bs) ≡ length bs + length bs
unfolding doubled
length-doubled [] = omega arith
length-doubled (b ∷ bs) = omega (arith, length-doubled bs)

abbrev stand_ins : Primitives
stand_ins = record {
  mac = λ alg key message. some (zero_bytes (output_len alg));
  md5_digest = λ message. zero_bytes 16;
  sha256_digest = λ message. zero_bytes 32;
  hex_encode = doubled;
}

stand_ins-Documented : Documented stand_ins
stand_ins-Documented = record {
  mac_sized = λ alg key message. length-zero_bytes (output_len alg);
  md5_sized = λ message. length-zero_bytes 16;
  hex_sized = length-doubled;
}

built : build (builder totp first_secret) ≡ ok (token first_secret)
unfolding build
built = refl

generate_at-IsCodeAt_example :
    IsCodeAt (token first_secret) 59_500 (generate_at stand_ins (token first_secret) 59_500)
generate_at-IsCodeAt_example =
    generate_at-IsCodeAt stand_ins stand_ins-Documented (token first_secret) 59_500
      (build-IsValid (builder totp first_secret) (token first_secret) built) tt (omega arith)

delay_ms-InBand_example :
    InBand default_backoff.jitter (ceiling_ms default_backoff 3) (delay_ms default_backoff 3 77)
delay_ms-InBand_example = delay_ms-InBand default_backoff 3 77 (omega arith)

abbrev counted_token : OtpConfig
counted_token = record (token first_secret) { kind = hotp; counter = 5 }

counted_built : build (record (builder hotp first_secret) { counter = 5 }) ≡ ok counted_token
unfolding build
counted_built = refl

abbrev six_zeros : Text
six_zeros = 48 ∷ 48 ∷ 48 ∷ 48 ∷ 48 ∷ 48 ∷ []

resync_counter-FirstMatch_example :
    FirstMatch stand_ins counted_token six_zeros 5
      (5 + suc (clamp_window 10))
      (resync_counter stand_ins counted_token six_zeros 10)
resync_counter-FirstMatch_example =
    resync_counter-FirstMatch stand_ins counted_token six_zeros 10 stand_ins-Documented
      (build-IsValid (record (builder hotp first_secret) { counter = 5 }) counted_token
        counted_built)
      tt refl (omega arith)

abbrev hello : Bytes
hello = 72 ∷ 101 ∷ 108 ∷ 108 ∷ 111 ∷ 33 ∷ 255 ∷ []

decode-encode_example :
    (decode (encode hello) ≡ ok hello) × (decode (encode_padded hello) ≡ ok hello)
decode-encode_example =
    decode-encode hello
      (
        omega arith,
        (
          omega arith,
          (omega arith, (omega arith, (omega arith, (omega arith, (omega arith, tt))))),
        ),
      )
      (omega arith)
