-- ===== src/Otp/Generate/Codes.antt =====
-- The codes of crates/misty-otp/src/generate.rs and their windows.
use misty.Prelude.{
  ℕ, ◌/◌, ◌%◌, ◌+◌, ◌*◌, ◌<◌, ◌≤◌, ◌^◌, ◌≡◌, refl, subst, Bool, true, false, if◌then◌else◌, ltb,
  Option, none, some, ok, err, ◌>>=◌, nat_ord, list_ord, pair_ord, option_ord, length, arith,
  int_ord, lt→ltb,
}
use native.Mathlib.Nat.{mod-lt, div-add-mod, mul-mod_left}
use misty.Otp.Config.{OtpConfig, uses_counter, uses_pin}
use misty.Otp.Error.{OtpResult}
use misty.Otp.Config.Valid.{IsValid}
use misty.Otp.Generate.{
  Primitives, Code, CodeWindow, window_at, value_at, generate_at, next_code_at,
}
use misty.Otp.Generate.Sized.{Documented, HasPin, length-value_at}

-- What a window promises at the instant that it was made for.
pub record Covers (period unix_ms : ℕ) (w : CodeWindow) : Type 0 where
  pub not_before : w.valid_from_ms ≤ unix_ms
  pub not_after : unix_ms < w.valid_until_ms
  pub one_period : w.valid_until_ms ≡ w.valid_from_ms + period * 1000
  pub aligned : w.valid_from_ms % (period * 1000) ≡ 0
  pub remaining : w.remaining_ms + unix_ms ≡ w.valid_until_ms
  pub elapsed_part : w.progress.0 < w.progress.1

abbrev pub WindowFor : Bool → ℕ → ℕ → Option CodeWindow → Type 0
WindowFor true period unix_ms none = Unit
WindowFor true period unix_ms (some w) = ⊥
WindowFor false period unix_ms none = ⊥
WindowFor false period unix_ms (some w) = Covers period unix_ms w

-- A code of the token: its length, and a window exactly when it is time-based.
abbrev pub CodeFor : Bool → OtpConfig → ℕ → OtpResult Code → Type 0
CodeFor counted c unix_ms (err e) = ⊥
CodeFor counted c unix_ms (ok code) =
    (length code.value ≡ c.digits) × WindowFor counted c.period unix_ms code.window

abbrev pub IsCodeAt : OtpConfig → ℕ → OtpResult Code → Type 0
IsCodeAt c = CodeFor (uses_counter c.kind) c

either_code :
    (counted : Bool) (c : OtpConfig) (unix_ms : ℕ) (x y : OtpResult Code)
    → CodeFor true c unix_ms x
    → (counted ≡ false → CodeFor false c unix_ms y)
    → CodeFor counted c unix_ms (if counted then x else y)
either_code true c unix_ms x y h k = h
either_code false c unix_ms x y h k = k refl

abbrev pub WindowResult : ℕ → ℕ → OtpResult (ℕ × CodeWindow) → Type 0
WindowResult period unix_ms (err e) = ⊥
WindowResult period unix_ms (ok at) =
    Covers period unix_ms at.1 × (at.0 * (period * 1000) ≡ at.1.valid_from_ms)

end_fits :
    (period unix_ms : ℕ)
    → 1 ≤ period
    → unix_ms + period * 1000 < 2 ^ 64
    → ltb (unix_ms / (period * 1000) * (period * 1000) + period * 1000) (2 ^ 64) ≡ true
end_fits period unix_ms h k =
    let split = div-add-mod unix_ms (period * 1000) in
    lt→ltb (unix_ms / (period * 1000) * (period * 1000) + period * 1000) (2 ^ 64) (grind arith)

-- The end of the window that covers an instant.
abbrev pub window_end : ℕ → ℕ → ℕ
window_end period unix_ms = (unix_ms / (period * 1000) + 1) * (period * 1000)

abbrev EndsAt : ℕ → OtpResult (ℕ × CodeWindow) → Type 0
EndsAt end_ms (err e) = ⊥
EndsAt end_ms (ok at) = at.1.valid_until_ms ≡ end_ms

window_at-EndsAt :
    (period unix_ms : ℕ)
    → 1 ≤ period
    → unix_ms + period * 1000 < 2 ^ 64
    → EndsAt (window_end period unix_ms) (window_at period unix_ms)
unfolding window_at
window_at-EndsAt period unix_ms h k = simp (end_fits period unix_ms h k) (grind arith)

pub window_at-Covers :
    (period unix_ms : ℕ)
    → 1 ≤ period
    → unix_ms + period * 1000 < 2 ^ 64
    → WindowResult period unix_ms (window_at period unix_ms)
unfolding window_at
window_at-Covers period unix_ms h k =
    let split = div-add-mod unix_ms (period * 1000) in
    let below : unix_ms % (period * 1000) < period * 1000 = mod-lt unix_ms (omega arith) in
    simp (end_fits period unix_ms h k) (
      record {
        not_before = grind arith;
        not_after = grind arith;
        one_period = refl;
        aligned = mul-mod_left (unix_ms / (period * 1000)) (period * 1000);
        remaining = grind arith;
        elapsed_part = grind arith;
      },
      refl,
    )

module _ (primitives : Primitives) (documented : Documented primitives) where
  time_code :
      (c : OtpConfig) (unix_ms : ℕ) (at : OtpResult (ℕ × CodeWindow))
      → IsValid c
      → HasPin (uses_pin c.kind) c.pin
      → WindowResult c.period unix_ms at
      → CodeFor false c unix_ms (do
        found ← at
        value ← value_at primitives c found.0
        ok (record { value = value; window = some found.1 }))
  time_code c unix_ms (err e) valid pinned h = h
  time_code c unix_ms (ok at) valid pinned h =
      ground (arith, length-value_at primitives documented c at.0 valid pinned)

  counter_code :
      (c : OtpConfig) (unix_ms counter : ℕ)
      → IsValid c
      → HasPin (uses_pin c.kind) c.pin
      → CodeFor true c unix_ms
          (do value ← value_at primitives c counter; ok (record { value = value; window = none }))
  counter_code c unix_ms counter valid pinned =
      ground (arith, length-value_at primitives documented c counter valid pinned)

  -- A valid token that has the PIN its kind needs has a code at every instant whose window can end
  -- within u64: exactly its number of digits long and, unless it is counter-based, with a window
  -- of one period, aligned to the period, that contains the instant.
  pub generate_at-IsCodeAt :
      (c : OtpConfig) (unix_ms : ℕ)
      → IsValid c
      → HasPin (uses_pin c.kind) c.pin
      → unix_ms + c.period * 1000 < 2 ^ 64
      → IsCodeAt c unix_ms (generate_at primitives c unix_ms)
  unfolding generate_at
  generate_at-IsCodeAt c unix_ms valid pinned h =
      either_code (uses_counter c.kind) c unix_ms _ _
        (counter_code c unix_ms c.counter valid pinned)
        (λ _.
          time_code c unix_ms (window_at c.period unix_ms) valid pinned
            (window_at-Covers c.period unix_ms valid.period_some h))

  after_window :
      (c : OtpConfig) (end_ms : ℕ) (at : OtpResult (ℕ × CodeWindow))
      → EndsAt end_ms at
      → CodeFor false c end_ms (generate_at primitives c end_ms)
      → CodeFor false c end_ms (do found ← at; generate_at primitives c found.1.valid_until_ms)
  after_window c end_ms (err e) ends h = ends
  after_window c end_ms (ok at) ends h = simp ends h

  -- The next code of a valid token that has the PIN its kind needs exists where a next counter and
  -- two more windows fit u64: it has exactly its number of digits and, unless the token is
  -- counter-based, the window that starts where the current one ends.
  pub next_code_at-IsCodeAt :
      (c : OtpConfig) (unix_ms : ℕ)
      → IsValid c
      → HasPin (uses_pin c.kind) c.pin
      → c.counter + 1 < 2 ^ 64
      → unix_ms + 2 * (c.period * 1000) < 2 ^ 64
      → IsCodeAt c (window_end c.period unix_ms) (next_code_at primitives c unix_ms)
  unfolding next_code_at
  next_code_at-IsCodeAt c unix_ms valid pinned fits h =
      let end_ms = window_end c.period unix_ms in
      let split = div-add-mod unix_ms (c.period * 1000) in
      either_code (uses_counter c.kind) c end_ms _ _
        (simp (lt→ltb (c.counter + 1) (2 ^ 64) fits)
          (counter_code c end_ms (c.counter + 1) valid pinned))
        (λ timed.
          after_window c end_ms (window_at c.period unix_ms)
            (window_at-EndsAt c.period unix_ms valid.period_some (omega arith))
            (subst (λ counted. CodeFor counted c end_ms (generate_at primitives c end_ms)) timed
              (generate_at-IsCodeAt c end_ms valid pinned (grind arith))))
