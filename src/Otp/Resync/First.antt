-- ===== src/Otp/Resync/First.antt =====
-- What crates/misty-otp/src/generate.rs promises of `resync_counter`.
use misty.Prelude.{
  ℕ, zero, suc, ◌+◌, ◌<◌, ◌≤◌, ◌^◌, ◌≡◌, ◌↔◌, refl, sym, subst, ap, ◌∙◌, Bool, true, false, not,
  ◌&&◌, ◌||◌, if◌then◌else◌, Option, none, some, ok, err, nat_ord, list_ord, pair_ord, option_ord,
  same_key, arith, int_ord, same_key_iff, lt→ltb, dec_lt,
}
use misty.Otp.Config.{OtpConfig, uses_counter, uses_pin}
use misty.Otp.Error.{OtpResult}
use misty.Otp.Config.Valid.{IsValid}
use misty.Otp.Raw.{Text}
use misty.Otp.Generate.{Primitives, value_at}
use misty.Otp.Generate.Sized.{Documented, HasPin, HasLength, length-value_at}
use misty.Otp.Resync.{
  Scan, compare_code, go_on, attempt, scan, then_some, clamp_window, resync_counter, text_ord,
}

module _ (primitives : Primitives) (c : OtpConfig) (observed : Text) where
  -- The code at a counter is the observed one.
  abbrev pub Matches : ℕ → Type 0
  Matches counter = value_at primitives c counter ≡ ok observed

  -- The first match of the counters from `lo` to before `hi`, or that there is none.
  abbrev pub FirstMatch : ℕ → ℕ → Option ℕ → Type 0
  FirstMatch lo hi (some n) =
      (lo ≤ n) × (n < hi) × Matches n × ((m : ℕ) → lo ≤ m → m < n → Matches m → ⊥)
  FirstMatch lo hi none = (m : ℕ) → lo ≤ m → m < hi → Matches m → ⊥

  extend :
      (lo hi n : ℕ) (found hit : Bool)
      → lo ≤ hi
      → (hit ≡ true) ↔ Matches hi
      → FirstMatch lo hi (if found then some n else none)
      → FirstMatch lo
          (suc hi)
          (if found || hit then some (if hit && not found then hi else n) else none)
  extend lo hi n true true h t f = (f.0, omega (arith, f.1), f.2, f.3)
  extend lo hi n true false h t f = (f.0, omega (arith, f.1), f.2, f.3)
  extend lo hi n false true h t f = (h, omega arith, t.0 refl, f)
  extend lo hi n false false h t f = λ m p q matches. elim (dec_lt m hi) [
    | yes below ↦ f m p below matches
    | no above ↦
        let same : m ≡ hi = omega arith in
        let hit : false ≡ true = t.1 (subst Matches same matches) in absurd (ground (arith, hit))
  ]

  Matches-iff :
      (hi : ℕ) (candidate : Text)
      → value_at primitives c hi ≡ ok candidate
      → (same_key ⦃o = text_ord⦄ candidate observed ≡ true) ↔ Matches hi
  Matches-iff hi candidate e = (
    λ q. e ∙ ap ok ((same_key_iff ⦃o = text_ord⦄ candidate observed).0 q),
    λ matches.
        let same : candidate ≡ observed = cc in
        (same_key_iff ⦃o = text_ord⦄ candidate observed).1 same,
  )

  compare_code-FirstMatch :
      (lo hi : ℕ) (candidate : Text) (s : Scan)
      → lo ≤ hi
      → value_at primitives c hi ≡ ok candidate
      → FirstMatch lo hi (then_some s)
      → FirstMatch lo (suc hi) (then_some (compare_code observed hi candidate s))
  unfolding compare_code
  compare_code-FirstMatch lo hi candidate s h e f =
      extend lo hi s.matched s.found (same_key ⦃o = text_ord⦄ candidate observed) h
        (Matches-iff hi candidate e) f

  -- Every counter of the window has a code.
  HasCode : ℕ → Type 0
  HasCode counter = (candidate : Text) × (value_at primitives c counter ≡ ok candidate)

  attempt_lem :
      (at : ℕ) (candidate : Text) (s : Scan)
      → c.counter + at < 2 ^ 64
      → value_at primitives c (c.counter + at) ≡ ok candidate
      → attempt primitives c observed at s
        ≡ some (compare_code observed (c.counter + at) candidate s)
  attempt_lem at candidate s k e = rw (lt→ltb (c.counter + at) (2 ^ 64) k, e) refl

  scan-FirstMatch :
      (left at : ℕ) (s : Scan)
      → c.counter + at + left < 2 ^ 64
      → ((m : ℕ) → HasCode m)
      → FirstMatch c.counter (c.counter + at) (then_some s)
      → FirstMatch c.counter
          (c.counter + at + left)
          (then_some (scan primitives c observed left at s))
  unfolding scan go_on HasCode
  scan-FirstMatch zero at s k codes f =
      subst (λ n. FirstMatch c.counter n (then_some s)) (omega arith) f
  scan-FirstMatch (suc left) at s k codes f =
      let (candidate, e) = codes (c.counter + at) in
      let s' = compare_code observed (c.counter + at) candidate s in
      let here : c.counter + suc at ≡ suc (c.counter + at) = omega arith in
      let seen = compare_code-FirstMatch c.counter (c.counter + at) candidate s (omega arith) e f in
      let rest =
        scan-FirstMatch left (suc at) s' (omega arith) codes
          (subst (λ n. FirstMatch c.counter n (then_some s')) (sym here) seen) in
      rw (attempt_lem at candidate s (omega arith) e) (
        subst
          (λ n. FirstMatch c.counter n (then_some (scan primitives c observed left (suc at) s')))
          (omega arith) rest)

  coded : (r : OtpResult Text) (n : ℕ) → HasLength n r → (candidate : Text) × (r ≡ ok candidate)
  coded (ok candidate) n h = (candidate, refl)
  coded (err e) n h = absurd h

  -- For a valid counter-based token with the PIN it needs, whose window does not pass the last
  -- counter, resynchronisation returns the first counter of the clamped window whose code is the
  -- observed one, or none, and then no counter of that window has it.
  pub resync_counter-FirstMatch :
      (window : ℕ)
      → Documented primitives
      → IsValid c
      → HasPin (uses_pin c.kind) c.pin
      → uses_counter c.kind ≡ true
      → c.counter + suc (clamp_window window) < 2 ^ 64
      → FirstMatch c.counter
          (c.counter + suc (clamp_window window))
          (resync_counter primitives c observed window)
  unfolding resync_counter HasCode
  resync_counter-FirstMatch window documented valid pinned counted k =
      let all =
        scan-FirstMatch (suc (clamp_window window)) 0 (record { found = false; matched = 0 })
          (omega arith)
          (λ m.
            coded (value_at primitives c m) c.digits
              (length-value_at primitives documented c m valid pinned))
          (λ m p q _. absurd (omega (arith, p, q))) in
      let bound : c.counter + 0 + suc (clamp_window window)
          ≡ c.counter + suc (clamp_window window) =
        omega arith in
      rw counted (
        subst
          (λ n. FirstMatch c.counter n (
            then_some (
              scan primitives c observed (suc (clamp_window window)) 0
                (record { found = false; matched = 0 }))))
          bound all)
