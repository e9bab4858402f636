-- ===== src/Sync/Backoff/Bands.antt =====
-- What crates/misty-sync/src/backoff.rs promises of its schedule.
use misty.Prelude.{
  ℕ, zero, suc, ◌/◌, ◌%◌, ◌+◌, ◌-◌, ◌*◌, ◌<◌, ◌≤◌, ◌^◌, ◌≡◌, refl, nat_ord, list_ord, pair_ord,
  option_ord, arith, int_ord,
}
use native.Mathlib.Nat.{mod-lt}
use misty.Sync.Backoff.{
  Backoff, Jitter, no_jitter, full, equal, saturate, grow, ceiling_ms, jittered, delay_ms,
}

grow_capped : (b : Backoff) (attempts delay : ℕ) → grow b attempts delay ≤ b.max_ms
unfolding grow
grow_capped b zero delay = ground arith
grow_capped b (suc attempts) delay =
    ground (arith, grow_capped b attempts (saturate (delay * b.multiplier)))

-- A delay never passes the cap.
pub ceiling_ms_capped : (b : Backoff) (attempt : ℕ) → ceiling_ms b attempt ≤ b.max_ms
unfolding ceiling_ms
ceiling_ms_capped b attempt = grow_capped b attempt b.base_ms

saturate_grows :
    (delay multiplier : ℕ) → 1 ≤ multiplier → delay < 2 ^ 64 → delay ≤ saturate (delay * multiplier)
saturate_grows delay multiplier h k =
    let larger : delay ≤ delay * multiplier = grind arith in ground arith

grow_mono :
    (b : Backoff) (attempts delay : ℕ)
    → 1 ≤ b.multiplier
    → delay < 2 ^ 64
    → grow b attempts delay ≤ grow b (suc attempts) delay
unfolding grow
grow_mono b zero delay h k = ground (arith, saturate_grows delay b.multiplier h k)
grow_mono b (suc attempts) delay h k =
    let next = saturate (delay * b.multiplier) in
    ground (arith, grow_mono b attempts next h (ground arith))

-- With a multiplier of at least 1 and a base that is a u64, the ceiling does not shrink from one
-- attempt to the next.
pub ceiling_ms_mono :
    (b : Backoff) (attempt : ℕ)
    → 1 ≤ b.multiplier
    → b.base_ms < 2 ^ 64
    → ceiling_ms b attempt ≤ ceiling_ms b (suc attempt)
unfolding ceiling_ms
ceiling_ms_mono b attempt h k = grow_mono b attempt b.base_ms h k

-- The band of a jitter under a ceiling.
abbrev pub InBand : Jitter → ℕ → ℕ → Type 0
InBand no_jitter ceiling delay = delay ≡ ceiling
InBand full ceiling delay = delay ≤ ceiling
InBand equal ceiling delay = (ceiling / 2 ≤ delay) × (delay ≤ ceiling)

draw_le : (range entropy : ℕ) → entropy % saturate (range + 1) ≤ range
draw_le range entropy =
    let positive : 0 < saturate (range + 1) = ground arith in
    let below : entropy % saturate (range + 1) < saturate (range + 1) = mod-lt entropy positive in
    ground arith

jittered-InBand :
    (j : Jitter) (ceiling entropy : ℕ)
    → ceiling < 2 ^ 64
    → InBand j ceiling (jittered j ceiling entropy)
jittered-InBand no_jitter ceiling entropy h = refl
jittered-InBand full ceiling entropy h = draw_le ceiling entropy
jittered-InBand equal ceiling entropy h =
    let drawn = draw_le (ceiling - ceiling / 2) entropy in ground arith

-- Whatever the entropy, a delay under a cap that is a u64 stays in the band of its jitter: the
-- ceiling itself without jitter, at most the ceiling with full jitter, and between half of the
-- ceiling and the ceiling with equal jitter.
pub delay_ms-InBand :
    (b : Backoff) (attempt entropy : ℕ)
    → b.max_ms < 2 ^ 64
    → InBand b.jitter (ceiling_ms b attempt) (delay_ms b attempt entropy)
unfolding delay_ms
delay_ms-InBand b attempt entropy h =
    jittered-InBand b.jitter (ceiling_ms b attempt) entropy
      (omega (arith, ceiling_ms_capped b attempt))
