-- ===== src/Vault/Hlc/Clock/Monotone.antt =====
-- What `HlcClock` guarantees: readings that only grow, whatever the host clock does.
use misty.Prelude.{
  sym, ap, ◌∙◌, ◌↔◌, inr, lt, ℕ, ◌-◌, ◌<◌, ◌≤◌, ◌^◌, ◌≡◌, ◌⊎◌, refl, true, false, ok, err, List, [],
  ◌∷◌, arith,
}
use misty.Vault.Error.{VaultError, DeviceId, clock_exhausted}
use misty.Vault.Hlc.Order.{Hlc, hlc_ord, in_window, min_wall_ms, max_wall_ms, cmp_hlc}
use misty.Vault.Hlc.Clock.{HlcClock, start, observe, tick, Event, wrote, saw, step, run}

-- The last reading lies in the window, fits its counter, and bears the clock's own device.
pub record IsValid (c : HlcClock) : Type 0 where
  pub low : min_wall_ms ≤ c.last.wall_ms
  pub high : c.last.wall_ms < max_wall_ms
  pub counter : c.last.counter < 2 ^ 16
  pub own : c.last.device_id ≡ c.device_id

-- `(wall_ms, counter)` of `a` is not above, or is below, that of `b`.
abbrev pub NotAfter : Hlc → Hlc → Type 0
NotAfter a b = (a.wall_ms < b.wall_ms) ⊎ ((a.wall_ms ≡ b.wall_ms) × (a.counter ≤ b.counter))

abbrev pub Before : Hlc → Hlc → Type 0
Before a b = (a.wall_ms < b.wall_ms) ⊎ ((a.wall_ms ≡ b.wall_ms) × (a.counter < b.counter))

pub start-IsValid : (d : DeviceId) → IsValid (start d)
unfolding start
start-IsValid d = ground arith

pub observe-IsValid :
    (r : Hlc) (c : HlcClock) → r.counter < 2 ^ 16 → IsValid c → IsValid (observe r c)
unfolding observe
observe-IsValid r c h v = ground arith

pub tick-IsValid : (w : ℕ) (c : HlcClock) → IsValid c → IsValid (tick w c).0
unfolding tick
tick-IsValid w c v = ground arith

-- A tick issues a reading after the last one, stamped with the clock's own device, and
-- remembers it.
pub tick-after-last :
    (w : ℕ) (c : HlcClock) (h : Hlc)
    → IsValid c
    → (tick w c).1 ≡ ok h
    → Before c.last h × (h.device_id ≡ c.device_id) × ((tick w c).0.last ≡ h)
unfolding tick
tick-after-last w c h v e = ground arith

tick_exhausted_cases :
    (w : ℕ) (c : HlcClock)
    → IsValid c
    → ((e : VaultError)
        → (tick w c).1 ≡ err e
        → (tick w c ≡ (c, err clock_exhausted))
          × (c.last.wall_ms ≡ max_wall_ms - 1)
          × (c.last.counter ≡ 65535))
      × (c.last.wall_ms ≡ max_wall_ms - 1
          → c.last.counter ≡ 65535
          → tick w c ≡ (c, err clock_exhausted))
unfolding tick
tick_exhausted_cases w c v = (λ e h. ground arith, λ p q. ground arith)

-- The readings of other devices are words, as their types say.
abbrev pub EventsFit : List Event → Type 0
EventsFit [] = Unit
EventsFit (wrote w ∷ es) = EventsFit es
EventsFit (saw r ∷ es) = (r.counter < 2 ^ 16) × EventsFit es

pub run-IsValid : (es : List Event) (c : HlcClock) → EventsFit es → IsValid c → IsValid (run es c)
unfolding run step
run-IsValid [] c f v = v
run-IsValid (wrote w ∷ es) c f v = run-IsValid es (tick w c).0 f (tick-IsValid w c v)
run-IsValid (saw r ∷ es) c f v = run-IsValid es (observe r c) f.1 (observe-IsValid r c f.0 v)

NotAfter-tick :
    (r : Hlc) (w : ℕ) (c : HlcClock) → IsValid c → NotAfter r c.last → NotAfter r (tick w c).0.last
unfolding tick
NotAfter-tick r w c v h = ground arith

NotAfter-observe : (r s : Hlc) (c : HlcClock) → NotAfter r c.last → NotAfter r (observe s c).last
unfolding observe
NotAfter-observe r s c h = ground arith

NotAfter-run :
    (r : Hlc) (es : List Event) (c : HlcClock)
    → EventsFit es
    → IsValid c
    → NotAfter r c.last
    → NotAfter r (run es c).last
unfolding run step
NotAfter-run r [] c f v h = h
NotAfter-run r (wrote w ∷ es) c f v h =
    NotAfter-run r es (tick w c).0 f (tick-IsValid w c v) (NotAfter-tick r w c v h)
NotAfter-run r (saw s ∷ es) c f v h =
    NotAfter-run r es (observe s c) f.1 (observe-IsValid s c f.0 v) (NotAfter-observe r s c h)

cmp_of_Before : (r s h : Hlc) → NotAfter r s → Before s h → cmp_hlc r h ≡ lt
cmp_of_Before r s h p q = ground arith

-- A reading issued after any events is later than every reading that stood at or below the clock
-- before them.
after_run :
    (r h : Hlc) (es : List Event) (w : ℕ) (c : HlcClock)
    → EventsFit es
    → IsValid c
    → NotAfter r c.last
    → (tick w (run es c)).1 ≡ ok h
    → cmp_hlc r h ≡ lt
after_run r h es w c f v p e =
    cmp_of_Before r (run es c).last h (NotAfter-run r es c f v p)
      (tick-after-last w (run es c) h (run-IsValid es c f v) e).0

-- Two readings that one valid clock issues, with any ticks and any observations of u16 counters
-- between them and whatever the host clock says, are strictly increasing.
pub tick-lt-tick :
    (w w' : ℕ) (es : List Event) (c : HlcClock) (h h' : Hlc)
    → IsValid c
    → EventsFit es
    → (tick w c).1 ≡ ok h
    → (tick w' (run es (tick w c).0)).1 ≡ ok h'
    → cmp_hlc h h' ≡ lt
tick-lt-tick w w' es c h h' v f e e' =
    after_run h h' es w' (tick w c).0 f (tick-IsValid w c v)
      (rw (tick-after-last w c h v e).2 (inr (refl, omega arith))) e'

NotAfter-observed :
    (r : Hlc) (c : HlcClock) → in_window r.wall_ms ≡ true → NotAfter r (observe r c).last
unfolding observe
NotAfter-observed r c h = ground arith

-- A reading that a valid clock issues after it observed another device's in-window reading, at once
-- or after any further events, is later than that reading, where the observed counters are u16.
pub observe-lt-tick :
    (r : Hlc) (w : ℕ) (es : List Event) (c : HlcClock) (h : Hlc)
    → IsValid c
    → r.counter < 2 ^ 16
    → in_window r.wall_ms ≡ true
    → EventsFit es
    → (tick w (run es (observe r c))).1 ≡ ok h
    → cmp_hlc r h ≡ lt
observe-lt-tick r w es c h v k i f e =
    after_run r h es w (observe r c) f (observe-IsValid r c k v) (NotAfter-observed r c i) e

-- A reading outside the window leaves the clock as it was.
pub observe_outside : (r : Hlc) (c : HlcClock) → in_window r.wall_ms ≡ false → observe r c ≡ c
unfolding observe
observe_outside r c h = rw h

-- On a valid clock a tick fails with an error exactly when the clock stands at the last millisecond
-- of the window with its counter saturated; the error is then the exhausted clock, and the clock is
-- left as it was.
pub tick_exhausted :
    (w : ℕ) (c : HlcClock) (e : VaultError)
    → IsValid c
    → ((tick w c).1 ≡ err e) ↔ (
        (c.last.wall_ms ≡ max_wall_ms - 1)
        × (c.last.counter ≡ 65535)
        × (tick w c ≡ (c, err clock_exhausted))
        × (e ≡ clock_exhausted))
tick_exhausted w c e v = (
  λ h.
      let found = (tick_exhausted_cases w c v).0 e h in
      let same : (tick w c).1 ≡ err clock_exhausted = ap (λ r. r.1) found.0 in
      (found.1, found.2, found.0, cc),
  λ p. ap (λ r. r.1) p.2 ∙ ap err (sym p.3),
)
