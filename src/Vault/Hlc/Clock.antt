-- ===== src/Vault/Hlc/Clock.antt =====
-- crates/misty-vault/src/hlc.rs: `HlcClock`, the clock with which a device stamps its writes.
pub mod Monotone
use misty.Prelude.{
  ℕ, ◌+◌, ◌-◌, ◌<◌, ◌≤◌, ◌≡◌, Bool, ◌&&◌, leb, ltb, if◌then◌else◌, ok, err, compare, Ordering,
  nat_ord, pair_ord, is_gt, List, [], ◌∷◌,
}
use misty.Vault.Error.{DeviceId, VaultResult, clock_exhausted}
use misty.Vault.Hlc.Order.{Hlc, hlc_ord, in_window, new, zero_reading, min_wall_ms, max_wall_ms}

pub record HlcClock : Type 0 where
  pub device_id : DeviceId
  pub last : Hlc

-- `HlcClock::new`
unfoldable pub start : DeviceId → HlcClock
unfolding zero_reading
start device_id = record { device_id = device_id; last = zero_reading device_id }

-- `HlcClock::observe`
unfoldable pub observe : Hlc → HlcClock → HlcClock
observe remote c =
    if in_window remote.wall_ms
    then (if is_gt {K = ℕ × ℕ} (remote.wall_ms, remote.counter) (c.last.wall_ms, c.last.counter)
        then record c {
          last = record {
            wall_ms = remote.wall_ms;
            counter = remote.counter;
            device_id = c.device_id;
          };
        }
        else c)
    else c

-- `HlcClock::resumed`
unfoldable pub resumed : DeviceId → Hlc → HlcClock
unfolding start observe
resumed device_id last = observe last (start device_id)

-- `u64::clamp` into the window
abbrev pub clamp_wall : ℕ → ℕ
clamp_wall wall_ms =
    if ltb wall_ms min_wall_ms
    then min_wall_ms
    else if ltb (max_wall_ms - 1) wall_ms
    then max_wall_ms - 1
    else wall_ms

-- `self.last.wall_ms.saturating_add(1)` on `u64`
abbrev pub saturating_succ : ℕ → ℕ
saturating_succ n = if ltb n 18446744073709551615 then n + 1 else n

-- What `tick` issues, before it is stored: a fresh millisecond, the next counter, or, with the
-- counter saturated, a millisecond borrowed from the future.
unfoldable pub next_reading : ℕ → HlcClock → VaultResult Hlc
unfolding new
next_reading wall_ms c =
    if ltb c.last.wall_ms (clamp_wall wall_ms)
    then ok (record { wall_ms = clamp_wall wall_ms; counter = 0; device_id = c.device_id })
    else if ltb c.last.counter 65535
    then ok
        (record { wall_ms = c.last.wall_ms; counter = c.last.counter + 1; device_id = c.device_id })
    else elim (new (saturating_succ c.last.wall_ms) 0 c.device_id) [
      | ok h ↦ ok h
      | err _ ↦ err clock_exhausted
    ]

-- `HlcClock::tick`: the clock after it, unchanged on an error, and the reading.
unfoldable pub tick : ℕ → HlcClock → HlcClock × VaultResult Hlc
unfolding next_reading
tick wall_ms c = elim (next_reading wall_ms c) [
  | ok next ↦ (record c { last = next }, ok next)
  | err e ↦ (c, err e)
]

-- What a clock goes through: host readings that ask for a tick, and readings of other devices.
pub data Event : Type 0 where
  wrote : ℕ → Event
  saw : Hlc → Event

unfoldable pub step : Event → HlcClock → HlcClock
unfolding tick observe
step (wrote wall_ms) c = (tick wall_ms c).0
step (saw remote) c = observe remote c

unfoldable pub run : List Event → HlcClock → HlcClock
run [] c = c
run (e ∷ es) c = run es (step e c)
