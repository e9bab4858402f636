-- ===== src/Examples/Clocks.antt =====
-- Hybrid logical clocks and their wire bytes.
use misty.Prelude.{[], ◌∷◌, List, ◌≡◌, refl, lt, nat_ord, list_ord, arith, cmp_list, length}
use misty.Vault.Error.{DeviceId}
use misty.Vault.Hlc.Order.{Hlc, cmp_hlc, zero_reading}
use misty.Vault.Hlc.Clock.{start, tick, run, observe, Event, saw, next_reading, step}
use misty.Vault.Hlc.Clock.Monotone.{tick-lt-tick, observe-lt-tick, start-IsValid}
use misty.Vault.Hlc.Wire.{Fits, to_sort_bytes, cmp-to_sort_bytes}
use misty.Examples.Data.{reading, phone, laptop, now_ms}

-- The phone writes, sees the laptop's later reading, and writes again with its host clock set back.
abbrev events : List Event
events = saw (reading 9 laptop) ∷ []

abbrev first_reading : Hlc
first_reading = record { wall_ms = now_ms; counter = 0; device_id = phone }

abbrev next_after_laptop : Hlc
next_after_laptop = record { wall_ms = now_ms; counter = 10; device_id = phone }

tick-lt-tick_example : cmp_hlc first_reading next_after_laptop ≡ lt
unfolding start tick run step observe next_reading zero_reading
tick-lt-tick_example =
    tick-lt-tick now_ms 5 events (start phone) first_reading next_after_laptop (start-IsValid phone)
      (omega arith, tt) refl refl

observe-lt-tick_example : cmp_hlc (reading 9 laptop) next_after_laptop ≡ lt
unfolding start tick run step observe next_reading zero_reading
observe-lt-tick_example =
    observe-lt-tick (reading 9 laptop) 5 [] (start phone) next_after_laptop (start-IsValid phone)
      (omega arith) refl tt refl

reading-Fits : (device_id : DeviceId) → length device_id ≡ 16 → Fits (reading 1 device_id)
reading-Fits device_id h = record {
  wall_fits = omega arith;
  counter_fits = omega arith;
  device_fits = h;
}

cmp-to_sort_bytes_example :
    cmp_list (to_sort_bytes (reading 1 phone)) (to_sort_bytes (reading 1 laptop))
    ≡ cmp_hlc (reading 1 phone) (reading 1 laptop)
cmp-to_sort_bytes_example =
    cmp-to_sort_bytes (reading 1 phone) (reading 1 laptop) (reading-Fits phone refl)
      (reading-Fits laptop refl)
