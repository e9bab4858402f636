-- ===== src/Otp/Resync.antt =====
-- crates/misty-otp/src/generate.rs: `OtpConfig::resync_counter`.
pub mod First
use misty.Prelude.{
  ℕ, zero, suc, Bool, false, not, ◌&&◌, ◌||◌, if◌then◌else◌, ltb, Option, none, some, ok, err, Ord,
  nat_ord, list_ord, same_key,
}
use misty.Otp.Config.{OtpConfig, uses_counter}
use misty.Otp.Error.{OtpResult}
use misty.Otp.Raw.{Text}
use misty.Otp.Generate.{Primitives, checked_add, value_at}

abbrev pub max_resync_window : ℕ
max_resync_window = 1000

-- The two variables of the loop.
pub record Scan : Type 0 where
  pub found : Bool
  pub matched : ℕ

abbrev pub text_ord : Ord Text
text_ord = list_ord

-- One comparison: the first match is kept, and the scan goes on.
unfoldable pub compare_code : Text → ℕ → Text → Scan → Scan
compare_code observed counter candidate s =
    let hit = same_key ⦃o = text_ord⦄ candidate observed in
    record { found = s.found || hit; matched = if hit && not s.found then counter else s.matched }

-- The rest of the loop after an iteration, or a `break`.
unfoldable pub go_on : (Scan → Scan) → Scan → Option Scan → Scan
go_on rest s none = s
go_on rest s (some next) = rest next

-- `window.min(MAX_RESYNC_WINDOW)`
abbrev pub clamp_window : ℕ → ℕ
clamp_window window = if ltb max_resync_window window then max_resync_window else window

-- `found.then_some(matched)`
abbrev pub then_some : Scan → Option ℕ
then_some s = if s.found then some s.matched else none

module _ (primitives : Primitives) (c : OtpConfig) (observed : Text) where
  abbrev compared : ℕ → OtpResult Text → Scan → Option Scan
  compared counter (err e) s = none
  compared counter (ok candidate) s = some (compare_code observed counter candidate s)

  abbrev pub attempt_at : Option ℕ → Scan → Option Scan
  attempt_at none s = none
  attempt_at (some counter) s = compared counter (value_at primitives c counter) s

  -- One iteration; none is a `break`.
  abbrev pub attempt : ℕ → Scan → Option Scan
  attempt at s = attempt_at (checked_add c.counter at) s

  -- The loop, with the iterations that are left and the step it stands at.
  unfoldable pub scan : ℕ → ℕ → Scan → Scan
  unfolding go_on
  scan zero at s = s
  scan (suc left) at s = go_on (scan left (suc at)) s (attempt at s)

  unfoldable pub resync_counter : ℕ → Option ℕ
  resync_counter window =
      if uses_counter c.kind
      then then_some (scan (suc (clamp_window window)) 0 (record { found = false; matched = 0 }))
      else none
