-- ===== src/Sync/Backoff.antt =====
-- crates/misty-sync/src/backoff.rs: the retry schedule.
pub mod Bands
use misty.Prelude.{
  ℕ, zero, suc, ◌/◌, ◌%◌, ◌+◌, ◌-◌, ◌*◌, ◌^◌, true, false, if◌then◌else◌, leb, ltb, nat_ord,
  list_ord, pair_ord, option_ord, eq_of_ord, arith, int_ord,
}

pub data Jitter : Type 0 where
  no_jitter full equal : Jitter

pub record Backoff : Type 0 where
  pub base_ms : ℕ
  pub max_ms : ℕ
  pub multiplier : ℕ
  pub jitter : Jitter

-- `Backoff::default`
abbrev pub default_backoff : Backoff
default_backoff = record { base_ms = 500; max_ms = 5 * 60 * 1000; multiplier = 2; jitter = equal }

abbrev pub u64_max : ℕ
u64_max = 2 ^ 64 - 1

-- A u64 operation that stops at the largest u64.
abbrev pub saturate : ℕ → ℕ
saturate n = if ltb u64_max n then u64_max else n

abbrev pub at_most : ℕ → ℕ → ℕ
at_most bound n = if ltb bound n then bound else n

-- The loop of `ceiling_ms`, with its early return.
unfoldable pub grow : Backoff → ℕ → ℕ → ℕ
grow b zero delay = at_most b.max_ms delay
grow b (suc attempts) delay =
    let next = saturate (delay * b.multiplier) in
    elim (leb b.max_ms next) [ true ↦ b.max_ms | false ↦ grow b attempts next ]

unfoldable pub ceiling_ms : Backoff → ℕ → ℕ
unfolding grow
ceiling_ms b attempt = grow b attempt b.base_ms

abbrev pub jittered : Jitter → ℕ → ℕ → ℕ
jittered no_jitter ceiling entropy = ceiling
jittered full ceiling entropy = entropy % saturate (ceiling + 1)
jittered equal ceiling entropy =
    let half = ceiling / 2 in saturate (half + entropy % saturate ((ceiling - half) + 1))

unfoldable pub delay_ms : Backoff → ℕ → ℕ → ℕ
delay_ms b attempt entropy = jittered b.jitter (ceiling_ms b attempt) entropy
