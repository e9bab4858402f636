-- ===== src/Sync/Run.antt =====
-- crates/misty-sync/src/engine.rs: `run`, a sync that is tried again after a delay.
pub mod Attempts
pub mod Ends
use misty.Prelude.{
  ℕ, zero, suc, ◌||◌, Bool, true, false, if◌then◌else◌, ◌==◌, leb, Option, some, none, List, [],
  ◌∷◌, ok, err, ◌>>=◌,
}
use misty.Crypto.Error.{Bytes, CryptoResult}
use misty.Crypto.Primitives.{Primitives}
use misty.Crypto.Identity.{Roster}
use misty.Sync.Error.{SyncError, SyncResult, transport, server, environment}
use misty.Sync.State.{StateStore}
use misty.Sync.Page.{SyncReport, VaultOps, Engine}
use misty.Sync.Backoff.{Backoff, Jitter, no_jitter, ceiling_ms, delay_ms}
use misty.Sync.Pull.{at_least_one}
use misty.Sync.Queue.{from_crypto}
use misty.Sync.Client.{Remote}
use misty.Sync.Once.{sync_once}

abbrev pub is_retriable : SyncError → Bool
is_retriable (transport operation kind) = true
is_retriable (server operation status) = (status == 429) || leb 500 status
is_retriable _ = false

-- `Backoff::next_delay_ms` of backoff.rs, with the u64 that the system's generator gives or fails to.
abbrev pub drawn_delay : Backoff → ℕ → CryptoResult ℕ → Jitter → SyncResult ℕ
drawn_delay b attempt entropy no_jitter = ok (ceiling_ms b attempt)
drawn_delay b attempt entropy _ = do e ← from_crypto entropy; ok (delay_ms b attempt e)

abbrev pub next_delay_ms : Backoff → ℕ → CryptoResult ℕ → SyncResult ℕ
next_delay_ms b attempt entropy = drawn_delay b attempt entropy b.jitter

-- `entropy n` is what the generator gives to the n-th delay, and `forget_session` drops the client's
-- session.
module _ {V S R : Type 0} (vault_ops : VaultOps V) (store : StateStore S) (p : Primitives)
    (fingerprint_of : Bytes → CryptoResult Bytes) (roster : Roster) (remote : Remote R)
    (backoff : Backoff) (entropy : ℕ → CryptoResult ℕ) (forget_session : R → R)
    (page_limit : ℕ) where
  -- What a run leaves, the delays that it slept among it.
  abbrev pub Ran : Type 0
  Ran = Engine V S × R × List ℕ × SyncResult SyncReport

  abbrev pub slept : ℕ → Option Ran → Option Ran
  slept ms none = none
  slept ms (some (e, r, delays, result)) = some (e, r, ms ∷ delays, result)

  abbrev pub after_delay :
      (Engine V S → R → Option Ran) → Engine V S → R → SyncResult ℕ → Option Ran
  after_delay rest e r (err error) = some (e, r, [], err error)
  after_delay rest e r (ok ms) = slept ms (rest e r)

  abbrev pub after_sync :
      (SyncResult SyncReport → Engine V S → R → Option Ran)
      → ℕ
      → Option (Engine V S × R × SyncResult SyncReport)
      → Option Ran
  after_sync rest attempt none = none
  after_sync rest attempt (some (e, r, ok report)) = some (e, r, [], ok report)
  after_sync rest attempt (some (e, r, err error)) =
      if is_retriable error
      then after_delay (rest (err error)) e (forget_session r)
          (next_delay_ms backoff attempt (entropy attempt))
      else some (e, r, [], err error)

  -- The attempts that are left, from the number of the next one on, with the result of the last.
  unfoldable pub run_rounds : ℕ → ℕ → SyncResult SyncReport → Engine V S → R → Option Ran
  run_rounds zero attempt last e r = some (e, r, [], last)
  run_rounds (suc n) attempt last e r =
      after_sync (run_rounds n (suc attempt)) attempt
        (sync_once vault_ops store p fingerprint_of roster remote page_limit e r)

  unfoldable pub run : ℕ → Engine V S → R → Option Ran
  run attempts e r = run_rounds (at_least_one attempts) 0 (err (transport "sync" environment)) e r
