-- ===== src/Sync/Run/Ends.antt =====
-- How `run` of crates/misty-sync/src/engine.rs ends.
use misty.Prelude.{
  ℕ, zero, suc, ◌<◌, ◌^◌, ◌≡◌, refl, inl, inr, Bool-cases, Option, some, none, List, ok, err, arith,
}
use misty.Crypto.Error.{Bytes, CryptoResult, CryptoError}
use misty.Crypto.Primitives.{Primitives}
use misty.Crypto.Identity.{Roster}
use misty.Vault.Change.{RemoteChange}
use misty.Sync.Error.{SyncError, SyncResult, crypto, transport, environment}
use misty.Sync.State.{StateStore}
use misty.Sync.Page.{SyncReport, VaultOps, Engine}
use misty.Sync.Page.Batch.{AllVouchedFor}
use misty.Sync.Backoff.{Backoff, Jitter, no_jitter, full, equal, ceiling_ms}
use misty.Sync.Backoff.Bands.{InBand, delay_ms-InBand}
use misty.Sync.Pull.{at_least_one}
use misty.Sync.Client.{Remote}
use misty.Sync.Once.{sync_once}
use misty.Sync.Once.Guarded.{Returns, sync_once-Returns}
use misty.Sync.Run.Attempts.{
  IsTransient, is_retriable-IsTransient, Attempts, given_up, succeeded, stopped, undrawn, retried,
}
use misty.Sync.Run.{
  is_retriable, drawn_delay, next_delay_ms, slept, after_delay, after_sync, run_rounds, run,
}

-- What a delay of the schedule comes to.
abbrev IsDelay : Backoff → ℕ → CryptoResult ℕ → SyncResult ℕ → Type 0
IsDelay b attempt entropy (ok ms) = InBand b.jitter (ceiling_ms b attempt) ms
IsDelay b attempt entropy (err e) = (f : CryptoError) × (entropy ≡ err f) × (e ≡ crypto f)

drawn_delay-IsDelay :
    (b : Backoff) (attempt : ℕ) (entropy : CryptoResult ℕ) (j : Jitter)
    → b.jitter ≡ j
    → b.max_ms < 2 ^ 64
    → IsDelay b attempt entropy (drawn_delay b attempt entropy j)
drawn_delay-IsDelay b attempt entropy no_jitter same capped = rw same refl
drawn_delay-IsDelay b attempt (ok n) full same capped = delay_ms-InBand b attempt n capped
drawn_delay-IsDelay b attempt (ok n) equal same capped = delay_ms-InBand b attempt n capped
drawn_delay-IsDelay b attempt (err e) full same capped = (e, refl, refl)
drawn_delay-IsDelay b attempt (err e) equal same capped = (e, refl, refl)

next_delay_ms-IsDelay :
    (b : Backoff) (attempt : ℕ) (entropy : CryptoResult ℕ)
    → b.max_ms < 2 ^ 64
    → IsDelay b attempt entropy (next_delay_ms b attempt entropy)
next_delay_ms-IsDelay b attempt entropy capped =
    drawn_delay-IsDelay b attempt entropy b.jitter refl capped

module _ {V S R : Type 0} (vault_ops : VaultOps V) (store : StateStore S) (p : Primitives)
    (fingerprint_of : Bytes → CryptoResult Bytes) (roster : Roster) (remote : Remote R)
    (P : V → Type 0)
    (keeps : (cs : List RemoteChange) (v : V)
      → AllVouchedFor p roster cs
      → P v
      → P (vault_ops.merge_remote cs v).0)
    (backoff : Backoff) (capped : backoff.max_ms < 2 ^ 64) (entropy : ℕ → CryptoResult ℕ)
    (forget_session : R → R) (page_limit : ℕ) where
  abbrev sync : Engine V S → R → Option (Engine V S × R × SyncResult SyncReport)
  sync e r = sync_once vault_ops store p fingerprint_of roster remote page_limit e r

  abbrev Left : Type 0
  Left = Engine V S × R × List ℕ × SyncResult SyncReport

  -- A run from here returns, with the property, after a course of syncs and delays.
  abbrev pub Ends : ℕ → ℕ → SyncError → Engine V S → R → Option Left → Type 0
  Ends n attempt last e r none = ⊥
  Ends n attempt last e r (some left) =
      P left.0.vault × Attempts sync forget_session backoff entropy n attempt last e r left

  slept-Ends :
      (n attempt ms : ℕ) (last error : SyncError) (e after : Engine V S) (r left : R)
      (o : Option Left)
      → sync e r ≡ some (after, left, err error)
      → IsTransient error
      → InBand backoff.jitter (ceiling_ms backoff attempt) ms
      → Ends n (suc attempt) error after (forget_session left) o
      → Ends (suc n) attempt last e r (
          slept vault_ops store p fingerprint_of roster remote backoff entropy forget_session
            page_limit ms o)
  slept-Ends n attempt ms last error e after r left none ran again band h = h
  slept-Ends n attempt ms last error e after r left (some (end, final, delays, result)) ran again
        band (safe, course) =
      (
        safe,
        retried n attempt ms last error e after end r left final delays result ran again band
            course,
      )

  after_delay-Ends :
      (n attempt : ℕ) (last error : SyncError) (e after : Engine V S) (r left : R)
      (rest : Engine V S → R → Option Left) (delay : SyncResult ℕ)
      → sync e r ≡ some (after, left, err error)
      → IsTransient error
      → P after.vault
      → IsDelay backoff attempt (entropy attempt) delay
      → Ends n (suc attempt) error after (forget_session left) (rest after (forget_session left))
      → Ends (suc n) attempt last e r (
          after_delay vault_ops store p fingerprint_of roster remote backoff entropy forget_session
            page_limit rest after
            (forget_session left)
            delay)
  after_delay-Ends n attempt last error e after r left rest (err failure) ran again safe
        (f, failed, same) ih =
      rw same (safe, undrawn n attempt last error e after r left f ran again failed)
  after_delay-Ends n attempt last error e after r left rest (ok ms) ran again safe band ih =
      slept-Ends n attempt ms last error e after r left (rest after (forget_session left)) ran again
        band ih

  after_sync-Ends :
      (n attempt : ℕ) (last : SyncError) (e : Engine V S) (r : R)
      (rest : SyncResult SyncReport → Engine V S → R → Option Left)
      (o : Option (Engine V S × R × SyncResult SyncReport))
      → sync e r ≡ o
      → Returns P o
      → ((error : SyncError) (e : Engine V S) (r : R)
          → P e.vault
          → Ends n (suc attempt) error e r (rest (err error) e r))
      → Ends (suc n) attempt last e r (
          after_sync vault_ops store p fingerprint_of roster remote backoff entropy forget_session
            page_limit rest attempt o)
  after_sync-Ends n attempt last e r rest none ran h ih = h
  after_sync-Ends n attempt last e r rest (some (after, left, ok report)) ran h ih =
      (h, succeeded n attempt last e after r left report ran)
  after_sync-Ends n attempt last e r rest (some (after, left, err error)) ran h ih =
      elim (Bool-cases (is_retriable error)) [
        | inl again ↦ rw again (
            after_delay-Ends n attempt last error e after r left (rest (err error))
              (next_delay_ms backoff attempt (entropy attempt)) ran
              ((is_retriable-IsTransient error).0 again) h
              (next_delay_ms-IsDelay backoff attempt (entropy attempt) capped)
              (ih error after (forget_session left) h))
        | inr over ↦ rw over (
          h,
          stopped n attempt last error e after r left ran
              (λ again. absurd (ground (arith, over, (is_retriable-IsTransient error).1 again))),
        )
      ]

  run_rounds-Ends :
      (n attempt : ℕ) (last : SyncError) (e : Engine V S) (r : R)
      → P e.vault
      → Ends n attempt last e r (
          run_rounds vault_ops store p fingerprint_of roster remote backoff entropy forget_session
            page_limit n attempt
            (err last)
            e
            r)
  unfolding run_rounds
  run_rounds-Ends zero attempt last e r safe = (safe, given_up attempt last e r)
  run_rounds-Ends (suc n) attempt last e r safe =
      after_sync-Ends n attempt last e r
        (run_rounds vault_ops store p fingerprint_of roster remote backoff entropy forget_session
          page_limit n (suc attempt))
        (sync e r) refl
        (sync_once-Returns vault_ops store p fingerprint_of roster remote P keeps page_limit e r
          safe)
        (run_rounds-Ends n (suc attempt))

  -- Whatever the server does, a run returns, and its course is one of `Attempts`, with as many
  -- attempts as it was given, at least one: each attempt is one sync. A success, or an error that is
  -- no transport failure, 429 or 5xx, is what the run returns, with nothing after that sync. After
  -- another error the session is forgotten and a delay in the band of the schedule is slept, or the
  -- run fails where none can be drawn; the error is what the run returns if it was the last attempt.
  -- A property of the vault that no batch breaks that the roster vouches for holds after the run if
  -- it held before it.
  pub run-Ends :
      (attempts : ℕ) (e : Engine V S) (r : R)
      → P e.vault
      → Ends (at_least_one attempts) 0 (transport "sync" environment) e r (
          run vault_ops store p fingerprint_of roster remote backoff entropy forget_session
            page_limit attempts e r)
  unfolding run
  run-Ends attempts e r safe =
      run_rounds-Ends (at_least_one attempts) 0 (transport "sync" environment) e r safe
