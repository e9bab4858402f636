-- ===== src/Sync/Run/Attempts.antt =====
-- The course that `run` of crates/misty-sync/src/engine.rs takes, as steps: which errors are worth a retry, and what
-- follows each sync.
use misty.Prelude.{
  ℕ, zero, suc, ◌≤◌, ◌≡◌, ◌⊎◌, ◌↔◌, refl, inl, inr, Bool-cases, true, false, some, Option, List, [],
  ◌∷◌, ok, err, ◌==◌, arith,
}
use misty.Crypto.Error.{CryptoResult, CryptoError}
use misty.Sync.Error.{SyncError, SyncResult, crypto, transport, server}
use misty.Sync.Page.{SyncReport, Engine}
use misty.Sync.Backoff.{Backoff, ceiling_ms}
use misty.Sync.Backoff.Bands.{InBand}
use misty.Sync.Run.{is_retriable}

-- The transport failed, or the server had too many requests or failed itself.
abbrev pub IsTransient : SyncError → Type 0
IsTransient (transport operation kind) = Unit
IsTransient (server operation status) = (status ≡ 429) ⊎ (500 ≤ status)
IsTransient _ = ⊥

never : (false ≡ true) ↔ ⊥
never = (λ h. absurd cc, λ h. absurd h)

pub is_retriable-IsTransient : (e : SyncError) → (is_retriable e ≡ true) ↔ IsTransient e
is_retriable-IsTransient (transport o k) = (λ h. tt, λ h. refl)
is_retriable-IsTransient (server o status) = (
  λ h. elim (Bool-cases (status == 429)) [
    | inl many ↦ inl (ground (arith, many))
    | inr other ↦ inr (ground (arith, h, other))
  ],
  λ h. elim h [ inl a ↦ ground (arith, a) | inr b ↦ ground (arith, b) ],
)
is_retriable-IsTransient (SyncError.crypto x) = never
is_retriable-IsTransient (SyncError.vault o x) = never
is_retriable-IsTransient (SyncError.auth_refused o) = never
is_retriable-IsTransient (SyncError.malformed o w) = never
is_retriable-IsTransient (SyncError.response_too_large o n) = never
is_retriable-IsTransient (SyncError.envelope_too_large n m) = never
is_retriable-IsTransient (SyncError.seq_rollback n m) = never
is_retriable-IsTransient (SyncError.feed_out_of_order n m) = never
is_retriable-IsTransient (SyncError.seq_out_of_range n m) = never
is_retriable-IsTransient (SyncError.feed_too_long n) = never
is_retriable-IsTransient (SyncError.unknown_signer d) = never
is_retriable-IsTransient (SyncError.roster_rejected x) = never
is_retriable-IsTransient (SyncError.revoked d) = never
is_retriable-IsTransient SyncError.time_signature_invalid = never
is_retriable-IsTransient SyncError.time_nonce_mismatch = never
is_retriable-IsTransient (SyncError.time_went_backwards n m) = never
is_retriable-IsTransient (SyncError.conflict_loop n) = never
is_retriable-IsTransient SyncError.conflict_without_envelope = never
is_retriable-IsTransient SyncError.unusable_version_token = never
is_retriable-IsTransient (SyncError.quota_exhausted o) = never
is_retriable-IsTransient (SyncError.state_store o) = never
is_retriable-IsTransient (SyncError.state_too_new n m) = never
is_retriable-IsTransient SyncError.bad_server_url = never
is_retriable-IsTransient (SyncError.bad_pin n m) = never

-- So many attempts are left, from this number on, and the last sync failed with this error.
pub data Attempts {V S R : Type 0}
    (sync : Engine V S → R → Option (Engine V S × R × SyncResult SyncReport)) (forget : R → R)
    (b : Backoff) (entropy : ℕ → CryptoResult ℕ)
    : ℕ
      → ℕ
      → SyncError
      → Engine V S
      → R
      → Engine V S × R × List ℕ × SyncResult SyncReport
      → Type 0 where
  given_up :
      (attempt : ℕ) (last : SyncError) (e : Engine V S) (r : R)
      → Attempts sync forget b entropy zero attempt last e r (e, r, [], err last)
  succeeded :
      (n attempt : ℕ) (last : SyncError) (e after : Engine V S) (r left : R) (report : SyncReport)
      → sync e r ≡ some (after, left, ok report)
      → Attempts sync forget b entropy (suc n) attempt last e r (after, left, [], ok report)
  stopped :
      (n attempt : ℕ) (last error : SyncError) (e after : Engine V S) (r left : R)
      → sync e r ≡ some (after, left, err error)
      → ¬ (IsTransient error)
      → Attempts sync forget b entropy (suc n) attempt last e r (after, left, [], err error)
  undrawn :
      (n attempt : ℕ) (last error : SyncError) (e after : Engine V S) (r left : R) (f : CryptoError)
      → sync e r ≡ some (after, left, err error)
      → IsTransient error
      → entropy attempt ≡ err f
      → Attempts sync forget b entropy
          (suc n)
          attempt
          last
          e
          r
          (after, forget left, [], err (crypto f))
  retried :
      (n attempt ms : ℕ) (last error : SyncError) (e after end : Engine V S) (r left final : R)
      (delays : List ℕ) (result : SyncResult SyncReport)
      → sync e r ≡ some (after, left, err error)
      → IsTransient error
      → InBand b.jitter (ceiling_ms b attempt) ms
      → Attempts sync forget b entropy n
          (suc attempt)
          error
          after
          (forget left)
          (end, final, delays, result)
      → Attempts sync forget b entropy (suc n) attempt last e r (end, final, ms ∷ delays, result)
