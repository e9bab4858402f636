-- ===== src/Sync/Push/Settles.antt =====
-- A push of crates/misty-sync/src/engine.rs that succeeds.
use misty.Prelude.{ℕ, ◌≡◌, ◌⊎◌, Option, some, none, ok, err, list_ord, nat_ord, option_ord}
use misty.Prelude.Map.{get}
use misty.Crypto.Error.{Bytes, ItemId, CryptoResult}
use misty.Crypto.Primitives.{Primitives}
use misty.Crypto.Identity.{Roster}
use misty.Crypto.Envelope.Header.{as_u8}
use misty.Vault.Store.{StoredEnvelope}
use misty.Sync.Error.{SyncResult}
use misty.Sync.State.{StateStore, version_of}
use misty.Sync.Page.{VaultOps, Engine}
use misty.Sync.Queue.Confirmed.{IsConfirmed}
use misty.Sync.Client.{applied, conflict, Remote, put_item}
use misty.Sync.Resolve.{resolve_conflict}
use misty.Sync.Push.{Round, finished, again}

module _ {V S R : Type 0} (vault_ops : VaultOps V) (store : StateStore S) (p : Primitives)
    (fingerprint_of : Bytes → CryptoResult Bytes) (roster : Roster) (remote : Remote R)
    (id : ItemId) where
  -- The vault has no row of the item, or one whose fingerprint is recorded of the server.
  abbrev pub IsSettled : Engine V S → Type 0
  IsSettled e =
      (vault_ops.stored id e.vault ≡ ok none)
      ⊎ ((row : StoredEnvelope) × (fingerprint : Bytes) × (vault_ops.stored id e.vault
            ≡ ok (some row))
          × (fingerprint_of row.envelope ≡ ok fingerprint)
          × IsConfirmed fingerprint (get id e.state.known))

  -- How an engine and a server come to that, from the ones before: nothing had to be sent; or the
  -- vault's row was sent with the version that was known, the server took it, and that is what is
  -- recorded; or the server answered with a conflict, and it went on after the conflict was resolved.
  pub data Settling : Engine V S → R → Engine V S → R → Type 0 where
    absent : (e : Engine V S) (r : R) → vault_ops.stored id e.vault ≡ ok none → Settling e r e r
    confirmed :
        (e : Engine V S) (r : R) (row : StoredEnvelope) (fingerprint : Bytes)
        → vault_ops.stored id e.vault ≡ ok (some row)
        → fingerprint_of row.envelope ≡ ok fingerprint
        → IsConfirmed fingerprint (get id e.state.known)
        → Settling e r e r
    sent :
        (e last : Engine V S) (r r1 : R) (row : StoredEnvelope) (fingerprint : Bytes) (seq : ℕ)
        (version : Bytes)
        → vault_ops.stored id e.vault ≡ ok (some row)
        → fingerprint_of row.envelope ≡ ok fingerprint
        → put_item remote id row.envelope (version_of e.state id) r ≡ (r1, ok (applied seq version))
        → last.vault ≡ e.vault
        → get id last.state.known
          ≡ some (record {
            kind = as_u8 row.kind;
            fingerprint = some fingerprint;
            version = some version;
            seq = some seq;
          })
        → Settling e r last r1
    conflicted :
        (e last : Engine V S) (r r1 r2 : R) (row : StoredEnvelope) (version envelope : Option Bytes)
        → vault_ops.stored id e.vault ≡ ok (some row)
        → put_item remote id row.envelope (version_of e.state id) r
          ≡ (r1, ok (conflict version envelope))
        → Settling
            (resolve_conflict vault_ops store p fingerprint_of roster id version envelope e).0
            r1
            last
            r2
        → Settling e r last r2

  abbrev pub Settled : Engine V S → R → Engine V S × R × SyncResult {0} Unit → Type 0
  Settled e0 r0 (e, r, ok done) = IsSettled e × Settling e0 r0 e r
  Settled e0 r0 (e, r, err error) = Unit

  abbrev RoundSettled : Engine V S → R → Engine V S × R × Round → Type 0
  RoundSettled e0 r0 (e, r, finished (ok done)) = IsSettled e × Settling e0 r0 e r
  RoundSettled e0 r0 (e, r, finished (err error)) = Unit
  RoundSettled e0 r0 (e, r, again) =
      (last : Engine V S) (r2 : R) → Settling e r last r2 → Settling e0 r0 last r2
