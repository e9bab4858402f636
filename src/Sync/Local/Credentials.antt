-- ===== src/Sync/Local/Credentials.antt =====
-- The credentials of a vault of crates/misty-vault across a sync of crates/misty-sync/src/engine.rs.
use misty.Prelude.{
  ℕ, ◌≡◌, ◌⊎◌, inl, inr, refl, sym, subst, ◌∙◌, some, List, [], ◌∷◌, ok, err, Result-cases,
  ok_not_err,
}
use misty.Crypto.Error.{Bytes, CryptoResult}
use misty.Crypto.Primitives.{Primitives}
use misty.Crypto.Identity.{Roster}
use misty.Crypto.Envelope.Seal.{Draws}
use misty.Crypto.Derive.{Hkdf}
use misty.Vault.Conflict.{Secret}
use misty.Vault.ItemSet.Held.{Holds, IsValid}
use misty.Vault.State.{Codec, Vault}
use misty.Vault.Store.{VaultStore}
use misty.Vault.Error.{VaultError, VaultResult}
use misty.Vault.Change.{RemoteChange, MergeReport, Decoded}
use misty.Vault.Change.Cache.{read_change}
use misty.Vault.Remote.{merge_remote}
use misty.Vault.Remote.Atomic.{Keyed, merge_remote-Keyed}
use misty.Vault.Remote.Keeps.{Carries, merge_remote-Holds}
use misty.Vault.Remote.Authentic.{IsSignedBy, SomeSigned, merge_remote-authentic}
use misty.Sync.State.{StateStore}
use misty.Sync.Page.{Engine}
use misty.Sync.Client.{Remote}
use misty.Sync.Once.{sync_once}
use misty.Sync.Once.Guarded.{Returns, sync_once-Returns}
use misty.Sync.Local.{Local, local_ops}

module _ {S : Type 0} (store : VaultStore S) (codec : Codec) (hkdf : Hkdf) (p : Primitives)
    (draws : ℕ → ℕ → Draws) (start : Vault S) where
  -- Some change carries this secret under the vault's keys, and a device of its roster signed it.
  abbrev pub IsSent : Bytes → Roster → Secret → Type 0
  IsSent vault_key roster s =
      (c : RemoteChange) × (d : Decoded) × (read_change codec hkdf p vault_key roster c
        ≡ ok (some d))
      × Carries s d
      × IsSignedBy p roster c

  -- What a vault is since the start: its keys are the same, no credential is lost, and every new one
  -- was sent by a device of the roster.
  pub record IsSafe (local : Local S) : Type 0 where
    pub valid : IsValid local.0.items
    pub same_roster : local.0.roster ≡ start.roster
    pub same_key : local.0.vault_key ≡ start.vault_key
    pub kept : (s : Secret) → Holds s start.items → Holds s local.0.items
    pub sent :
        (s : Secret)
        → Holds s local.0.items
        → Holds s start.items ⊎ IsSent start.vault_key start.roster s

  SomeSigned-IsSent :
      (n : ℕ) (v : Vault S) (s : Secret) (cs : List RemoteChange)
      → SomeSigned store codec hkdf p (draws n) v s cs
      → IsSent v.vault_key v.roster s
  SomeSigned-IsSent n v s [] h = absurd h
  SomeSigned-IsSent n v s (c ∷ cs) (inl ((d, read, carries), signed)) =
      (c, d, read, carries, signed)
  SomeSigned-IsSent n v s (c ∷ cs) (inr h) = SomeSigned-IsSent n v s cs h

  Keyed-keys :
      (n : ℕ) (v : Vault S) (r : Vault S × VaultResult MergeReport)
      → Keyed store codec hkdf p (draws n) v r
      → (r.0.roster ≡ v.roster) × (r.0.vault_key ≡ v.vault_key)
  Keyed-keys n v (after, ok report) h = h
  Keyed-keys n v (after, err e) h = (h.0, h.1)

  Keyed-failed :
      (n : ℕ) (v : Vault S) (r : Vault S × VaultResult MergeReport) (e : VaultError)
      → Keyed store codec hkdf p (draws n) v r
      → r.1 ≡ err e
      → r.0.items ≡ v.items
  Keyed-failed n v (after, ok report) e h failed = absurd (ok_not_err failed)
  Keyed-failed n v (after, err other) e h failed = h.2

  merge-IsSafe :
      (changes : List RemoteChange) (local : Local S)
      → IsSafe local
      → IsSafe ((local_ops store codec hkdf p draws).merge_remote changes local).0
  merge-IsSafe changes (v, n) safe =
      let r = merge_remote store codec hkdf p (draws n) changes v in
      let keyed = merge_remote-Keyed store codec hkdf p (draws n) changes v in
      let (roster, key) = Keyed-keys n v r keyed in
      elim (Result-cases r.1) [
        | inr (e, failed) ↦
            let same = Keyed-failed n v r e keyed failed in
            record {
              valid = subst IsValid (sym same) safe.valid;
              same_roster = roster ∙ safe.same_roster;
              same_key = key ∙ safe.same_key;
              kept = λ s h. subst (Holds s) (sym same) (safe.kept s h);
              sent = λ s h. safe.sent s (subst (Holds s) same h);
            }
        | inl (report, taken) ↦
            let (valid, each) =
              merge_remote-Holds store codec hkdf p (draws n) v changes report safe.valid taken in
            record {
              valid = valid;
              same_roster = roster ∙ safe.same_roster;
              same_key = key ∙ safe.same_key;
              kept = λ s h. (each s).1 (inl (safe.kept s h));
              sent = λ s h.
                  elim (merge_remote-authentic store codec hkdf p (draws n) v changes report
                    safe.valid taken s h) [
                      | inl before ↦ safe.sent s before
                      | inr signed ↦ inr (
                          subst (λ k. IsSent k start.roster s) safe.same_key
                            (subst (λ o. IsSent v.vault_key o s) safe.same_roster
                              (SomeSigned-IsSent n v s changes signed)))
                    ];
            }
      ]

  -- Whatever the server does, a sync of a vault, from a valid set of items, returns and leaves the
  -- vault safe: its items are valid and its keys the same, every credential that it held it still
  -- holds, and every one that it did not hold was sent by a change that a device of the vault's own
  -- roster signed.
  pub sync_once-IsSafe :
      {T R : Type 0} (states : StateStore T) (fingerprint_of : Bytes → CryptoResult Bytes)
      (roster : Roster) (remote : Remote R) (page_limit n : ℕ) (e : Engine (Local S) T) (r : R)
      → e.vault ≡ (start, n)
      → IsValid start.items
      → Returns IsSafe (
          sync_once
            (local_ops store codec hkdf p draws)
            states
            p
            fingerprint_of
            roster
            remote
            page_limit
            e
            r)
  sync_once-IsSafe states fingerprint_of roster remote page_limit n e r begins valid =
      let safe : IsSafe (start, n) = record {
        valid = valid;
        same_roster = refl;
        same_key = refl;
        kept = λ s h. h;
        sent = λ s h. inl h;
      } in
      sync_once-Returns (local_ops store codec hkdf p draws) states p fingerprint_of roster remote
        IsSafe (λ cs local vouched safe. merge-IsSafe cs local safe) page_limit e r
        (subst IsSafe (sym begins) safe)
