-- ===== src/Vault/Remote/Authentic.antt =====
-- Who signed what `merge_remote` of crates/misty-vault/src/vault/sync.rs takes into the vault.
use misty.Prelude.{
  ℕ, ◌≡◌, ◌⊎◌, inl, inr, sym, ap, true, Bool-cases, Option, some, none, List, [], ◌∷◌, ok, err,
  bind_ok, ok-injective, ok_not_err, nat_ord, list_ord,
}
use misty.Crypto.Error.{Bytes, CryptoResult}
use misty.Crypto.Primitives.{Primitives}
use misty.Crypto.Identity.{DeviceRecord, Roster, contains}
use misty.Crypto.Envelope.Seal.{Envelope, Draws, parse, signed_message, open_envelope}
use misty.Crypto.Envelope.Seal.Authentic.{open_envelope-authentic}
use misty.Crypto.Derive.{Hkdf, epoch_key}
use misty.Vault.Error.{VaultResult}
use misty.Vault.Conflict.{Secret}
use misty.Vault.ItemSet.Held.{Holds, IsValid}
use misty.Vault.State.{Codec, Vault, from_crypto}
use misty.Vault.Store.{VaultStore}
use misty.Vault.Change.{RemoteChange, MergeReport, Decoded, is_mergeable}
use misty.Vault.Change.Cache.{read_change}
use misty.Vault.Remote.{merge_remote}
use misty.Vault.Remote.Keeps.{Sends, Brings, merge_remote-Holds}

from_crypto-inverse : {A : Type 0} (r : CryptoResult A) (x : A) → from_crypto r ≡ ok x → r ≡ ok x
from_crypto-inverse (ok y) x h = ap ok (ok-injective h)
from_crypto-inverse (err e) x h = absurd (ok_not_err (sym h))

-- The change was signed, under the id that it names, by a device of the roster.
abbrev pub IsSignedBy : Primitives → Roster → RemoteChange → Type 0
IsSignedBy p roster c =
    (e : Envelope) × (r : DeviceRecord) × (signature : Bytes) × (parse c.envelope ≡ ok e)
    × (contains roster e.header.signer ≡ some r)
    × (p.verify_strict r.ed25519_pub (signed_message e c.item_id) signature ≡ true)

module _ {S : Type 0} (store : VaultStore S) (codec : Codec) (hkdf : Hkdf) (p : Primitives)
    (draws : ℕ → Draws) (v : Vault S) where
  read_change-IsSigned :
      (c : RemoteChange) (d : Decoded)
      → read_change codec hkdf p v.vault_key v.roster c ≡ ok (some d)
      → IsSignedBy p v.roster c
  unfolding read_change
  read_change-IsSigned c d h =
      let (parsed, whole, h1) = bind_ok (from_crypto (parse c.envelope)) _ (some d) h in
      elim (Bool-cases (is_mergeable parsed.header.kind)) [
        | inr other ↦ absurd (ignored (rw other at h1))
        | inl wanted ↦
            let h2 = rw wanted at h1 in
            let (key, derived, h3) =
              bind_ok (from_crypto (epoch_key hkdf v.vault_key parsed.header.epoch)) _ (some d)
                h2 in
            let (payload, opened, h4) =
              bind_ok (from_crypto (open_envelope p c.envelope c.item_id key v.roster)) _ (some d)
                h3 in
            let (e, r, signature, one, found, read, good, epoch, holds) =
              open_envelope-authentic p c.envelope c.item_id key v.roster payload
                (from_crypto-inverse _ payload opened) in
            (e, r, signature, one, found, good)
      ]
    where
      ignored : ◌≡◌ {A = VaultResult (Option Decoded)} (ok none) (ok (some d)) → ⊥
      ignored k = cc

  -- Some change of the batch carries this secret and was signed by a device of the roster.
  abbrev pub SomeSigned : Secret → List RemoteChange → Type 0
  SomeSigned s [] = ⊥
  SomeSigned s (c ∷ cs) =
      (Sends store codec hkdf p draws v s c × IsSignedBy p v.roster c) ⊎ SomeSigned s cs

  Brings-SomeSigned :
      (s : Secret) (cs : List RemoteChange)
      → Brings store codec hkdf p draws v s cs
      → SomeSigned s cs
  Brings-SomeSigned s [] b = absurd b
  Brings-SomeSigned s (c ∷ cs) (inl (d, read, carries)) =
      inl ((d, read, carries), read_change-IsSigned c d read)
  Brings-SomeSigned s (c ∷ cs) (inr b) = inr (Brings-SomeSigned s cs b)

  -- A batch that is taken cannot plant a credential: every secret that is held after it was held
  -- before it, or is that of an item in the batch whose envelope a device of the vault's roster
  -- signed for the id under which it came.
  pub merge_remote-authentic :
      (changes : List RemoteChange) (report : MergeReport)
      → IsValid v.items
      → (merge_remote store codec hkdf p draws changes v).1 ≡ ok report
      → (s : Secret) → Holds s (merge_remote store codec hkdf p draws changes v).0.items
      → Holds s v.items ⊎ SomeSigned s changes
  merge_remote-authentic changes report valid h s held =
      elim (((merge_remote-Holds store codec hkdf p draws v changes report valid h).1 s).0 held) [
        | inl before ↦ inl before
        | inr sent ↦ inr (Brings-SomeSigned s changes sent)
      ]
