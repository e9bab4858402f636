-- ===== src/Vault/Remote/Atomic.antt =====
-- A batch that `merge_remote` of crates/misty-vault/src/vault/sync.rs does not take.
use misty.Prelude.{ℕ, ◌≡◌, refl, ◌∙◌, List, [], ◌∷◌, ok, err, ok_not_err}
use misty.Crypto.Primitives.{Primitives}
use misty.Crypto.Envelope.Seal.{Draws}
use misty.Crypto.Derive.{Hkdf}
use misty.Vault.Error.{VaultError, VaultResult}
use misty.Vault.State.{Codec, Vault}
use misty.Vault.Store.{StoredEnvelope, VaultStore, Write, Contents, IsTransactional, transaction}
use misty.Vault.Store.Atomic.{durable, Ended, transaction-Ended}
use misty.Vault.Change.{RemoteChange, MergeReport}
use misty.Vault.Remote.{
  Prepared, put_next, put_all, prepare, after_commit, commit_plan, adopt, merge_remote,
}

module _ {S : Type 0} (store : VaultStore S) (codec : Codec) (hkdf : Hkdf) (p : Primitives)
    (draws : ℕ → Draws) where
  -- The keys stay, and a batch that fails leaves the items.
  abbrev pub Keyed : Vault S → Vault S × VaultResult MergeReport → Type 0
  Keyed v (after, ok report) = (after.roster ≡ v.roster) × (after.vault_key ≡ v.vault_key)
  Keyed v (after, err e) =
      (after.roster ≡ v.roster) × (after.vault_key ≡ v.vault_key) × (after.items ≡ v.items)

  after_commit-Keyed :
      (plan : Prepared) (v : Vault S) (r : S × VaultResult {0} Unit)
      → Keyed v (after_commit store codec hkdf p draws plan v r)
  unfolding adopt
  after_commit-Keyed plan v (s, ok done) = (refl, refl)
  after_commit-Keyed plan v (s, err error) = (refl, refl, refl)

  commit_plan-Keyed :
      (v : Vault S) (plan : VaultResult Prepared)
      → Keyed v (commit_plan store codec hkdf p draws v plan)
  commit_plan-Keyed v (err error) = (refl, refl, refl)
  commit_plan-Keyed v (ok plan) =
      after_commit-Keyed plan v (transaction store (put_all store plan.rows) v.store)

  pub merge_remote-Keyed :
      (changes : List RemoteChange) (v : Vault S)
      → Keyed v (merge_remote store codec hkdf p draws changes v)
  unfolding merge_remote
  merge_remote-Keyed changes v = commit_plan-Keyed v (prepare store codec hkdf p draws changes v)

module _ {S : Type 0} (store : VaultStore S) (view : S → Contents) (saved : S → List Contents)
    (lawful : IsTransactional store view saved) where
  put_next-saved :
      (rest : Write S) (before : List Contents)
      → ((s : S) → saved (rest s).0 ≡ saved s)
      → (r : S × VaultResult {0} Unit) → saved r.0 ≡ before
      → saved (put_next rest r).0 ≡ before
  put_next-saved rest before keeps (s, ok done) h = keeps s ∙ h
  put_next-saved rest before keeps (s, err e) h = h

  pub put_all-saved :
      (rows : List StoredEnvelope) (s : S) → saved (put_all store rows s).0 ≡ saved s
  unfolding put_all
  put_all-saved [] s = refl
  put_all-saved (row ∷ rows) s =
      put_next-saved (put_all store rows) (saved s) (put_all-saved rows) (store.put_row row s)
        (lawful.put_saved row s)

  module _ (codec : Codec) (hkdf : Hkdf) (p : Primitives) (draws : ℕ → Draws) where
    -- The vault is what it was but for its store, of which a crash leaves what it would have left.
    abbrev pub Untouched : Vault S → Vault S → Type 0
    Untouched v after =
        (s : S) × (after ≡ record v { store = s })
        × (durable view saved s ≡ durable view saved v.store)

    after_commit-Untouched :
        (plan : Prepared) (v : Vault S) (e : VaultError) (r : S × VaultResult {0} Unit)
        → Ended store view saved (put_all store plan.rows) v.store r
        → (after_commit store codec hkdf p draws plan v r).1 ≡ err e
        → Untouched v (after_commit store codec hkdf p draws plan v r).0
    after_commit-Untouched plan v e (s, ok done) ended h = absurd (ok_not_err h)
    after_commit-Untouched plan v e (s, err error) ended h = (s, refl, ended.0)

    commit_plan-Untouched :
        (v : Vault S) (e : VaultError) (plan : VaultResult Prepared)
        → (commit_plan store codec hkdf p draws v plan).1 ≡ err e
        → Untouched v (commit_plan store codec hkdf p draws v plan).0
    commit_plan-Untouched v e (err error) h = (v.store, refl, refl)
    commit_plan-Untouched v e (ok plan) h =
        after_commit-Untouched plan v e (transaction store (put_all store plan.rows) v.store)
          (transaction-Ended store view saved lawful (put_all store plan.rows) v.store
            (put_all-saved plan.rows))
          h

    -- Over a backend that keeps the transaction contract, a batch that fails, at whatever change,
    -- row or transaction call, leaves every part of the vault but its store as it was, and in the
    -- store what a crash at that point leaves is what it was before the batch.
    pub merge_remote-failed :
        (changes : List RemoteChange) (v : Vault S) (e : VaultError)
        → (merge_remote store codec hkdf p draws changes v).1 ≡ err e
        → Untouched v (merge_remote store codec hkdf p draws changes v).0
    unfolding merge_remote
    merge_remote-failed changes v e h =
        commit_plan-Untouched v e (prepare store codec hkdf p draws changes v) h
