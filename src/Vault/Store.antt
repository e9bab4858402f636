-- ===== src/Vault/Store.antt =====
-- crates/misty-vault/src/store/mod.rs: a row, and what the vault needs from a storage backend.
pub mod Memory
pub mod Atomic
use misty.Prelude.{ℕ, ◌≡◌, Option, List, [], ◌∷◌, ok, err, nat_ord, list_ord}
use misty.Prelude.Map.{Map, get, put, remove}
use misty.Crypto.Envelope.Header.{EnvelopeKind}
use misty.Vault.Error.{Bytes, ItemId, VaultError, VaultResult}
use misty.Vault.Hlc.Order.{Hlc}

pub record StoredEnvelope : Type 0 where
  pub item_id : ItemId
  pub kind : EnvelopeKind
  pub seq : Option ℕ
  pub version : Option Bytes
  pub envelope : Bytes
  pub hlc_max : Hlc

abbrev pub Rows : Type 0
Rows = Map ItemId StoredEnvelope

abbrev pub Write : Type 0 → Type 0
Write S = S → S × VaultResult {0} Unit

-- `trait VaultStore`, over an unknown state.
pub record VaultStore (S : Type 0) : Type 0 where
  pub load_all : S → VaultResult (List StoredEnvelope)
  pub get_row : ItemId → S → VaultResult (Option StoredEnvelope)
  pub put_row : StoredEnvelope → Write S
  pub remove_row : ItemId → Write S
  pub epoch : S → VaultResult ℕ
  pub set_epoch : ℕ → Write S
  pub begin : Write S
  pub commit : Write S
  pub rollback : Write S

-- The three places where `transaction` returns.
abbrev pub keep_value {ℓ} :
    {R : Type ℓ} {S : Type 0} → R → S × VaultResult {0} Unit → S × VaultResult R
keep_value value (s, ok done) = (s, ok value)
keep_value value (s, err error) = (s, err error)

abbrev pub keep_error {ℓ} :
    {R : Type ℓ} {S : Type 0} → VaultError → S × VaultResult {0} Unit → S × VaultResult R
keep_error error (s, ok done) = (s, err error)
keep_error error (s, err other) = (s, err other)

module _ {ℓ} {R : Type ℓ} {S : Type 0} (store : VaultStore S) where
  abbrev pub end_transaction : S × VaultResult R → S × VaultResult R
  end_transaction (s, ok value) = keep_value value (store.commit s)
  end_transaction (s, err error) = keep_error error (store.rollback s)

  abbrev pub in_transaction : (S → S × VaultResult R) → S × VaultResult {0} Unit → S × VaultResult R
  in_transaction f (s, ok begun) = end_transaction (f s)
  in_transaction f (s, err error) = (s, err error)

  unfoldable pub transaction : (S → S × VaultResult R) → S → S × VaultResult R
  transaction f s = in_transaction f (store.begin s)

-- What the table holds.
pub record Contents : Type 0 where
  pub rows : Rows
  pub epoch : ℕ

-- What the trait's documentation asks of a backend: `view` is what it shows, and `saved` what it goes
-- back to, for each open transaction from the innermost on. A write that fails may leave any view,
-- and no call but `begin`, `commit` and `rollback` opens or ends a transaction; these do it only
-- where they succeed.
pub record IsTransactional {S : Type 0} (store : VaultStore S) (view : S → Contents)
    (saved : S → List Contents) : Type 0 where
  pub got :
      (id : ItemId) (s : S) (row : Option StoredEnvelope)
      → store.get_row id s ≡ ok row
      → get id (view s).rows ≡ row
  pub put_seen :
      (row : StoredEnvelope) (s : S)
      → (store.put_row row s).1 ≡ ok tt
      → view (store.put_row row s).0 ≡ record (view s) { rows = put row.item_id row (view s).rows }
  pub put_saved : (row : StoredEnvelope) (s : S) → saved (store.put_row row s).0 ≡ saved s
  pub removed_seen :
      (id : ItemId) (s : S)
      → (store.remove_row id s).1 ≡ ok tt
      → view (store.remove_row id s).0 ≡ record (view s) { rows = remove id (view s).rows }
  pub removed_saved : (id : ItemId) (s : S) → saved (store.remove_row id s).0 ≡ saved s
  pub epoch_seen :
      (n : ℕ) (s : S)
      → (store.set_epoch n s).1 ≡ ok tt
      → view (store.set_epoch n s).0 ≡ record (view s) { epoch = n }
  pub epoch_saved : (n : ℕ) (s : S) → saved (store.set_epoch n s).0 ≡ saved s
  pub begun :
      (s : S)
      → (store.begin s).1 ≡ ok tt
      → (view (store.begin s).0 ≡ view s) × (saved (store.begin s).0 ≡ view s ∷ saved s)
  pub not_begun :
      (s : S) (e : VaultError)
      → (store.begin s).1 ≡ err e
      → (view (store.begin s).0 ≡ view s) × (saved (store.begin s).0 ≡ saved s)
  pub committed :
      (s : S) (c : Contents) (cs : List Contents)
      → saved s ≡ c ∷ cs
      → (store.commit s).1 ≡ ok tt
      → (view (store.commit s).0 ≡ view s) × (saved (store.commit s).0 ≡ cs)
  pub not_committed :
      (s : S) (e : VaultError) → (store.commit s).1 ≡ err e → saved (store.commit s).0 ≡ saved s
  pub rolled_back :
      (s : S) (c : Contents) (cs : List Contents)
      → saved s ≡ c ∷ cs
      → (store.rollback s).1 ≡ ok tt
      → (view (store.rollback s).0 ≡ c) × (saved (store.rollback s).0 ≡ cs)
  pub not_rolled_back :
      (s : S) (e : VaultError) → (store.rollback s).1 ≡ err e → saved (store.rollback s).0 ≡ saved s

-- What is left when the process ends: what the outermost open transaction goes back to, or the
-- view where none is open.
abbrev pub outermost : Contents → List Contents → Contents
outermost c [] = c
outermost c (d ∷ ds) = outermost d ds
