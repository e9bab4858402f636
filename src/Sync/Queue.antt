-- ===== src/Sync/Queue.antt =====
-- crates/misty-sync/src/engine.rs: `pending`, the outbound queue that is derived from the vault's rows.
pub mod Elements
pub mod Confirmed
pub mod Exact
use misty.Prelude.{
  ℕ, String, Bool, true, false, not, ◌&&◌, ◌||◌, if◌then◌else◌, Option, some, none, List, [], ◌∷◌,
  ◌++◌, ok, err, ◌>>=◌, lt, eq, gt, compare, then_by, list_ord, nat_ord, option_ord, same_key,
  is_le, pair_ord,
}
use misty.Prelude.Map.{Map, get}
use misty.Crypto.Error.{Bytes, ItemId, CryptoResult}
use misty.Vault.Error.{VaultResult}
use misty.Vault.Store.{StoredEnvelope}
use misty.Sync.Error.{SyncResult, crypto, vault}
use misty.Sync.State.{KnownRow, SyncState, is_deletable}
use misty.Sync.Page.{VaultOps}

pub data PendingAction : Type 0 where
  put delete : PendingAction

pub record PendingWrite : Type 0 where
  pub item_id : ItemId
  pub action : PendingAction

-- `known.fingerprint == Some(fingerprint)`
unfoldable pub is_confirmed : Bytes → Option KnownRow → Bool
is_confirmed fingerprint none = false
is_confirmed fingerprint (some row) = same_key row.fingerprint (some fingerprint)

-- `?` on an error of misty-crypto, and a vault error with what was attempted.
abbrev pub from_crypto {ℓ} : {A : Type ℓ} → CryptoResult A → SyncResult A
from_crypto (ok x) = ok x
from_crypto (err e) = err (crypto e)

abbrev pub from_vault {ℓ} : {A : Type ℓ} → String → VaultResult A → SyncResult A
from_vault operation (ok x) = ok x
from_vault operation (err e) = err (vault operation e)

-- The derived order: by item, and a put before a delete.
abbrev pub rank : PendingAction → ℕ
rank put = 0
rank delete = 1

abbrev pub not_after : PendingWrite → PendingWrite → Bool
not_after a b = is_le {K = ItemId × ℕ} (a.item_id, rank a.action) (b.item_id, rank b.action)

unfoldable pub insert_write : PendingWrite → List PendingWrite → List PendingWrite
insert_write w [] = w ∷ []
insert_write w (x ∷ xs) =
    let rest = insert_write w xs in if not_after w x then w ∷ x ∷ xs else x ∷ rest

-- `out.sort_unstable()`
unfoldable pub sort_writes : List PendingWrite → List PendingWrite
sort_writes [] = []
sort_writes (w ∷ ws) = insert_write w (sort_writes ws)

unfoldable pub has_row : ItemId → List StoredEnvelope → Bool
has_row id [] = false
has_row id (row ∷ rows) = same_key row.item_id id || has_row id rows

-- A row that the server has and the vault no longer does.
unfoldable pub deletes : List StoredEnvelope → List (ItemId × KnownRow) → List PendingWrite
deletes rows [] = []
deletes rows ((id, known) ∷ rest) =
    let others = deletes rows rest in
    if is_deletable known && not (has_row id rows)
    then (record { item_id = id; action = delete }) ∷ others
    else others

module _ (fingerprint_of : Bytes → CryptoResult Bytes) where
  -- A row whose envelope is not the one that the server last confirmed.
  unfoldable pub puts : Map ItemId KnownRow → List StoredEnvelope → SyncResult (List PendingWrite)
  puts known [] = ok []
  puts known (row ∷ rows) = do
    fingerprint ← from_crypto (fingerprint_of row.envelope)
    rest ← puts known rows
    ok (
        if is_confirmed fingerprint (get row.item_id known)
        then rest
        else (record { item_id = row.item_id; action = put }) ∷ rest)

  module _ {V : Type 0} (vault_ops : VaultOps V) where
    unfoldable pub pending : SyncState → V → SyncResult (List PendingWrite)
    pending state v = do
      rows ← from_vault "read the vault" (vault_ops.load_all v)
      writes ← puts state.known rows
      ok (sort_writes (writes ++ deletes rows state.known))
