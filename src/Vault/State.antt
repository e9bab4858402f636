-- ===== src/Vault/State.antt =====
-- crates/misty-vault/src/vault/mod.rs and write.rs: what an unlocked vault holds, and the rows that it writes.
-- The codec of payloads, CBOR by the crate `ciborium`, is a parameter.
use misty.Prelude.{
  ℕ, ◌+◌, ltb, if◌then◌else◌, Option, none, some, List, [], ◌∷◌, ◌++◌, ok, err, ◌>>=◌, nat_ord,
  list_ord,
}
use misty.Prelude.Map.{Map, put}
use misty.Crypto.Error.{Bytes, CryptoResult}
use misty.Crypto.Primitives.{Primitives}
use misty.Crypto.Identity.{DeviceIdentity, Roster}
use misty.Crypto.Envelope.Header.{EnvelopeKind}
use misty.Crypto.Envelope.Seal.{Draws, seal}
use misty.Crypto.Derive.{Hkdf, hkdf_sha512, epoch_key}
use misty.Vault.Error.{VaultResult, crypto, epoch_exhausted}
use misty.Vault.Hlc.Clock.{HlcClock}
use misty.Vault.Conflict.{Conflict}
use misty.Vault.Item.{Item, GroupId}
use misty.Vault.Item.Clocks.{max_hlc}
use misty.Vault.ItemSet.{ForkIds, ItemSet, replace}
use misty.Vault.Group.{Group, group_max_hlc}
use misty.Vault.Store.{StoredEnvelope, VaultStore, transaction}

pub record Codec : Type 0 where
  pub encode_item : Item → VaultResult Bytes
  pub decode_item : Bytes → VaultResult Item
  pub encode_group : Group → VaultResult Bytes
  pub decode_group : Bytes → VaultResult Group

pub record Vault (S : Type 0) : Type 0 where
  pub store : S
  pub vault_key : Bytes
  pub device : DeviceIdentity
  pub roster : Roster
  pub epoch : ℕ
  pub hlc : HlcClock
  pub items : ItemSet
  pub groups : Map GroupId Group
  pub conflicts : List Conflict

-- `?` on an error of misty-crypto.
abbrev pub from_crypto {ℓ} : {A : Type ℓ} → CryptoResult A → VaultResult A
from_crypto (ok x) = ok x
from_crypto (err e) = err (crypto e)

-- `b"misty/vault/fork-id/v1"`
abbrev pub fork_id_salt : Bytes
fork_id_salt =
    109 ∷ 105 ∷ 115 ∷ 116 ∷ 121 ∷ 47 ∷ 118 ∷ 97 ∷ 117 ∷ 108 ∷ 116 ∷ 47 ∷ 102 ∷ 111 ∷ 114 ∷ 107 ∷ 45
    ∷ 105 ∷ 100 ∷ 47 ∷ 118 ∷ 49 ∷ []

-- `<VaultForkIds as ForkIds>::fork_id` of crates/misty-vault/src/merge.rs
unfoldable pub vault_fork_ids : Hkdf → Bytes → ForkIds
vault_fork_ids hkdf vault_key original secret =
    from_crypto (hkdf_sha512 hkdf vault_key fork_id_salt (original ++ secret) 16)

abbrev pub row_seq : Option StoredEnvelope → Option ℕ
row_seq (some row) = row.seq
row_seq none = none

abbrev pub row_version : Option StoredEnvelope → Option Bytes
row_version (some row) = row.version
row_version none = none

module _ {S : Type 0} (store : VaultStore S) (codec : Codec) (hkdf : Hkdf) (p : Primitives) where
  -- `seal_item` and `seal_group`. The draws are what the generator gives to the call.
  unfoldable pub seal_item : Draws → Vault S → Item → ℕ → VaultResult Bytes
  seal_item draws v item epoch = do
    payload ← codec.encode_item item
    key ← from_crypto (epoch_key hkdf v.vault_key epoch)
    from_crypto (seal p EnvelopeKind.item epoch item.id payload key v.device draws)

  unfoldable pub seal_group : Draws → Vault S → Group → ℕ → VaultResult Bytes
  seal_group draws v group epoch = do
    payload ← codec.encode_group group
    key ← from_crypto (epoch_key hkdf v.vault_key epoch)
    from_crypto (seal p EnvelopeKind.group epoch group.id payload key v.device draws)

  -- `item_record` and `group_record`: the server's sequence number and token are carried over.
  unfoldable pub item_record : Draws → Vault S → Item → VaultResult StoredEnvelope
  item_record draws v item = do
    previous ← store.get_row item.id v.store
    envelope ← seal_item draws v item v.epoch
    ok (record {
      item_id = item.id;
      kind = EnvelopeKind.item;
      seq = row_seq previous;
      version = row_version previous;
      envelope = envelope;
      hlc_max = max_hlc item;
    })

  unfoldable pub group_record : Draws → Vault S → Group → VaultResult StoredEnvelope
  group_record draws v group = do
    previous ← store.get_row group.id v.store
    envelope ← seal_group draws v group v.epoch
    ok (record {
      item_id = group.id;
      kind = EnvelopeKind.group;
      seq = row_seq previous;
      version = row_version previous;
      envelope = envelope;
      hlc_max = group_max_hlc group;
    })

  -- `commit_item` and `commit_group`: the row first, then the model.
  abbrev pub adopt_item : Item → Vault S → S × VaultResult {0} Unit → Vault S × VaultResult {0} Unit
  adopt_item item v (s, err error) = (record v { store = s }, err error)
  adopt_item item v (s, ok done) = (record v { store = s; items = replace item v.items }, ok tt)

  abbrev pub commit_row :
      Item → Vault S → VaultResult StoredEnvelope → Vault S × VaultResult {0} Unit
  commit_row item v (err error) = (v, err error)
  commit_row item v (ok row) = adopt_item item v (transaction store (store.put_row row) v.store)

  unfoldable pub commit_item : Draws → Item → Vault S → Vault S × VaultResult {0} Unit
  commit_item draws item v = commit_row item v (item_record draws v item)

  abbrev pub adopt_group :
      Group → Vault S → S × VaultResult {0} Unit → Vault S × VaultResult {0} Unit
  adopt_group group v (s, err error) = (record v { store = s }, err error)
  adopt_group group v (s, ok done) =
      (record v { store = s; groups = put group.id group v.groups }, ok tt)

  abbrev pub commit_group_row :
      Group → Vault S → VaultResult StoredEnvelope → Vault S × VaultResult {0} Unit
  commit_group_row group v (err error) = (v, err error)
  commit_group_row group v (ok row) =
      adopt_group group v (transaction store (store.put_row row) v.store)

  unfoldable pub commit_group : Draws → Group → Vault S → Vault S × VaultResult {0} Unit
  commit_group draws group v = commit_group_row group v (group_record draws v group)

  -- `rotate_epoch` of vault/sync.rs: `checked_add` on `u32`, the store, then the model.
  abbrev pub adopt_epoch : ℕ → Vault S → S × VaultResult {0} Unit → Vault S × VaultResult ℕ
  adopt_epoch next v (s, err error) = (record v { store = s }, err error)
  adopt_epoch next v (s, ok done) = (record v { store = s; epoch = next }, ok next)

  unfoldable pub rotate_epoch : Vault S → Vault S × VaultResult ℕ
  rotate_epoch v =
      if ltb v.epoch 4294967295
      then adopt_epoch (v.epoch + 1) v (transaction store (store.set_epoch (v.epoch + 1)) v.store)
      else (v, err epoch_exhausted)
