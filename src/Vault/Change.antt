-- ===== src/Vault/Change.antt =====
-- The first phase of `merge_remote` of crates/misty-vault/src/vault/sync.rs: the changes of a batch are
-- verified, decrypted and decoded, each envelope with the key of its epoch.
pub mod Cache
use misty.Prelude.{
  ℕ, ◌+◌, Bool, true, false, not, if◌then◌else◌, Option, none, some, List, [], ◌∷◌, ok, err, ◌>>=◌,
  nat_ord, list_ord, same_key,
}
use misty.Prelude.Map.{Map, get, put}
use misty.Crypto.Error.{Bytes}
use misty.Crypto.Primitives.{Primitives}
use misty.Crypto.Identity.{Roster}
use misty.Crypto.Envelope.Header.{EnvelopeKind}
use misty.Crypto.Envelope.Seal.{EpochKey, parse, open_envelope}
use misty.Crypto.Derive.{Hkdf, epoch_key}
use misty.Vault.Error.{ItemId, VaultResult, id_mismatch}
use misty.Vault.Conflict.{Conflict}
use misty.Vault.Item.{Item}
use misty.Vault.Group.{Group}
use misty.Vault.State.{Codec, from_crypto}

pub record RemoteChange : Type 0 where
  pub item_id : ItemId
  pub seq : Option ℕ
  pub version : Option Bytes
  pub envelope : Bytes

pub record MergeReport : Type 0 where
  pub applied : ℕ
  pub ignored : ℕ
  pub items_written : List ItemId
  pub groups_written : List Bytes
  pub conflicts : List Conflict

-- `enum Decoded`
pub data Decoded : Type 0 where
  as_item : Item → Decoded
  as_group : Group → Decoded

abbrev pub is_mergeable : EnvelopeKind → Bool
is_mergeable EnvelopeKind.item = true
is_mergeable EnvelopeKind.group = true
is_mergeable _ = false

abbrev pub Keys : Type 0
Keys = Map ℕ EpochKey

-- A change that was read, or one that is ignored, with the ones after it.
abbrev pub note :
    RemoteChange
    → Option Decoded
    → List (RemoteChange × Decoded) × ℕ
    → List (RemoteChange × Decoded) × ℕ
note change none (decoded, ignored) = (decoded, ignored + 1)
note change (some d) (decoded, ignored) = ((change, d) ∷ decoded, ignored)

module _ (hkdf : Hkdf) where
  -- The key of an epoch, kept for the changes that follow.
  abbrev pub key_for_slot : Bytes → ℕ → Keys → Option EpochKey → VaultResult (EpochKey × Keys)
  key_for_slot vault_key epoch keys (some key) = ok (key, keys)
  key_for_slot vault_key epoch keys none = do
    key ← from_crypto (epoch_key hkdf vault_key epoch)
    ok (key, put epoch key keys)

  unfoldable pub key_for : Bytes → ℕ → Keys → VaultResult (EpochKey × Keys)
  key_for vault_key epoch keys = key_for_slot vault_key epoch keys (get epoch keys)

module _ (codec : Codec) where
  unfoldable pub decode_payload : EnvelopeKind → ItemId → Bytes → VaultResult Decoded
  decode_payload EnvelopeKind.item id payload = do
    item ← codec.decode_item payload
    if same_key item.id id then ok (as_item item) else err (id_mismatch id item.id)
  decode_payload _ id payload = do
    group ← codec.decode_group payload
    if same_key group.id id then ok (as_group group) else err (id_mismatch id group.id)

module _ (codec : Codec) (hkdf : Hkdf) (p : Primitives) where
  -- One round of the first phase.
  unfoldable pub decode_change :
      Bytes → Roster → RemoteChange → Keys → VaultResult (Option Decoded × Keys)
  decode_change vault_key roster change keys = do
    parsed ← from_crypto (parse change.envelope)
    if not (is_mergeable parsed.header.kind) then ok (none, keys) else do
      (key, keys) ← key_for hkdf vault_key parsed.header.epoch keys
      payload ← from_crypto (open_envelope p change.envelope change.item_id key roster)
      decoded ← decode_payload codec parsed.header.kind change.item_id payload
      ok (some decoded, keys)

  -- The first phase: the changes that hold items and groups, and how many hold something else.
  unfoldable pub decode_changes :
      Bytes → Roster → List RemoteChange → Keys → VaultResult (List (RemoteChange × Decoded) × ℕ)
  decode_changes vault_key roster [] keys = ok ([], 0)
  decode_changes vault_key roster (c ∷ cs) keys = do
    (decoded, keys) ← decode_change vault_key roster c keys
    rest ← decode_changes vault_key roster cs keys
    ok (note c decoded rest)
