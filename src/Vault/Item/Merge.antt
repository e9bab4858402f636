-- ===== src/Vault/Item/Merge.antt =====
-- crates/misty-vault/src/model/item.rs: `Item::merge`.
use misty.Prelude.{
  not, if◌then◌else◌, List, [], ◌∷◌, ◌++◌, ok, err, ◌>>=◌, nat_ord, list_ord, pair_ord, option_ord,
  same_key, int_ord,
}
use misty.Vault.Error.{VaultResult, id_mismatch, secret_is_immutable}
use misty.Vault.Hlc.Order.{hlc_ord}
use misty.Vault.Crdt.Lww
use misty.Vault.Crdt.Scalar.{merge_max, merge_min}
use misty.Vault.Crdt.Usage
use misty.Vault.Crdt.OrSet
use misty.Vault.Tombstone.{merge_tombstone}
use misty.Vault.Conflict.{Conflict, divergent_pin}
use misty.Vault.Item.{
  Item, kind_eq, algorithm_eq, icon_eq, bool_eq, number_eq, text_eq, text_option_eq,
  number_option_eq, int_option_eq,
}

-- The fields, in the order of the source. The first register whose two sides disagree under one
-- clock stops the merge; only registers can fail.
unfoldable pub merge_fields : Item → Item → VaultResult Item
merge_fields self remote = do
  kind ← Lww.merge self.kind remote.kind "otp.kind"
  algorithm ← Lww.merge self.algorithm remote.algorithm "otp.algorithm"
  digits ← Lww.merge self.digits remote.digits "otp.digits"
  period ← Lww.merge self.period remote.period "otp.period"
  pin ← Lww.merge self.pin remote.pin "otp.pin"
  issuer ← Lww.merge self.issuer remote.issuer "issuer"
  account ← Lww.merge self.account remote.account "account"
  nickname ← Lww.merge self.nickname remote.nickname "nickname"
  note ← Lww.merge self.note remote.note "note"
  icon ← Lww.merge self.icon remote.icon "icon"
  color ← Lww.merge self.color remote.color "color"
  favorite ← Lww.merge self.favorite remote.favorite "favorite"
  manual_order ← Lww.merge self.manual_order remote.manual_order "manual_order"
  archived ← Lww.merge self.archived remote.archived "archived"
  hidden ← Lww.merge self.hidden remote.hidden "hidden"
  requires_reveal_auth ←
      Lww.merge self.requires_reveal_auth remote.requires_reveal_auth "requires_reveal_auth"
  trashed_at ← Lww.merge self.trashed_at remote.trashed_at "trashed_at"
  ok (record {
    id = self.id;
    secret = self.secret;
    kind = kind;
    algorithm = algorithm;
    digits = digits;
    period = period;
    pin = pin;
    issuer = issuer;
    account = account;
    nickname = nickname;
    note = note;
    icon = icon;
    color = color;
    favorite = favorite;
    manual_order = manual_order;
    archived = archived;
    hidden = hidden;
    requires_reveal_auth = requires_reveal_auth;
    trashed_at = trashed_at;
    hotp_counter = merge_max self.hotp_counter remote.hotp_counter;
    last_used_at = merge_max self.last_used_at remote.last_used_at;
    created_at = merge_min self.created_at remote.created_at;
    usage = Usage.merge self.usage remote.usage;
    groups = OrSet.merge self.groups remote.groups;
    tags = OrSet.merge self.tags remote.tags;
    origins = OrSet.merge self.origins remote.origins;
    deleted = merge_tombstone self.deleted remote.deleted;
  })

-- `Item::merge`: the conflicts, appended to, and the merged item. A merge that fails leaves `self`
-- half merged in the source, and every caller drops it: the model returns no item.
unfoldable pub merge : Item → Item → List Conflict → List Conflict × VaultResult Item
merge self remote conflicts =
    if not (same_key self.id remote.id)
    then (conflicts, err (id_mismatch self.id remote.id))
    else if not (same_key self.secret remote.secret)
    then (conflicts, err (secret_is_immutable self.id))
    else if same_key self.pin.value remote.pin.value
    then (conflicts, merge_fields self remote)
    else (conflicts ++ divergent_pin self.id ∷ [], merge_fields self remote)
