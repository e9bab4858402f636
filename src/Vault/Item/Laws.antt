-- ===== src/Vault/Item/Laws.antt =====
-- Two versions of one item, and their join field by field.
use misty.Prelude.{◌≡◌, refl, ok, nat_ord, list_ord, pair_ord, option_ord, int_ord}
use misty.Vault.Hlc.Order.{hlc_ord}
use misty.Vault.Crdt.Lww
use misty.Vault.Crdt.Scalar.{
  merge_max, merge_min, merge_max_comm, merge_min_comm, merge_max_idem, merge_min_idem,
}
use misty.Vault.Crdt.Usage
use misty.Vault.Crdt.OrSet
use misty.Vault.Tombstone
use misty.Vault.Tombstone.{
  merge_tombstone, merge_tombstone_comm, merge_tombstone_assoc, merge_tombstone_idem,
}
use misty.Vault.Item.{
  Item, kind_eq, algorithm_eq, icon_eq, bool_eq, number_eq, text_eq, text_option_eq,
  number_option_eq, int_option_eq,
}
use misty.Vault.Item.Merge.{merge_fields}

-- The maps of an item stand in key order, as the program builds them.
pub record IsOrdered (a : Item) : Type 0 where
  pub groups : OrSet.Laws.IsOrdered a.groups
  pub tags : OrSet.Laws.IsOrdered a.tags
  pub origins : OrSet.Laws.IsOrdered a.origins
  pub usage : Usage.IsOrdered a.usage

-- Two versions of one item in which one clock names one write.
pub record Agree (a b : Item) : Type 0 where
  pub id : a.id ≡ b.id
  pub secret : a.secret ≡ b.secret
  pub kind : Lww.Agree a.kind b.kind
  pub algorithm : Lww.Agree a.algorithm b.algorithm
  pub digits : Lww.Agree a.digits b.digits
  pub period : Lww.Agree a.period b.period
  pub pin : Lww.Agree a.pin b.pin
  pub issuer : Lww.Agree a.issuer b.issuer
  pub account : Lww.Agree a.account b.account
  pub nickname : Lww.Agree a.nickname b.nickname
  pub note : Lww.Agree a.note b.note
  pub icon : Lww.Agree a.icon b.icon
  pub color : Lww.Agree a.color b.color
  pub favorite : Lww.Agree a.favorite b.favorite
  pub manual_order : Lww.Agree a.manual_order b.manual_order
  pub archived : Lww.Agree a.archived b.archived
  pub hidden : Lww.Agree a.hidden b.hidden
  pub requires_reveal_auth : Lww.Agree a.requires_reveal_auth b.requires_reveal_auth
  pub trashed_at : Lww.Agree a.trashed_at b.trashed_at
  pub deleted : Tombstone.Agree a.deleted b.deleted

-- The join of two versions, field by field.
unfoldable pub join_items : Item → Item → Item
join_items a b = record {
  id = a.id;
  secret = a.secret;
  kind = Lww.later a.kind b.kind;
  algorithm = Lww.later a.algorithm b.algorithm;
  digits = Lww.later a.digits b.digits;
  period = Lww.later a.period b.period;
  pin = Lww.later a.pin b.pin;
  issuer = Lww.later a.issuer b.issuer;
  account = Lww.later a.account b.account;
  nickname = Lww.later a.nickname b.nickname;
  note = Lww.later a.note b.note;
  icon = Lww.later a.icon b.icon;
  color = Lww.later a.color b.color;
  favorite = Lww.later a.favorite b.favorite;
  manual_order = Lww.later a.manual_order b.manual_order;
  archived = Lww.later a.archived b.archived;
  hidden = Lww.later a.hidden b.hidden;
  requires_reveal_auth = Lww.later a.requires_reveal_auth b.requires_reveal_auth;
  trashed_at = Lww.later a.trashed_at b.trashed_at;
  hotp_counter = merge_max a.hotp_counter b.hotp_counter;
  last_used_at = merge_max a.last_used_at b.last_used_at;
  created_at = merge_min a.created_at b.created_at;
  usage = Usage.merge a.usage b.usage;
  groups = OrSet.merge a.groups b.groups;
  tags = OrSet.merge a.tags b.tags;
  origins = OrSet.merge a.origins b.origins;
  deleted = merge_tombstone a.deleted b.deleted;
}

pub merge_fields-join : (a b : Item) → Agree a b → merge_fields a b ≡ ok (join_items a b)
unfolding merge_fields join_items
merge_fields-join a b h =
    rw
      (
        Lww.merge-later a.kind b.kind "otp.kind" h.kind,
        Lww.merge-later a.algorithm b.algorithm "otp.algorithm" h.algorithm,
        Lww.merge-later a.digits b.digits "otp.digits" h.digits,
        Lww.merge-later a.period b.period "otp.period" h.period,
        Lww.merge-later a.pin b.pin "otp.pin" h.pin,
        Lww.merge-later a.issuer b.issuer "issuer" h.issuer,
        Lww.merge-later a.account b.account "account" h.account,
        Lww.merge-later a.nickname b.nickname "nickname" h.nickname,
        Lww.merge-later a.note b.note "note" h.note,
        Lww.merge-later a.icon b.icon "icon" h.icon,
        Lww.merge-later a.color b.color "color" h.color,
        Lww.merge-later a.favorite b.favorite "favorite" h.favorite,
        Lww.merge-later a.manual_order b.manual_order "manual_order" h.manual_order,
        Lww.merge-later a.archived b.archived "archived" h.archived,
        Lww.merge-later a.hidden b.hidden "hidden" h.hidden,
        Lww.merge-later a.requires_reveal_auth b.requires_reveal_auth "requires_reveal_auth"
            h.requires_reveal_auth,
        Lww.merge-later a.trashed_at b.trashed_at "trashed_at" h.trashed_at,
      )
      refl

pub merge_fields_comm :
    (a b : Item)
    → IsOrdered a
    → IsOrdered b
    → a.id ≡ b.id
    → a.secret ≡ b.secret
    → Tombstone.Agree a.deleted b.deleted
    → merge_fields a b ≡ merge_fields b a
unfolding merge_fields
merge_fields_comm a b p q i s t =
    rw
      (
        Lww.merge_comm a.kind b.kind "otp.kind",
        Lww.merge_comm a.algorithm b.algorithm "otp.algorithm",
        Lww.merge_comm a.digits b.digits "otp.digits",
        Lww.merge_comm a.period b.period "otp.period",
        Lww.merge_comm a.pin b.pin "otp.pin",
        Lww.merge_comm a.issuer b.issuer "issuer",
        Lww.merge_comm a.account b.account "account",
        Lww.merge_comm a.nickname b.nickname "nickname",
        Lww.merge_comm a.note b.note "note",
        Lww.merge_comm a.icon b.icon "icon",
        Lww.merge_comm a.color b.color "color",
        Lww.merge_comm a.favorite b.favorite "favorite",
        Lww.merge_comm a.manual_order b.manual_order "manual_order",
        Lww.merge_comm a.archived b.archived "archived",
        Lww.merge_comm a.hidden b.hidden "hidden",
        Lww.merge_comm a.requires_reveal_auth b.requires_reveal_auth "requires_reveal_auth",
        Lww.merge_comm a.trashed_at b.trashed_at "trashed_at",
        merge_max_comm a.hotp_counter b.hotp_counter,
        merge_max_comm a.last_used_at b.last_used_at,
        merge_min_comm a.created_at b.created_at,
        Usage.merge_comm a.usage b.usage p.usage q.usage,
        OrSet.Laws.merge_comm a.groups b.groups p.groups q.groups,
        OrSet.Laws.merge_comm a.tags b.tags p.tags q.tags,
        OrSet.Laws.merge_comm a.origins b.origins p.origins q.origins,
        merge_tombstone_comm a.deleted b.deleted t,
        i,
        s,
      )
      refl

pub merge_fields_idem : (a : Item) → IsOrdered a → merge_fields a a ≡ ok a
unfolding merge_fields
merge_fields_idem a p =
    rw
      (
        Lww.merge_idem a.kind "otp.kind",
        Lww.merge_idem a.algorithm "otp.algorithm",
        Lww.merge_idem a.digits "otp.digits",
        Lww.merge_idem a.period "otp.period",
        Lww.merge_idem a.pin "otp.pin",
        Lww.merge_idem a.issuer "issuer",
        Lww.merge_idem a.account "account",
        Lww.merge_idem a.nickname "nickname",
        Lww.merge_idem a.note "note",
        Lww.merge_idem a.icon "icon",
        Lww.merge_idem a.color "color",
        Lww.merge_idem a.favorite "favorite",
        Lww.merge_idem a.manual_order "manual_order",
        Lww.merge_idem a.archived "archived",
        Lww.merge_idem a.hidden "hidden",
        Lww.merge_idem a.requires_reveal_auth "requires_reveal_auth",
        Lww.merge_idem a.trashed_at "trashed_at",
        merge_max_idem a.hotp_counter,
        merge_max_idem a.last_used_at,
        merge_min_idem a.created_at,
        Usage.merge_idem a.usage p.usage,
        OrSet.Laws.merge_idem a.groups p.groups,
        OrSet.Laws.merge_idem a.tags p.tags,
        OrSet.Laws.merge_idem a.origins p.origins,
        merge_tombstone_idem a.deleted,
      )
      refl
