-- ===== src/Vault/Item/Join.antt =====
-- The join of item versions, in groups of three.
use misty.Prelude.{◌≡◌, refl, nat_ord, list_ord, pair_ord, option_ord, int_ord}
use misty.Vault.Hlc.Order.{hlc_ord}
use misty.Vault.Crdt.Lww
use misty.Vault.Crdt.Scalar.{merge_max_assoc, merge_min_assoc}
use misty.Vault.Crdt.Usage
use misty.Vault.Crdt.OrSet
use misty.Vault.Tombstone
use misty.Vault.Tombstone.{
  merge_tombstone, merge_tombstone_comm, merge_tombstone_assoc, merge_tombstone_idem,
}
use misty.Vault.Item.{
  Item, kind_eq, algorithm_eq, icon_eq, bool_eq, number_eq, text_eq, text_option_eq,
  number_option_eq, int_option_eq,
}
use misty.Vault.Item.Laws.{IsOrdered, Agree, join_items}

pub Agree-join_left : (a b c : Item) → Agree a c → Agree b c → Agree (join_items a b) c
unfolding join_items
Agree-join_left a b c p q = record {
  id = p.id;
  secret = p.secret;
  kind = Lww.Agree-later_left a.kind b.kind c.kind p.kind q.kind;
  algorithm = Lww.Agree-later_left a.algorithm b.algorithm c.algorithm p.algorithm q.algorithm;
  digits = Lww.Agree-later_left a.digits b.digits c.digits p.digits q.digits;
  period = Lww.Agree-later_left a.period b.period c.period p.period q.period;
  pin = Lww.Agree-later_left a.pin b.pin c.pin p.pin q.pin;
  issuer = Lww.Agree-later_left a.issuer b.issuer c.issuer p.issuer q.issuer;
  account = Lww.Agree-later_left a.account b.account c.account p.account q.account;
  nickname = Lww.Agree-later_left a.nickname b.nickname c.nickname p.nickname q.nickname;
  note = Lww.Agree-later_left a.note b.note c.note p.note q.note;
  icon = Lww.Agree-later_left a.icon b.icon c.icon p.icon q.icon;
  color = Lww.Agree-later_left a.color b.color c.color p.color q.color;
  favorite = Lww.Agree-later_left a.favorite b.favorite c.favorite p.favorite q.favorite;
  manual_order =
      Lww.Agree-later_left a.manual_order b.manual_order c.manual_order p.manual_order
        q.manual_order;
  archived = Lww.Agree-later_left a.archived b.archived c.archived p.archived q.archived;
  hidden = Lww.Agree-later_left a.hidden b.hidden c.hidden p.hidden q.hidden;
  requires_reveal_auth =
      Lww.Agree-later_left a.requires_reveal_auth b.requires_reveal_auth c.requires_reveal_auth
        p.requires_reveal_auth q.requires_reveal_auth;
  trashed_at =
      Lww.Agree-later_left a.trashed_at b.trashed_at c.trashed_at p.trashed_at q.trashed_at;
  deleted = Tombstone.Agree-merge_tombstone_left a.deleted b.deleted c.deleted p.deleted q.deleted;
}

pub Agree-join_right : (a b c : Item) → Agree a b → Agree a c → Agree a (join_items b c)
unfolding join_items
Agree-join_right a b c p q = record {
  id = p.id;
  secret = p.secret;
  kind = Lww.Agree-later_right a.kind b.kind c.kind p.kind q.kind;
  algorithm = Lww.Agree-later_right a.algorithm b.algorithm c.algorithm p.algorithm q.algorithm;
  digits = Lww.Agree-later_right a.digits b.digits c.digits p.digits q.digits;
  period = Lww.Agree-later_right a.period b.period c.period p.period q.period;
  pin = Lww.Agree-later_right a.pin b.pin c.pin p.pin q.pin;
  issuer = Lww.Agree-later_right a.issuer b.issuer c.issuer p.issuer q.issuer;
  account = Lww.Agree-later_right a.account b.account c.account p.account q.account;
  nickname = Lww.Agree-later_right a.nickname b.nickname c.nickname p.nickname q.nickname;
  note = Lww.Agree-later_right a.note b.note c.note p.note q.note;
  icon = Lww.Agree-later_right a.icon b.icon c.icon p.icon q.icon;
  color = Lww.Agree-later_right a.color b.color c.color p.color q.color;
  favorite = Lww.Agree-later_right a.favorite b.favorite c.favorite p.favorite q.favorite;
  manual_order =
      Lww.Agree-later_right a.manual_order b.manual_order c.manual_order p.manual_order
        q.manual_order;
  archived = Lww.Agree-later_right a.archived b.archived c.archived p.archived q.archived;
  hidden = Lww.Agree-later_right a.hidden b.hidden c.hidden p.hidden q.hidden;
  requires_reveal_auth =
      Lww.Agree-later_right a.requires_reveal_auth b.requires_reveal_auth c.requires_reveal_auth
        p.requires_reveal_auth q.requires_reveal_auth;
  trashed_at =
      Lww.Agree-later_right a.trashed_at b.trashed_at c.trashed_at p.trashed_at q.trashed_at;
  deleted = Tombstone.Agree-merge_tombstone_right a.deleted b.deleted c.deleted p.deleted q.deleted;
}

pub join_items_assoc :
    (a b c : Item)
    → IsOrdered a
    → IsOrdered b
    → IsOrdered c
    → join_items (join_items a b) c ≡ join_items a (join_items b c)
unfolding join_items
join_items_assoc a b c p q r =
    rw
      (
        Lww.later_assoc a.kind b.kind c.kind,
        Lww.later_assoc a.algorithm b.algorithm c.algorithm,
        Lww.later_assoc a.digits b.digits c.digits,
        Lww.later_assoc a.period b.period c.period,
        Lww.later_assoc a.pin b.pin c.pin,
        Lww.later_assoc a.issuer b.issuer c.issuer,
        Lww.later_assoc a.account b.account c.account,
        Lww.later_assoc a.nickname b.nickname c.nickname,
        Lww.later_assoc a.note b.note c.note,
        Lww.later_assoc a.icon b.icon c.icon,
        Lww.later_assoc a.color b.color c.color,
        Lww.later_assoc a.favorite b.favorite c.favorite,
        Lww.later_assoc a.manual_order b.manual_order c.manual_order,
        Lww.later_assoc a.archived b.archived c.archived,
        Lww.later_assoc a.hidden b.hidden c.hidden,
        Lww.later_assoc a.requires_reveal_auth b.requires_reveal_auth c.requires_reveal_auth,
        Lww.later_assoc a.trashed_at b.trashed_at c.trashed_at,
        merge_max_assoc a.hotp_counter b.hotp_counter c.hotp_counter,
        merge_max_assoc a.last_used_at b.last_used_at c.last_used_at,
        merge_min_assoc a.created_at b.created_at c.created_at,
        Usage.merge_assoc a.usage b.usage c.usage p.usage q.usage r.usage,
        OrSet.Laws.merge_assoc a.groups b.groups c.groups p.groups q.groups r.groups,
        OrSet.Laws.merge_assoc a.tags b.tags c.tags p.tags q.tags r.tags,
        OrSet.Laws.merge_assoc a.origins b.origins c.origins p.origins q.origins r.origins,
        merge_tombstone_assoc a.deleted b.deleted c.deleted,
      )
      refl
