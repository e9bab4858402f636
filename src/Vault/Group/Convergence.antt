-- ===== src/Vault/Group/Convergence.antt =====
-- crates/misty-vault/src/model/group.rs: merges of groups in another order or grouping.
use misty.Prelude.{
  ◌≡◌, refl, sym, ok, ◌>>=◌, nat_ord, list_ord, pair_ord, option_ord, int_ord, same_key_iff,
}
use misty.Vault.Hlc.Order.{hlc_ord}
use misty.Vault.Crdt.Lww
use misty.Vault.Crdt.Scalar.{merge_min, merge_min_assoc, merge_min_comm}
use misty.Vault.Tombstone
use misty.Vault.Tombstone.{merge_tombstone, merge_tombstone_assoc, merge_tombstone_comm}
use misty.Vault.Item.{text_eq, number_option_eq, int_option_eq}
use misty.Vault.Group.{Group, merge_groups}

-- Two versions of one group in which one clock names one write.
pub record Agree (a b : Group) : Type 0 where
  pub id : a.id ≡ b.id
  pub name : Lww.Agree a.name b.name
  pub color : Lww.Agree a.color b.color
  pub manual_order : Lww.Agree a.manual_order b.manual_order
  pub deleted : Tombstone.Agree a.deleted b.deleted

join_groups : Group → Group → Group
join_groups a b = record {
  id = a.id;
  name = Lww.later a.name b.name;
  color = Lww.later a.color b.color;
  manual_order = Lww.later a.manual_order b.manual_order;
  created_at = merge_min a.created_at b.created_at;
  deleted = merge_tombstone a.deleted b.deleted;
}

merge_groups-join : (a b : Group) → Agree a b → merge_groups a b ≡ ok (join_groups a b)
unfolding merge_groups join_groups
merge_groups-join a b h =
    rw
      (
        (same_key_iff a.id b.id).1 h.id,
        Lww.merge-later a.name b.name "group.name" h.name,
        Lww.merge-later a.color b.color "group.color" h.color,
        Lww.merge-later a.manual_order b.manual_order "group.manual_order" h.manual_order,
      )
      refl

Agree-join_left : (a b c : Group) → Agree a c → Agree b c → Agree (join_groups a b) c
unfolding join_groups
Agree-join_left a b c p q = record {
  id = p.id;
  name = Lww.Agree-later_left a.name b.name c.name p.name q.name;
  color = Lww.Agree-later_left a.color b.color c.color p.color q.color;
  manual_order =
      Lww.Agree-later_left a.manual_order b.manual_order c.manual_order p.manual_order
        q.manual_order;
  deleted = Tombstone.Agree-merge_tombstone_left a.deleted b.deleted c.deleted p.deleted q.deleted;
}

Agree-join_right : (a b c : Group) → Agree a b → Agree a c → Agree a (join_groups b c)
unfolding join_groups
Agree-join_right a b c p q = record {
  id = p.id;
  name = Lww.Agree-later_right a.name b.name c.name p.name q.name;
  color = Lww.Agree-later_right a.color b.color c.color p.color q.color;
  manual_order =
      Lww.Agree-later_right a.manual_order b.manual_order c.manual_order p.manual_order
        q.manual_order;
  deleted = Tombstone.Agree-merge_tombstone_right a.deleted b.deleted c.deleted p.deleted q.deleted;
}

join_groups_assoc :
    (a b c : Group) → join_groups (join_groups a b) c ≡ join_groups a (join_groups b c)
unfolding join_groups
join_groups_assoc a b c =
    rw
      (
        Lww.later_assoc a.name b.name c.name,
        Lww.later_assoc a.color b.color c.color,
        Lww.later_assoc a.manual_order b.manual_order c.manual_order,
        merge_min_assoc a.created_at b.created_at c.created_at,
        merge_tombstone_assoc a.deleted b.deleted c.deleted,
      )
      refl

-- Three versions of one group merge to the same group however the merges are grouped, if one clock
-- names one write in every two of them.
pub merge_groups_assoc :
    (a b c : Group)
    → Agree a b
    → Agree b c
    → Agree a c
    → (merge_groups a b >>= λ ab. merge_groups ab c)
      ≡ (merge_groups b c >>= λ bc. merge_groups a bc)
merge_groups_assoc a b c ab bc ac =
    rw
      (
        merge_groups-join a b ab,
        merge_groups-join b c bc,
        merge_groups-join (join_groups a b) c (Agree-join_left a b c ac bc),
        merge_groups-join a (join_groups b c) (Agree-join_right a b c ab ac),
        join_groups_assoc a b c,
      )
      refl

-- Two versions of one group merge to the same group, or to the same error, in either order, if
-- their tombstones do not bear one clock with two reasons.
pub merge_groups_comm :
    (a b : Group)
    → a.id ≡ b.id
    → Tombstone.Agree a.deleted b.deleted
    → merge_groups a b ≡ merge_groups b a
unfolding merge_groups
merge_groups_comm a b i t =
    rw
      (
        (same_key_iff a.id b.id).1 i,
        (same_key_iff b.id a.id).1 (sym i),
        Lww.merge_comm a.name b.name "group.name",
        Lww.merge_comm a.color b.color "group.color",
        Lww.merge_comm a.manual_order b.manual_order "group.manual_order",
        merge_min_comm a.created_at b.created_at,
        merge_tombstone_comm a.deleted b.deleted t,
        i,
      )
      refl
