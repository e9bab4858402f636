-- ===== src/Vault/Group.antt =====
-- crates/misty-vault/src/model/group.rs: a user-defined grouping of items. Its texts are checked
-- when it is decoded, which is not modelled.
pub mod Convergence
use misty.Prelude.{
  ℕ, Bool, not, if◌then◌else◌, Option, none, some, List, [], ◌∷◌, ◌++◌, ok, err, ◌>>=◌, nat_ord,
  list_ord, pair_ord, option_ord, same_key, max_of, ℤ, int_ord,
}
use misty.Vault.Error.{VaultResult, id_mismatch}
use misty.Vault.Hlc.Order.{Hlc, hlc_ord}
use misty.Vault.Crdt.Lww
use misty.Vault.Crdt.Lww.{Lww, lww}
use misty.Vault.Crdt.Scalar.{MinWins, merge_min}
use misty.Vault.Tombstone.{Tombstone, merge_tombstone, tombstone_wins}
use misty.Vault.Conflict.{Text}
use misty.Vault.Item.{GroupId, text_eq, number_option_eq, int_option_eq}

pub record Group : Type 0 where
  pub id : GroupId
  pub name : Lww Text
  pub color : Lww (Option ℕ)
  pub manual_order : Lww (Option ℤ)
  pub created_at : MinWins ℤ
  pub deleted : Option Tombstone

-- `Group::create`: every field is written at one clock.
unfoldable pub create_group : GroupId → Text → Hlc → ℤ → Group
create_group id name hlc created_at_ms = record {
  id = id;
  name = lww name hlc;
  color = lww none hlc;
  manual_order = lww none hlc;
  created_at = record { value = created_at_ms };
  deleted = none;
}

-- `Group::max_field_hlc`
unfoldable pub group_field_hlc : Group → Hlc
group_field_hlc group = max_of (max_of group.name.hlc group.color.hlc) group.manual_order.hlc

-- `Group::max_hlc`
unfoldable pub group_max_hlc : Group → Hlc
group_max_hlc group = elim group.deleted [
  | some stone ↦ max_of (group_field_hlc group) stone.hlc
  | none ↦ group_field_hlc group
]

-- `Group::is_deleted`
unfoldable pub is_group_deleted : Group → Bool
is_group_deleted group = tombstone_wins group.deleted (group_field_hlc group)

abbrev pub stone_hlcs : Option Tombstone → List Hlc
stone_hlcs (some stone) = stone.hlc ∷ []
stone_hlcs none = []

-- `Group::every_hlc`
unfoldable pub group_hlcs : Group → List Hlc
group_hlcs group =
    (group.name.hlc ∷ group.color.hlc ∷ group.manual_order.hlc ∷ []) ++ stone_hlcs group.deleted

-- `Group::merge`. A merge that fails leaves `self` half merged in the source, in a copy that its
-- only caller drops: the model returns no group.
unfoldable pub merge_groups : Group → Group → VaultResult Group
merge_groups self remote =
    if not (same_key self.id remote.id) then err (id_mismatch self.id remote.id) else do
      name ← Lww.merge self.name remote.name "group.name"
      color ← Lww.merge self.color remote.color "group.color"
      manual_order ← Lww.merge self.manual_order remote.manual_order "group.manual_order"
      ok (record {
        id = self.id;
        name = name;
        color = color;
        manual_order = manual_order;
        created_at = merge_min self.created_at remote.created_at;
        deleted = merge_tombstone self.deleted remote.deleted;
      })
