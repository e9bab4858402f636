-- ===== src/Examples/Items.antt =====
-- The merge of two versions of one credential.
use misty.Prelude.{
  ℕ, Option, none, some, [], ◌∷◌, true, ◌≡◌, ◌≢◌, ◌↔◌, ◌>>=◌, Bool, refl, nat_ord, list_ord, arith,
  option_ord, pair_ord, int_ord, max_of,
}
use misty.Prelude.Map.{get}
use misty.Vault.Hlc.Order.{hlc_ord}
use misty.Vault.Crdt.Lww
use misty.Vault.Crdt.Lww.{Lww}
use misty.Vault.Crdt.OrSet
use misty.Vault.Crdt.OrSet.{OrSet, OrSetEntry}
use misty.Vault.Crdt.OrSet.Membership.{Covers, add_wins}
use misty.Vault.Tombstone
use misty.Vault.Tombstone.{Tombstone, user, trash_expired, merge_tombstone, merge_tombstone_tie}
use misty.Vault.Item.{create, bool_eq}
use misty.Vault.Item.Merge.{merge}
use misty.Vault.Item.Clocks.{is_deleted}
use misty.Vault.Item.Laws.{Agree, IsOrdered, join_items}
use misty.Vault.Item.Convergence.{merge_comm, merge_assoc, merge-join}
use misty.Vault.Item.Delete.{merge_delete, AfterEveryEdit}
use misty.Examples.Data.{
  first_item, first_secret, edited_item, deleted_item, item_of-IsOrdered, edited_item-IsOrdered,
  deleted_item-IsOrdered, reading, phone, laptop,
}

first_item-IsOrdered : IsOrdered first_item
first_item-IsOrdered = item_of-IsOrdered (10 ∷ []) first_secret 1

-- Versions of the first item that differ in a favourite and a tombstone.
versions-Agree :
    (f g : Lww Bool) (x y : Option Tombstone)
    → Lww.Agree f g
    → Tombstone.Agree x y
    → Agree
        (record first_item { favorite = f; deleted = x })
        (record first_item { favorite = g; deleted = y })
versions-Agree f g x y p q = record {
  id = refl;
  secret = refl;
  kind = λ _. refl;
  algorithm = λ _. refl;
  digits = λ _. refl;
  period = λ _. refl;
  pin = λ _. refl;
  issuer = λ _. refl;
  account = λ _. refl;
  nickname = λ _. refl;
  note = λ _. refl;
  icon = λ _. refl;
  color = λ _. refl;
  favorite = p;
  manual_order = λ _. refl;
  archived = λ _. refl;
  hidden = λ _. refl;
  requires_reveal_auth = λ _. refl;
  trashed_at = λ _. refl;
  deleted = q;
}

two_favorites : Lww.Agree first_item.favorite edited_item.favorite
unfolding create
two_favorites h = ground (arith, h)

two_favorites_back : Lww.Agree edited_item.favorite first_item.favorite
unfolding create
two_favorites_back h = ground (arith, h)

merge_comm_example : merge edited_item deleted_item [] ≡ merge deleted_item edited_item []
unfolding create
merge_comm_example =
    merge_comm edited_item deleted_item [] edited_item-IsOrdered deleted_item-IsOrdered refl tt

merge_assoc_example :
    ((merge first_item edited_item []).1 >>= λ ab. (merge ab deleted_item []).1)
    ≡ ((merge edited_item deleted_item []).1 >>= λ bc. (merge first_item bc []).1)
unfolding create
merge_assoc_example =
    merge_assoc first_item edited_item deleted_item [] first_item-IsOrdered edited_item-IsOrdered
      deleted_item-IsOrdered
      (versions-Agree first_item.favorite edited_item.favorite none none two_favorites tt)
      (versions-Agree edited_item.favorite first_item.favorite none deleted_item.deleted
        two_favorites_back tt)
      (versions-Agree first_item.favorite first_item.favorite none deleted_item.deleted (λ _. refl)
        tt)

-- The delete of the phone is older than the edit of the laptop: the merge is not deleted.
merge_delete_example :
    (is_deleted (join_items edited_item deleted_item) ≡ true)
    ↔ (AfterEveryEdit (reading 4 phone) edited_item × AfterEveryEdit (reading 4 phone) deleted_item)
unfolding join_items create merge_tombstone
merge_delete_example =
    merge_delete edited_item deleted_item (join_items edited_item deleted_item) []
      (record { hlc = reading 4 phone; reason = user }) edited_item-IsOrdered deleted_item-IsOrdered
      (versions-Agree edited_item.favorite first_item.favorite none deleted_item.deleted
        two_favorites_back tt)
      (merge-join edited_item deleted_item [] (
        versions-Agree edited_item.favorite first_item.favorite none deleted_item.deleted
          two_favorites_back tt))
      refl

-- An element that the laptop added again after the phone's remove.
abbrev kept_entry : OrSetEntry
kept_entry = record { added = reading 1 phone; removed = some (reading 2 phone) }

abbrev readded_entry : OrSetEntry
readded_entry = record { added = reading 3 laptop; removed = none }

abbrev set_of : OrSetEntry → OrSet ℕ
set_of entry = record { entries = (7, entry) ∷ [] }

add_wins_example :
    (OrSet.contains 7 (OrSet.merge (set_of kept_entry) (set_of readded_entry)) ≡ true) ↔ (
      Covers (max_of (reading 1 phone) (reading 3 laptop)) (some (reading 2 phone))
      × Covers (max_of (reading 1 phone) (reading 3 laptop)) none)
unfolding get
add_wins_example =
    add_wins 7 (set_of kept_entry) (set_of readded_entry) kept_entry readded_entry (tt, tt) refl
      refl

reasons_differ : user ≢ trash_expired
reasons_differ h = ground (arith, h)

abbrev user_stone : Tombstone
user_stone = record { hlc = reading 4 phone; reason = user }

abbrev expired_stone : Tombstone
expired_stone = record { hlc = reading 4 phone; reason = trash_expired }

merge_tombstone_tie_example :
    (merge_tombstone (some user_stone) (some expired_stone) ≡ some user_stone)
    × (merge_tombstone (some expired_stone) (some user_stone) ≡ some expired_stone)
    × (merge_tombstone (some user_stone) (some expired_stone)
        ≢ merge_tombstone (some expired_stone) (some user_stone))
merge_tombstone_tie_example = merge_tombstone_tie user_stone expired_stone refl reasons_differ
