-- ===== src/Vault/Item/Convergence.antt =====
-- crates/misty-vault/src/model/item.rs: `Item::merge` in another order or grouping.
use misty.Prelude.{
  ◌≡◌, inl, inr, refl, ◌∙◌, Bool-cases, Option, List, ok, ◌>>=◌, Ord, nat_ord, list_ord, pair_ord,
  option_ord, same_key, arith, int_ord, same_key_iff,
}
use misty.Vault.Error.{Bytes}
use misty.Vault.Hlc.Order.{hlc_ord}
use misty.Vault.Tombstone
use misty.Vault.Tombstone.{
  merge_tombstone, merge_tombstone_comm, merge_tombstone_assoc, merge_tombstone_idem,
}
use misty.Vault.Conflict.{Conflict}
use misty.Vault.Item.{
  Item, kind_eq, algorithm_eq, icon_eq, bool_eq, number_eq, text_eq, text_option_eq,
  number_option_eq, int_option_eq,
}
use misty.Vault.Item.Merge.{merge_fields, merge}
use misty.Vault.Item.Laws.{
  IsOrdered, Agree, join_items, merge_fields-join, merge_fields_comm, merge_fields_idem,
}
use misty.Vault.Item.Join.{Agree-join_left, Agree-join_right, join_items_assoc}

abbrev text_ord : Ord Bytes
text_ord = list_ord

abbrev pin_ord : Ord (Option Bytes)
pin_ord = option_ord

pub merge-eq-merge_fields :
    (a b : Item) (cs : List Conflict)
    → a.id ≡ b.id
    → a.secret ≡ b.secret
    → (merge a b cs).1 ≡ merge_fields a b
unfolding merge
merge-eq-merge_fields a b cs i s = elim (Bool-cases (same_key a.pin.value b.pin.value)) [
  | inl h ↦ rw ((same_key_iff a.id b.id).1 i, (same_key_iff a.secret b.secret).1 s, h) refl
  | inr h ↦ rw ((same_key_iff a.id b.id).1 i, (same_key_iff a.secret b.secret).1 s, h) refl
]

-- Merging two versions of one item in which one clock names one write succeeds.
pub merge-join :
    (a b : Item) (cs : List Conflict) → Agree a b → (merge a b cs).1 ≡ ok (join_items a b)
merge-join a b cs h = merge-eq-merge_fields a b cs h.id h.secret ∙ merge_fields-join a b h

-- Three versions of one item, with their maps in key order, merge to the same item however the
-- merges are grouped, if one clock names one write in every two of them.
pub merge_assoc :
    (a b c : Item) (cs : List Conflict)
    → IsOrdered a
    → IsOrdered b
    → IsOrdered c
    → Agree a b
    → Agree b c
    → Agree a c
    → ((merge a b cs).1 >>= λ ab. (merge ab c cs).1)
      ≡ ((merge b c cs).1 >>= λ bc. (merge a bc cs).1)
merge_assoc a b c cs p q r ab bc ac =
    rw
      (
        merge-join a b cs ab,
        merge-join b c cs bc,
        merge-join (join_items a b) c cs (Agree-join_left a b c ac bc),
        merge-join a (join_items b c) cs (Agree-join_right a b c ab ac),
        join_items_assoc a b c p q r,
      )
      refl

same_key_comm : (x y : Option Bytes) → same_key x y ≡ same_key y x
same_key_comm x y = ground (arith, pin_ord.cmp_flip x y)

bytes_same_comm : (x y : Bytes) → same_key x y ≡ same_key y x
bytes_same_comm x y = ground (arith, text_ord.cmp_flip x y)

-- Two versions of one item, with their maps in key order and with one secret or two, merge to the
-- same item or the same error, with the same conflicts, in either order, if their tombstones do not
-- bear one clock with two reasons.
pub merge_comm :
    (a b : Item) (cs : List Conflict)
    → IsOrdered a
    → IsOrdered b
    → a.id ≡ b.id
    → Tombstone.Agree a.deleted b.deleted
    → merge a b cs ≡ merge b a cs
unfolding merge
merge_comm a b cs p q i t = elim (Bool-cases (same_key a.secret b.secret)) [
  | inl h ↦
      rw
        (
          bytes_same_comm b.id a.id,
          bytes_same_comm b.secret a.secret,
          same_key_comm b.pin.value a.pin.value,
          h,
          merge_fields_comm a b p q i ((same_key_iff a.secret b.secret).0 h) t,
          i,
        )
        refl
  | inr h ↦ rw (bytes_same_comm b.id a.id, bytes_same_comm b.secret a.secret, h, i) refl
]

-- Merging an item, with its maps in key order, with itself changes nothing and reports nothing.
pub merge_idem : (a : Item) (cs : List Conflict) → IsOrdered a → merge a a cs ≡ (cs, ok a)
unfolding merge
merge_idem a cs p =
    rw
      (
        (same_key_iff a.id a.id).1 refl,
        (same_key_iff a.secret a.secret).1 refl,
        (same_key_iff a.pin.value a.pin.value).1 refl,
        merge_fields_idem a p,
      )
      refl
