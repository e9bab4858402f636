-- ===== src/Vault/ItemSet/Held.antt =====
-- Which credentials a set of items holds, before and after an item is put in or taken out.
use misty.Prelude.{
  ◌≡◌, ◌⊎◌, inl, inr, refl, Bool-cases, none, some, Ord, nat_ord, list_ord, pair_ord, option_ord,
  same_key, arith, int_ord, same_key_iff,
}
use misty.Prelude.Map.{
  get, put, remove, IsSorted, get-put, get-remove, put-IsSorted, remove-IsSorted,
}
use misty.Vault.Error.{ItemId}
use misty.Vault.Hlc.Order.{hlc_ord}
use misty.Vault.Conflict.{Secret}
use misty.Vault.Item.{Item}
use misty.Vault.ItemSet.{ItemSet}

abbrev pub ids_ord : Ord ItemId
ids_ord = list_ord

-- Some item of the set has this secret.
abbrev pub Holds : Secret → ItemSet → Type 0
Holds s items = (id : ItemId) × (item : Item) × (get id items ≡ some item) × (item.secret ≡ s)

-- Entries stand in key order, each under its own id.
pub record IsValid (items : ItemSet) : Type 0 where
  pub sorted : IsSorted items
  pub keyed : (id : ItemId) (item : Item) → get id items ≡ some item → item.id ≡ id

pub put-IsValid : (item : Item) (items : ItemSet) → IsValid items → IsValid (put item.id item items)
put-IsValid item items v = record {
  sorted = put-IsSorted item.id item items v.sorted;
  keyed = λ id x h.
      ground (arith, get-put item.id id item items, ids_ord.eq_of_cmp item.id id, v.keyed id x);
}

pub remove-IsValid : (k : ItemId) (items : ItemSet) → IsValid items → IsValid (remove k items)
remove-IsValid k items v = record {
  sorted = remove-IsSorted k items v.sorted;
  keyed = λ id x h. ground (arith, get-remove k id items v.sorted, v.keyed id x);
}

module _ (s : Secret) (item : Item) (items : ItemSet) where
  pub Holds-put_self : item.secret ≡ s → Holds s (put item.id item items)
  Holds-put_self e = (
    item.id,
    item,
    rw (get-put item.id item.id item items, (same_key_iff item.id item.id).1 refl) refl,
    e,
  )

  get-put_fresh :
      (id : ItemId) (x : Item)
      → get item.id items ≡ none
      → get id items ≡ some x
      → get id (put item.id item items) ≡ some x
  get-put_fresh id x n h =
      ground (arith, get-put item.id id item items, ids_ord.eq_of_cmp item.id id)

  pub Holds-put_fresh : get item.id items ≡ none → Holds s items → Holds s (put item.id item items)
  Holds-put_fresh n (id, x, h, e) = (id, x, get-put_fresh id x n h, e)

  pub Holds-put_only : Holds s (put item.id item items) → Holds s items ⊎ (item.secret ≡ s)
  Holds-put_only (id, x, h, e) = elim (Bool-cases (same_key item.id id)) [
    | inl q ↦ inr (ground (arith, get-put item.id id item items))
    | inr q ↦ inl (id, x, ground (arith, get-put item.id id item items), e)
  ]

module _ (s : Secret) (k : ItemId) (items : ItemSet) (sorted : IsSorted items) where
  pub get-remove_self : get k (remove k items) ≡ none
  get-remove_self = rw (get-remove k k items sorted, (same_key_iff k k).1 refl) refl

  pub Holds-remove :
      (local : Item)
      → get k items ≡ some local
      → Holds s items
      → Holds s (remove k items) ⊎ (local.secret ≡ s)
  Holds-remove local g (id, x, h, e) = elim (Bool-cases (same_key k id)) [
    | inl q ↦ inr (ground (arith, ids_ord.eq_of_cmp k id))
    | inr q ↦ inl (id, x, ground (arith, get-remove k id items sorted), e)
  ]

  pub Holds-remove_only : Holds s (remove k items) → Holds s items
  Holds-remove_only (id, x, h, e) = (id, x, ground (arith, get-remove k id items sorted), e)
