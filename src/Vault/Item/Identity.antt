-- ===== src/Vault/Item/Identity.antt =====
-- crates/misty-vault/src/model/item.rs: the id and the secret of a merged item.
use misty.Prelude.{◌≡◌, List, ok, nat_ord, list_ord, pair_ord, option_ord, arith, int_ord}
use misty.Vault.Hlc.Order.{hlc_ord}
use misty.Vault.Conflict.{Conflict}
use misty.Vault.Item.{Item}
use misty.Vault.Item.Merge.{merge, merge_fields}

merge_fields-id : (a b c : Item) → merge_fields a b ≡ ok c → (c.id ≡ a.id) × (c.secret ≡ a.secret)
unfolding merge_fields
merge_fields-id a b c h = ground arith

pub merge-same_credential :
    (a b c : Item) (cs : List Conflict)
    → (merge a b cs).1 ≡ ok c
    → (c.id ≡ a.id) × (c.secret ≡ a.secret)
unfolding merge
merge-same_credential a b c cs h = ground (arith, merge_fields-id a b c)
