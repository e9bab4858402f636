-- ===== src/Vault/Conflict.antt =====
-- crates/misty-vault/src/conflict.rs: what a merge reports, and who keeps an id.
use misty.Prelude.{
  ◌≡◌, ◌≢◌, Bool, false, not, ◌&&◌, ◌||◌, if◌then◌else◌, List, [], ◌∷◌, ◌++◌, same_key, Ord,
  nat_ord, list_ord, pair_ord, option_ord, is_le, arith, int_ord,
}
use misty.Vault.Error.{Bytes, ItemId}
use misty.Vault.Hlc.Order.{hlc_ord}

-- The raw bytes of a `SecretBytes`, and a text as its UTF-8 bytes.
abbrev pub Secret : Type 0
Secret = Bytes

abbrev pub Text : Type 0
Text = Bytes

pub data Conflict : Type 0 where
  divergent_secret : ItemId → ItemId → Conflict
  divergent_pin : ItemId → Conflict

-- `Conflict::item`
unfoldable pub conflict_item : Conflict → ItemId
conflict_item (divergent_secret kept forked) = kept
conflict_item (divergent_pin item) = item

-- `local_keeps_id`: the order of the byte slices.
unfoldable pub local_keeps_id : Secret → Secret → Bool
local_keeps_id local remote = is_le local remote

abbrev secret_ord : Ord Secret
secret_ord = list_ord

-- Of two different secrets exactly one keeps the id, whichever side asks.
pub local_keeps_id_exclusive :
    (a b : Secret) → a ≢ b → local_keeps_id a b ≡ not (local_keeps_id b a)
unfolding local_keeps_id
local_keeps_id_exclusive a b n =
    ground (arith, secret_ord.cmp_flip a b, secret_ord.eq_of_cmp a b, n)

-- The derived equality of conflicts, and the loop that appends those that are new.
unfoldable pub same_conflict : Conflict → Conflict → Bool
same_conflict (divergent_secret a b) (divergent_secret c d) = same_key a c && same_key b d
same_conflict (divergent_pin a) (divergent_pin b) = same_key a b
same_conflict _ _ = false

unfoldable pub has_conflict : Conflict → List Conflict → Bool
has_conflict c [] = false
has_conflict c (d ∷ ds) = same_conflict d c || has_conflict c ds

unfoldable pub add_conflicts : List Conflict → List Conflict → List Conflict
add_conflicts known [] = known
add_conflicts known (c ∷ cs) =
    add_conflicts (if has_conflict c known then known else known ++ c ∷ []) cs
