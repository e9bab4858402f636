-- ===== src/Vault/Item/Clocks.antt =====
-- crates/misty-vault/src/model/item.rs: the clocks of an item, and what they say of a delete.
use misty.Prelude.{
  ◌≡◌, ◌↔◌, Bool, true, false, not, ◌&&◌, Option, none, some, List, [], ◌∷◌, ◌++◌, nat_ord,
  list_ord, pair_ord, option_ord, is_gt, max_of, ℤ, int_ord,
}
use misty.Vault.Hlc.Order.{Hlc, hlc_ord}
use misty.Prelude.Map.{Map}
use misty.Vault.Crdt.OrSet.{OrSetEntry, set_max_hlc}
use misty.Vault.Crdt.OrSet.Bound.{gt_max_of}
use misty.Vault.Tombstone.{Tombstone, tombstone_wins}
use misty.Vault.Item.{Item}

-- `registers` of `Item::max_field_hlc`
unfoldable pub register_hlcs : Item → List Hlc
register_hlcs item =
    item.kind.hlc ∷ item.algorithm.hlc ∷ item.digits.hlc ∷ item.period.hlc ∷ item.pin.hlc
    ∷ item.issuer.hlc ∷ item.account.hlc ∷ item.nickname.hlc ∷ item.note.hlc ∷ item.icon.hlc
    ∷ item.color.hlc ∷ item.favorite.hlc ∷ item.manual_order.hlc ∷ item.archived.hlc
    ∷ item.hidden.hlc ∷ item.requires_reveal_auth.hlc ∷ item.trashed_at.hlc ∷ []

-- `.into_iter().flatten()`
abbrev pub flatten_options : List (Option Hlc) → List Hlc
flatten_options [] = []
flatten_options (none ∷ xs) = flatten_options xs
flatten_options (some h ∷ xs) = h ∷ flatten_options xs

-- `.fold(start, Hlc::max)`
abbrev pub fold_max : Hlc → List Hlc → Hlc
fold_max acc [] = acc
fold_max acc (h ∷ hs) = fold_max (max_of acc h) hs

unfoldable pub set_hlcs : Item → List Hlc
set_hlcs item =
    flatten_options
      (set_max_hlc item.groups ∷ set_max_hlc item.tags ∷ set_max_hlc item.origins ∷ [])

-- `Item::max_field_hlc`
unfoldable pub max_field_hlc : Item → Hlc
max_field_hlc item = fold_max (fold_max item.issuer.hlc (register_hlcs item)) (set_hlcs item)

-- The loops of `Item::every_hlc` over the entries of a set.
unfoldable pub entry_hlcs {ℓ} : {A : Type ℓ} → Map A OrSetEntry → List Hlc
entry_hlcs [] = []
entry_hlcs ((x, entry) ∷ m) = (entry.added ∷ flatten_options (entry.removed ∷ [])) ++ entry_hlcs m

abbrev stone_hlc : Option Tombstone → List Hlc
stone_hlc (some stone) = stone.hlc ∷ []
stone_hlc none = []

-- `Item::every_hlc`
unfoldable pub every_hlc : Item → List Hlc
every_hlc item =
    register_hlcs item
    ++ entry_hlcs item.groups.entries
    ++ entry_hlcs item.tags.entries
    ++ entry_hlcs item.origins.entries
    ++ stone_hlc item.deleted

-- `Item::max_hlc`
unfoldable pub max_hlc : Item → Hlc
max_hlc item = elim item.deleted [
  | none ↦ max_field_hlc item
  | some stone ↦ max_of (max_field_hlc item) stone.hlc
]

-- `Item::is_deleted`
unfoldable pub is_deleted : Item → Bool
is_deleted item = tombstone_wins item.deleted (max_field_hlc item)

-- `self.trashed_at().is_some()`
abbrev pub is_some : Option ℤ → Bool
is_some none = false
is_some (some _) = true

-- `Item::is_trashed`
unfoldable pub is_trashed : Item → Bool
is_trashed item = is_some item.trashed_at.value && not (is_deleted item)

-- `Item::is_live`
unfoldable pub is_live : Item → Bool
unfolding is_trashed
is_live item = not (is_deleted item) && not (is_trashed item)

-- Every clock of a list is before `h`.
abbrev pub AllBefore : Hlc → List Hlc → Type 0
AllBefore h [] = Unit
AllBefore h (x ∷ xs) = (is_gt h x ≡ true) × AllBefore h xs

fold_max_before :
    (h acc : Hlc) (xs : List Hlc)
    → (is_gt h (fold_max acc xs) ≡ true) ↔ ((is_gt h acc ≡ true) × AllBefore h xs)
fold_max_before h acc [] = (λ e. (e, tt), λ e. e.0)
fold_max_before h acc (x ∷ xs) = (
  λ e.
      let rest : (is_gt h (max_of acc x) ≡ true) × AllBefore h xs =
        (fold_max_before h (max_of acc x) xs).0 e in
      let both : (is_gt h acc ≡ true) × (is_gt h x ≡ true) = (gt_max_of h acc x).0 rest.0 in
      (both.0, (both.1, rest.1)),
  λ e. (fold_max_before h (max_of acc x) xs).1 ((gt_max_of h acc x).1 (e.0, e.1.0), e.1.1),
)

max_field_hlc_before :
    (item : Item) (h : Hlc)
    → (is_gt h (max_field_hlc item) ≡ true)
      ↔ (AllBefore h (register_hlcs item) × AllBefore h (set_hlcs item))
unfolding max_field_hlc register_hlcs
max_field_hlc_before item h =
    let outer = fold_max_before h (fold_max item.issuer.hlc (register_hlcs item)) (set_hlcs item) in
    let inner = fold_max_before h item.issuer.hlc (register_hlcs item) in
    (
      λ e. ((inner.0 (outer.0 e).0).1, (outer.0 e).1),
      λ e. outer.1 (inner.1 (e.0.1.1.1.1.1.0, e.0), e.1),
    )

-- An item with a tombstone is deleted exactly when the tombstone is later than every register and
-- every set of the item: one edit at or after the delete keeps it.
pub is_deleted_iff :
    (item : Item) (stone : Tombstone)
    → item.deleted ≡ some stone
    → (is_deleted item ≡ true)
      ↔ (AllBefore stone.hlc (register_hlcs item) × AllBefore stone.hlc (set_hlcs item))
unfolding is_deleted tombstone_wins
is_deleted_iff item stone h = simp h (max_field_hlc_before item stone.hlc)

pub is_deleted-none : (item : Item) → item.deleted ≡ none → is_deleted item ≡ false
unfolding is_deleted tombstone_wins
is_deleted-none item h = rw h
