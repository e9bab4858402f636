-- ===== src/Vault/Crdt/OrSet.antt =====
-- crates/misty-vault/src/crdt/orset.rs: the observed-remove set.
pub mod Laws
pub mod Membership
pub mod Bound
use misty.Prelude.{
  ℕ, Bool, true, false, if◌then◌else◌, Option, none, some, [], ◌∷◌, Ord, nat_ord, list_ord,
  pair_ord, option_ord, is_gt, is_ge, max_of, eq_of_ord, length, arith,
}
use misty.Prelude.Map.{Map, get, put}
use misty.Prelude.Map.Merge.{merge_with}
use misty.Vault.Hlc.Order.{Hlc, hlc_ord}

pub record OrSetEntry : Type 0 where
  pub added : Hlc
  pub removed : Option Hlc

-- `OrSetEntry::is_present`
unfoldable pub is_present : OrSetEntry → Bool
is_present entry = elim entry.removed [ none ↦ true | some removed ↦ is_ge entry.added removed ]

-- `OrSetEntry::max_hlc`
unfoldable pub entry_max_hlc : OrSetEntry → Hlc
entry_max_hlc entry = elim entry.removed [
  | none ↦ entry.added
  | some removed ↦ if is_gt removed entry.added then removed else entry.added
]

-- The `Some(entry)` arm of `merge`: each clock is taken over where it is later.
unfoldable pub merge_entry : OrSetEntry → OrSetEntry → OrSetEntry
merge_entry entry incoming = record {
  added = if is_gt incoming.added entry.added then incoming.added else entry.added;
  removed = elim incoming.removed [
    | none ↦ entry.removed
    | some removed ↦ elim entry.removed [
      | none ↦ some removed
      | some current ↦ if is_gt removed current then some removed else some current
    ]
  ];
}

pub record OrSet {ℓ} (A : Type ℓ) : Type ℓ where
  pub entries : Map A OrSetEntry

abbrev pub or_set {ℓ} : {A : Type ℓ} → Map A OrSetEntry → OrSet A
or_set m = record { entries = m }

-- `OrSet::new`
abbrev pub empty_set {ℓ} : {A : Type ℓ} → OrSet A
empty_set = record { entries = [] }

-- `OrSet::stored_len`
abbrev pub stored_len {ℓ} : {A : Type ℓ} → OrSet A → ℕ
stored_len s = length s.entries

-- `OrSet::max_hlc`: `Iterator::max` over the entries' clocks.
unfoldable pub max_entries {ℓ} : {A : Type ℓ} → Map A OrSetEntry → Option Hlc
unfolding max_of
max_entries [] = none
max_entries ((x, entry) ∷ m) = elim (max_entries m) [
  | none ↦ some (entry_max_hlc entry)
  | some h ↦ some (max_of (entry_max_hlc entry) h)
]

unfoldable pub set_max_hlc {ℓ} : {A : Type ℓ} → OrSet A → Option Hlc
set_max_hlc s = max_entries s.entries

-- `.is_some_and(OrSetEntry::is_present)`
abbrev pub is_some_and_present : Option OrSetEntry → Bool
is_some_and_present none = false
is_some_and_present (some entry) = is_present entry

-- `entry.removed.is_some_and(|removed| removed >= hlc)`
abbrev pub removed_by : Option Hlc → Hlc → Bool
removed_by none hlc = false
removed_by (some removed) hlc = is_ge removed hlc

module _ {ℓ} {A : Type ℓ} ⦃o : Ord A⦄ where
  -- `OrSet::contains`
  unfoldable pub contains : A → OrSet A → Bool
  contains x s = is_some_and_present (get x s.entries)

  -- `OrSet::add`
  unfoldable pub add : A → Hlc → OrSet A → OrSet A × Bool
  add x hlc s = elim (get x s.entries) [
    | none ↦ (or_set (put x (record { added = hlc; removed = none }) s.entries), true)
    | some entry ↦
        if is_gt hlc entry.added
        then (or_set (put x (record entry { added = hlc }) s.entries), true)
        else (s, false)
  ]

  -- `OrSet::remove`: an element that was never added is not recorded.
  unfoldable pub remove_element : A → Hlc → OrSet A → OrSet A × Bool
  remove_element x hlc s = elim (get x s.entries) [
    | none ↦ (s, false)
    | some entry ↦
        if removed_by entry.removed hlc
        then (s, false)
        else (or_set (put x (record entry { removed = some hlc }) s.entries), true)
  ]

  -- `<OrSet as Merge>::merge`
  unfoldable pub merge : OrSet A → OrSet A → OrSet A
  merge self other = or_set (merge_with merge_entry self.entries other.entries)
