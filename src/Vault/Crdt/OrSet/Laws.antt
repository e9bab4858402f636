-- ===== src/Vault/Crdt/OrSet/Laws.antt =====
-- The merge of observed-remove sets is a join.
use misty.Prelude.{
  ◌≡◌, inl, inr, refl, ap, ap₂, Bool-cases, if◌then◌else◌, Option, none, some, Ord, nat_ord,
  list_ord, pair_ord, option_ord, is_gt, max_of, max_of_comm, max_of_assoc, max_of_idem, arith,
}
use misty.Prelude.Map.{IsSorted}
use misty.Prelude.Map.Merge.{
  join, merge_with-IsSorted, merge_with_comm, merge_with_assoc, merge_with_idem, join_comm,
  join_assoc, join_idem,
}
use misty.Vault.Hlc.Order.{Hlc, hlc_ord}
use misty.Vault.Crdt.OrSet.{OrSet, OrSetEntry, or_set, merge_entry, merge}

later-eq-max_of : (a b : Hlc) → (if is_gt b a then b else a) ≡ max_of a b
unfolding max_of
later-eq-max_of a b = ground (arith, hlc_ord.cmp_flip a b, hlc_ord.eq_of_cmp a b)

later_removed :
    (x y : Option Hlc)
    → (elim y [
      | none ↦ x
      | some removed ↦ elim x [
        | none ↦ some removed
        | some current ↦ if is_gt removed current then some removed else some current
      ]
    ])
      ≡ join max_of x y
later_removed x none = elim x as (λ r. r ≡ join max_of r none) [ none ↦ refl | some c ↦ refl ]
later_removed none (some r) = refl
later_removed (some c) (some r) = elim (Bool-cases (is_gt r c)) [
  | inl h ↦ rw (h, ← later-eq-max_of c r, h) refl
  | inr h ↦ rw (h, ← later-eq-max_of c r, h) refl
]

abbrev entry : Hlc → Option Hlc → OrSetEntry
entry a r = record { added = a; removed = r }

-- An entry's merge takes the later add and the later remove, each on its own.
pub merge_entry_lem :
    (x y : OrSetEntry)
    → merge_entry x y
      ≡ (record { added = max_of x.added y.added; removed = join max_of x.removed y.removed })
unfolding merge_entry
merge_entry_lem x y =
    ap₂ entry (later-eq-max_of x.added y.added) (later_removed x.removed y.removed)

pub merge_entry_comm : (x y : OrSetEntry) → merge_entry x y ≡ merge_entry y x
merge_entry_comm x y =
    rw (merge_entry_lem x y, merge_entry_lem y x)
      (ap₂ entry (max_of_comm x.added y.added) (join_comm max_of max_of_comm x.removed y.removed))

pub merge_entry_assoc :
    (x y z : OrSetEntry) → merge_entry (merge_entry x y) z ≡ merge_entry x (merge_entry y z)
merge_entry_assoc x y z = simp merge_entry_lem (
    ap₂ entry (max_of_assoc x.added y.added z.added)
      (join_assoc max_of max_of_assoc x.removed y.removed z.removed))

pub merge_entry_idem : (x : OrSetEntry) → merge_entry x x ≡ x
merge_entry_idem x =
    rw (merge_entry_lem x x)
      (ap₂ entry (max_of_idem x.added) (join_idem max_of max_of_idem x.removed))

module _ {ℓ} {A : Type ℓ} ⦃o : Ord A⦄ where
  -- A set as the program builds it: its entries stand in key order.
  abbrev pub IsOrdered : OrSet A → Type 0
  IsOrdered s = IsSorted s.entries

  pub merge-IsOrdered : (a b : OrSet A) → IsOrdered a → IsOrdered (merge a b)
  unfolding merge
  merge-IsOrdered a b h = merge_with-IsSorted merge_entry a.entries b.entries h

  -- Merging two sets gives the same entries in either order.
  pub merge_comm : (a b : OrSet A) → IsOrdered a → IsOrdered b → merge a b ≡ merge b a
  unfolding merge
  merge_comm a b p q =
      ap or_set (merge_with_comm merge_entry a.entries b.entries p q merge_entry_comm)

  pub merge_assoc :
      (a b c : OrSet A)
      → IsOrdered a
      → IsOrdered b
      → IsOrdered c
      → merge (merge a b) c ≡ merge a (merge b c)
  unfolding merge
  merge_assoc a b c p q r =
      ap or_set (merge_with_assoc merge_entry a.entries b.entries c.entries p q r merge_entry_assoc)

  pub merge_idem : (a : OrSet A) → IsOrdered a → merge a a ≡ a
  unfolding merge
  merge_idem a p = ap or_set (merge_with_idem merge_entry a.entries p merge_entry_idem)
