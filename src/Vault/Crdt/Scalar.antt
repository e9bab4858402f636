-- ===== src/Vault/Crdt/Scalar.antt =====
-- crates/misty-vault/src/crdt/scalar.rs: the registers whose value is its own order. The macro
-- `extremum!` is written out for its two uses.
use misty.Prelude.{
  ◌≡◌, ap, Bool, true, false, if◌then◌else◌, Ord, nat_ord, list_ord, pair_ord, option_ord, is_gt,
  is_le, max_of, min_of, max_of_comm, max_of_assoc, max_of_idem, min_of_comm, min_of_assoc,
  min_of_idem, le-max_of_left, arith,
}
use misty.Vault.Hlc.Order.{hlc_ord}

pub record MaxWins {ℓ} (A : Type ℓ) : Type ℓ where
  pub value : A

pub record MinWins {ℓ} (A : Type ℓ) : Type ℓ where
  pub value : A

module _ {ℓ} {A : Type ℓ} ⦃o : Ord A⦄ where
  unfoldable pub set_max : A → MaxWins A → MaxWins A × Bool
  set_max v r = if is_gt v r.value then (record { value = v }, true) else (r, false)

  unfoldable pub set_min : A → MinWins A → MinWins A × Bool
  set_min v r = if is_gt r.value v then (record { value = v }, true) else (r, false)

  unfoldable pub merge_max : MaxWins A → MaxWins A → MaxWins A
  unfolding max_of
  merge_max self other = record { value = max_of self.value other.value }

  unfoldable pub merge_min : MinWins A → MinWins A → MinWins A
  unfolding min_of
  merge_min self other = record { value = min_of self.value other.value }

  abbrev max_wins : A → MaxWins A
  max_wins v = record { value = v }

  abbrev min_wins : A → MinWins A
  min_wins v = record { value = v }

  pub merge_max_comm : (a b : MaxWins A) → merge_max a b ≡ merge_max b a
  unfolding merge_max
  merge_max_comm a b = ap max_wins (max_of_comm a.value b.value)

  pub merge_max_assoc :
      (a b c : MaxWins A) → merge_max (merge_max a b) c ≡ merge_max a (merge_max b c)
  unfolding merge_max
  merge_max_assoc a b c = ap max_wins (max_of_assoc a.value b.value c.value)

  pub merge_max_idem : (a : MaxWins A) → merge_max a a ≡ a
  unfolding merge_max
  merge_max_idem a = ap max_wins (max_of_idem a.value)

  pub merge_min_comm : (a b : MinWins A) → merge_min a b ≡ merge_min b a
  unfolding merge_min
  merge_min_comm a b = ap min_wins (min_of_comm a.value b.value)

  pub merge_min_assoc :
      (a b c : MinWins A) → merge_min (merge_min a b) c ≡ merge_min a (merge_min b c)
  unfolding merge_min
  merge_min_assoc a b c = ap min_wins (min_of_assoc a.value b.value c.value)

  pub merge_min_idem : (a : MinWins A) → merge_min a a ≡ a
  unfolding merge_min
  merge_min_idem a = ap min_wins (min_of_idem a.value)

  -- A register never moves down, by a write or by a merge.
  pub set_max_grows : (v : A) (r : MaxWins A) → is_le r.value (set_max v r).0.value ≡ true
  unfolding set_max
  set_max_grows v r = ground (arith, o.cmp_refl r.value, o.cmp_flip v r.value)

  pub merge_max_grows : (a b : MaxWins A) → is_le a.value (merge_max a b).value ≡ true
  unfolding merge_max
  merge_max_grows a b = le-max_of_left a.value b.value
