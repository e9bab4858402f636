-- ===== src/Vault/Tombstone.antt =====
-- crates/misty-vault/src/model/tombstone.rs: deletion as a value.
use misty.Prelude.{
  ℕ, ◌-◌, ◌≡◌, ◌≢◌, inl, inr, refl, Bool, false, Bool-cases, if◌then◌else◌, leb, Option, none, some,
  nat_ord, list_ord, pair_ord, option_ord, is_gt, arith, int_ord,
}
use misty.Vault.Hlc.Order.{Hlc, hlc_ord}

pub data TombstoneReason : Type 0 where
  user trash_expired : TombstoneReason

pub record Tombstone : Type 0 where
  pub hlc : Hlc
  pub reason : TombstoneReason

-- `Tombstone::is_purgeable`: the subtraction saturates, as `-` on ℕ does.
unfoldable pub is_purgeable : Tombstone → ℕ → ℕ → Bool
is_purgeable stone now_ms retention_ms = leb retention_ms (now_ms - stone.hlc.wall_ms)

-- `merge_tombstone`
unfoldable pub merge_tombstone : Option Tombstone → Option Tombstone → Option Tombstone
merge_tombstone (some mine) (some theirs) =
    if is_gt theirs.hlc mine.hlc then some theirs else some mine
merge_tombstone none (some theirs) = some theirs
merge_tombstone (some mine) none = some mine
merge_tombstone none none = none

-- `tombstone_wins`
unfoldable pub tombstone_wins : Option Tombstone → Hlc → Bool
tombstone_wins none max_field_hlc = false
tombstone_wins (some stone) max_field_hlc = is_gt stone.hlc max_field_hlc

-- One clock names one delete.
abbrev pub Agree : Option Tombstone → Option Tombstone → Type 0
Agree none t = Unit
Agree (some a) none = Unit
Agree (some a) (some b) = a.hlc ≡ b.hlc → a.reason ≡ b.reason

-- Where one clock names one delete, the merge of two tombstones does not depend on their order.
pub merge_tombstone_comm :
    (a b : Option Tombstone) → Agree a b → merge_tombstone a b ≡ merge_tombstone b a
unfolding merge_tombstone
merge_tombstone_comm none none h = refl
merge_tombstone_comm none (some b) h = refl
merge_tombstone_comm (some a) none h = refl
merge_tombstone_comm (some a) (some b) h =
    ground (arith, h, hlc_ord.eq_of_cmp b.hlc a.hlc, hlc_ord.cmp_flip b.hlc a.hlc)

pub merge_tombstone_idem : (a : Option Tombstone) → merge_tombstone a a ≡ a
unfolding merge_tombstone
merge_tombstone_idem none = refl
merge_tombstone_idem (some a) = ground (arith, hlc_ord.cmp_refl a.hlc)

pub merge_tombstone_assoc :
    (a b c : Option Tombstone)
    → merge_tombstone (merge_tombstone a b) c ≡ merge_tombstone a (merge_tombstone b c)
unfolding merge_tombstone
merge_tombstone_assoc none none none = refl
merge_tombstone_assoc none none (some c) = refl
merge_tombstone_assoc none (some b) none = refl
merge_tombstone_assoc none (some b) (some c) = ground arith
merge_tombstone_assoc (some a) none none = refl
merge_tombstone_assoc (some a) none (some c) = refl
merge_tombstone_assoc (some a) (some b) none = ground arith
merge_tombstone_assoc (some a) (some b) (some c) = ground (
  arith,
  hlc_ord.cmp_flip a.hlc b.hlc,
  hlc_ord.cmp_flip b.hlc c.hlc,
  hlc_ord.cmp_flip a.hlc c.hlc,
  hlc_ord.eq_of_cmp a.hlc b.hlc,
  hlc_ord.eq_of_cmp b.hlc c.hlc,
  hlc_ord.eq_of_cmp a.hlc c.hlc,
  hlc_ord.lt_trans a.hlc b.hlc c.hlc,
  hlc_ord.lt_trans c.hlc b.hlc a.hlc,
)

-- Two deletes under one clock with different reasons: each side keeps its own, whichever merges the
-- other in, and so the two orders of the merge differ.
pub merge_tombstone_tie :
    (a b : Tombstone)
    → a.hlc ≡ b.hlc
    → a.reason ≢ b.reason
    → (merge_tombstone (some a) (some b) ≡ some a)
      × (merge_tombstone (some b) (some a) ≡ some b)
      × (merge_tombstone (some a) (some b) ≢ merge_tombstone (some b) (some a))
unfolding merge_tombstone
merge_tombstone_tie a b e n = (
  ground (arith, hlc_ord.cmp_refl b.hlc, e),
  ground (arith, hlc_ord.cmp_refl b.hlc, e),
  λ h. ground (arith, hlc_ord.cmp_refl a.hlc, hlc_ord.cmp_refl b.hlc, n),
)

pub Agree-merge_tombstone_left :
    (a b c : Option Tombstone) → Agree a c → Agree b c → Agree (merge_tombstone a b) c
unfolding merge_tombstone
Agree-merge_tombstone_left none none c p q = tt
Agree-merge_tombstone_left none (some b) c p q = q
Agree-merge_tombstone_left (some a) none c p q = p
Agree-merge_tombstone_left (some a) (some b) c p q = elim (Bool-cases (is_gt b.hlc a.hlc)) [
  | inl h ↦ rw h q
  | inr h ↦ rw h p
]

pub Agree-merge_tombstone_right :
    (a b c : Option Tombstone) → Agree a b → Agree a c → Agree a (merge_tombstone b c)
unfolding merge_tombstone
Agree-merge_tombstone_right a none none p q = p
Agree-merge_tombstone_right a none (some c) p q = q
Agree-merge_tombstone_right a (some b) none p q = p
Agree-merge_tombstone_right a (some b) (some c) p q = elim (Bool-cases (is_gt c.hlc b.hlc)) [
  | inl h ↦ rw h q
  | inr h ↦ rw h p
]
