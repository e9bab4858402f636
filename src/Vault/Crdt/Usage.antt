-- ===== src/Vault/Crdt/Usage.antt =====
-- crates/misty-vault/src/crdt/usage.rs: the grow-only counter of each device.
use misty.Prelude.{
  ℕ, zero, suc, ◌+◌, ◌≤◌, ◌≡◌, refl, ap, if◌then◌else◌, leb, Option, none, some, [], ◌∷◌, Ord,
  nat_ord, list_ord, pair_ord, option_ord, same_key, max_of, max_of_comm, max_of_assoc, max_of_idem,
  arith, int_ord,
}
use misty.Prelude.Map.{Map, get, put, IsSorted, get-put}
use misty.Prelude.Map.Merge.{
  merge_with, join, merge_with-IsSorted, get-merge_with, merge_with_comm, merge_with_assoc,
  merge_with_idem,
}
use misty.Vault.Error.{DeviceId}
use misty.Vault.Hlc.Order.{hlc_ord}

pub record UsageCounter : Type 0 where
  pub per_device : Map DeviceId ℕ

-- `UsageCounter::from_counts`
abbrev pub from_counts : Map DeviceId ℕ → UsageCounter
from_counts m = record { per_device = m }

abbrev pub u64_max : ℕ
u64_max = 18446744073709551615

-- `u64::saturating_add`
abbrev pub saturating_add : ℕ → ℕ → ℕ
saturating_add a b = if leb (a + b) u64_max then a + b else u64_max

-- The fold of `UsageCounter::total`, from a running sum.
unfoldable pub sum_counts : ℕ → Map DeviceId ℕ → ℕ
sum_counts sum [] = sum
sum_counts sum ((device, count) ∷ m) = sum_counts (saturating_add sum count) m

-- `UsageCounter::total`
unfoldable pub total : UsageCounter → ℕ
unfolding sum_counts
total u = sum_counts 0 u.per_device

abbrev pub or_zero : Option ℕ → ℕ
or_zero none = 0
or_zero (some n) = n

-- `UsageCounter::for_device`
unfoldable pub for_device : DeviceId → UsageCounter → ℕ
for_device device u = or_zero (get device u.per_device)

-- `UsageCounter::increment`
unfoldable pub increment : DeviceId → ℕ → UsageCounter → UsageCounter
increment device zero u = u
increment device (suc n) u =
    from_counts
      (put device (saturating_add (or_zero (get device u.per_device)) (suc n)) u.per_device)

-- `<UsageCounter as Merge>::merge`. A device that only `other` names gets `max(0, count)`, which
-- is its count.
unfoldable pub merge : UsageCounter → UsageCounter → UsageCounter
merge self other = from_counts (merge_with max_of self.per_device other.per_device)

abbrev pub IsOrdered : UsageCounter → Type 0
IsOrdered u = IsSorted u.per_device

pub merge-IsOrdered : (a b : UsageCounter) → IsOrdered a → IsOrdered (merge a b)
unfolding merge
merge-IsOrdered a b h = merge_with-IsSorted max_of a.per_device b.per_device h

pub merge_comm : (a b : UsageCounter) → IsOrdered a → IsOrdered b → merge a b ≡ merge b a
unfolding merge
merge_comm a b p q =
    ap from_counts (merge_with_comm max_of a.per_device b.per_device p q max_of_comm)

pub merge_assoc :
    (a b c : UsageCounter)
    → IsOrdered a
    → IsOrdered b
    → IsOrdered c
    → merge (merge a b) c ≡ merge a (merge b c)
unfolding merge
merge_assoc a b c p q r =
    ap from_counts
      (merge_with_assoc max_of a.per_device b.per_device c.per_device p q r max_of_assoc)

pub merge_idem : (a : UsageCounter) → IsOrdered a → merge a a ≡ a
unfolding merge
merge_idem a p = ap from_counts (merge_with_idem max_of a.per_device p max_of_idem)

or_zero-join : (x y : Option ℕ) → or_zero (join max_of x y) ≡ max_of (or_zero x) (or_zero y)
unfolding max_of
or_zero-join none none = refl
or_zero-join none (some y) = ground arith
or_zero-join (some x) none = ground arith
or_zero-join (some x) (some y) = refl

-- A merge with a counter in key order counts, for each device, the greater of the two counts.
pub for_device-merge :
    (d : DeviceId) (a b : UsageCounter)
    → IsOrdered b
    → for_device d (merge a b) ≡ max_of (for_device d a) (for_device d b)
unfolding for_device merge
for_device-merge d a b h =
    rw (get-merge_with max_of a.per_device b.per_device d h)
      (or_zero-join (get d a.per_device) (get d b.per_device))

abbrev bytes_ord : Ord DeviceId
bytes_ord = list_ord

-- An increment adds to its own device, whose count is a u64, saturating, and leaves the counts of
-- the others alone.
pub for_device-increment :
    (d e : DeviceId) (n : ℕ) (u : UsageCounter)
    → for_device d u ≤ u64_max
    → for_device e (increment d n u)
      ≡ (if same_key d e then saturating_add (for_device d u) n else for_device e u)
unfolding for_device increment
for_device-increment d e zero u h = ground (arith, bytes_ord.eq_of_cmp d e)
for_device-increment d e (suc n) u h =
    ground (arith, get-put d e (saturating_add (or_zero (get d u.per_device)) (suc n)) u.per_device)
