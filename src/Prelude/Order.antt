-- ===== src/Prelude/Order.antt =====
-- Rust's `Ord`: a comparison with the laws that the trait asks for, and `max` and `min` with their
-- lattice laws.
use native.Mathlib.Omega.{arith}
use mathlib.Core.Bool.{Bool, true, false}
use mathlib.Core.Path.{◌≡◌}
use Prim.Native.Nat.Ordering.{lt, eq, gt}
use Prim.Native.Nat.{ℕ, compare, Ordering}

abbrev pub flip : Ordering → Ordering
flip lt = gt
flip eq = eq
flip gt = lt

abbrev pub then_by : Ordering → Ordering → Ordering
then_by eq second = second
then_by first _ = first

pub record IsLawful {κ} {K : Type κ} (cmp : K → K → Ordering) : Type κ where
  pub lt_trans : (x y z : K) → cmp x y ≡ lt → cmp y z ≡ lt → cmp x z ≡ lt
  pub cmp_flip : (x y : K) → cmp y x ≡ flip (cmp x y)
  pub cmp_refl : (x : K) → cmp x x ≡ eq
  pub eq_of_cmp : (x y : K) → cmp x y ≡ eq → x ≡ y

-- A key type with its order.
pub record Ord {κ} (Key : Type κ) : Type κ where
  pub cmp : Key → Key → Ordering
  pub lawful : IsLawful cmp
  pub open lawful use *

pub compare-IsLawful : IsLawful compare
compare-IsLawful = ground arith

instance abbrev pub nat_ord : Ord ℕ
nat_ord = record { cmp = compare; lawful = compare-IsLawful }

module _ {ℓ} {K : Type ℓ} ⦃o : Ord K⦄ where
  -- `b < a`, `a <= b`, and Rust's `max` and `min`, which prefer the second and the first on a tie.
  abbrev pub is_gt : K → K → Bool
  is_gt a b = elim (o.cmp a b) [ gt ↦ true | _ ↦ false ]

  abbrev pub is_ge : K → K → Bool
  is_ge a b = elim (o.cmp a b) [ lt ↦ false | _ ↦ true ]

  abbrev pub is_le : K → K → Bool
  is_le a b = elim (o.cmp a b) [ gt ↦ false | _ ↦ true ]

  abbrev pub same_key : K → K → Bool
  same_key a b = elim (o.cmp a b) [ eq ↦ true | _ ↦ false ]

  unfoldable pub max_of : K → K → K
  max_of a b = elim (o.cmp a b) [ gt ↦ a | _ ↦ b ]

  unfoldable pub min_of : K → K → K
  min_of a b = elim (o.cmp a b) [ gt ↦ b | _ ↦ a ]

  pub max_of_comm : (a b : K) → max_of a b ≡ max_of b a
  unfolding max_of
  max_of_comm a b = ground (arith, o.cmp_flip a b, o.eq_of_cmp a b)

  pub max_of_idem : (a : K) → max_of a a ≡ a
  unfolding max_of
  max_of_idem a = ground arith

  pub max_of_assoc : (a b c : K) → max_of (max_of a b) c ≡ max_of a (max_of b c)
  unfolding max_of
  max_of_assoc a b c = ground (
    arith,
    o.cmp_flip a b,
    o.cmp_flip b c,
    o.cmp_flip a c,
    o.eq_of_cmp a b,
    o.eq_of_cmp b c,
    o.eq_of_cmp a c,
    o.lt_trans a b c,
    o.lt_trans c b a,
  )

  pub min_of_comm : (a b : K) → min_of a b ≡ min_of b a
  unfolding min_of
  min_of_comm a b = ground (arith, o.cmp_flip a b, o.eq_of_cmp a b)

  pub min_of_idem : (a : K) → min_of a a ≡ a
  unfolding min_of
  min_of_idem a = ground arith

  pub min_of_assoc : (a b c : K) → min_of (min_of a b) c ≡ min_of a (min_of b c)
  unfolding min_of
  min_of_assoc a b c = ground (
    arith,
    o.cmp_flip a b,
    o.cmp_flip b c,
    o.cmp_flip a c,
    o.eq_of_cmp a b,
    o.eq_of_cmp b c,
    o.eq_of_cmp a c,
    o.lt_trans a b c,
    o.lt_trans c b a,
  )

  -- `max` bounds its arguments from above.
  pub le-max_of_left : (a b : K) → is_le a (max_of a b) ≡ true
  unfolding max_of
  le-max_of_left a b = ground (arith, o.cmp_refl a)

  pub le-max_of_right : (a b : K) → is_le b (max_of a b) ≡ true
  unfolding max_of
  le-max_of_right a b = ground (arith, o.cmp_refl b, o.cmp_flip a b)

  pub is_le_trans : (a b c : K) → is_le a b ≡ true → is_le b c ≡ true → is_le a c ≡ true
  is_le_trans a b c p q =
      ground (arith, o.eq_of_cmp a b, o.eq_of_cmp b c, o.cmp_refl a, o.lt_trans a b c)
