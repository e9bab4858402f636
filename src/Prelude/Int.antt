-- ===== src/Prelude/Int.antt =====
-- `i64` values as integers: `negsuc n` is -(n + 1). The order is that of the integers.
use Prim.Native.Nat.{ℕ, compare, Ordering}
use Prim.Native.Nat.Ordering.{lt, eq, gt}
use mathlib.Core.Path.{◌≡◌}
use native.Mathlib.Omega.{arith}
use misty.Prelude.Order.{Ord, IsLawful}

pub data ℤ : Type 0 where
  pos : ℕ → ℤ
  negsuc : ℕ → ℤ

abbrev pub cmp_int : ℤ → ℤ → Ordering
cmp_int (pos a) (pos b) = compare a b
cmp_int (pos a) (negsuc b) = gt
cmp_int (negsuc a) (pos b) = lt
cmp_int (negsuc a) (negsuc b) = compare b a

cmp_int_refl : (a : ℤ) → cmp_int a a ≡ eq
cmp_int_refl a = ground arith

eq_of_cmp_int : (a b : ℤ) → cmp_int a b ≡ eq → a ≡ b
eq_of_cmp_int a b h = ground arith

pub cmp_int-IsLawful : IsLawful cmp_int
cmp_int-IsLawful = record {
  cmp_refl = cmp_int_refl;
  eq_of_cmp = eq_of_cmp_int;
  cmp_flip = λ a b. ground arith;
  lt_trans = λ a b c p q. ground arith;
}

instance abbrev pub int_ord : Ord ℤ
int_ord = record { cmp = cmp_int; lawful = cmp_int-IsLawful }
