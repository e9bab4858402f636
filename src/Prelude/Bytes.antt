-- ===== src/Prelude/Bytes.antt =====
-- Byte strings: big-endian and little-endian encodings of machine words, and slices.
use Prim.Native.Nat.{ℕ, zero, suc, ◌+◌, ◌*◌, ◌/◌, ◌%◌, ◌^◌, ◌≤◌, ◌<◌, compare}
use mathlib.Core.Path.{◌≡◌, refl, ap}
use mathlib.Core.List.{List, [], ◌∷◌, ◌++◌}
use native.Mathlib.Omega.{arith}
use native.Mathlib.Nat.{mod-lt, div-add-mod, pow-suc}
use misty.Prelude.Order.{then_by, nat_ord}
use misty.Prelude.Instances.{cmp_list}
use misty.Prelude.Tests.{length}

-- `to_be_bytes` of a word of `k` bytes, and `from_be_bytes`.
unfoldable pub be_bytes : ℕ → ℕ → List ℕ
be_bytes zero n = []
be_bytes (suc k) n = (n / 256 ^ k) ∷ be_bytes k (n % 256 ^ k)

unfoldable pub from_be : List ℕ → ℕ
from_be [] = 0
from_be (b ∷ bs) = b * 256 ^ length bs + from_be bs

-- `split_at`, in two halves.
module _ {ℓ} {A : Type ℓ} where
  abbrev pub take : ℕ → List A → List A
  take zero xs = []
  take (suc n) [] = []
  take (suc n) (x ∷ xs) = x ∷ take n xs

  abbrev pub drop : ℕ → List A → List A
  drop zero xs = xs
  drop (suc n) [] = []
  drop (suc n) (x ∷ xs) = drop n xs

  pub take-append : (n : ℕ) (xs ys : List A) → length xs ≡ n → take n (xs ++ ys) ≡ xs
  take-append zero [] ys h = refl
  take-append zero (x ∷ xs) ys h = absurd (omega arith)
  take-append (suc n) [] ys h = absurd (omega arith)
  take-append (suc n) (x ∷ xs) ys h = ap (◌∷◌ x) (take-append n xs ys (omega arith))

  pub drop-append : (n : ℕ) (xs ys : List A) → length xs ≡ n → drop n (xs ++ ys) ≡ ys
  drop-append zero [] ys h = refl
  drop-append zero (x ∷ xs) ys h = absurd (omega arith)
  drop-append (suc n) [] ys h = absurd (omega arith)
  drop-append (suc n) (x ∷ xs) ys h = drop-append n xs ys (omega arith)

pub length-be_bytes : (k n : ℕ) → length (be_bytes k n) ≡ k
unfolding be_bytes
length-be_bytes zero n = refl
length-be_bytes (suc k) n = ap suc (length-be_bytes k (n % 256 ^ k))

pub pow256_pos : (k : ℕ) → 0 < 256 ^ k
pow256_pos zero = omega arith
pow256_pos (suc k) = rw pow-suc (omega (arith, pow256_pos k))

pub from_be-be_bytes : (k n : ℕ) → n < 256 ^ k → from_be (be_bytes k n) ≡ n
unfolding be_bytes from_be
from_be-be_bytes zero n h = omega arith
from_be-be_bytes (suc k) n h =
    rw (length-be_bytes, from_be-be_bytes k (n % 256 ^ k) (mod-lt n (pow256_pos k)))
      (omega (arith, div-add-mod n (256 ^ k)))

mul_step : (p a b : ℕ) → a < b → p * a + p ≤ p * b
mul_step p a b h = grind arith

-- Comparing two numbers is comparing their quotients, then their remainders.
compare-div-mod :
    (p m n : ℕ) → 0 < p → compare m n ≡ then_by (compare (m / p) (n / p)) (compare (m % p) (n % p))
compare-div-mod p m n h = ground (
  arith,
  div-add-mod m p,
  div-add-mod n p,
  mod-lt m h,
  mod-lt n h,
  mul_step p (m / p) (n / p),
  mul_step p (n / p) (m / p),
)

-- Big-endian bytes compare as the numbers that they encode.
pub cmp-be_bytes :
    (k m n : ℕ) (xs ys : List ℕ)
    → m < 256 ^ k
    → n < 256 ^ k
    → cmp_list (be_bytes k m ++ xs) (be_bytes k n ++ ys) ≡ then_by (compare m n) (cmp_list xs ys)
unfolding be_bytes
cmp-be_bytes zero m n xs ys p q = ground arith
cmp-be_bytes (suc k) m n xs ys p q =
    rw
      (
        cmp-be_bytes k (m % 256 ^ k) (n % 256 ^ k) xs ys (mod-lt m (pow256_pos k))
            (mod-lt n (pow256_pos k)),
        compare-div-mod (256 ^ k) m n (pow256_pos k),
      )
      (ground arith)
