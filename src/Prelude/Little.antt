-- ===== src/Prelude/Little.antt =====
-- Little-endian words, slices with their bounds checks, and the filling of buffers with zeros.
use misty.Prelude.Bytes.{take, drop}
use Prim.Native.Nat.{ℕ, zero, suc, ◌+◌, ◌-◌, ◌*◌, ◌/◌, ◌%◌, ◌^◌, ◌≤◌, ◌<◌}
use mathlib.Core.Path.{◌≡◌, refl, ap, sym, ◌∙◌}
use mathlib.Core.Bool.{Bool, true, false, not, ◌&&◌, ◌||◌}
use mathlib.Core.Option.{Option, none, some}
use mathlib.Core.List.{List, [], ◌∷◌, ◌++◌, append-nil}
use native.Mathlib.Omega.{arith}
use native.Mathlib.Nat.{pow-suc}
use misty.Prelude.Tests.{length, leb, ◌==◌, if◌then◌else◌}

-- `to_le_bytes` of a word of `k` bytes, and `from_le_bytes`.
unfoldable pub le_bytes : ℕ → ℕ → List ℕ
le_bytes zero n = []
le_bytes (suc k) n = (n % 256) ∷ le_bytes k (n / 256)

unfoldable pub from_le : List ℕ → ℕ
from_le [] = 0
from_le (b ∷ bs) = b + 256 * from_le bs

-- The elements of a byte string are below 256.
abbrev pub AreBytes : List ℕ → Type 0
AreBytes [] = Unit
AreBytes (b ∷ bs) = (b < 256) × AreBytes bs

pub length-le_bytes : (k n : ℕ) → length (le_bytes k n) ≡ k
unfolding le_bytes
length-le_bytes zero n = refl
length-le_bytes (suc k) n = ap suc (length-le_bytes k (n / 256))

pub le_bytes-AreBytes : (k n : ℕ) → AreBytes (le_bytes k n)
unfolding le_bytes
le_bytes-AreBytes zero n = tt
le_bytes-AreBytes (suc k) n = (omega arith, le_bytes-AreBytes k (n / 256))

pub from_le-le_bytes : (k n : ℕ) → n < 256 ^ k → from_le (le_bytes k n) ≡ n
unfolding le_bytes from_le
from_le-le_bytes zero n h = omega arith
from_le-le_bytes (suc k) n h =
    omega (arith, pow-suc 256 k, from_le-le_bytes k (n / 256) (omega (arith, pow-suc 256 k)))

pub le_bytes-injective :
    (k m n : ℕ) → m < 256 ^ k → n < 256 ^ k → le_bytes k m ≡ le_bytes k n → m ≡ n
le_bytes-injective k m n p q h =
    sym (from_le-le_bytes k m p) ∙ ap from_le h ∙ from_le-le_bytes k n q

pub le_bytes-from_le : (bs : List ℕ) → AreBytes bs → le_bytes (length bs) (from_le bs) ≡ bs
unfolding le_bytes from_le
le_bytes-from_le [] h = refl
le_bytes-from_le (b ∷ bs) h =
    let low : (b + 256 * from_le bs) % 256 ≡ b = omega (arith, h.0) in
    let high : (b + 256 * from_le bs) / 256 ≡ from_le bs = omega (arith, h.0) in
    rw (low, high) (ap (◌∷◌ b) (le_bytes-from_le bs h.1))

pub AreBytes-append : (xs ys : List ℕ) → AreBytes xs → AreBytes ys → AreBytes (xs ++ ys)
AreBytes-append [] ys p q = q
AreBytes-append (x ∷ xs) ys p q = (p.0, AreBytes-append xs ys p.1 q)

pub AreBytes-take : (n : ℕ) (xs : List ℕ) → AreBytes xs → AreBytes (take n xs)
AreBytes-take zero xs p = tt
AreBytes-take (suc n) [] p = tt
AreBytes-take (suc n) (x ∷ xs) p = (p.0, AreBytes-take n xs p.1)

unfoldable pub zero_fill : ℕ → List ℕ
zero_fill zero = []
zero_fill (suc n) = 0 ∷ zero_fill n

unfoldable pub any_nonzero : List ℕ → Bool
any_nonzero [] = false
any_nonzero (b ∷ bs) = not (b == 0) || any_nonzero bs

pub length-zero_fill : (n : ℕ) → length (zero_fill n) ≡ n
unfolding zero_fill
length-zero_fill zero = refl
length-zero_fill (suc n) = ap suc (length-zero_fill n)

pub any_nonzero-zero_fill : (n : ℕ) → any_nonzero (zero_fill n) ≡ false
unfolding any_nonzero zero_fill
any_nonzero-zero_fill zero = refl
any_nonzero-zero_fill (suc n) = any_nonzero-zero_fill n

pub eq_zero_fill : (bs : List ℕ) → any_nonzero bs ≡ false → bs ≡ zero_fill (length bs)
unfolding any_nonzero zero_fill
eq_zero_fill [] h = refl
eq_zero_fill (zero ∷ bs) h = ap (◌∷◌ 0) (eq_zero_fill bs h)
eq_zero_fill (suc b ∷ bs) h = absurd (ground (arith, h))

-- `slice.get(from..to)`, and `split_at_checked`.
module _ {ℓ} {A : Type ℓ} where
  abbrev pub get_range : ℕ → ℕ → List A → Option (List A)
  get_range from to xs =
      if leb from to && leb to (length xs) then some (take (to - from) (drop from xs)) else none

  abbrev pub split_at_checked : ℕ → List A → Option (List A × List A)
  split_at_checked n xs = if leb n (length xs) then some (take n xs, drop n xs) else none

  pub length-take_le : (n : ℕ) (xs : List A) → n ≤ length xs → length (take n xs) ≡ n
  length-take_le zero xs h = refl
  length-take_le (suc n) [] h = absurd (omega arith)
  length-take_le (suc n) (x ∷ xs) h = ap suc (length-take_le n xs (omega arith))

  pub length-drop : (n : ℕ) (xs : List A) → length (drop n xs) ≡ length xs - n
  length-drop zero xs = omega arith
  length-drop (suc n) [] = omega arith
  length-drop (suc n) (x ∷ xs) = omega (arith, length-drop n xs)

  pub take-all : (n : ℕ) (xs : List A) → length xs ≡ n → take n xs ≡ xs
  take-all zero [] h = refl
  take-all zero (x ∷ xs) h = absurd (omega arith)
  take-all (suc n) [] h = absurd (omega arith)
  take-all (suc n) (x ∷ xs) h = ap (◌∷◌ x) (take-all n xs (omega arith))

  pub append-take-drop : (n : ℕ) (xs : List A) → take n xs ++ drop n xs ≡ xs
  append-take-drop zero xs = refl
  append-take-drop (suc n) [] = refl
  append-take-drop (suc n) (x ∷ xs) = ap (◌∷◌ x) (append-take-drop n xs)

pub get_range-inverse :
    (from to : ℕ) (xs ys : List ℕ)
    → get_range from to xs ≡ some ys
    → (from ≤ to) × (to ≤ length xs) × (take (to - from) (drop from xs) ≡ ys)
get_range-inverse from to xs ys h = ground arith

-- `Vec::resize` with the value 0.
abbrev pub resize : ℕ → List ℕ → List ℕ
resize n bs = if leb n (length bs) then take n bs else bs ++ zero_fill (n - length bs)

pub resize-grow : (n k : ℕ) (bs : List ℕ) → n ≡ length bs + k → resize n bs ≡ bs ++ zero_fill k
unfolding zero_fill
resize-grow n zero bs h =
    let full : leb n (length bs) ≡ true = ground arith in
    rw (full, append-nil bs) (take-all n bs (omega arith))
resize-grow n (suc k) bs h =
    let short : leb n (length bs) ≡ false = ground arith in
    let gap : n - length bs ≡ suc k = omega arith in rw (short, gap) refl

pub zero_fill-AreBytes : (n : ℕ) → AreBytes (zero_fill n)
unfolding zero_fill
zero_fill-AreBytes zero = tt
zero_fill-AreBytes (suc n) = (omega arith, zero_fill-AreBytes n)
