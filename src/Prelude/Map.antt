-- ===== src/Prelude/Map.antt =====
-- `std::collections::BTreeMap` as the list of its entries in ascending key order.
pub mod Merge
use Prim.Native.Nat.Ordering.{lt, eq, gt}
use mathlib.Core.Path.{◌≡◌, refl}
use mathlib.Core.Option.{Option, none, some}
use mathlib.Core.List.{List, [], ◌∷◌}
use native.Mathlib.Omega.{arith}
use misty.Prelude.Order.{Ord, same_key}
use misty.Prelude.Tests.{if◌then◌else◌}

abbrev pub Map {ℓ κ} : Type ℓ → Type κ → Type (ℓ ⊔ κ)
Map K V = List (K × V)

module _ {ℓ κ} {K : Type ℓ} {V : Type κ} ⦃o : Ord K⦄ where
  unfoldable pub get : K → Map K V → Option V
  get k [] = none
  get k ((j, v) ∷ m) =
      let rest = get k m in elim (o.cmp k j) [ lt ↦ none | eq ↦ some v | gt ↦ rest ]

  unfoldable pub put : K → V → Map K V → Map K V
  put k v [] = (k, v) ∷ []
  put k v ((j, w) ∷ m) =
      let rest = put k v m in
      elim (o.cmp k j) [ lt ↦ (k, v) ∷ (j, w) ∷ m | eq ↦ (k, v) ∷ m | gt ↦ (j, w) ∷ rest ]

  unfoldable pub remove : K → Map K V → Map K V
  remove k [] = []
  remove k ((j, w) ∷ m) =
      let rest = remove k m in elim (o.cmp k j) [ lt ↦ (j, w) ∷ m | eq ↦ m | gt ↦ (j, w) ∷ rest ]

  -- Every key of the map comes after `k`.
  abbrev pub Above : K → Map K V → Type 0
  Above k [] = Unit
  Above k ((j, v) ∷ m) = (o.cmp k j ≡ lt) × Above k m

  abbrev pub IsSorted : Map K V → Type 0
  IsSorted [] = Unit
  IsSorted ((k, v) ∷ m) = Above k m × IsSorted m

  pub Above-trans : (k j : K) (m : Map K V) → o.cmp k j ≡ lt → Above j m → Above k m
  Above-trans k j [] p h = tt
  Above-trans k j ((i, v) ∷ m) p h = (o.lt_trans k j i p h.0, Above-trans k j m p h.1)

  pub get-Above : (k : K) (m : Map K V) → Above k m → get k m ≡ none
  unfolding get
  get-Above k [] h = refl
  get-Above k ((j, v) ∷ m) h = ground arith

  Above-put : (j k : K) (v : V) (m : Map K V) → o.cmp j k ≡ lt → Above j m → Above j (put k v m)
  unfolding put
  Above-put j k v [] p h = (p, tt)
  Above-put j k v ((i, w) ∷ m) p h = ground (arith, Above-put j k v m)

  pub put-IsSorted : (k : K) (v : V) (m : Map K V) → IsSorted m → IsSorted (put k v m)
  unfolding put
  put-IsSorted k v [] h = (tt, tt)
  put-IsSorted k v ((j, w) ∷ m) h = ground (
    arith,
    put-IsSorted k v m,
    o.cmp_flip k j,
    o.eq_of_cmp k j,
    Above-put j k v m,
    Above-trans k j m,
  )

  Above-remove : (j k : K) (m : Map K V) → Above j m → Above j (remove k m)
  unfolding remove
  Above-remove j k [] h = tt
  Above-remove j k ((i, w) ∷ m) h = ground (arith, Above-remove j k m)

  pub remove-IsSorted : (k : K) (m : Map K V) → IsSorted m → IsSorted (remove k m)
  unfolding remove
  remove-IsSorted k [] h = tt
  remove-IsSorted k ((j, w) ∷ m) h = ground (arith, remove-IsSorted k m, Above-remove j k m)

  pub get-put :
      (k j : K) (v : V) (m : Map K V)
      → get j (put k v m) ≡ (if same_key k j then some v else get j m)
  unfolding get put
  get-put k j v [] = ground (arith, o.cmp_flip k j)
  get-put k j v ((i, w) ∷ m) = ground (
    arith,
    get-put k j v m,
    o.cmp_flip k j,
    o.cmp_flip i k,
    o.eq_of_cmp k j,
    o.eq_of_cmp k i,
    o.eq_of_cmp j i,
    o.lt_trans j k i,
    o.lt_trans i k j,
    o.cmp_flip i j,
    o.cmp_refl k,
  )

  pub get-remove :
      (k j : K) (m : Map K V)
      → IsSorted m
      → get j (remove k m) ≡ (if same_key k j then none else get j m)
  unfolding get remove
  get-remove k j [] h = ground arith
  get-remove k j ((i, w) ∷ m) h = ground (
    arith,
    get-remove k j m,
    get-Above j m,
    Above-trans j i m,
    o.cmp_flip k j,
    o.cmp_flip i k,
    o.eq_of_cmp k j,
    o.eq_of_cmp k i,
    o.eq_of_cmp j i,
    o.lt_trans j k i,
    o.lt_trans i k j,
    o.cmp_flip i j,
    o.cmp_refl k,
  )

  pub get_head : (k : K) (v : V) (m : Map K V) → get k ((k, v) ∷ m) ≡ some v
  unfolding get
  get_head k v m = ground (arith, o.cmp_refl k)

  pub get_tail :
      (j : K) (v : V) (m : Map K V) (k : K) (w : V)
      → Above j m
      → get k m ≡ some w
      → get k ((j, v) ∷ m) ≡ some w
  unfolding get
  get_tail j v m k w a h = ground (arith, get-Above k m, Above-trans k j m, o.eq_of_cmp k j)

  ext_head :
      (k j : K) (v w : V) (m n : Map K V)
      → Above k m
      → Above j n
      → ((i : K) → get i ((k, v) ∷ m) ≡ get i ((j, w) ∷ n))
      → (k ≡ j) × (v ≡ w)
  unfolding get
  ext_head k j v w m n p q h = ground (
    arith,
    h k,
    h j,
    o.cmp_refl k,
    o.cmp_refl j,
    o.cmp_flip k j,
    o.eq_of_cmp k j,
    get-Above k n,
    get-Above j m,
    Above-trans k j n,
    Above-trans j k m,
  )

  ext_tail :
      (k j : K) (v w : V) (m n : Map K V)
      → k ≡ j
      → Above k m
      → Above j n
      → ((i : K) → get i ((k, v) ∷ m) ≡ get i ((j, w) ∷ n))
      → (i : K) → get i m ≡ get i n
  unfolding get
  ext_tail k j v w m n e p q h i = ground (
    arith,
    h i,
    o.eq_of_cmp i k,
    get-Above i m,
    get-Above i n,
    Above-trans i k m,
    Above-trans i j n,
  )

  -- Two maps with the same lookups are the same list.
  pub ext : (m n : Map K V) → IsSorted m → IsSorted n → ((k : K) → get k m ≡ get k n) → m ≡ n
  unfolding get
  ext [] [] p q h = refl
  ext [] ((k, v) ∷ n) p q h = ground (arith, h k, o.cmp_refl k)
  ext ((k, v) ∷ m) [] p q h = ground (arith, h k, o.cmp_refl k)
  ext ((k, v) ∷ m) ((j, w) ∷ n) p q h =
      let same : (k ≡ j) × (v ≡ w) = ext_head k j v w m n p.0 q.0 h in
      ground (arith, ext m n p.1 q.1 (ext_tail k j v w m n same.0 p.0 q.0 h))
