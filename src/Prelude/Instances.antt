-- ===== src/Prelude/Instances.antt =====
-- The orders that Rust derives: lexicographic on pairs and on slices, `None` before `Some`.
use Prim.Native.Nat.{Ordering}
use Prim.Native.Nat.Ordering.{lt, eq, gt}
use mathlib.Core.Path.{◌≡◌, refl}
use mathlib.Core.Option.{Option, none, some}
use mathlib.Core.List.{List, [], ◌∷◌}
use native.Mathlib.Omega.{arith}
use misty.Prelude.Order.{Ord, IsLawful, flip, then_by}

module _ {κ ℓ} {K : Type κ} {V : Type ℓ} ⦃k : Ord K⦄ ⦃v : Ord V⦄ where
  abbrev pub cmp_pair : K × V → K × V → Ordering
  cmp_pair p q = then_by (k.cmp p.0 q.0) (v.cmp p.1 q.1)

  pub cmp_pair-IsLawful : IsLawful {K = K × V} cmp_pair
  cmp_pair-IsLawful = record {
    cmp_flip = λ p q. ground (arith, k.cmp_flip p.0 q.0, v.cmp_flip p.1 q.1);
    cmp_refl = λ p. simp (k.cmp_refl, v.cmp_refl);
    lt_trans = λ p q r. ground (
      arith,
      k.eq_of_cmp p.0 q.0,
      k.eq_of_cmp q.0 r.0,
      k.lt_trans p.0 q.0 r.0,
      v.lt_trans p.1 q.1 r.1,
      k.cmp_refl p.0,
    );
    eq_of_cmp = λ p q. ground (arith, k.eq_of_cmp p.0 q.0, v.eq_of_cmp p.1 q.1);
  }

  instance abbrev pub pair_ord : Ord (K × V)
  pair_ord = record { cmp = cmp_pair; lawful = cmp_pair-IsLawful }

module _ {ℓ} {A : Type ℓ} ⦃a : Ord A⦄ where
  abbrev pub cmp_list : List A → List A → Ordering
  cmp_list [] [] = eq
  cmp_list [] (y ∷ ys) = lt
  cmp_list (x ∷ xs) [] = gt
  cmp_list (x ∷ xs) (y ∷ ys) = then_by (a.cmp x y) (cmp_list xs ys)

  cmp_list_refl : (xs : List A) → cmp_list xs xs ≡ eq
  cmp_list_refl [] = refl
  cmp_list_refl (x ∷ xs) = ground (arith, a.cmp_refl x, cmp_list_refl xs)

  eq_of_cmp_list : (xs ys : List A) → cmp_list xs ys ≡ eq → xs ≡ ys
  eq_of_cmp_list [] [] h = refl
  eq_of_cmp_list [] (y ∷ ys) h = cc
  eq_of_cmp_list (x ∷ xs) [] h = cc
  eq_of_cmp_list (x ∷ xs) (y ∷ ys) h = ground (arith, a.eq_of_cmp x y, eq_of_cmp_list xs ys)

  cmp_list-flip : (xs ys : List A) → cmp_list ys xs ≡ flip (cmp_list xs ys)
  cmp_list-flip [] [] = refl
  cmp_list-flip [] (y ∷ ys) = refl
  cmp_list-flip (x ∷ xs) [] = refl
  cmp_list-flip (x ∷ xs) (y ∷ ys) = ground (arith, a.cmp_flip x y, cmp_list-flip xs ys)

  cmp_list_trans :
      (xs ys zs : List A) → cmp_list xs ys ≡ lt → cmp_list ys zs ≡ lt → cmp_list xs zs ≡ lt
  cmp_list_trans [] [] zs p q = cc
  cmp_list_trans [] (y ∷ ys) [] p q = cc
  cmp_list_trans [] (y ∷ ys) (z ∷ zs) p q = refl
  cmp_list_trans (x ∷ xs) [] zs p q = cc
  cmp_list_trans (x ∷ xs) (y ∷ ys) [] p q = cc
  cmp_list_trans (x ∷ xs) (y ∷ ys) (z ∷ zs) p q = ground (
    arith,
    a.eq_of_cmp x y,
    a.eq_of_cmp y z,
    a.lt_trans x y z,
    a.cmp_refl x,
    cmp_list_trans xs ys zs,
  )

  pub cmp_list-IsLawful : IsLawful {K = List A} cmp_list
  cmp_list-IsLawful = record {
    cmp_refl = cmp_list_refl;
    eq_of_cmp = eq_of_cmp_list;
    cmp_flip = cmp_list-flip;
    lt_trans = cmp_list_trans;
  }

  instance abbrev pub list_ord : Ord (List A)
  list_ord = record { cmp = cmp_list; lawful = cmp_list-IsLawful }

  abbrev pub cmp_option : Option A → Option A → Ordering
  cmp_option none none = eq
  cmp_option none (some y) = lt
  cmp_option (some x) none = gt
  cmp_option (some x) (some y) = a.cmp x y

  pub cmp_option-IsLawful : IsLawful {K = Option A} cmp_option
  cmp_option-IsLawful = record {
    cmp_refl = elim [ none ↦ refl | some x ↦ a.cmp_refl x ];
    eq_of_cmp = grind (arith, a.eq_of_cmp);
    cmp_flip = grind (arith, a.cmp_flip);
    lt_trans = grind (arith, a.lt_trans);
  }

  instance abbrev pub option_ord : Ord (Option A)
  option_ord = record { cmp = cmp_option; lawful = cmp_option-IsLawful }
