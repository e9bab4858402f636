-- ===== src/Prelude/Equality.antt =====
-- Rust's `PartialEq`, where it decides equality.
use mathlib.Core.Path.{◌≡◌, refl}
use mathlib.Core.Logic.{◌↔◌}
use mathlib.Core.Bool.{Bool, true, false}
use native.Mathlib.Omega.{arith}
use misty.Prelude.Order.{Ord, same_key}

pub record Eq {κ} (V : Type κ) : Type κ where
  pub beq : V → V → Bool
  pub beq_iff : (x y : V) → (beq x y ≡ true) ↔ (x ≡ y)

-- The equality of an order.
pub same_key_iff {ℓ} : {K : Type ℓ} ⦃o : Ord K⦄ (a b : K) → (same_key a b ≡ true) ↔ (a ≡ b)
same_key_iff ⦃o⦄ a b = (λ h. ground (arith, o.eq_of_cmp a b), λ h. ground (arith, o.cmp_refl a))

abbrev pub eq_of_ord {ℓ} : {K : Type ℓ} → Ord K → Eq K
eq_of_ord o = record { beq = same_key ⦃o = o⦄; beq_iff = same_key_iff ⦃o = o⦄ }

abbrev pub dec_beq {ℓ} : {A : Type ℓ} → Discrete A → A → A → Bool
dec_beq d a b = elim (d a b) [ yes _ ↦ true | no _ ↦ false ]

pub dec_beq_iff {ℓ} : {A : Type ℓ} (d : Discrete A) (a b : A) → (dec_beq d a b ≡ true) ↔ (a ≡ b)
dec_beq_iff d a b = (forth (d a b), back (d a b))
  where
    forth : (r : Dec (a ≡ b)) → elim r [ yes _ ↦ true | no _ ↦ false ] ≡ true → a ≡ b
    forth (yes p) h = p
    forth (no p) h = cc

    back : (r : Dec (a ≡ b)) → a ≡ b → elim r [ yes _ ↦ true | no _ ↦ false ] ≡ true
    back (yes p) h = refl
    back (no p) h = absurd (p h)

abbrev pub eq_of_discrete {ℓ} : {A : Type ℓ} → Discrete A → Eq A
eq_of_discrete d = record { beq = dec_beq d; beq_iff = dec_beq_iff d }
