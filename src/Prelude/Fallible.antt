-- ===== src/Prelude/Fallible.antt =====
-- Fallible code: a value or an error, and the bind that passes errors on.
use mathlib.Core.Path.{◌≡◌, refl, sym}
use mathlib.Core.Bool.{Bool, true, false}
use misty.Prelude.Tests.{if◌then◌else◌}
use mathlib.Core.Logic.{◌⊎◌, inl, inr}
use mathlib.Core.Option.{Option, none, some}

pub data Result {ℓ κ} (E : Type κ) (A : Type ℓ) : Type (ℓ ⊔ κ) where
  err : E → Result E A
  ok : A → Result E A

pub ok-injective {ℓ κ} :
    {E : Type κ} {A : Type ℓ} {x y : A} → ◌≡◌ {A = Result E A} (ok x) (ok y) → x ≡ y
ok-injective h = cc

pub ok_not_err {ℓ κ} :
    {E : Type κ} {A : Type ℓ} {x : A} {e : E} → ¬ (◌≡◌ {A = Result E A} (ok x) (err e))
ok_not_err h = cc

infixl 5 ◌>>=◌
abbrev pub ◌>>=◌ {ℓ κ μ} :
    {E : Type κ} {A : Type ℓ} {B : Type μ} → Result E A → (A → Result E B) → Result E B
ok value >>= next = next value
err failure >>= next = err failure

infixl 5 ◌>>◌
abbrev pub ◌>>◌ {ℓ κ μ} :
    {E : Type κ} {A : Type ℓ} {B : Type μ} → Result E A → Result E B → Result E B
first >> second = first >>= λ _. second

-- A chain that gives a value passed its first step.
pub bind_ok {ℓ κ μ} :
    {E : Type κ} {A : Type ℓ} {B : Type μ} (first : Result E A) (next : A → Result E B) (y : B)
    → (first >>= next) ≡ ok y
    → (x : A) × (first ≡ ok x) × (next x ≡ ok y)
bind_ok (ok x) next y h = (x, refl, h)
bind_ok (err e) next y h = absurd (ok_not_err (sym h))

pub Result-cases {ℓ κ} :
    {E : Type κ} {A : Type ℓ} (x : Result E A) → ((v : A) × (x ≡ ok v)) ⊎ ((e : E) × (x ≡ err e))
Result-cases (ok v) = inl (v, refl)
Result-cases (err e) = inr (e, refl)

pub Option-cases {ℓ} : {A : Type ℓ} (x : Option A) → ((v : A) × (x ≡ some v)) ⊎ (x ≡ none)
Option-cases (some v) = inl (v, refl)
Option-cases none = inr refl

-- A chain that gives a value passed its guard.
pub guard_ok {ℓ κ} :
    {E : Type κ} {A : Type ℓ} (test : Bool) (e : E) (rest : Result E A) (y : A)
    → (if test then err e else rest) ≡ ok y
    → (test ≡ false) × (rest ≡ ok y)
guard_ok true e rest y h = absurd (ok_not_err (sym h))
guard_ok false e rest y h = (refl, h)

pub guard_else_ok {ℓ κ} :
    {E : Type κ} {A : Type ℓ} (test : Bool) (e : E) (rest : Result E A) (y : A)
    → (if test then rest else err e) ≡ ok y
    → (test ≡ true) × (rest ≡ ok y)
guard_else_ok true e rest y h = (refl, h)
guard_else_ok false e rest y h = absurd (ok_not_err (sym h))
