-- ===== src/Sync/Queue/Elements.antt =====
-- What the sorting, the joining and the tests of `pending` in crates/misty-sync/src/engine.rs leave in a list of
-- writes.
use misty.Prelude.{
  ◌≡◌, ◌⊎◌, ◌↔◌, refl, inl, inr, Bool, true, false, Bool-cases, if◌then◌else◌, List, [], ◌∷◌, ◌++◌,
  list_ord, nat_ord, option_ord, pair_ord,
}
use misty.Sync.Queue.{PendingWrite, not_after, insert_write, sort_writes}

abbrev pub In : PendingWrite → List PendingWrite → Type 0
In w [] = ⊥
In w (x ∷ xs) = (w ≡ x) ⊎ In w xs

pub insert_write-In :
    (w x : PendingWrite) (xs : List PendingWrite) → In w (insert_write x xs) ↔ ((w ≡ x) ⊎ In w xs)
unfolding insert_write
insert_write-In w x [] = (λ h. h, λ h. h)
insert_write-In w x (y ∷ ys) = elim (Bool-cases (not_after x y)) [
  | inl first ↦ rw first (λ h. h, λ h. h)
  | inr later ↦ rw later (
    λ h. elim h [
      | inl a ↦ inr (inl a)
      | inr b ↦ elim ((insert_write-In w x ys).0 b) [ inl c ↦ inl c | inr d ↦ inr (inr d) ]
    ],
    λ h. elim h [
      | inl a ↦ inr ((insert_write-In w x ys).1 (inl a))
      | inr b ↦ elim b [ inl c ↦ inl c | inr d ↦ inr ((insert_write-In w x ys).1 (inr d)) ]
    ],
  )
]

pub sort_writes-In : (w : PendingWrite) (ws : List PendingWrite) → In w (sort_writes ws) ↔ In w ws
unfolding sort_writes
sort_writes-In w [] = (λ h. h, λ h. h)
sort_writes-In w (x ∷ ws) = (
  λ h. elim ((insert_write-In w x (sort_writes ws)).0 h) [
    | inl a ↦ inl a
    | inr b ↦ inr ((sort_writes-In w ws).0 b)
  ],
  λ h.
      (insert_write-In w x (sort_writes ws)).1
        (elim h [ inl a ↦ inl a | inr b ↦ inr ((sort_writes-In w ws).1 b) ]),
)

pub append-In :
    (w : PendingWrite) (xs ys : List PendingWrite) → In w (xs ++ ys) ↔ (In w xs ⊎ In w ys)
append-In w [] ys = (λ h. inr h, λ h. elim h [ inl a ↦ absurd a | inr b ↦ b ])
append-In w (x ∷ xs) ys = (
  λ h. elim h [
    | inl a ↦ inl (inl a)
    | inr b ↦ elim ((append-In w xs ys).0 b) [ inl c ↦ inl (inr c) | inr d ↦ inr d ]
  ],
  λ h. elim h [
    | inl a ↦ elim a [ inl c ↦ inl c | inr d ↦ inr ((append-In w xs ys).1 (inl d)) ]
    | inr b ↦ inr ((append-In w xs ys).1 (inr b))
  ],
)

-- What stands in a list that a test has put something in front of.
pub if-In :
    (test : Bool) (w x : PendingWrite) (xs : List PendingWrite)
    → In w (if test then x ∷ xs else xs) ↔ (((w ≡ x) × (test ≡ true)) ⊎ In w xs)
if-In true w x xs = (
  λ h. elim h [ inl a ↦ inl (a, refl) | inr b ↦ inr b ],
  λ h. elim h [ inl a ↦ inl a.0 | inr b ↦ inr b ],
)
if-In false w x xs = (λ h. inr h, λ h. elim h [ inl a ↦ absurd (not_true a.1) | inr b ↦ b ])
  where
    not_true : ◌≡◌ {A = Bool} false true → ⊥
    not_true h = cc

pub if_not-In :
    (test : Bool) (w x : PendingWrite) (xs : List PendingWrite)
    → In w (if test then xs else x ∷ xs) ↔ (((w ≡ x) × (test ≡ false)) ⊎ In w xs)
if_not-In true w x xs = (λ h. inr h, λ h. elim h [ inl a ↦ absurd (not_false a.1) | inr b ↦ b ])
  where
    not_false : ◌≡◌ {A = Bool} true false → ⊥
    not_false h = cc
if_not-In false w x xs = (
  λ h. elim h [ inl a ↦ inl (a, refl) | inr b ↦ inr b ],
  λ h. elim h [ inl a ↦ inl a.0 | inr b ↦ inr b ],
)
