-- ===== src/Vault/ItemSet/Meet.antt =====
-- crates/misty-vault/src/merge.rs: two versions under one id, in one round of `absorb`.
use misty.Prelude.{
  ◌≡◌, ◌⊎◌, inl, inr, refl, sym, subst, ◌∙◌, true, false, Bool-cases, none, List, ok, err, nat_ord,
  list_ord, pair_ord, option_ord, same_key, int_ord, same_key_iff,
}
use misty.Prelude.Map.{get}
use misty.Vault.Error.{ItemId, VaultResult}
use misty.Vault.Hlc.Order.{hlc_ord}
use misty.Vault.Conflict.{Secret, Conflict, local_keeps_id}
use misty.Vault.Item.{Item}
use misty.Vault.Item.Merge
use misty.Vault.Item.Identity.{merge-same_credential}
use misty.Vault.ItemSet.{
  ForkIds, Work, Next, done, queued, failed, fork_to, fork_off, put_back, meet,
}
use misty.Vault.ItemSet.Held.{
  Holds, IsValid, put-IsValid, Holds-put_self, Holds-put_fresh, Holds-put_only,
}

-- The credential that a round leaves in the queue.
abbrev pub Waiting : Secret → Next → Type 0
Waiting s done = ⊥
Waiting s (queued m) = m.secret ≡ s
Waiting s (failed e) = ⊥

-- A round that did not fail.
abbrev pub Went : Next → Type 0
Went done = Unit
Went (queued m) = Unit
Went (failed e) = ⊥

-- What holds of the set and the queue after a round, for one credential.
abbrev pub After : Secret → Work × Next → Type 0
After s (w, next) = Holds s w.items ⊎ Waiting s next

-- The three ways in which two versions under one id meet.
module _ (fork : ForkIds) (local candidate : Item) (w : Work) where
  meet_same :
      same_key local.secret candidate.secret ≡ true
      → meet fork local candidate w ≡ put_back (Merge.merge local candidate w.conflicts) w
  unfolding meet
  meet_same q = rw q refl

  meet_local :
      same_key local.secret candidate.secret ≡ false
      → local_keeps_id local.secret candidate.secret ≡ true
      → meet fork local candidate w ≡ fork_off fork local candidate w
  unfolding meet
  meet_local q t = rw (q, t) refl

  meet_candidate :
      same_key local.secret candidate.secret ≡ false
      → local_keeps_id local.secret candidate.secret ≡ false
      → meet fork local candidate w ≡ fork_off fork candidate local w
  unfolding meet
  meet_candidate q t = rw (q, t) refl

swap_sides {ℓ} : {A B C : Type ℓ} → A ⊎ (B ⊎ C) → A ⊎ (C ⊎ B)
swap_sides (inl a) = inl a
swap_sides (inr (inl b)) = inr (inr b)
swap_sides (inr (inr c)) = inr (inl c)

module _ (s : Secret) where
  fork_to-keeps :
      (r : VaultResult ItemId) (keeper mover : Item) (w : Work)
      → get keeper.id w.items ≡ none
      → Went (fork_to r keeper mover w).1
      → Holds s w.items ⊎ ((keeper.secret ≡ s) ⊎ (mover.secret ≡ s))
      → After s (fork_to r keeper mover w)
  unfolding fork_to
  fork_to-keeps (err e) keeper mover w n g h = absurd g
  fork_to-keeps (ok f) keeper mover w n g (inl h) = inl (Holds-put_fresh s keeper w.items n h)
  fork_to-keeps (ok f) keeper mover w n g (inr (inl h)) = inl (Holds-put_self s keeper w.items h)
  fork_to-keeps (ok f) keeper mover w n g (inr (inr h)) = inr h

  fork_to-only :
      (r : VaultResult ItemId) (keeper mover : Item) (w : Work)
      → After s (fork_to r keeper mover w)
      → Holds s w.items ⊎ ((keeper.secret ≡ s) ⊎ (mover.secret ≡ s))
  unfolding fork_to
  fork_to-only (err e) keeper mover w (inl h) = inl h
  fork_to-only (err e) keeper mover w (inr h) = absurd h
  fork_to-only (ok f) keeper mover w (inl h) = elim (Holds-put_only s keeper w.items h) [
    | inl p ↦ inl p
    | inr p ↦ inr (inl p)
  ]
  fork_to-only (ok f) keeper mover w (inr h) = inr (inr h)

  put_back-keeps :
      (r : List Conflict × VaultResult Item) (local : Item) (w : Work)
      → ((merged : Item)
          → r.1 ≡ ok merged
          → (merged.id ≡ local.id) × (merged.secret ≡ local.secret))
      → get local.id w.items ≡ none
      → Went (put_back r w).1
      → Holds s w.items ⊎ (local.secret ≡ s)
      → After s (put_back r w)
  unfolding put_back
  put_back-keeps (cs, err e) local w m n g h = absurd g
  put_back-keeps (cs, ok x) local w m n g (inl h) =
      inl (Holds-put_fresh s x w.items (rw ((m x refl).0) n) h)
  put_back-keeps (cs, ok x) local w m n g (inr h) =
      inl (Holds-put_self s x w.items ((m x refl).1 ∙ h))

  put_back-only :
      (r : List Conflict × VaultResult Item) (local : Item) (w : Work)
      → ((merged : Item)
          → r.1 ≡ ok merged
          → (merged.id ≡ local.id) × (merged.secret ≡ local.secret))
      → After s (put_back r w)
      → Holds s w.items ⊎ (local.secret ≡ s)
  unfolding put_back
  put_back-only (cs, err e) local w m (inl h) = inl h
  put_back-only (cs, err e) local w m (inr h) = absurd h
  put_back-only (cs, ok x) local w m (inl h) = elim (Holds-put_only s x w.items h) [
    | inl p ↦ inl p
    | inr p ↦ inr (sym (m x refl).1 ∙ p)
  ]
  put_back-only (cs, ok x) local w m (inr h) = absurd h

  one_secret :
      (local candidate : Item) (w : Work)
      → same_key local.secret candidate.secret ≡ true
      → Holds s w.items ⊎ ((local.secret ≡ s) ⊎ (candidate.secret ≡ s))
      → Holds s w.items ⊎ (local.secret ≡ s)
  one_secret local candidate w q (inl h) = inl h
  one_secret local candidate w q (inr (inl h)) = inr h
  one_secret local candidate w q (inr (inr h)) =
      inr ((same_key_iff local.secret candidate.secret).0 q ∙ h)

  left_secret :
      (local candidate : Item) (w : Work)
      → Holds s w.items ⊎ (local.secret ≡ s)
      → Holds s w.items ⊎ ((local.secret ≡ s) ⊎ (candidate.secret ≡ s))
  left_secret local candidate w (inl h) = inl h
  left_secret local candidate w (inr h) = inr (inl h)

  pub meet-keeps :
      (fork : ForkIds) (local candidate : Item) (w : Work)
      → local.id ≡ candidate.id
      → get candidate.id w.items ≡ none
      → Went (meet fork local candidate w).1
      → Holds s w.items ⊎ ((local.secret ≡ s) ⊎ (candidate.secret ≡ s))
      → After s (meet fork local candidate w)
  meet-keeps fork local candidate w i n g h =
      elim (Bool-cases (same_key local.secret candidate.secret)) [
        | inl q ↦
            let e = meet_same fork local candidate w q in
            subst (After s) (sym e) (
              put_back-keeps (Merge.merge local candidate w.conflicts) local w
                (λ x. merge-same_credential local candidate x w.conflicts) (rw i n)
                (subst (λ r. Went r.1) e g) (one_secret local candidate w q h))
        | inr q ↦ elim (Bool-cases (local_keeps_id local.secret candidate.secret)) [
          | inl t ↦
              let e = meet_local fork local candidate w q t in
              subst (After s) (sym e) (
                fork_to-keeps (fork local.id candidate.secret) local candidate w (rw i n)
                  (subst (λ r. Went r.1) e g) h)
          | inr t ↦
              let e = meet_candidate fork local candidate w q t in
              subst (After s) (sym e) (
                fork_to-keeps (fork candidate.id local.secret) candidate local w n
                  (subst (λ r. Went r.1) e g) (swap_sides h))
        ]
      ]

  pub meet-only :
      (fork : ForkIds) (local candidate : Item) (w : Work)
      → After s (meet fork local candidate w)
      → Holds s w.items ⊎ ((local.secret ≡ s) ⊎ (candidate.secret ≡ s))
  meet-only fork local candidate w h = elim (Bool-cases (same_key local.secret candidate.secret)) [
    | inl q ↦ left_secret local candidate w (
        put_back-only (Merge.merge local candidate w.conflicts) local w
          (λ x. merge-same_credential local candidate x w.conflicts)
          (subst (After s) (meet_same fork local candidate w q) h))
    | inr q ↦ elim (Bool-cases (local_keeps_id local.secret candidate.secret)) [
      | inl t ↦
          fork_to-only (fork local.id candidate.secret) local candidate w
            (subst (After s) (meet_local fork local candidate w q t) h)
      | inr t ↦ swap_sides (
          fork_to-only (fork candidate.id local.secret) candidate local w
            (subst (After s) (meet_candidate fork local candidate w q t) h))
    ]
  ]

fork_to-IsValid :
    (r : VaultResult ItemId) (keeper mover : Item) (w : Work)
    → IsValid w.items
    → IsValid (fork_to r keeper mover w).0.items
unfolding fork_to
fork_to-IsValid (err e) keeper mover w v = v
fork_to-IsValid (ok f) keeper mover w v = put-IsValid keeper w.items v

put_back-IsValid :
    (r : List Conflict × VaultResult Item) (w : Work)
    → IsValid w.items
    → IsValid (put_back r w).0.items
unfolding put_back
put_back-IsValid (cs, err e) w v = v
put_back-IsValid (cs, ok x) w v = put-IsValid x w.items v

pub meet-IsValid :
    (fork : ForkIds) (local candidate : Item) (w : Work)
    → IsValid w.items
    → IsValid (meet fork local candidate w).0.items
meet-IsValid fork local candidate w v = elim (Bool-cases (same_key local.secret candidate.secret)) [
  | inl q ↦
      rw (meet_same fork local candidate w q)
        (put_back-IsValid (Merge.merge local candidate w.conflicts) w v)
  | inr q ↦ elim (Bool-cases (local_keeps_id local.secret candidate.secret)) [
    | inl t ↦
        rw (meet_local fork local candidate w q t)
          (fork_to-IsValid (fork local.id candidate.secret) local candidate w v)
    | inr t ↦
        rw (meet_candidate fork local candidate w q t)
          (fork_to-IsValid (fork candidate.id local.secret) candidate local w v)
  ]
]
