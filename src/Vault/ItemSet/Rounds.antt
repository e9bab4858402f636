-- ===== src/Vault/ItemSet/Rounds.antt =====
-- crates/misty-vault/src/merge.rs: what one round of the merge loop does with a credential.
use misty.Prelude.{
  ◌≡◌, ◌⊎◌, inl, inr, refl, Option, none, some, nat_ord, list_ord, pair_ord, option_ord, int_ord,
}
use misty.Prelude.Map.{get, remove}
use misty.Vault.Hlc.Order.{hlc_ord}
use misty.Vault.Conflict.{Secret}
use misty.Vault.Item.{Item}
use misty.Vault.ItemSet.{ForkIds, Work, place, round}
use misty.Vault.ItemSet.Held.{
  Holds, IsValid, put-IsValid, remove-IsValid, Holds-put_self, Holds-put_fresh, Holds-put_only,
  get-remove_self, Holds-remove, Holds-remove_only,
}
use misty.Vault.ItemSet.Meet.{Went, After, meet-keeps, meet-only, meet-IsValid}

module _ (s : Secret) where
  taken_out :
      (candidate local : Item) (w : Work)
      → get candidate.id w.items ≡ some local
      → IsValid w.items
      → Holds s w.items ⊎ (candidate.secret ≡ s)
      → Holds s (remove candidate.id w.items) ⊎ ((local.secret ≡ s) ⊎ (candidate.secret ≡ s))
  taken_out candidate local w e v (inr h) = inr (inr h)
  taken_out candidate local w e v (inl h) =
      elim (Holds-remove s candidate.id w.items v.sorted local e h) [
        | inl p ↦ inl p
        | inr p ↦ inr (inl p)
      ]

  put_in :
      (candidate local : Item) (w : Work)
      → get candidate.id w.items ≡ some local
      → IsValid w.items
      → Holds s (remove candidate.id w.items) ⊎ ((local.secret ≡ s) ⊎ (candidate.secret ≡ s))
      → Holds s w.items ⊎ (candidate.secret ≡ s)
  put_in candidate local w e v (inl h) = inl (Holds-remove_only s candidate.id w.items v.sorted h)
  put_in candidate local w e v (inr (inl h)) = inl (candidate.id, local, e, h)
  put_in candidate local w e v (inr (inr h)) = inr h

  place-keeps :
      (fork : ForkIds) (candidate : Item) (w : Work) (r : Option Item)
      → get candidate.id w.items ≡ r
      → IsValid w.items
      → Went (place fork r candidate w).1
      → Holds s w.items ⊎ (candidate.secret ≡ s)
      → After s (place fork r candidate w)
  unfolding place
  place-keeps fork candidate w none e v g (inl h) = inl (Holds-put_fresh s candidate w.items e h)
  place-keeps fork candidate w none e v g (inr h) = inl (Holds-put_self s candidate w.items h)
  place-keeps fork candidate w (some local) e v g h =
      meet-keeps s fork local candidate (record w { items = remove candidate.id w.items })
        (v.keyed candidate.id local e) (get-remove_self s candidate.id w.items v.sorted) g
        (taken_out candidate local w e v h)

  place-only :
      (fork : ForkIds) (candidate : Item) (w : Work) (r : Option Item)
      → get candidate.id w.items ≡ r
      → IsValid w.items
      → After s (place fork r candidate w)
      → Holds s w.items ⊎ (candidate.secret ≡ s)
  unfolding place
  place-only fork candidate w none e v (inl h) = Holds-put_only s candidate w.items h
  place-only fork candidate w none e v (inr h) = absurd h
  place-only fork candidate w (some local) e v h =
      put_in candidate local w e v
        (meet-only s fork local candidate (record w { items = remove candidate.id w.items }) h)

  -- A round loses no credential, of the set or of its candidate.
  pub round-keeps :
      (fork : ForkIds) (candidate : Item) (w : Work)
      → IsValid w.items
      → Went (round fork candidate w).1
      → Holds s w.items ⊎ (candidate.secret ≡ s)
      → After s (round fork candidate w)
  round-keeps fork candidate w = place-keeps fork candidate w (get candidate.id w.items) refl

  -- A round invents none.
  pub round-only :
      (fork : ForkIds) (candidate : Item) (w : Work)
      → IsValid w.items
      → After s (round fork candidate w)
      → Holds s w.items ⊎ (candidate.secret ≡ s)
  round-only fork candidate w = place-only fork candidate w (get candidate.id w.items) refl

place-IsValid :
    (fork : ForkIds) (candidate : Item) (w : Work) (r : Option Item)
    → IsValid w.items
    → IsValid (place fork r candidate w).0.items
unfolding place
place-IsValid fork candidate w none v = put-IsValid candidate w.items v
place-IsValid fork candidate w (some local) v =
    meet-IsValid fork local candidate (record w { items = remove candidate.id w.items })
      (remove-IsValid candidate.id w.items v)

pub round-IsValid :
    (fork : ForkIds) (candidate : Item) (w : Work)
    → IsValid w.items
    → IsValid (round fork candidate w).0.items
round-IsValid fork candidate w = place-IsValid fork candidate w (get candidate.id w.items)
