-- ===== src/Vault/ItemSet/MergeSets.antt =====
-- crates/misty-vault/src/merge.rs: which credentials a merge of whole sets keeps.
use misty.Prelude.{
  ◌≡◌, ◌⊎◌, ◌↔◌, inl, inr, refl, some, List, [], ◌∷◌, ◌++◌, ok, err, nat_ord, list_ord, pair_ord,
  option_ord, arith, int_ord,
}
use misty.Prelude.Map.{get, IsSorted, get_head, get_tail}
use misty.Vault.Error.{ItemId}
use misty.Vault.Hlc.Order.{hlc_ord}
use misty.Vault.Conflict.{Secret, Conflict}
use misty.Vault.Item.{Item}
use misty.Vault.ItemSet.{ForkIds, ItemSet, absorb, absorb_next, absorb_all, Outcome, merge_sets}
use misty.Vault.ItemSet.Held.{Holds, IsValid}
use misty.Vault.ItemSet.Keeps.{Brings, absorb-IsValid, absorb-keeps, absorb-only}

abbrev Rest : Type 0
Rest = ItemSet → List Conflict → List ItemId → Outcome

-- A set brings what it holds, and holds what it brings.
Brings-of_get :
    (s : Secret) (id : ItemId) (item : Item) (m : ItemSet)
    → get id m ≡ some item
    → item.secret ≡ s
    → Brings s m
unfolding get
Brings-of_get s id item [] h e = cc
Brings-of_get s id item ((j, x) ∷ m) h e = ground (arith, Brings-of_get s id item m)

Holds-of_Brings : (s : Secret) (m : ItemSet) → IsSorted m → Brings s m → Holds s m
Holds-of_Brings s [] v b = absurd b
Holds-of_Brings s ((j, x) ∷ m) v (inl e) = (j, x, get_head j x m, e)
Holds-of_Brings s ((j, x) ∷ m) v (inr b) =
    let (id, item, h, e) = Holds-of_Brings s m v.1 b in (id, item, get_tail j x m id item v.0 h, e)

module _ (s : Secret) where
  absorb_next-keeps :
      (rest : Rest) (touched : List ItemId) (ids : List ItemId) (brought : Type 0)
      → ((m : ItemSet) (cs : List Conflict) (t : List ItemId)
          → IsValid m
          → (rest m cs t).2 ≡ ok ids
          → Holds s m ⊎ brought
          → Holds s (rest m cs t).0)
      → (r : Outcome) → IsValid r.0
      → (absorb_next rest touched r).2 ≡ ok ids
      → ((got : List ItemId) → r.2 ≡ ok got → Holds s r.0 ⊎ brought)
      → Holds s (absorb_next rest touched r).0
  unfolding absorb_next
  absorb_next-keeps rest touched ids b ih (m, cs, err e) v h k = cc
  absorb_next-keeps rest touched ids b ih (m, cs, ok got) v h k =
      ih m cs (touched ++ got) v h (k got refl)

  absorb_all-keeps :
      (fork : ForkIds) (other : List (ItemId × Item)) (ids : List ItemId)
      → (m : ItemSet) (cs : List Conflict) (t : List ItemId) → IsValid m
      → (absorb_all fork other m cs t).2 ≡ ok ids
      → Holds s m ⊎ Brings s other
      → Holds s (absorb_all fork other m cs t).0
  unfolding absorb_all
  absorb_all-keeps fork [] ids m cs t v e (inl h) = h
  absorb_all-keeps fork [] ids m cs t v e (inr h) = absurd h
  absorb_all-keeps fork ((id, item) ∷ other) ids m cs t v e h =
      absorb_next-keeps (absorb_all fork other) t ids (Brings s other)
        (absorb_all-keeps fork other ids) (absorb fork item m cs) (absorb-IsValid fork item m cs v)
        e (λ got q. next h (absorb-keeps fork item m cs got v q s))
    where
      next :
          Holds s m ⊎ ((item.secret ≡ s) ⊎ Brings s other)
          → (Holds s m ⊎ (item.secret ≡ s) → Holds s (absorb fork item m cs).0)
          → Holds s (absorb fork item m cs).0 ⊎ Brings s other
      next (inl p) f = inl (f (inl p))
      next (inr (inl p)) f = inl (f (inr p))
      next (inr (inr p)) f = inr p

  absorb_next-only :
      (rest : Rest) (touched : List ItemId) (brought : Type 0)
      → ((m : ItemSet) (cs : List Conflict) (t : List ItemId)
          → IsValid m
          → Holds s (rest m cs t).0
          → Holds s m ⊎ brought)
      → (r : Outcome) → IsValid r.0
      → Holds s (absorb_next rest touched r).0
      → Holds s r.0 ⊎ brought
  unfolding absorb_next
  absorb_next-only rest touched b ih (m, cs, err e) v h = inl h
  absorb_next-only rest touched b ih (m, cs, ok got) v h = ih m cs (touched ++ got) v h

  absorb_all-only :
      (fork : ForkIds) (other : List (ItemId × Item)) (m : ItemSet) (cs : List Conflict)
      (t : List ItemId)
      → IsValid m
      → Holds s (absorb_all fork other m cs t).0
      → Holds s m ⊎ Brings s other
  unfolding absorb_all
  absorb_all-only fork [] m cs t v h = inl h
  absorb_all-only fork ((id, item) ∷ other) m cs t v h =
      elim (absorb_next-only (absorb_all fork other) t (Brings s other) (absorb_all-only fork other)
        (absorb fork item m cs) (absorb-IsValid fork item m cs v) h) [
          | inl p ↦ elim (absorb-only fork item m cs v s p) [ inl q ↦ inl q | inr q ↦ inr (inl q) ]
          | inr p ↦ inr (inr p)
        ]

-- Merging one valid set into another, if it succeeds, holds exactly the credentials of the two:
-- every secret of either is in the result, and every secret of the result is in one of them.
pub merge_sets-Holds :
    (fork : ForkIds) (items other : ItemSet) (cs : List Conflict) (ids : List ItemId)
    → IsValid items
    → IsValid other
    → (merge_sets fork items other cs).2 ≡ ok ids
    → (s : Secret) → Holds s (merge_sets fork items other cs).0 ↔ (Holds s items ⊎ Holds s other)
unfolding merge_sets
merge_sets-Holds fork items other cs ids v u e s = (
  λ h. elim (absorb_all-only s fork other items cs [] v h) [
    | inl p ↦ inl p
    | inr p ↦ inr (Holds-of_Brings s other u.sorted p)
  ],
  λ h. absorb_all-keeps s fork other ids items cs [] v e (brought h),
)
  where
    brought : Holds s items ⊎ Holds s other → Holds s items ⊎ Brings s other
    brought (inl p) = inl p
    brought (inr (id, item, g, q)) = inr (Brings-of_get s id item other g q)
