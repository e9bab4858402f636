-- ===== src/Vault/ItemSet/Keeps.antt =====
-- crates/misty-vault/src/merge.rs: which credentials `absorb` keeps.
use misty.Prelude.{
  ℕ, zero, suc, ◌≡◌, ◌⊎◌, inl, inr, refl, List, [], ◌∷◌, ok, err, ◌>>=◌, nat_ord, list_ord,
  pair_ord, option_ord, int_ord,
}
use misty.Vault.Error.{ItemId, VaultResult}
use misty.Vault.Hlc.Order.{hlc_ord}
use misty.Vault.Conflict.{Secret, Conflict}
use misty.Vault.Item.{Item}
use misty.Vault.ItemSet.{
  ForkIds, ItemSet, Work, Next, done, queued, failed, round, settle, settle_next, absorb,
  sort_dedup, max_merge_steps,
}
use misty.Vault.ItemSet.Held.{Holds, IsValid}
use misty.Vault.ItemSet.Rounds.{round-keeps, round-only, round-IsValid}
use misty.Vault.ItemSet.Meet.{Went, After}

abbrev Loop : Type 0
Loop = Item → Work → Work × VaultResult (Unit {0})

settle_next-IsValid :
    (rest : Loop)
    → ((m : Item) (w : Work) → IsValid w.items → IsValid (rest m w).0.items)
    → (r : Work × Next) → IsValid r.0.items
    → IsValid (settle_next rest r).0.items
unfolding settle_next
settle_next-IsValid rest ih (w, done) v = v
settle_next-IsValid rest ih (w, queued m) v = ih m w v
settle_next-IsValid rest ih (w, failed e) v = v

-- The loop, from any step, keeps the set valid.
settle-IsValid :
    (n : ℕ) (fork : ForkIds) (c : Item) (w : Work)
    → IsValid w.items
    → IsValid (settle n fork c w).0.items
unfolding settle
settle-IsValid zero fork c w v = v
settle-IsValid (suc n) fork c w v =
    settle_next-IsValid (settle n fork) (settle-IsValid n fork) (round fork c w)
      (round-IsValid fork c w v)

module _ (s : Secret) where
  settle_next-keeps :
      (rest : Loop)
      → ((m : Item) (w : Work)
          → IsValid w.items
          → (rest m w).1 ≡ ok tt
          → Holds s w.items ⊎ (m.secret ≡ s)
          → Holds s (rest m w).0.items)
      → (r : Work × Next) → IsValid r.0.items
      → (settle_next rest r).1 ≡ ok tt
      → (Went r.1 → After s r)
      → Holds s (settle_next rest r).0.items
  unfolding settle_next
  settle_next-keeps rest ih (w, done) v e h = elim (h tt) [ inl p ↦ p | inr p ↦ absurd p ]
  settle_next-keeps rest ih (w, queued m) v e h = ih m w v e (h tt)
  settle_next-keeps rest ih (w, failed x) v e h = cc

  settle-keeps :
      (n : ℕ) (fork : ForkIds) (c : Item) (w : Work)
      → IsValid w.items
      → (settle n fork c w).1 ≡ ok tt
      → Holds s w.items ⊎ (c.secret ≡ s)
      → Holds s (settle n fork c w).0.items
  unfolding settle
  settle-keeps zero fork c w v e h = cc
  settle-keeps (suc n) fork c w v e h =
      settle_next-keeps (settle n fork) (settle-keeps n fork) (round fork c w)
        (round-IsValid fork c w v) e (λ g. round-keeps s fork c w v g h)

  settle_next-only :
      (rest : Loop)
      → ((m : Item) (w : Work)
          → IsValid w.items
          → Holds s (rest m w).0.items
          → Holds s w.items ⊎ (m.secret ≡ s))
      → (r : Work × Next) → IsValid r.0.items
      → Holds s (settle_next rest r).0.items
      → After s r
  unfolding settle_next
  settle_next-only rest ih (w, done) v h = inl h
  settle_next-only rest ih (w, queued m) v h = ih m w v h
  settle_next-only rest ih (w, failed x) v h = inl h

  settle-only :
      (n : ℕ) (fork : ForkIds) (c : Item) (w : Work)
      → IsValid w.items
      → Holds s (settle n fork c w).0.items
      → Holds s w.items ⊎ (c.secret ≡ s)
  unfolding settle
  settle-only zero fork c w v h = inl h
  settle-only (suc n) fork c w v h = round-only s fork c w v (
      settle_next-only (settle n fork) (settle-only n fork) (round fork c w)
        (round-IsValid fork c w v) h)

absorb_ok :
    (r : VaultResult (Unit {0})) (touched ids : List ItemId)
    → (r >>= λ _. ok (sort_dedup touched)) ≡ ok ids
    → r ≡ ok tt
absorb_ok (ok tt) touched ids h = refl
absorb_ok (err e) touched ids h = cc

-- Absorbing an item, whether it succeeds or fails, leaves a valid set valid: its entries in key
-- order, each under its own id.
pub absorb-IsValid :
    (fork : ForkIds) (incoming : Item) (items : ItemSet) (cs : List Conflict)
    → IsValid items
    → IsValid (absorb fork incoming items cs).0
unfolding absorb
absorb-IsValid fork incoming items cs v =
    settle-IsValid max_merge_steps fork incoming
      (record { items = items; conflicts = cs; touched = [] }) v

-- Absorbing an item into a valid set loses no credential: when it succeeds, every secret that the
-- set held, and the incoming one, is held after it.
pub absorb-keeps :
    (fork : ForkIds) (incoming : Item) (items : ItemSet) (cs : List Conflict) (ids : List ItemId)
    → IsValid items
    → (absorb fork incoming items cs).2 ≡ ok ids
    → (s : Secret) → Holds s items ⊎ (incoming.secret ≡ s)
    → Holds s (absorb fork incoming items cs).0
unfolding absorb
absorb-keeps fork incoming items cs ids v e s h =
    let w : Work = record { items = items; conflicts = cs; touched = [] } in
    let r = settle max_merge_steps fork incoming w in
    settle-keeps s max_merge_steps fork incoming w v (absorb_ok r.1 r.0.touched ids e) h

-- Absorbing an item invents no credential, whether it succeeds or fails: what is held after it was
-- held before it or came with the item.
pub absorb-only :
    (fork : ForkIds) (incoming : Item) (items : ItemSet) (cs : List Conflict)
    → IsValid items
    → (s : Secret) → Holds s (absorb fork incoming items cs).0
    → Holds s items ⊎ (incoming.secret ≡ s)
unfolding absorb
absorb-only fork incoming items cs v s h =
    settle-only s max_merge_steps fork incoming
      (record { items = items; conflicts = cs; touched = [] }) v h

-- Some item of the list has this secret.
abbrev pub Brings : Secret → List (ItemId × Item) → Type 0
Brings s [] = ⊥
Brings s ((id, item) ∷ rest) = (item.secret ≡ s) ⊎ Brings s rest
