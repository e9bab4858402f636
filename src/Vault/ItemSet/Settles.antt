-- ===== src/Vault/ItemSet/Settles.antt =====
-- crates/misty-vault/src/merge.rs: when `absorb` settles, and what it leaves.
use misty.Prelude.{
  ℕ, suc, ◌≡◌, ◌≢◌, inl, inr, refl, subst, ap, ◌∙◌, Bool-cases, if◌then◌else◌, none, some, List, [],
  ◌∷◌, ◌++◌, ok, err, ◌>>=◌, nat_ord, list_ord, pair_ord, option_ord, same_key, int_ord,
  same_key_iff,
}
use misty.Prelude.Map.{get, put, remove}
use misty.Vault.Error.{ItemId, VaultError, VaultResult}
use misty.Vault.Hlc.Order.{hlc_ord}
use misty.Vault.Conflict.{Conflict, divergent_secret, local_keeps_id}
use misty.Vault.Item.{Item, rebind}
use misty.Vault.Item.Merge
use misty.Vault.ItemSet.{
  ForkIds, ItemSet, Work, done, queued, fork_to, fork_off, put_back, meet, place, round, settle,
  settle_next, absorb, sort_dedup,
}

-- An item with a new id is added, and nothing else changes.
pub absorb_new :
    (fork : ForkIds) (item : Item) (items : ItemSet) (cs : List Conflict)
    → get item.id items ≡ none
    → absorb fork item items cs ≡ (put item.id item items, cs, ok (item.id ∷ []))
unfolding absorb settle settle_next place sort_dedup
absorb_new fork item items cs h = rw h refl

-- A second version of a credential that merges is put in place of the first.
pub absorb_same :
    (fork : ForkIds) (local item merged : Item) (items : ItemSet) (cs cs' : List Conflict)
    → get item.id items ≡ some local
    → local.secret ≡ item.secret
    → Merge.merge local item cs ≡ (cs', ok merged)
    → absorb fork item items cs
      ≡ (put merged.id merged (remove item.id items), cs', ok (merged.id ∷ []))
unfolding absorb settle settle_next place meet put_back sort_dedup
absorb_same fork local item merged items cs cs' h q e =
    rw (h, (same_key_iff local.secret item.secret).1 q, e) refl

-- A second version that does not merge is an error, and leaves the set without either version: the
-- local item was taken out before the merge and is not put back.
pub absorb_failed :
    (fork : ForkIds) (local item : Item) (items : ItemSet) (cs cs' : List Conflict) (x : VaultError)
    → get item.id items ≡ some local
    → local.secret ≡ item.secret
    → Merge.merge local item cs ≡ (cs', err x)
    → absorb fork item items cs ≡ (remove item.id items, cs', err x)
unfolding absorb settle settle_next place meet put_back
absorb_failed fork local item items cs cs' x h q e =
    rw (h, (same_key_iff local.secret item.secret).1 q, e) refl

-- Which of two credentials keeps the id, and which moves.
unfoldable pub keeper_of : Item → Item → Item
keeper_of a b = if local_keeps_id a.secret b.secret then a else b

unfoldable pub mover_of : Item → Item → Item
mover_of a b = if local_keeps_id a.secret b.secret then b else a

-- The state after `keeper` is put back under the id `k`.
abbrev forked_work : ItemId → ItemId → Item → Work → Work
forked_work k forked keeper w = record {
  items = put k keeper w.items;
  conflicts = w.conflicts ++ divergent_secret k forked ∷ [];
  touched = w.touched ++ k ∷ [];
}

fork_off_lem :
    (fork : ForkIds) (keeper mover : Item) (w : Work) (k forked : ItemId)
    → keeper.id ≡ k
    → fork k mover.secret ≡ ok forked
    → fork_off fork keeper mover w ≡ (forked_work k forked keeper w, queued (rebind forked mover))
unfolding fork_to
fork_off_lem fork keeper mover w k forked e =
    subst
      (λ j.
        fork j mover.secret ≡ ok forked
        → fork_off fork keeper mover w
          ≡ (forked_work j forked keeper w, queued (rebind forked mover)))
      e (λ q. rw q refl)

meet_fork :
    (fork : ForkIds) (local item : Item) (w : Work) (forked : ItemId)
    → local.id ≡ item.id
    → local.secret ≢ item.secret
    → fork item.id (mover_of local item).secret ≡ ok forked
    → meet fork local item w ≡ (
      forked_work item.id forked (keeper_of local item) w,
      queued (rebind forked (mover_of local item)),
    )
unfolding meet keeper_of mover_of
meet_fork fork local item w forked i n f = elim (Bool-cases (same_key local.secret item.secret)) [
  | inl q ↦ absurd (n ((same_key_iff local.secret item.secret).0 q))
  | inr q ↦ elim (Bool-cases (local_keeps_id local.secret item.secret)) [
    | inl t ↦
        rw (q, t)
          (fork_off_lem fork local item w item.id forked i
            (subst (λ b. fork item.id (if b then item else local).secret ≡ ok forked) t f))
    | inr t ↦
        rw (q, t)
          (fork_off_lem fork item local w item.id forked refl
            (subst (λ b. fork item.id (if b then item else local).secret ≡ ok forked) t f))
  ]
]

place_new :
    (fork : ForkIds) (m : Item) (w : Work)
    → get m.id w.items ≡ none
    → round fork m w
      ≡ (record w { items = put m.id m w.items; touched = w.touched ++ m.id ∷ [] }, done)
unfolding place
place_new fork m w h = rw h refl

module _ (fork : ForkIds) (local item : Item) (items : ItemSet) (cs : List Conflict)
    (forked : ItemId) (h : get item.id items ≡ some local) (i : local.id ≡ item.id)
    (n : local.secret ≢ item.secret) (f : fork item.id (mover_of local item).secret ≡ ok forked)
    (g : get forked (put item.id (keeper_of local item) (remove item.id items)) ≡ none) where
  abbrev start : Work
  start = record { items = items; conflicts = cs; touched = [] }

  abbrev after_fork : Work
  after_fork =
      forked_work item.id forked (keeper_of local item)
        (record start { items = remove item.id items })

  round_fork : round fork item start ≡ (after_fork, queued (rebind forked (mover_of local item)))
  unfolding place
  round_fork =
      rw h (meet_fork fork local item (record start { items = remove item.id items }) forked i n f)

  settle_fork :
      (steps : ℕ)
      → settle (suc (suc steps)) fork item start ≡ (
        record after_fork {
          items = put forked (rebind forked (mover_of local item)) after_fork.items;
          touched = after_fork.touched ++ forked ∷ [];
        },
        ok tt,
      )
  unfolding settle settle_next
  settle_fork steps =
      ap (settle_next (settle (suc steps) fork)) round_fork
      ∙ ap (settle_next (settle steps fork))
          (place_new fork (rebind forked (mover_of local item)) after_fork g)

  -- Two credentials under one id are both kept after two rounds, if the derived id exists and is
  -- free: the smaller keeps the id, the other moves to the derived one, and the pair is reported.
  pub absorb_fork : absorb fork item items cs ≡ (
    put forked
        (rebind forked (mover_of local item))
        (put item.id (keeper_of local item) (remove item.id items)),
    cs ++ divergent_secret item.id forked ∷ [],
    ok (sort_dedup (item.id ∷ forked ∷ [])),
  )
  unfolding absorb
  absorb_fork =
      ap
        (λ (r : Work × VaultResult (Unit {0})).
          (r.0.items, r.0.conflicts, r.1 >>= λ _. ok (sort_dedup r.0.touched)))
        (settle_fork 62)
