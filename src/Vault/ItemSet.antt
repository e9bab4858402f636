-- ===== src/Vault/ItemSet.antt =====
-- crates/misty-vault/src/merge.rs: a vault's items by id, and the merge of one item or one set into them.
pub mod Held
pub mod Meet
pub mod Rounds
pub mod Keeps
pub mod MergeSets
pub mod Settles
pub mod Agreement
use misty.Prelude.{
  ℕ, zero, suc, ◌+◌, if◌then◌else◌, Option, none, some, List, [], ◌∷◌, ◌++◌, ok, err, ◌>>=◌, lt, eq,
  gt, list_ord, same_key, nat_ord,
}
use misty.Prelude.Map.{Map, get, put, remove}
use misty.Vault.Error.{ItemId, VaultError, VaultResult, item_exists, merge_did_not_settle}
use misty.Vault.Conflict.{Secret, Conflict, divergent_secret, local_keeps_id}
use misty.Vault.Item.{Item, rebind}
use misty.Vault.Item.Merge

-- crates/misty-vault/src/limits.rs: `MAX_MERGE_STEPS`
abbrev pub max_merge_steps : ℕ
max_merge_steps = 64

-- `trait ForkIds`: where a forked item's id comes from. The production derivation is HKDF under the
-- vault key, which the program takes from a library.
abbrev pub ForkIds : Type 0
ForkIds = ItemId → Secret → VaultResult ItemId

abbrev pub ItemSet : Type 0
ItemSet = Map ItemId Item

-- `ItemSet::insert`: the set after it, and the result.
unfoldable pub insert : Item → ItemSet → ItemSet × VaultResult (Unit {0})
insert item items = elim (get item.id items) [
  | some _ ↦ (items, err (item_exists item.id))
  | none ↦ (put item.id item items, ok tt)
]

-- `ItemSet::purge`
unfoldable pub purge : ItemId → ItemSet → ItemSet × Option Item
purge id items = (remove id items, get id items)

-- `ItemSet::replace`
unfoldable pub replace : Item → ItemSet → ItemSet
replace item items = put item.id item items

-- What `absorb` works on: the set, the conflicts reported, the ids touched.
pub record Work : Type 0 where
  pub items : ItemSet
  pub conflicts : List Conflict
  pub touched : List ItemId

-- What the loop does with one candidate: it is done with it, it queues an item, or it fails. The
-- state survives a failure.
pub data Next : Type 0 where
  done : Next
  queued : Item → Next
  failed : VaultError → Next

-- The keeper goes back under its id, and the mover is queued under the derived one.
unfoldable pub fork_to : VaultResult ItemId → Item → Item → Work → Work × Next
fork_to (err e) keeper mover w = (w, failed e)
fork_to (ok forked) keeper mover w = (
  record {
    items = put keeper.id keeper w.items;
    conflicts = w.conflicts ++ divergent_secret keeper.id forked ∷ [];
    touched = w.touched ++ keeper.id ∷ [];
  },
  queued (rebind forked mover),
)

abbrev pub fork_off : ForkIds → Item → Item → Work → Work × Next
fork_off fork keeper mover w = fork_to (fork keeper.id mover.secret) keeper mover w

-- The merged item is put back, with the conflicts that the merge left.
unfoldable pub put_back : List Conflict × VaultResult Item → Work → Work × Next
put_back (conflicts, err e) w = (record w { conflicts = conflicts }, failed e)
put_back (conflicts, ok merged) w = (
  record {
    items = put merged.id merged w.items;
    conflicts = conflicts;
    touched = w.touched ++ merged.id ∷ [];
  },
  done,
)

-- A candidate whose id is taken: the local item has already been taken out of the set. One
-- credential is merged, of two the smaller keeps the id.
unfoldable pub meet : ForkIds → Item → Item → Work → Work × Next
meet fork local candidate w =
    if same_key local.secret candidate.secret
    then put_back (Merge.merge local candidate w.conflicts) w
    else if local_keeps_id local.secret candidate.secret
    then fork_off fork local candidate w
    else fork_off fork candidate local w

-- A candidate and what the set has under its id.
unfoldable pub place : ForkIds → Option Item → Item → Work → Work × Next
place fork none candidate w = (
  record w { items = put candidate.id candidate w.items; touched = w.touched ++ candidate.id ∷ [] },
  done,
)
place fork (some local) candidate w =
    meet fork local candidate (record w { items = remove candidate.id w.items })

-- One round of the loop of `absorb`, on the candidate that it popped.
abbrev pub round : ForkIds → Item → Work → Work × Next
round fork candidate w = place fork (get candidate.id w.items) candidate w

-- What the loop does after a round, with the rest of the loop for a queued item.
unfoldable pub settle_next :
    (Item → Work → Work × VaultResult (Unit {0})) → Work × Next → Work × VaultResult (Unit {0})
settle_next rest (w, done) = (w, ok tt)
settle_next rest (w, queued item) = rest item w
settle_next rest (w, failed e) = (w, err e)

-- The rounds that are left. The queue holds at most one item: a round pops one and pushes at most
-- one. With an empty queue the loop returns; at the last step a full queue is an error.
unfoldable pub settle : ℕ → ForkIds → Item → Work → Work × VaultResult (Unit {0})
settle zero fork candidate w = (w, err (merge_did_not_settle max_merge_steps))
settle (suc n) fork candidate w = settle_next (settle n fork) (round fork candidate w)

-- `touched.sort_unstable(); touched.dedup()`: the ids, each once, in ascending order.
insert_id : ItemId → List ItemId → List ItemId
insert_id id [] = id ∷ []
insert_id id (j ∷ ids) =
    let rest = insert_id id ids in
    elim (list_ord.cmp id j) [ lt ↦ id ∷ j ∷ ids | eq ↦ j ∷ ids | gt ↦ j ∷ rest ]

unfoldable pub sort_dedup : List ItemId → List ItemId
unfolding insert_id
sort_dedup [] = []
sort_dedup (id ∷ ids) = insert_id id (sort_dedup ids)

-- `ItemSet::absorb`: the set, the conflicts, and the touched ids or the error.
unfoldable pub absorb :
    ForkIds → Item → ItemSet → List Conflict → ItemSet × List Conflict × VaultResult (List ItemId)
absorb fork incoming items conflicts =
    let (w, result) =
      settle max_merge_steps fork incoming
        (record { items = items; conflicts = conflicts; touched = [] }) in
    (w.items, w.conflicts, result >>= λ _. ok (sort_dedup w.touched))

abbrev pub Outcome : Type 0
Outcome = ItemSet × List Conflict × VaultResult (List ItemId)

-- What the loop of `ItemSet::merge` does after one `absorb`: `?` stops at an error.
unfoldable pub absorb_next :
    (ItemSet → List Conflict → List ItemId → Outcome) → List ItemId → Outcome → Outcome
absorb_next rest touched (items, conflicts, err e) = (items, conflicts, err e)
absorb_next rest touched (items, conflicts, ok ids) = rest items conflicts (touched ++ ids)

-- The loop of `ItemSet::merge` over the other set's items.
unfoldable pub absorb_all :
    ForkIds → List (ItemId × Item) → ItemSet → List Conflict → List ItemId → Outcome
absorb_all fork [] items conflicts touched = (items, conflicts, ok (sort_dedup touched))
absorb_all fork ((id, item) ∷ rest) items conflicts touched =
    absorb_next (absorb_all fork rest) touched (absorb fork item items conflicts)

-- `ItemSet::merge`
unfoldable pub merge_sets : ForkIds → ItemSet → ItemSet → List Conflict → Outcome
merge_sets fork items other conflicts = absorb_all fork other items conflicts []
