-- ===== src/Vault/ItemSet/Agreement.antt =====
-- crates/misty-vault/src/merge.rs: two devices that fork one id.
use misty.Prelude.{
  ◌≡◌, ◌≢◌, sym, ◌∙◌, none, some, List, [], ◌∷◌, ◌++◌, ok, nat_ord, list_ord, pair_ord, option_ord,
  arith, int_ord,
}
use misty.Prelude.Map.{
  get, put, remove, IsSorted, get-put, get-remove, put-IsSorted, remove-IsSorted, ext,
}
use misty.Vault.Error.{ItemId}
use misty.Vault.Hlc.Order.{hlc_ord}
use misty.Vault.Conflict.{Conflict, divergent_secret}
use misty.Vault.Item.{Item, rebind}
use misty.Vault.ItemSet.{ForkIds, ItemSet, absorb, Outcome, sort_dedup}
use misty.Vault.Conflict.{local_keeps_id_exclusive}
use misty.Vault.ItemSet.Held.{ids_ord}
use misty.Vault.ItemSet.Settles.{keeper_of, mover_of, absorb_fork}

keeper_of_comm : (a b : Item) → a.secret ≢ b.secret → keeper_of a b ≡ keeper_of b a
unfolding keeper_of
keeper_of_comm a b n = ground (arith, local_keeps_id_exclusive a.secret b.secret n)

mover_of_comm : (a b : Item) → a.secret ≢ b.secret → mover_of a b ≡ mover_of b a
unfolding mover_of
mover_of_comm a b n = ground (arith, local_keeps_id_exclusive a.secret b.secret n)

-- What a set holds beside one id does not depend on the item under that id.
remove-put :
    (a b : Item) (m : ItemSet)
    → IsSorted m
    → a.id ≡ b.id
    → remove b.id (put a.id a m) ≡ remove a.id (put b.id b m)
remove-put a b m v i =
    ext (remove b.id (put a.id a m)) (remove a.id (put b.id b m))
      (remove-IsSorted b.id (put a.id a m) (put-IsSorted a.id a m v))
      (remove-IsSorted a.id (put b.id b m) (put-IsSorted b.id b m v))
      λ k. ground (
        arith,
        get-remove b.id k (put a.id a m) (put-IsSorted a.id a m v),
        get-remove a.id k (put b.id b m) (put-IsSorted b.id b m v),
        get-put a.id k a m,
        get-put b.id k b m,
        i,
      )

get-put_same : (a b : Item) (m : ItemSet) → a.id ≡ b.id → get b.id (put a.id a m) ≡ some a
get-put_same a b m i = ground (arith, get-put a.id b.id a m, ids_ord.cmp_refl b.id, i)

-- One device holds credential `a` under an id, another holds `b`, with another secret, under the
-- same id, and both hold `m`, in key order, beside it. When each absorbs the other's item, and the
-- derived id exists and is free, they reach the same set, the same reported conflict and the same
-- touched ids.
pub forks_agree :
    (fork : ForkIds) (a b : Item) (m : ItemSet) (cs : List Conflict) (forked : ItemId)
    → IsSorted m
    → a.id ≡ b.id
    → a.secret ≢ b.secret
    → fork b.id (mover_of a b).secret ≡ ok forked
    → get forked (put b.id (keeper_of a b) (remove b.id (put a.id a m))) ≡ none
    → absorb fork b (put a.id a m) cs ≡ absorb fork a (put b.id b m) cs
forks_agree fork a b m cs forked v i n f g =
    absorb_fork fork a b (put a.id a m) cs forked (get-put_same a b m i) i n f g
    ∙ same_outcome
    ∙ sym (
        absorb_fork fork b a (put b.id b m) cs forked (get-put_same b a m (sym i)) (sym i)
          (λ e. n (sym e)) there_f there_g)
  where
    outcome : ItemId → Item → Item → ItemSet → Outcome
    outcome k keeper mover rest = (
      put forked (rebind forked mover) (put k keeper rest),
      cs ++ divergent_secret k forked ∷ [],
      ok (sort_dedup (k ∷ forked ∷ [])),
    )

    same_outcome :
        outcome b.id (keeper_of a b) (mover_of a b) (remove b.id (put a.id a m))
        ≡ outcome a.id (keeper_of b a) (mover_of b a) (remove a.id (put b.id b m))
    same_outcome = λ j.
        outcome (sym i j) (keeper_of_comm a b n j) (mover_of_comm a b n j) (remove-put a b m v i j)

    there_f : fork a.id (mover_of b a).secret ≡ ok forked
    there_f = (λ j. fork (i j) (mover_of_comm b a (λ e. n (sym e)) j).secret) ∙ f

    there_g : get forked (put a.id (keeper_of b a) (remove a.id (put b.id b m))) ≡ none
    there_g =
        (λ j.
          get forked
            (put (i j) (keeper_of_comm b a (λ e. n (sym e)) j) (remove-put b a m v (sym i) j)))
        ∙ g
