-- ===== src/Examples/Sets.antt =====
-- The merge of item sets, where two credentials meet under one id.
use misty.Prelude.{
  [], ◌∷◌, ok, err, true, false, option_ord, pair_ord, int_ord, inl, ◌⊎◌, ◌≡◌, ◌≢◌, ◌↔◌, refl,
  nat_ord, list_ord, arith, same_key_iff,
}
use misty.Prelude.Map.{get, put, remove}
use misty.Vault.Error.{clock_collision}
use misty.Vault.Hlc.Order.{hlc_ord}
use misty.Vault.Conflict.{local_keeps_id}
use misty.Vault.Item.{
  create, kind_eq, algorithm_eq, icon_eq, bool_eq, number_eq, text_eq, text_option_eq,
  number_option_eq, int_option_eq,
}
use misty.Vault.Crdt.Lww
use misty.Vault.Item.Merge
use misty.Vault.ItemSet.{
  absorb, merge_sets, settle, settle_next, absorb_all, absorb_next, place, meet, fork_to,
  sort_dedup,
}
use misty.Vault.ItemSet.Held.{Holds, IsValid}
use misty.Vault.ItemSet.Keeps.{absorb-keeps, absorb-IsValid}
use misty.Vault.ItemSet.MergeSets.{merge_sets-Holds}
use misty.Vault.ItemSet.Agreement.{forks_agree}
use misty.Vault.ItemSet.Settles.{absorb_failed, keeper_of, mover_of}
use misty.Examples.Data.{
  first_item, rival_item, one_item, other_items, other_items-IsValid, clashing_item,
  one_item-IsValid, fork_at, first_secret, second_secret,
}

secrets_differ : first_item.secret ≢ rival_item.secret
unfolding create
secrets_differ h = ground (arith, h)

-- The rival is absorbed into a set that holds the first item: both credentials are there.
absorbs : (absorb fork_at rival_item one_item []).2 ≡ ok ((10 ∷ []) ∷ (30 ∷ []) ∷ [])
unfolding absorb settle settle_next place meet fork_to sort_dedup get put remove create
    local_keeps_id
absorbs = refl

absorb-keeps_example : Holds first_secret (absorb fork_at rival_item one_item []).0
unfolding get put create
absorb-keeps_example =
    absorb-keeps fork_at rival_item one_item [] ((10 ∷ []) ∷ (30 ∷ []) ∷ []) one_item-IsValid
      absorbs first_secret (inl (10 ∷ [], first_item, refl, refl))

absorb-IsValid_example : IsValid (absorb fork_at rival_item one_item []).0
absorb-IsValid_example = absorb-IsValid fork_at rival_item one_item [] one_item-IsValid

forks_agree_example :
    absorb fork_at rival_item (put (10 ∷ []) first_item []) []
    ≡ absorb fork_at first_item (put (10 ∷ []) rival_item []) []
unfolding create local_keeps_id keeper_of mover_of get put remove
forks_agree_example =
    forks_agree fork_at first_item rival_item [] [] (30 ∷ []) tt refl secrets_differ refl refl

merges :
    (merge_sets fork_at one_item other_items []).2 ≡ ok ((10 ∷ []) ∷ (20 ∷ []) ∷ (30 ∷ []) ∷ [])
unfolding merge_sets absorb_all absorb_next absorb settle settle_next place meet fork_to sort_dedup
    get put remove create local_keeps_id
merges = refl

merge_sets-Holds_example :
    Holds second_secret (merge_sets fork_at one_item other_items []).0
    ↔ (Holds second_secret one_item ⊎ Holds second_secret other_items)
merge_sets-Holds_example =
    merge_sets-Holds fork_at one_item other_items [] ((10 ∷ []) ∷ (20 ∷ []) ∷ (30 ∷ []) ∷ [])
      one_item-IsValid other_items-IsValid merges second_secret

favorites_clash :
    Lww.merge first_item.favorite clashing_item.favorite "favorite"
    ≡ err (clock_collision "favorite")
unfolding create Lww.merge
favorites_clash = ground (arith, bool_eq.beq_iff false true)

-- The fields before `favorite` merge, and that one is the error.
collides : Merge.merge first_item clashing_item [] ≡ ([], err (clock_collision "favorite"))
unfolding Merge.merge Merge.merge_fields
collides =
    rw
      (
        (same_key_iff first_item.id first_item.id).1 refl,
        (same_key_iff first_item.secret first_item.secret).1 refl,
        (same_key_iff first_item.pin.value first_item.pin.value).1 refl,
        Lww.merge_idem first_item.kind "otp.kind",
        Lww.merge_idem first_item.algorithm "otp.algorithm",
        Lww.merge_idem first_item.digits "otp.digits",
        Lww.merge_idem first_item.period "otp.period",
        Lww.merge_idem first_item.pin "otp.pin",
        Lww.merge_idem first_item.issuer "issuer",
        Lww.merge_idem first_item.account "account",
        Lww.merge_idem first_item.nickname "nickname",
        Lww.merge_idem first_item.note "note",
        Lww.merge_idem first_item.icon "icon",
        Lww.merge_idem first_item.color "color",
        favorites_clash,
      )
      refl

absorb_failed_example :
    absorb fork_at clashing_item one_item []
    ≡ (remove (10 ∷ []) one_item, [], err (clock_collision "favorite"))
unfolding create get put
absorb_failed_example =
    absorb_failed fork_at first_item clashing_item one_item [] [] (clock_collision "favorite") refl
      refl collides
