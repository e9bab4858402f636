-- ===== src/Vault/Item/Delete.antt =====
-- crates/misty-vault/src/model/item.rs: what a merge does to a delete.
use misty.Prelude.{
  ◌≡◌, ◌↔◌, refl, sym, subst, true, Option, none, some, List, [], ◌∷◌, ok, nat_ord, list_ord,
  pair_ord, option_ord, is_gt, max_of, length, arith, int_ord,
}
use misty.Vault.Hlc.Order.{Hlc, hlc_ord}
use misty.Vault.Crdt.Lww
use misty.Vault.Crdt.Lww.{Lww}
use misty.Prelude.Map.{Map}
use misty.Vault.Crdt.OrSet.{OrSet, OrSetEntry, set_max_hlc}
use misty.Vault.Crdt.OrSet.Bound.{
  gt_max_of, PassesOption, AllPass, entry_passes, max_entries_passes, merge_passes,
}
use misty.Vault.Tombstone.{Tombstone}
use misty.Vault.Item.{Item}
use misty.Vault.Item.Clocks.{
  register_hlcs, set_hlcs, flatten_options, AllBefore, is_deleted, is_deleted_iff,
}
use misty.Vault.Item.Merge.{merge}
use misty.Vault.Item.Convergence.{merge-join}
use misty.Vault.Conflict.{Conflict}
use misty.Vault.Item.Laws.{IsOrdered, Agree, join_items}

zip_max : List Hlc → List Hlc → List Hlc
zip_max (x ∷ xs) (y ∷ ys) = max_of x y ∷ zip_max xs ys
zip_max _ _ = []

register_hlcs-join :
    (a b : Item) → register_hlcs (join_items a b) ≡ zip_max (register_hlcs a) (register_hlcs b)
unfolding register_hlcs join_items zip_max
register_hlcs-join a b = simp Lww.hlc-later

AllBefore-zip_max :
    (h : Hlc) (xs ys : List Hlc)
    → length xs ≡ length ys
    → AllBefore h (zip_max xs ys) ↔ (AllBefore h xs × AllBefore h ys)
unfolding zip_max
AllBefore-zip_max h [] [] e = (λ p. (tt, tt), λ p. tt)
AllBefore-zip_max h [] (y ∷ ys) e = absurd (omega arith)
AllBefore-zip_max h (x ∷ xs) [] e = absurd (omega arith)
AllBefore-zip_max h (x ∷ xs) (y ∷ ys) e =
    let here = gt_max_of h x y in
    let rest = AllBefore-zip_max h xs ys (omega arith) in
    (
      λ p. (((here.0 p.0).0, (rest.0 p.1).0), ((here.0 p.0).1, (rest.0 p.1).1)),
      λ p. (here.1 (p.0.0, p.1.0), rest.1 (p.0.1, p.1.1)),
    )

-- Later than the clocks that the code looks at.
abbrev AfterClocks : Hlc → Item → Type 0
AfterClocks h item = AllBefore h (register_hlcs item) × AllBefore h (set_hlcs item)

AllBefore-flatten :
    (h : Hlc) (x : Option Hlc) (xs : List (Option Hlc))
    → AllBefore h (flatten_options (x ∷ xs)) ↔ (PassesOption h x × AllBefore h (flatten_options xs))
AllBefore-flatten h none xs = (λ p. (tt, p), λ p. p.1)
AllBefore-flatten h (some r) xs = (λ p. p, λ p. p)

-- The three sets of an item, one by one.
abbrev SetsPass : Hlc → Item → Type 0
SetsPass h item =
    PassesOption h (set_max_hlc item.groups)
    × PassesOption h (set_max_hlc item.tags)
    × PassesOption h (set_max_hlc item.origins)

set_hlcs-before : (h : Hlc) (item : Item) → AllBefore h (set_hlcs item) ↔ SetsPass h item
unfolding set_hlcs
set_hlcs-before h item =
    let g = set_max_hlc item.groups in
    let t = set_max_hlc item.tags in
    let r = set_max_hlc item.origins in
    let one = AllBefore-flatten h g (t ∷ r ∷ []) in
    let two = AllBefore-flatten h t (r ∷ []) in
    let three = AllBefore-flatten h r [] in
    (
      λ p. ((one.0 p).0, (two.0 (one.0 p).1).0, (three.0 (two.0 (one.0 p).1).1).0),
      λ p. one.1 (p.0, two.1 (p.1, three.1 (p.2, tt))),
    )

SetsPass-join :
    (h : Hlc) (a b : Item)
    → IsOrdered a
    → IsOrdered b
    → SetsPass h (join_items a b) ↔ (SetsPass h a × SetsPass h b)
unfolding join_items
SetsPass-join h a b p q =
    let g = merge_passes h a.groups b.groups p.groups q.groups in
    let t = merge_passes h a.tags b.tags p.tags q.tags in
    let r = merge_passes h a.origins b.origins p.origins q.origins in
    (
      λ e. (((g.0 e.0).0, (t.0 e.1).0, (r.0 e.2).0), ((g.0 e.0).1, (t.0 e.1).1, (r.0 e.2).1)),
      λ e. (g.1 (e.0.0, e.1.0), t.1 (e.0.1, e.1.1), r.1 (e.0.2, e.1.2)),
    )

AfterClocks-join :
    (h : Hlc) (a b : Item)
    → IsOrdered a
    → IsOrdered b
    → AfterClocks h (join_items a b) ↔ (AfterClocks h a × AfterClocks h b)
unfolding register_hlcs
AfterClocks-join h a b p q =
    let regs = AllBefore-zip_max h (register_hlcs a) (register_hlcs b) refl in
    let sets = SetsPass-join h a b p q in
    let of_join = set_hlcs-before h (join_items a b) in
    let of_a = set_hlcs-before h a in
    let of_b = set_hlcs-before h b in
    (
      λ e.
          let r = regs.0 (subst (AllBefore h) (register_hlcs-join a b) e.0) in
          let s = sets.0 (of_join.0 e.1) in ((r.0, of_a.1 s.0), (r.1, of_b.1 s.1)),
      λ e. (
        subst (AllBefore h) (sym (register_hlcs-join a b)) (regs.1 (e.0.0, e.1.0)),
        of_join.1 (sets.1 (of_a.0 e.0.1, of_b.0 e.1.1)),
      ),
    )

-- `h` is later than the add of every entry of a set, and than the remove where there is one.
abbrev pub AfterEntries {ℓ} : {A : Type ℓ} → Hlc → Map A OrSetEntry → Type 0
AfterEntries h [] = Unit
AfterEntries h ((x, entry) ∷ m) =
    (is_gt h entry.added ≡ true) × PassesOption h entry.removed × AfterEntries h m

-- `h` is later than every edit of the item: the write of each of its seventeen registers, and every add
-- and remove of its three sets.
pub record AfterEveryEdit (h : Hlc) (item : Item) : Type 0 where
  pub kind : is_gt h item.kind.hlc ≡ true
  pub algorithm : is_gt h item.algorithm.hlc ≡ true
  pub digits : is_gt h item.digits.hlc ≡ true
  pub period : is_gt h item.period.hlc ≡ true
  pub pin : is_gt h item.pin.hlc ≡ true
  pub issuer : is_gt h item.issuer.hlc ≡ true
  pub account : is_gt h item.account.hlc ≡ true
  pub nickname : is_gt h item.nickname.hlc ≡ true
  pub note : is_gt h item.note.hlc ≡ true
  pub icon : is_gt h item.icon.hlc ≡ true
  pub color : is_gt h item.color.hlc ≡ true
  pub favorite : is_gt h item.favorite.hlc ≡ true
  pub manual_order : is_gt h item.manual_order.hlc ≡ true
  pub archived : is_gt h item.archived.hlc ≡ true
  pub hidden : is_gt h item.hidden.hlc ≡ true
  pub requires_reveal_auth : is_gt h item.requires_reveal_auth.hlc ≡ true
  pub trashed_at : is_gt h item.trashed_at.hlc ≡ true
  pub groups : AfterEntries h item.groups.entries
  pub tags : AfterEntries h item.tags.entries
  pub origins : AfterEntries h item.origins.entries

AllPass-AfterEntries {ℓ} :
    {A : Type ℓ} (h : Hlc) (m : Map A OrSetEntry) → AllPass h m ↔ AfterEntries h m
AllPass-AfterEntries h [] = (λ e. e, λ e. e)
AllPass-AfterEntries h ((x, entry) ∷ m) =
    let here = entry_passes h entry.added entry.removed in
    let rest = AllPass-AfterEntries h m in
    (λ p. ((here.0 p.0).0, (here.0 p.0).1, rest.0 p.1), λ p. (here.1 (p.0, p.1), rest.1 p.2))

max_passes-AfterEntries {ℓ} :
    {A : Type ℓ} (h : Hlc) (s : OrSet A) → PassesOption h (set_max_hlc s) ↔ AfterEntries h s.entries
unfolding set_max_hlc
max_passes-AfterEntries h s =
    let most = max_entries_passes h s.entries in
    let all = AllPass-AfterEntries h s.entries in (λ p. all.0 (most.0 p), λ p. most.1 (all.1 p))

AfterClocks-AfterEveryEdit : (h : Hlc) (item : Item) → AfterClocks h item ↔ AfterEveryEdit h item
unfolding register_hlcs
AfterClocks-AfterEveryEdit h item =
    let sets = set_hlcs-before h item in
    let groups = max_passes-AfterEntries h item.groups in
    let tags = max_passes-AfterEntries h item.tags in
    let origins = max_passes-AfterEntries h item.origins in
    (
      λ p. record {
        kind = p.0.0;
        algorithm = p.0.1.0;
        digits = p.0.1.1.0;
        period = p.0.1.1.1.0;
        pin = p.0.1.1.1.1.0;
        issuer = p.0.1.1.1.1.1.0;
        account = p.0.1.1.1.1.1.1.0;
        nickname = p.0.1.1.1.1.1.1.1.0;
        note = p.0.1.1.1.1.1.1.1.1.0;
        icon = p.0.1.1.1.1.1.1.1.1.1.0;
        color = p.0.1.1.1.1.1.1.1.1.1.1.0;
        favorite = p.0.1.1.1.1.1.1.1.1.1.1.1.0;
        manual_order = p.0.1.1.1.1.1.1.1.1.1.1.1.1.0;
        archived = p.0.1.1.1.1.1.1.1.1.1.1.1.1.1.0;
        hidden = p.0.1.1.1.1.1.1.1.1.1.1.1.1.1.1.0;
        requires_reveal_auth = p.0.1.1.1.1.1.1.1.1.1.1.1.1.1.1.1.0;
        trashed_at = p.0.1.1.1.1.1.1.1.1.1.1.1.1.1.1.1.1.0;
        groups = groups.0 (sets.0 p.1).0;
        tags = tags.0 (sets.0 p.1).1;
        origins = origins.0 (sets.0 p.1).2;
      },
      λ q. (
        (
          q.kind,
          (
            q.algorithm,
            (
              q.digits,
              (
                q.period,
                (
                  q.pin,
                  (
                    q.issuer,
                    (
                      q.account,
                      (
                        q.nickname,
                        (
                          q.note,
                          (
                            q.icon,
                            (
                              q.color,
                              (
                                q.favorite,
                                (
                                  q.manual_order,
                                  (
                                    q.archived,
                                    (q.hidden, (q.requires_reveal_auth, (q.trashed_at, tt))),
                                  ),
                                ),
                              ),
                            ),
                          ),
                        ),
                      ),
                    ),
                  ),
                ),
              ),
            ),
          ),
        ),
        sets.1 (groups.1 q.groups, tags.1 q.tags, origins.1 q.origins),
      ),
    )

-- When two versions of an item, with their maps in key order and with one write for one clock, have
-- merged to an item with a tombstone, that item is deleted exactly when the surviving tombstone is
-- later than every edit of both versions, the write of every register and every add and remove of
-- a set: an edit at or after the delete, on either side, keeps the item.
pub merge_delete :
    (a b m : Item) (cs : List Conflict) (stone : Tombstone)
    → IsOrdered a
    → IsOrdered b
    → Agree a b
    → (merge a b cs).1 ≡ ok m
    → m.deleted ≡ some stone
    → (is_deleted m ≡ true) ↔ (AfterEveryEdit stone.hlc a × AfterEveryEdit stone.hlc b)
merge_delete a b m cs stone p q h e d =
    let is_join : join_items a b ≡ m = cc (merge-join a b cs h) in
    let del = is_deleted_iff m stone d in
    let edits = AfterClocks-join stone.hlc a b p q in
    let of_a = AfterClocks-AfterEveryEdit stone.hlc a in
    let of_b = AfterClocks-AfterEveryEdit stone.hlc b in
    (
      λ t.
          let both = edits.0 (subst (AfterClocks stone.hlc) (sym is_join) (del.0 t)) in
          (of_a.0 both.0, of_b.0 both.1),
      λ t. del.1 (subst (AfterClocks stone.hlc) is_join (edits.1 (of_a.1 t.0, of_b.1 t.1))),
    )
