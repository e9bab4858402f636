-- ===== src/Vault/Crdt/OrSet/Membership.antt =====
-- Who is a member after an add, a remove and a merge.
use misty.Prelude.{
  ◌≡◌, ◌↔◌, refl, true, false, Option, none, some, Ord, nat_ord, list_ord, pair_ord, option_ord,
  is_gt, is_ge, max_of, arith,
}
use misty.Prelude.Map.{get, get-put}
use misty.Prelude.Map.Merge.{join, get-merge_with}
use misty.Vault.Hlc.Order.{Hlc, hlc_ord}
use misty.Vault.Crdt.OrSet.{
  OrSet, OrSetEntry, is_present, merge_entry, merge, add, remove_element, removed_by, contains,
  is_some_and_present,
}
use misty.Vault.Crdt.OrSet.Laws.{IsOrdered, merge_entry_lem}

-- No remove is later than `h`.
abbrev pub Covers : Hlc → Option Hlc → Type 0
Covers h none = Unit
Covers h (some r) = is_ge h r ≡ true

Covers-trans : (a h : Hlc) (r : Option Hlc) → is_gt h a ≡ false → Covers h r → Covers a r
Covers-trans a h none p q = tt
Covers-trans a h (some r) p q = ground (
  arith,
  hlc_ord.eq_of_cmp h a,
  hlc_ord.eq_of_cmp h r,
  hlc_ord.cmp_flip a h,
  hlc_ord.cmp_flip h r,
  hlc_ord.cmp_flip a r,
  hlc_ord.lt_trans a r h,
  hlc_ord.lt_trans r h a,
  hlc_ord.lt_trans h a r,
)

ge_lt :
    (r : Option Hlc) (h a : Hlc)
    → removed_by r h ≡ true
    → is_ge a h ≡ false
    → is_present (record { added = a; removed = r }) ≡ false
unfolding is_present
ge_lt none h a p q = cc
ge_lt (some r) h a p q = ground (
  arith,
  hlc_ord.eq_of_cmp r h,
  hlc_ord.cmp_flip r h,
  hlc_ord.cmp_flip a r,
  hlc_ord.lt_trans a h r,
)

covers_max :
    (h p q : Hlc) → (is_ge h (max_of p q) ≡ true) ↔ ((is_ge h p ≡ true) × (is_ge h q ≡ true))
unfolding max_of
covers_max h p q = (
  λ e. ground (
    arith,
    hlc_ord.cmp_flip p q,
    hlc_ord.eq_of_cmp p q,
    hlc_ord.lt_trans h p q,
    hlc_ord.lt_trans h q p,
  ),
  λ e. ground arith,
)

present_join :
    (h : Hlc) (p q : Option Hlc)
    → (is_present (record { added = h; removed = join max_of p q }) ≡ true)
      ↔ (Covers h p × Covers h q)
unfolding is_present
present_join h none none = (λ e. (tt, tt), λ e. refl)
present_join h none (some q) = (λ e. (tt, e), λ e. e.1)
present_join h (some p) none = (λ e. (e, tt), λ e. e.0)
present_join h (some p) (some q) = covers_max h p q

module _ {ℓ} {A : Type ℓ} ⦃o : Ord A⦄ where
  -- An element that both sides know, the right one in key order, is in their merge exactly when no
  -- remove of either side is later than the later of their adds: an add wins a tie, and it wins
  -- over older removes wherever they were made.
  pub add_wins :
      (x : A) (a b : OrSet A) (p q : OrSetEntry)
      → IsOrdered b
      → get x a.entries ≡ some p
      → get x b.entries ≡ some q
      → (contains x (merge a b) ≡ true)
        ↔ (Covers (max_of p.added q.added) p.removed × Covers (max_of p.added q.added) q.removed)
  unfolding contains merge
  add_wins x a b p q s ha hb =
      rw (get-merge_with merge_entry a.entries b.entries x s, ha, hb, merge_entry_lem p q)
        (present_join (max_of p.added q.added) p.removed q.removed)

  -- An element that only one side knows is in the merge exactly when it is in that side.
  pub contains-merge_one_side :
      (x : A) (a b : OrSet A)
      → IsOrdered b
      → (get x b.entries ≡ none → contains x (merge a b) ≡ contains x a)
        × (get x a.entries ≡ none → contains x (merge a b) ≡ contains x b)
  unfolding contains merge
  contains-merge_one_side x a b s = (
    λ h. rw (get-merge_with merge_entry a.entries b.entries x s, h) (only_left (get x a.entries)),
    λ h. rw (get-merge_with merge_entry a.entries b.entries x s, h) refl,
  )
    where
      only_left :
          (r : Option OrSetEntry)
          → is_some_and_present (join merge_entry r none) ≡ is_some_and_present r
      only_left none = refl
      only_left (some e) = refl

  -- After an add that no recorded remove of the element is later than, the element is a member.
  pub contains-add :
      (x : A) (h : Hlc) (s : OrSet A)
      → ((p : OrSetEntry) → get x s.entries ≡ some p → Covers h p.removed)
      → contains x (add x h s).0 ≡ true
  unfolding contains add is_present
  contains-add x h s c = go (get x s.entries) refl
    where
      go : (r : Option OrSetEntry) → get x s.entries ≡ r → contains x (add x h s).0 ≡ true
      go none e =
          ground (arith, get-put x x (record { added = h; removed = none }) s.entries, o.cmp_refl x)
      go (some p) e = ground (
        arith,
        c p e,
        get-put x x (record p { added = h }) s.entries,
        o.cmp_refl x,
        hlc_ord.eq_of_cmp h p.added,
        Covers-trans p.added h p.removed,
      )

  -- After a remove that is later than the element's last add, the element is no member.
  pub contains-remove_element :
      (x : A) (h : Hlc) (s : OrSet A)
      → ((p : OrSetEntry) → get x s.entries ≡ some p → is_ge p.added h ≡ false)
      → contains x (remove_element x h s).0 ≡ false
  unfolding contains remove_element is_present
  contains-remove_element x h s c = go (get x s.entries) refl
    where
      go :
          (r : Option OrSetEntry)
          → get x s.entries ≡ r
          → contains x (remove_element x h s).0 ≡ false
      go none e = ground arith
      go (some p) e = ground (
        arith,
        c p e,
        get-put x x (record p { removed = some h }) s.entries,
        o.cmp_refl x,
        ge_lt p.removed h p.added,
      )
