-- ===== src/Vault/Crdt/OrSet/Bound.antt =====
-- Which clocks bound every add and remove of a set, before and after a merge.
use misty.Prelude.{
  ◌≡◌, ◌↔◌, refl, sym, subst, subst, ◌∙◌, true, if◌then◌else◌, Option, none, some, [], ◌∷◌, Ord,
  nat_ord, list_ord, pair_ord, option_ord, is_gt, max_of, arith, int_ord,
}
use misty.Prelude.Map.{Map, get, IsSorted, get_head, get_tail}
use misty.Prelude.Map.Merge.{merge_with, join, merge_with-IsSorted, get-merge_with}
use misty.Vault.Hlc.Order.{Hlc, hlc_ord}
use misty.Vault.Crdt.OrSet.{
  OrSet, OrSetEntry, entry_max_hlc, merge_entry, max_entries, set_max_hlc, merge,
}
use misty.Vault.Crdt.OrSet.Laws.{IsOrdered, merge_entry_lem}

-- `h` is later than both clocks of the entry, and than those of every entry.
abbrev pub PassesOption : Hlc → Option Hlc → Type 0
PassesOption h none = Unit
PassesOption h (some r) = is_gt h r ≡ true

abbrev pub PassesEntry : Hlc → OrSetEntry → Type 0
PassesEntry h e = is_gt h (entry_max_hlc e) ≡ true

-- `h` is later than the greater of two clocks exactly when it is later than both.
pub gt_max_of :
    (h a b : Hlc) → (is_gt h (max_of a b) ≡ true) ↔ ((is_gt h a ≡ true) × (is_gt h b ≡ true))
unfolding max_of
gt_max_of h a b = (
  λ e. ground (
    arith,
    hlc_ord.cmp_flip a b,
    hlc_ord.cmp_flip h a,
    hlc_ord.cmp_flip h b,
    hlc_ord.eq_of_cmp a b,
    hlc_ord.lt_trans a b h,
    hlc_ord.lt_trans b a h,
  ),
  λ e. ground arith,
)

pub entry_passes :
    (h : Hlc) (a : Hlc) (r : Option Hlc)
    → PassesEntry h (record { added = a; removed = r }) ↔ ((is_gt h a ≡ true) × PassesOption h r)
unfolding entry_max_hlc
entry_passes h a none = (λ e. (e, tt), λ e. e.0)
entry_passes h a (some r) = (λ e. both.0 e, λ e. both.1 e)
  where
    both : (is_gt h (if is_gt r a then r else a) ≡ true) ↔ ((is_gt h a ≡ true) × (is_gt h r ≡ true))
    both = (
      λ e. ground (
        arith,
        hlc_ord.cmp_flip r a,
        hlc_ord.cmp_flip h a,
        hlc_ord.cmp_flip h r,
        hlc_ord.eq_of_cmp r a,
        hlc_ord.lt_trans a r h,
        hlc_ord.lt_trans r a h,
      ),
      λ e. ground arith,
    )

option_passes :
    (h : Hlc) (p q : Option Hlc)
    → PassesOption h (join max_of p q) ↔ (PassesOption h p × PassesOption h q)
option_passes h none none = (λ e. (tt, tt), λ e. tt)
option_passes h none (some q) = (λ e. (tt, e), λ e. e.1)
option_passes h (some p) none = (λ e. (e, tt), λ e. e.0)
option_passes h (some p) (some q) = gt_max_of h p q

merge_entry_passes :
    (h : Hlc) (x y : OrSetEntry)
    → PassesEntry h (merge_entry x y) ↔ (PassesEntry h x × PassesEntry h y)
merge_entry_passes h x y = rw (merge_entry_lem x y) (
  λ e.
      let m = (entry_passes h (max_of x.added y.added) (join max_of x.removed y.removed)).0 e in
      let a = (gt_max_of h x.added y.added).0 m.0 in
      let r = (option_passes h x.removed y.removed).0 m.1 in
      (
        (entry_passes h x.added x.removed).1 (a.0, r.0),
        (entry_passes h y.added y.removed).1 (a.1, r.1),
      ),
  λ e.
      let p = (entry_passes h x.added x.removed).0 e.0 in
      let q = (entry_passes h y.added y.removed).0 e.1 in
      (entry_passes h (max_of x.added y.added) (join max_of x.removed y.removed)).1 (
        (gt_max_of h x.added y.added).1 (p.0, q.0),
        (option_passes h x.removed y.removed).1 (p.1, q.1),
      ),
)

-- Every entry of the map.
abbrev pub AllPass {ℓ} : {A : Type ℓ} → Hlc → Map A OrSetEntry → Type 0
AllPass h [] = Unit
AllPass h ((x, e) ∷ m) = PassesEntry h e × AllPass h m

max_step_passes :
    (h a : Hlc) (r : Option Hlc)
    → PassesOption h (elim r [ none ↦ some a | some b ↦ some (max_of a b) ])
      ↔ ((is_gt h a ≡ true) × PassesOption h r)
max_step_passes h a none = (λ e. (e, tt), λ e. e.0)
max_step_passes h a (some b) = gt_max_of h a b

-- A clock passes the greatest clock of a set exactly when it passes every entry.
pub max_entries_passes {ℓ} :
    {A : Type ℓ} (h : Hlc) (m : Map A OrSetEntry) → PassesOption h (max_entries m) ↔ AllPass h m
unfolding max_entries
max_entries_passes h [] = (λ e. tt, λ e. tt)
max_entries_passes h ((x, e) ∷ m) =
    let step = max_step_passes h (entry_max_hlc e) (max_entries m) in
    let rest = max_entries_passes h m in
    (λ p. ((step.0 p).0, rest.0 (step.0 p).1), λ p. step.1 (p.0, rest.1 p.1))

module _ (h : Hlc) where
  joined_passes :
      (r t : Option OrSetEntry) (e : OrSetEntry)
      → join merge_entry r t ≡ some e
      → ((x : OrSetEntry) → r ≡ some x → PassesEntry h x)
      → ((x : OrSetEntry) → t ≡ some x → PassesEntry h x)
      → PassesEntry h e
  joined_passes none none e q f g = cc
  joined_passes none (some y) e q f g = g e q
  joined_passes (some x) none e q f g = f e q
  joined_passes (some x) (some y) e q f g =
      let same : merge_entry x y ≡ e = cc in
      subst (PassesEntry h) same ((merge_entry_passes h x y).1 (f x refl, g y refl))

  left_passes :
      (r t : Option OrSetEntry)
      → ((e : OrSetEntry) → join merge_entry r t ≡ some e → PassesEntry h e)
      → (x : OrSetEntry) → r ≡ some x
      → PassesEntry h x
  left_passes none t f x q = cc
  left_passes (some y) none f x q = f x q
  left_passes (some y) (some z) f x q =
      let same : y ≡ x = cc in
      subst (PassesEntry h) same ((merge_entry_passes h y z).0 (f (merge_entry y z) refl)).0

  right_passes :
      (r t : Option OrSetEntry)
      → ((e : OrSetEntry) → join merge_entry r t ≡ some e → PassesEntry h e)
      → (x : OrSetEntry) → t ≡ some x
      → PassesEntry h x
  right_passes r none f x q = cc
  right_passes none (some z) f x q = f x q
  right_passes (some y) (some z) f x q =
      let same : z ≡ x = cc in
      subst (PassesEntry h) same ((merge_entry_passes h y z).0 (f (merge_entry y z) refl)).1

module _ {ℓ} {A : Type ℓ} ⦃o : Ord A⦄ (h : Hlc) where
  passes_get :
      (m : Map A OrSetEntry) (k : A) (e : OrSetEntry)
      → AllPass h m
      → get k m ≡ some e
      → PassesEntry h e
  unfolding get
  passes_get [] k e p g = cc
  passes_get ((j, x) ∷ m) k e p g = ground (arith, passes_get m k e)

  passes_of_get :
      (m : Map A OrSetEntry)
      → IsSorted m
      → ((k : A) (e : OrSetEntry) → get k m ≡ some e → PassesEntry h e)
      → AllPass h m
  passes_of_get [] v f = tt
  passes_of_get ((j, x) ∷ m) v f =
      (f j x (get_head j x m), passes_of_get m v.1 (λ k e g. f k e (get_tail j x m k e v.0 g)))

  -- A clock passes a merged set exactly when it passes both sides.
  pub merge_passes :
      (a b : OrSet A)
      → IsOrdered a
      → IsOrdered b
      → PassesOption h (set_max_hlc (merge a b))
        ↔ (PassesOption h (set_max_hlc a) × PassesOption h (set_max_hlc b))
  unfolding set_max_hlc merge
  merge_passes a b p q =
      let m = merge_with merge_entry a.entries b.entries in
      let sorted = merge_with-IsSorted merge_entry a.entries b.entries p in
      (
        λ e.
            let all = passes_get m in
            let at_key : (k : A) (x : OrSetEntry)
                → join merge_entry (get k a.entries) (get k b.entries) ≡ some x
                → PassesEntry h x =
              λ k x g.
                all k x ((max_entries_passes h m).0 e)
                  (get-merge_with merge_entry a.entries b.entries k q ∙ g) in
            (
              (max_entries_passes h a.entries).1 (
                  passes_of_get a.entries p
                    (λ k. left_passes h (get k a.entries) (get k b.entries) (at_key k))),
              (max_entries_passes h b.entries).1 (
                  passes_of_get b.entries q
                    (λ k. right_passes h (get k a.entries) (get k b.entries) (at_key k))),
            ),
        λ e. (max_entries_passes h m).1 (
            passes_of_get m sorted λ k x g.
              joined_passes h (get k a.entries) (get k b.entries) x
                (sym (get-merge_with merge_entry a.entries b.entries k q) ∙ g)
                (λ y. λ t. passes_get a.entries k y ((max_entries_passes h a.entries).0 e.0) t)
                (λ y. λ t. passes_get b.entries k y ((max_entries_passes h b.entries).0 e.1) t)),
      )
