-- ===== src/Vault/Remote/Keeps.antt =====
-- Which credentials `merge_remote` of crates/misty-vault/src/vault/sync.rs keeps, and where new ones
-- come from.
use misty.Prelude.{
  ℕ, ◌≡◌, ◌⊎◌, ◌↔◌, inl, inr, refl, sym, subst, ◌∙◌, ap, Option, some, none, List, [], ◌∷◌, ok, err,
  bind_ok, ok-injective, ok_not_err, nat_ord, list_ord,
}
use misty.Prelude.Map.{get}
use misty.Crypto.Primitives.{Primitives}
use misty.Crypto.Envelope.Seal.{Draws}
use misty.Crypto.Derive.{Hkdf}
use misty.Vault.Error.{ItemId, VaultResult}
use misty.Vault.Conflict.{Secret, Conflict}
use misty.Vault.Item.{Item}
use misty.Vault.ItemSet.{ForkIds, ItemSet, absorb}
use misty.Vault.ItemSet.Held.{Holds, IsValid}
use misty.Vault.ItemSet.Keeps.{absorb-IsValid, absorb-keeps, absorb-only}
use misty.Vault.Group.{Group, merge_groups}
use misty.Vault.State.{Codec, Vault, vault_fork_ids}
use misty.Vault.Store.{VaultStore, transaction}
use misty.Vault.Change.{RemoteChange, MergeReport, Decoded, as_item, as_group, note, decode_changes}
use misty.Vault.Change.Cache.{read_change, read_changes, decode_changes-read}
use misty.Vault.Remote.{
  Copies, absorbed, merge_group, merge_decoded, merge_all, copies_of, Prepared, prepare,
  after_commit, adopt, put_all, records_for, settled, verbatim, commit_plan, merge_remote,
}

-- A decoded change is an item with this secret.
abbrev pub Carries : Secret → Decoded → Type 0
Carries s (as_item item) = item.secret ≡ s
Carries s (as_group group) = ⊥

abbrev CarriedBy : Secret → List (RemoteChange × Decoded) → Type 0
CarriedBy s [] = ⊥
CarriedBy s ((change, d) ∷ rest) = Carries s d ⊎ CarriedBy s rest

-- The items of the copies before and after something that brings credentials.
abbrev Joined : ItemSet → (Secret → Type 0) → ItemSet → Type 0
Joined before brought after =
    IsValid after × ((s : Secret) → Holds s after ↔ (Holds s before ⊎ brought s))

absorbed-Joined :
    (fork : ForkIds) (item : Item) (c next : Copies)
    (r : ItemSet × List Conflict × VaultResult (List ItemId))
    → absorb fork item c.items c.conflicts ≡ r
    → IsValid c.items
    → absorbed c r ≡ ok next
    → Joined c.items (λ s. item.secret ≡ s) next.items
absorbed-Joined fork item c next (items, conflicts, err e) same v h = absurd cc
absorbed-Joined fork item c next (items, conflicts, ok ids) same v h =
    let end : items ≡ next.items = ap (λ (o : Copies). o.items) (ok-injective h) in
    let here : (absorb fork item c.items c.conflicts).0 ≡ next.items = ap (λ r. r.0) same ∙ end in
    subst (Joined c.items (λ s. item.secret ≡ s)) here (
      absorb-IsValid fork item c.items c.conflicts v,
      λ s. (
        absorb-only fork item c.items c.conflicts v s,
        absorb-keeps fork item c.items c.conflicts ids v (ap (λ r. r.2) same) s,
      ),
    )

-- A group brings no credential.
nothing_brought :
    (before after : ItemSet) → before ≡ after → IsValid before → Joined before (λ s. ⊥) after
nothing_brought before after same v =
    subst (Joined before (λ s. ⊥)) same
      (v, λ s. (λ h. inl h, λ h. elim h [ inl a ↦ a | inr a ↦ absurd a ]))

merge_group-items :
    (c next : Copies) (group : Group) (local : Option Group)
    → merge_group c group local ≡ ok next
    → c.items ≡ next.items
merge_group-items c next group none h = ap (λ (o : Copies). o.items) (ok-injective h)
merge_group-items c next group (some local) h =
    let (merged, done, last) = bind_ok (merge_groups local group) _ next h in
    ap (λ (o : Copies). o.items) (ok-injective last)

merge_decoded-Joined :
    (fork : ForkIds) (d : Decoded) (c next : Copies)
    → IsValid c.items
    → merge_decoded fork d c ≡ ok next
    → Joined c.items (λ s. Carries s d) next.items
unfolding merge_decoded
merge_decoded-Joined fork (as_item item) c next v h =
    absorbed-Joined fork item c next (absorb fork item c.items c.conflicts) refl v h
merge_decoded-Joined fork (as_group group) c next v h =
    nothing_brought c.items next.items (merge_group-items c next group (get group.id c.groups) h) v

merge_all-Joined :
    (fork : ForkIds) (ds : List (RemoteChange × Decoded)) (c last : Copies)
    → IsValid c.items
    → merge_all fork ds c ≡ ok last
    → Joined c.items (λ s. CarriedBy s ds) last.items
unfolding merge_all
merge_all-Joined fork [] c last v h =
    nothing_brought c.items last.items (ap (λ (o : Copies). o.items) (ok-injective h)) v
merge_all-Joined fork ((change, d) ∷ ds) c last v h =
    let (next, first, others) = bind_ok (merge_decoded fork d c) _ last h in
    let (valid, one) = merge_decoded-Joined fork d c next v first in
    let (end, rest) = merge_all-Joined fork ds next last valid others in
    (end, λ s. joined (one s) (rest s))
  where
    joined : {a b k d e : Type 0} → b ↔ (a ⊎ k) → d ↔ (b ⊎ e) → d ↔ (a ⊎ (k ⊎ e))
    joined one rest = (
      λ h. elim (rest.0 h) [
        | inl x ↦ elim (one.0 x) [ inl y ↦ inl y | inr y ↦ inr (inl y) ]
        | inr x ↦ inr (inr x)
      ],
      λ h. elim h [
        | inl x ↦ rest.1 (inl (one.1 (inl x)))
        | inr x ↦ elim x [ inl y ↦ rest.1 (inl (one.1 (inr y))) | inr y ↦ rest.1 (inr y) ]
      ],
    )

module _ {S : Type 0} (store : VaultStore S) (codec : Codec) (hkdf : Hkdf) (p : Primitives)
    (draws : ℕ → Draws) (v : Vault S) where
  -- The change holds an item with this secret: its envelope opens under the vault's roster and the
  -- key of its epoch, and its payload is an item of the id that the change names.
  abbrev pub Sends : Secret → RemoteChange → Type 0
  Sends s c =
      (d : Decoded) × (read_change codec hkdf p v.vault_key v.roster c ≡ ok (some d)) × Carries s d

  abbrev pub Brings : Secret → List RemoteChange → Type 0
  Brings s [] = ⊥
  Brings s (c ∷ cs) = Sends s c ⊎ Brings s cs

  note-CarriedBy :
      (s : Secret) (c : RemoteChange) (cs : List RemoteChange) (d : Option Decoded)
      (rest : List (RemoteChange × Decoded) × ℕ)
      → read_change codec hkdf p v.vault_key v.roster c ≡ ok d
      → CarriedBy s rest.0 ↔ Brings s cs
      → CarriedBy s (note c d rest).0 ↔ Brings s (c ∷ cs)
  note-CarriedBy s c cs none rest read ih = (
    λ h. inr (ih.0 h),
    λ h. elim h [
      | inl (d, other, carries) ↦ absurd (not_both (ok-injective (sym read ∙ other)))
      | inr b ↦ ih.1 b
    ],
  )
    where
      not_both : {d : Decoded} → ◌≡◌ {A = Option Decoded} none (some d) → ⊥
      not_both h = cc
  note-CarriedBy s c cs (some d) rest read ih = (
    λ h. elim h [ inl a ↦ inl (d, read, a) | inr b ↦ inr (ih.0 b) ],
    λ h. elim h [
      | inl (e, other, carries) ↦
          let one : ◌≡◌ {A = Option Decoded} (some e) (some d) = ok-injective (sym other ∙ read) in
          let same : e ≡ d = cc in inl (subst (Carries s) same carries)
      | inr b ↦ inr (ih.1 b)
    ],
  )

  read_changes-CarriedBy :
      (s : Secret) (cs : List RemoteChange) (r : List (RemoteChange × Decoded) × ℕ)
      → read_changes codec hkdf p v.vault_key v.roster cs ≡ ok r
      → CarriedBy s r.0 ↔ Brings s cs
  unfolding read_changes
  read_changes-CarriedBy s [] r h =
      subst (λ (o : List (RemoteChange × Decoded) × ℕ). CarriedBy s o.0 ↔ ⊥) (ok-injective h)
        (λ a. a, λ a. a)
  read_changes-CarriedBy s (c ∷ cs) r h =
      let (d, read, h1) = bind_ok (read_change codec hkdf p v.vault_key v.roster c) _ r h in
      let (rest, others, last) =
        bind_ok (read_changes codec hkdf p v.vault_key v.roster cs) _ r h1 in
      subst (λ (o : List (RemoteChange × Decoded) × ℕ). CarriedBy s o.0 ↔ Brings s (c ∷ cs))
        (ok-injective last)
        (note-CarriedBy s c cs d rest read (read_changes-CarriedBy s cs rest others))

  prepare-Joined :
      (changes : List RemoteChange) (plan : Prepared)
      → IsValid v.items
      → prepare store codec hkdf p draws changes v ≡ ok plan
      → Joined v.items (λ s. Brings s changes) plan.copies.items
  unfolding prepare
  prepare-Joined changes plan valid h =
      let ((decoded, ignored), read, h1) =
        bind_ok (decode_changes codec hkdf p v.vault_key v.roster changes []) _ plan h in
      let (merged, joined, h2) =
        bind_ok (merge_all (vault_fork_ids hkdf v.vault_key) decoded (copies_of v)) _ plan h1 in
      let (rows, sealed, last) =
        bind_ok
          (records_for store codec hkdf p draws 0 v (settled merged)
            (verbatim (settled merged) decoded (record { items = []; groups = [] }))
            (settled merged).touched_items)
          _ plan h2 in
      let (end, each) =
        merge_all-Joined (vault_fork_ids hkdf v.vault_key) decoded (copies_of v) merged valid
          joined in
      let carried = λ (s : Secret).
        read_changes-CarriedBy s changes (decoded, ignored)
          (sym (decode_changes-read codec hkdf p v.vault_key v.roster changes) ∙ read) in
      let items : merged.items ≡ plan.copies.items =
        ap (λ (o : Prepared). o.copies.items) (ok-injective last) in
      subst (Joined v.items (λ s. Brings s changes)) items (
        end,
        λ s. (
          λ a. elim ((each s).0 a) [ inl b ↦ inl b | inr b ↦ inr ((carried s).0 b) ],
          λ a. (each s).1 (elim a [ inl b ↦ inl b | inr b ↦ inr ((carried s).1 b) ]),
        ),
      )

  commit_plan-Joined :
      (brought : Secret → Type 0) (report : MergeReport) (plan : VaultResult Prepared)
      → ((made : Prepared) → plan ≡ ok made → Joined v.items brought made.copies.items)
      → (commit_plan store codec hkdf p draws v plan).1 ≡ ok report
      → Joined v.items brought (commit_plan store codec hkdf p draws v plan).0.items
  unfolding adopt
  commit_plan-Joined brought report (err e) made h = absurd (ok_not_err (sym h))
  commit_plan-Joined brought report (ok plan) made h =
      after (transaction store (put_all store plan.rows) v.store) h
    where
      after :
          (r : S × VaultResult {0} Unit)
          → (after_commit store codec hkdf p draws plan v r).1 ≡ ok report
          → Joined v.items brought (after_commit store codec hkdf p draws plan v r).0.items
      after (s, err e) k = absurd (ok_not_err (sym k))
      after (s, ok done) k = made plan refl

  -- A batch that is taken leaves a valid set of items valid, and loses and invents no credential:
  -- a secret is held after it exactly when it was held before it or a change of the batch sends it.
  pub merge_remote-Holds :
      (changes : List RemoteChange) (report : MergeReport)
      → IsValid v.items
      → (merge_remote store codec hkdf p draws changes v).1 ≡ ok report
      → let after = (merge_remote store codec hkdf p draws changes v).0 in
        IsValid after.items
        × ((s : Secret) → Holds s after.items ↔ (Holds s v.items ⊎ Brings s changes))
  unfolding merge_remote
  merge_remote-Holds changes report valid h =
      commit_plan-Joined (λ s. Brings s changes) report (prepare store codec hkdf p draws changes v)
        (λ plan made. prepare-Joined changes plan valid made) h
