-- ===== src/Sync/Page/Batch.antt =====
-- What `apply_page` of crates/misty-sync/src/engine.rs hands to the vault.
use misty.Prelude.{
  ◌≡◌, refl, sym, ap, subst, ◌∙◌, true, Bool-cases, inl, inr, if◌then◌else◌, Option, some, none,
  List, [], ◌∷◌, ◌++◌, append_assoc, append-nil, ok, err, Result, ok-injective, ok_not_err, ◌⊎◌,
  arith,
}
use misty.Crypto.Error.{Bytes}
use misty.Crypto.Primitives.{Primitives}
use misty.Crypto.Identity.{DeviceRecord, Roster, contains}
use misty.Crypto.Envelope.Header.{EnvelopeKind, item, group, device_roster, settings, custom_icon}
use misty.Crypto.Envelope.Seal.{Envelope, parse, signed_message}
use misty.Vault.Change.{RemoteChange}
use misty.Sync.Page.{
  Rejection, FeedChange, SyncReport, Sorted, is_mergeable, verify_change, accept_change,
  sort_verified, sort_envelope, sort_changes,
}
use misty.Sync.Page.Accepted.{
  remote_change, Takes, done, taken, left_out, accepted_kind, verify_change-accepted,
  verify_change-IsAccepted,
}

some-injective : {a b : Bytes} → some a ≡ some b → a ≡ b
some-injective h = cc

none_not_some : {a : Bytes} → ◌≡◌ {A = Option Bytes} none (some a) → ⊥
none_not_some h = cc

module _ (p : Primitives) (roster : Roster) where
  abbrev pub mergeable_verified :
      FeedChange → Bytes → Result Rejection EnvelopeKind → List RemoteChange
  mergeable_verified c envelope (err reason) = []
  mergeable_verified c envelope (ok kind) =
      if is_mergeable kind then remote_change c envelope ∷ [] else []

  abbrev pub mergeable_envelope : FeedChange → Option Bytes → List RemoteChange
  mergeable_envelope c none = []
  mergeable_envelope c (some envelope) =
      mergeable_verified c envelope (verify_change p c.item_id envelope roster)

  -- The changes with an envelope of an item or a group that the roster vouches for, in order.
  unfoldable pub mergeable : List FeedChange → List RemoteChange
  mergeable [] = []
  mergeable (c ∷ cs) = mergeable_envelope c c.envelope ++ mergeable cs

  pub mergeable-append :
      (xs ys : List FeedChange) → mergeable (xs ++ ys) ≡ mergeable xs ++ mergeable ys
  unfolding mergeable
  mergeable-append [] ys = refl
  mergeable-append (x ∷ xs) ys =
      ap (λ r. mergeable_envelope x x.envelope ++ r) (mergeable-append xs ys)
      ∙ sym (append_assoc (mergeable_envelope x x.envelope) (mergeable xs) (mergeable ys))

  accept_change-batch :
      (c : FeedChange) (envelope : Bytes) (kind : EnvelopeKind) (s : Sorted)
      → (accept_change p c envelope kind s).batch
        ≡ s.batch ++ mergeable_verified c envelope (ok kind)
  unfolding accept_change
  accept_change-batch c envelope item s = refl
  accept_change-batch c envelope group s = refl
  accept_change-batch c envelope device_roster s = sym (append-nil s.batch)
  accept_change-batch c envelope settings s = sym (append-nil s.batch)
  accept_change-batch c envelope custom_icon s = sym (append-nil s.batch)

  sort_verified-batch :
      (c : FeedChange) (envelope : Bytes) (r : Result Rejection EnvelopeKind) (s : Sorted)
      → (sort_verified p c envelope r s).batch ≡ s.batch ++ mergeable_verified c envelope r
  sort_verified-batch c envelope (err reason) s = sym (append-nil s.batch)
  sort_verified-batch c envelope (ok kind) s = accept_change-batch c envelope kind s

  sort_envelope-batch :
      (c : FeedChange) (envelope : Option Bytes) (s : Sorted)
      → (sort_envelope p roster c envelope s).batch ≡ s.batch ++ mergeable_envelope c envelope
  sort_envelope-batch c none s = sym (append-nil s.batch)
  sort_envelope-batch c (some envelope) s =
      sort_verified-batch c envelope (verify_change p c.item_id envelope roster) s

  pub sort_changes-batch :
      (cs : List FeedChange) (s : Sorted)
      → (sort_changes p roster cs s).batch ≡ s.batch ++ mergeable cs
  unfolding sort_changes mergeable
  sort_changes-batch [] s = sym (append-nil s.batch)
  sort_changes-batch (c ∷ cs) s =
      sort_changes-batch cs (sort_envelope p roster c c.envelope s)
      ∙ ap (λ b. b ++ mergeable cs) (sort_envelope-batch c c.envelope s)
      ∙ append_assoc s.batch (mergeable_envelope c c.envelope) (mergeable cs)

  -- A device of the roster signed the envelope for this item id, and it is an item or a group.
  abbrev pub IsVouchedFor : RemoteChange → Type 0
  IsVouchedFor c =
      (e : Envelope) × (r : DeviceRecord) × (signature : Bytes) × (parse c.envelope ≡ ok e)
      × (contains roster e.header.signer ≡ some r)
      × (p.verify_strict r.ed25519_pub (signed_message e c.item_id) signature ≡ true)
      × ((e.header.kind ≡ item) ⊎ (e.header.kind ≡ group))

  abbrev pub AllVouchedFor : List RemoteChange → Type 0
  AllVouchedFor [] = Unit
  AllVouchedFor (c ∷ cs) = IsVouchedFor c × AllVouchedFor cs

  pub all_append :
      (xs ys : List RemoteChange) → AllVouchedFor xs → AllVouchedFor ys → AllVouchedFor (xs ++ ys)
  all_append [] ys a b = b
  all_append (x ∷ xs) ys a b = (a.0, all_append xs ys a.1 b)

  taken_or_left :
      (c : FeedChange) (envelope : Bytes) (cs : List FeedChange) (out : List RemoteChange)
      (r : Result Rejection EnvelopeKind)
      → c.envelope ≡ some envelope
      → verify_change p c.item_id envelope roster ≡ r
      → Takes p roster cs out
      → Takes p roster (c ∷ cs) (mergeable_verified c envelope r ++ out)
  taken_or_left c envelope cs out (err reason) here h rest =
      left_out c cs out
        (λ other offered a.
          let same : other ≡ envelope = some-injective (sym offered ∙ here) in
          absurd (
            ok_not_err (
              sym (verify_change-accepted p roster c.item_id other a)
              ∙ ap (λ b. verify_change p c.item_id b roster) same
              ∙ h)))
        rest
  taken_or_left c envelope cs out (ok kind) here h rest = elim (Bool-cases (is_mergeable kind)) [
    | inl wanted ↦ rw wanted (
        taken c envelope cs out here
          (verify_change-IsAccepted p roster c.item_id envelope kind h wanted) rest)
    | inr other ↦ rw other (
        left_out c cs out
          (λ bytes offered a.
            let same : bytes ≡ envelope = some-injective (sym offered ∙ here) in
            let found : a.parsed.header.kind ≡ kind = ok-injective (
              sym (verify_change-accepted p roster c.item_id bytes a)
              ∙ ap (λ b. verify_change p c.item_id b roster) same
              ∙ h) in
            let merges = accepted_kind p roster a.parsed.header.kind a.wanted in
            absurd (ground (arith, other, ap is_mergeable found, merges)))
          rest)
  ]

  mergeable_next :
      (c : FeedChange) (envelope : Option Bytes) (cs : List FeedChange) (out : List RemoteChange)
      → c.envelope ≡ envelope
      → Takes p roster cs out
      → Takes p roster (c ∷ cs) (mergeable_envelope c envelope ++ out)
  mergeable_next c none cs out here rest =
      left_out c cs out (λ bytes offered a. absurd (none_not_some (sym here ∙ offered))) rest
  mergeable_next c (some envelope) cs out here rest =
      taken_or_left c envelope cs out (verify_change p c.item_id envelope roster) here refl rest

  pub mergeable-Takes : (cs : List FeedChange) → Takes p roster cs (mergeable cs)
  unfolding mergeable
  mergeable-Takes [] = done
  mergeable-Takes (c ∷ cs) = mergeable_next c c.envelope cs (mergeable cs) refl (mergeable-Takes cs)

  Takes-AllVouchedFor :
      {cs : List FeedChange} {out : List RemoteChange} → Takes p roster cs out → AllVouchedFor out
  Takes-AllVouchedFor done = tt
  Takes-AllVouchedFor (taken c envelope cs out here a rest) = (
    (a.parsed, a.signer, a.parsed.signature, a.parses, a.listed, a.signed, a.wanted),
    Takes-AllVouchedFor rest,
  )
  Takes-AllVouchedFor (left_out c cs out never rest) = Takes-AllVouchedFor rest

  pub mergeable-All : (cs : List FeedChange) → AllVouchedFor (mergeable cs)
  mergeable-All cs = Takes-AllVouchedFor (mergeable-Takes cs)

  -- Of a page, exactly the changes with an envelope of at most 540672 bytes that parses, is of an item
  -- or a group and was signed by a device of the roster, with a usable key, for the id under which
  -- the server offers it reach the vault, in the order of the page.
  pub sort_changes-AllVouchedFor :
      (cs : List FeedChange) (report : SyncReport)
      → let sorted =
          sort_changes p roster cs (record { batch = []; accepted = []; report = report }) in
        Takes p roster cs sorted.batch × AllVouchedFor sorted.batch
  sort_changes-AllVouchedFor cs report =
      let same = sort_changes-batch cs (record { batch = []; accepted = []; report = report }) in
      (
        subst (Takes p roster cs) (sym same) (mergeable-Takes cs),
        subst AllVouchedFor (sym same) (mergeable-All cs),
      )
