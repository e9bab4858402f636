-- ===== src/Sync/Pull/Complete.antt =====
-- `pull` of crates/misty-sync/src/engine.rs against an honest feed: paging leaves nothing out, and
-- repeats nothing.
use misty.Prelude.{
  ℕ, zero, suc, ◌≤◌, ◌≡◌, ◌⊎◌, Result-cases, subst, refl, sym, ap, ◌∙◌, false, Bool-cases, inl, inr,
  ltb, Option, some, none, List, [], ◌∷◌, ◌++◌, append-nil, ok, err, arith,
}
use misty.Prelude.Bytes.{take}
use misty.Prelude.Map.{Map}
use misty.Crypto.Error.{Bytes, ItemId, CryptoError, CryptoResult}
use misty.Crypto.Primitives.{Primitives}
use misty.Crypto.Identity.{Roster}
use misty.Crypto.Envelope.Header.{EnvelopeKind}
use misty.Vault.Error.{VaultError, VaultResult}
use misty.Sync.Error.{SyncError, SyncResult, vault, crypto}
use misty.Sync.State.{KnownRow, SyncState, StateStore}
use misty.Vault.Change.{RemoteChange, MergeReport}
use misty.Sync.Page.{
  FeedChange, Sorted, VaultOps, Engine, fingerprint, record_known, is_roster_change, up_to_roster,
  sort_changes, after_merge, merge_batch, learn, after_batch, apply_page,
}
use misty.Sync.Page.Accepted.{Takes}
use misty.Sync.Page.Batch.{mergeable, sort_changes-batch, mergeable-Takes}
use misty.Sync.Pull.{
  position, first_stale, check_page, Plan, plan_page, plan_from, count_page, save_result, advance,
  after_apply, absorb_feed,
}
use misty.Sync.Pull.Feed.{newer, last_seq, page_from, Ascends, Ascends-newer, last_seq-forward}

-- No change of the list carries a roster.
abbrev pub NoRoster : List FeedChange → Type 0
NoRoster [] = Unit
NoRoster (c ∷ cs) = (is_roster_change c ≡ false) × NoRoster cs

NoRoster-take : (k : ℕ) (cs : List FeedChange) → NoRoster cs → NoRoster (take k cs)
NoRoster-take zero cs r = tt
NoRoster-take (suc k) [] r = tt
NoRoster-take (suc k) (c ∷ cs) r = (r.0, NoRoster-take k cs r.1)

NoRoster-newer : (n : ℕ) (cs : List FeedChange) → NoRoster cs → NoRoster (newer n cs)
unfolding newer
NoRoster-newer n [] r = tt
NoRoster-newer n (c ∷ cs) r =
    let rest = NoRoster-newer n cs r.1 in
    elim (Bool-cases (ltb n c.seq)) [
      | inl after ↦ rw after (r.0, rest)
      | inr before ↦ rw before rest
    ]

up_to_roster-none : (cs : List FeedChange) → NoRoster cs → up_to_roster cs ≡ none
unfolding up_to_roster
up_to_roster-none [] r = refl
up_to_roster-none (c ∷ cs) r = rw (r.0, up_to_roster-none cs r.1) refl

first_stale-Ascends :
    (cursor low k : ℕ) (cs : List FeedChange)
    → cursor ≤ low
    → Ascends low cs
    → first_stale cursor (take k cs) ≡ none
unfolding first_stale
first_stale-Ascends cursor low zero cs h a = refl
first_stale-Ascends cursor low (suc k) [] h a = refl
first_stale-Ascends cursor low (suc k) (c ∷ cs) h a =
    let rest = first_stale-Ascends cursor c.seq k cs (omega (arith, a.0)) a.1 in
    ground (arith, a.0, rest)

check_page-page_from :
    (log : List FeedChange) (cursor limit : ℕ)
    → Ascends 0 log
    → check_page cursor (page_from log cursor limit) ≡ ok tt
unfolding check_page page_from
check_page-page_from log cursor limit a =
    let left = newer cursor log in
    let up = Ascends-newer 0 cursor log a in
    let fresh = first_stale-Ascends cursor cursor limit left (omega arith) up in
    let forward : ltb (last_seq cursor (take limit left)) cursor ≡ false =
      ground (arith, last_seq-forward cursor limit left up) in
    rw (fresh, forward) refl

fingerprint-cases :
    (fingerprint_of : Bytes → CryptoResult Bytes) (envelope : Option Bytes)
    → ((f : Option Bytes) × (fingerprint fingerprint_of envelope ≡ ok f))
      ⊎ ((e : CryptoError) × (bytes : Bytes) × (fingerprint fingerprint_of envelope ≡ err e)
          × (fingerprint_of bytes ≡ err e))
fingerprint-cases fingerprint_of none = inl (none, refl)
fingerprint-cases fingerprint_of (some envelope) = elim (Result-cases (fingerprint_of envelope)) [
  | inl (f, found) ↦ inl (some f, rw (fingerprint, found) refl)
  | inr (e, failed) ↦ inr (e, envelope, rw (fingerprint, failed) refl, failed)
]

module _ {V S : Type 0} (vault_ops : VaultOps V) (store : StateStore S) (p : Primitives)
    (fingerprint_of : Bytes → CryptoResult Bytes) (roster : Roster) where
  -- Why a pull from an honest server fails: the vault refused a batch, which was all that is accepted
  -- of some page; an envelope had no fingerprint; or the state was not saved.
  pub data Excuse : SyncError → Type 0 where
    refused :
        (page : List FeedChange) (batch : List RemoteChange) (v : V) (e : VaultError)
        → Takes p roster page batch
        → (vault_ops.merge_remote batch v).1 ≡ err e
        → Excuse (vault "merge remote changes" e)
    unprinted :
        (envelope : Bytes) (e : CryptoError) → fingerprint_of envelope ≡ err e → Excuse (crypto e)
    unsaved :
        (state : SyncState) (s : S) (error : SyncError)
        → (store.save state s).1 ≡ err error
        → Excuse error

  -- A step succeeds in some way, or fails with an excuse.
  abbrev pub Fares : {A : Type 0} → Type 0 → SyncResult A → Type 0
  Fares well result = well ⊎ ((error : SyncError) × (result ≡ err error) × Excuse error)

  record_known-Fares :
      (accepted : List (FeedChange × Option EnvelopeKind)) (known : Map ItemId KnownRow)
      → let result = (record_known fingerprint_of accepted known).1 in Fares (result ≡ ok tt) result
  unfolding record_known
  record_known-Fares [] known = inl refl
  record_known-Fares ((c, kind) ∷ rest) known = elim (fingerprint-cases fingerprint_of c.envelope) [
    | inl (f, found) ↦ rw (record_known, found) (record_known-Fares rest _)
    | inr (e, bytes, failed, none_made) ↦
        rw (record_known, failed) (inr (crypto e, refl, unprinted bytes e none_made))
  ]

  after_batch-Fares :
      (accepted : List (FeedChange × Option EnvelopeKind)) (r : Engine V S × SyncResult {0} Unit)
      → r.1 ≡ ok tt
      → let after = after_batch vault_ops p fingerprint_of accepted r in
        Fares ((after.1 ≡ ok tt) × (after.0.vault ≡ r.0.vault)) after.1
  unfolding learn
  after_batch-Fares accepted (e, err error) h = absurd cc
  after_batch-Fares accepted (e, ok done) h = elim (record_known-Fares accepted e.state.known) [
    | inl well ↦ inl (well, refl)
    | inr (error, failed, excuse) ↦ inr (error, failed, excuse)
  ]

  after_batch-failed :
      (accepted : List (FeedChange × Option EnvelopeKind)) (r : Engine V S × SyncResult {0} Unit)
      (error : SyncError)
      → r.1 ≡ err error
      → (after_batch vault_ops p fingerprint_of accepted r).1 ≡ err error
  after_batch-failed accepted (e, err other) error h = h
  after_batch-failed accepted (e, ok done) error h = absurd cc

  after_apply-Fares :
      (plan : Plan) (r : Engine V S × SyncResult {0} Unit)
      → r.1 ≡ ok tt
      → let after = after_apply vault_ops store p fingerprint_of roster plan r in
        Fares
          ((after.1 ≡ ok plan.ends)
            × (position after.0 ≡ plan.next_cursor)
            × (after.0.vault ≡ r.0.vault))
          after.1
  unfolding advance
  after_apply-Fares plan (e, err error) h = absurd cc
  after_apply-Fares plan (e, ok done) h =
      let state = record (e.state) { cursor = some plan.next_cursor } in
      let shown = save_result vault_ops store p fingerprint_of roster plan.ends in
      elim (Result-cases (store.save state e.store).1) [
        | inl (done, saved) ↦ inl (ap shown saved, refl, refl)
        | inr (error, failed) ↦ inr (error, ap shown failed, unsaved state e.store error failed)
      ]

  after_apply-failed :
      (plan : Plan) (r : Engine V S × SyncResult {0} Unit) (error : SyncError)
      → r.1 ≡ err error
      → (after_apply vault_ops store p fingerprint_of roster plan r).1 ≡ err error
  after_apply-failed plan (e, err other) error h = let same : other ≡ error = cc in ap err same
  after_apply-failed plan (e, ok done) error h = absurd cc

  -- `seen` lists the changes that a vault was given.
  module _ (seen : V → List RemoteChange)
      (records : (batch : List RemoteChange) (v : V)
        → seen (vault_ops.merge_remote batch v).0 ≡ seen v ++ batch) where
    after_merge-Fares :
        (page : List FeedChange) (batch : List RemoteChange) (e : Engine V S)
        (r : V × VaultResult MergeReport)
        → Takes p roster page batch
        → vault_ops.merge_remote batch e.vault ≡ r
        → let after = after_merge vault_ops p fingerprint_of e r in
          Fares ((after.1 ≡ ok tt) × (seen after.0.vault ≡ seen e.vault ++ batch)) after.1
    after_merge-Fares page batch e (new, err error) takes h = inr (
      vault "merge remote changes" error,
      refl,
      refused page batch e.vault error takes (ap (λ r. r.1) h),
    )
    after_merge-Fares page batch e (new, ok merged) takes h =
        inl (refl, ap (λ r. seen r.0) (sym h) ∙ records batch e.vault)

    merge_batch-Fares :
        (page : List FeedChange) (batch : List RemoteChange) (e : Engine V S)
        → Takes p roster page batch
        → let after = merge_batch vault_ops p fingerprint_of batch e in
          Fares ((after.1 ≡ ok tt) × (seen after.0.vault ≡ seen e.vault ++ batch)) after.1
    unfolding merge_batch
    merge_batch-Fares page [] e takes = inl (refl, sym (append-nil (seen e.vault)))
    merge_batch-Fares page (c ∷ cs) e takes =
        after_merge-Fares page (c ∷ cs) e (vault_ops.merge_remote (c ∷ cs) e.vault) takes refl

    apply_page-Fares :
        (cs : List FeedChange) (e : Engine V S)
        → let after = apply_page vault_ops p fingerprint_of roster cs e in
          Fares
            ((after.1 ≡ ok tt) × (seen after.0.vault ≡ seen e.vault ++ mergeable p roster cs))
            after.1
    unfolding apply_page
    apply_page-Fares cs e =
        let start : Sorted = record { batch = []; accepted = []; report = e.report } in
        let sorted = sort_changes p roster cs start in
        let before : Engine V S = record e { report = sorted.report } in
        let merged = merge_batch vault_ops p fingerprint_of sorted.batch before in
        let same : sorted.batch ≡ mergeable p roster cs = sort_changes-batch p roster cs start in
        let takes : Takes p roster cs sorted.batch =
          subst (Takes p roster cs) (sym same) (mergeable-Takes p roster cs) in
        elim (merge_batch-Fares cs sorted.batch before takes) [
          | inr (error, failed, excuse) ↦
              inr (error, after_batch-failed sorted.accepted merged error failed, excuse)
          | inl (done, given) ↦ elim (after_batch-Fares sorted.accepted merged done) [
            | inr failed ↦ inr failed
            | inl (learned, kept) ↦
                inl (learned, ap seen kept ∙ given ∙ ap (λ b. seen e.vault ++ b) same)
          ]
        ]

    -- One page of an honest feed without a roster.
    pub absorb_feed-page_from :
        (log : List FeedChange) (limit : ℕ) (e : Engine V S)
        → Ascends 0 log
        → NoRoster log
        → let feed = page_from log (position e) limit in
          let after = absorb_feed vault_ops store p fingerprint_of roster feed e in
          Fares
            ((after.1 ≡ ok (plan_from (position e) feed none).ends)
              × (position after.0 ≡ feed.next_seq)
              × (seen after.0.vault ≡ seen e.vault ++ mergeable p roster feed.changes))
            after.1
    unfolding absorb_feed plan_page
    absorb_feed-page_from log limit e a r =
        let feed = page_from log (position e) limit in
        let counted = count_page vault_ops store p fingerprint_of roster feed e in
        let checked = check_page-page_from log (position e) limit a in
        let none_here : up_to_roster feed.changes ≡ none =
          unfold page_from in
          up_to_roster-none _ (NoRoster-take limit _ (NoRoster-newer (position e) log r)) in
        let plan = plan_from (position e) feed none in
        let applied = apply_page vault_ops p fingerprint_of roster feed.changes counted in
        elim (apply_page-Fares feed.changes counted) [
          | inr (error, failed, excuse) ↦
              rw (checked, none_here)
                (inr (error, after_apply-failed plan applied error failed, excuse))
          | inl (done, given) ↦ elim (after_apply-Fares plan applied done) [
            | inr failed ↦ rw (checked, none_here) (inr failed)
            | inl (ended, at, kept) ↦
                rw (checked, none_here) (inl (ended, at, ap seen kept ∙ given))
          ]
        ]
