-- ===== src/Sync/Pull/Guarded.antt =====
-- What a walk over the change feed of crates/misty-sync/src/engine.rs lets reach the vault.
use misty.Prelude.{
  ℕ, zero, suc, ◌/◌, true, false, ◌&&◌, inl, inr, ltb, leb, Bool-cases, Option, some, none, List,
  [], ◌∷◌, ok, err, Result-cases,
}
use misty.Crypto.Error.{Bytes, CryptoResult}
use misty.Crypto.Primitives.{Primitives}
use misty.Crypto.Identity.{Roster}
use misty.Crypto.Envelope.Header.{EnvelopeKind}
use misty.Vault.Error.{VaultResult}
use misty.Vault.Change.{RemoteChange, MergeReport}
use misty.Sync.Error.{SyncResult}
use misty.Sync.State.{StateStore}
use misty.Sync.Page.{
  FeedChange, ChangeFeed, VaultOps, Engine, sort_changes, after_merge, merge_batch, learn,
  after_batch, apply_page, max_pages_per_sync,
}
use misty.Sync.Page.Batch.{AllVouchedFor, sort_changes-AllVouchedFor}
use misty.Sync.Pull.{
  position, is_oversized, at_least_one, check_page, Plan, plan_page, count_page, advance,
  after_apply, after_check, absorb_feed, walk, pull,
}

module _ {V S : Type 0} (vault_ops : VaultOps V) (store : StateStore S) (p : Primitives)
    (fingerprint_of : Bytes → CryptoResult Bytes) (roster : Roster) (P : V → Type 0)
    (keeps : (cs : List RemoteChange) (v : V)
      → AllVouchedFor p roster cs
      → P v
      → P (vault_ops.merge_remote cs v).0) where
  after_merge-keeps :
      (e : Engine V S) (a : V × VaultResult MergeReport)
      → P a.0
      → P (after_merge vault_ops p fingerprint_of e a).0.vault
  after_merge-keeps e (new, err error) h = h
  after_merge-keeps e (new, ok merged) h = h

  merge_batch-keeps :
      (cs : List RemoteChange) (e : Engine V S)
      → AllVouchedFor p roster cs
      → P e.vault
      → P (merge_batch vault_ops p fingerprint_of cs e).0.vault
  unfolding merge_batch
  merge_batch-keeps [] e all h = h
  merge_batch-keeps (c ∷ cs) e all h =
      after_merge-keeps e (vault_ops.merge_remote (c ∷ cs) e.vault) (keeps (c ∷ cs) e.vault all h)

  after_batch-keeps :
      (accepted : List (FeedChange × Option EnvelopeKind)) (r : Engine V S × SyncResult {0} Unit)
      → P r.0.vault
      → P (after_batch vault_ops p fingerprint_of accepted r).0.vault
  unfolding learn
  after_batch-keeps accepted (e, err error) h = h
  after_batch-keeps accepted (e, ok done) h = h

  apply_page-keeps :
      (cs : List FeedChange) (e : Engine V S)
      → P e.vault
      → P (apply_page vault_ops p fingerprint_of roster cs e).0.vault
  unfolding apply_page
  apply_page-keeps cs e h =
      let sorted =
        sort_changes p roster cs (record { batch = []; accepted = []; report = e.report }) in
      let before : Engine V S = record e { report = sorted.report } in
      after_batch-keeps sorted.accepted (merge_batch vault_ops p fingerprint_of sorted.batch before)
        (merge_batch-keeps sorted.batch before (sort_changes-AllVouchedFor p roster cs e.report).1
          h)

  after_apply-keeps :
      (plan : Plan) (r : Engine V S × SyncResult {0} Unit)
      → P r.0.vault
      → P (after_apply vault_ops store p fingerprint_of roster plan r).0.vault
  unfolding advance
  after_apply-keeps plan (e, err error) h = h
  after_apply-keeps plan (e, ok done) h = h

  after_check-keeps :
      (feed : ChangeFeed) (cursor : ℕ) (e : Engine V S) (r : SyncResult {0} Unit)
      → P e.vault
      → P (after_check vault_ops store p fingerprint_of roster feed cursor e r).0.vault
  after_check-keeps feed cursor e (err error) h = h
  after_check-keeps feed cursor e (ok checked) h =
      let plan = plan_page cursor feed in
      after_apply-keeps plan (apply_page vault_ops p fingerprint_of roster plan.slice e)
        (apply_page-keeps plan.slice e h)

  absorb_feed-keeps :
      (feed : ChangeFeed) (e : Engine V S)
      → P e.vault
      → P (absorb_feed vault_ops store p fingerprint_of roster feed e).0.vault
  unfolding absorb_feed
  absorb_feed-keeps feed e h =
      after_check-keeps feed (position e)
        (count_page vault_ops store p fingerprint_of roster feed e) (check_page (position e) feed) h

  -- Where a walk has come to, if it has.
  abbrev pub Kept : Option (Engine V S × SyncResult {0} Unit) → Type 0
  Kept none = Unit
  Kept (some (e, result)) = P e.vault

  module _ (server : ℕ → Option ℕ → ℕ → SyncResult ChangeFeed) where
    walk-keeps :
        (fuel limit n : ℕ) (e : Engine V S)
        → P e.vault
        → Kept (walk vault_ops store p fingerprint_of roster server fuel limit n e)
    unfolding walk
    walk-keeps zero limit n e h = tt
    walk-keeps (suc fuel) limit n e h = elim (Bool-cases (leb max_pages_per_sync e.report.pages)) [
      | inl full ↦ rw (walk, full) h
      | inr room ↦ elim (Result-cases (server n e.state.cursor limit)) [
        | inr (error, failed) ↦ elim (Bool-cases (is_oversized error && ltb 1 limit)) [
          | inl again ↦
              rw (walk, room, failed, again)
                (walk-keeps fuel (at_least_one (limit / 2)) (suc n) e h)
          | inr final ↦ rw (walk, room, failed, final) h
        ]
        | inl (feed, read) ↦
            let next = absorb_feed vault_ops store p fingerprint_of roster feed e in
            let kept = absorb_feed-keeps feed e h in
            elim (Result-cases next.1) [
              | inr (error, failed) ↦ rw (walk, room, read, failed) kept
              | inl (true, ended) ↦ rw (walk, room, read, ended) kept
              | inl (false, goes_on) ↦
                  rw (walk, room, read, goes_on) (walk-keeps fuel limit (suc n) next.0 kept)
            ]
      ]
    ]

    pub pull-keeps :
        (page_limit : ℕ) (e : Engine V S)
        → P e.vault
        → Kept (pull vault_ops store p fingerprint_of roster server page_limit e)
    unfolding pull
    pull-keeps page_limit e h = walk-keeps _ _ 0 e h
