-- ===== src/Sync/Pull/Saved.antt =====
-- What a page of `pull` in crates/misty-sync/src/engine.rs leaves in the state store.
use misty.Prelude.{
  ◌≤◌, ◌≡◌, refl, sym, ap, subst, ◌∙◌, Bool, Option, some, List, [], ◌∷◌, ok, err, arith,
}
use misty.Crypto.Error.{Bytes, CryptoResult}
use misty.Crypto.Primitives.{Primitives}
use misty.Crypto.Identity.{Roster}
use misty.Crypto.Envelope.Header.{EnvelopeKind}
use misty.Vault.Error.{VaultResult}
use misty.Sync.Error.{SyncResult}
use misty.Sync.State.{SyncState, StateStore, IsDurable}
use misty.Vault.Change.{RemoteChange, MergeReport}
use misty.Sync.Page.{
  FeedChange, ChangeFeed, VaultOps, Engine, sort_changes, after_merge, merge_batch, learn,
  after_batch, apply_page, up_to_roster,
}
use misty.Sync.Pull.{
  or_zero, position, check_page, Plan, plan_page, count_page, advance, save_result, after_apply,
  after_check, absorb_feed,
}
use misty.Sync.Pull.Forward.{plan_from-forward}
use misty.Sync.Pull.Ends.{apply_page-Stays}

module _ {V S : Type 0} (vault_ops : VaultOps V) (store : StateStore S) (p : Primitives)
    (fingerprint_of : Bytes → CryptoResult Bytes) (roster : Roster) where
  after_merge-store :
      (e : Engine V S) (r : V × VaultResult MergeReport)
      → (after_merge vault_ops p fingerprint_of e r).0.store ≡ e.store
  after_merge-store e (new, err error) = refl
  after_merge-store e (new, ok merged) = refl

  merge_batch-store :
      (batch : List RemoteChange) (e : Engine V S)
      → (merge_batch vault_ops p fingerprint_of batch e).0.store ≡ e.store
  unfolding merge_batch
  merge_batch-store [] e = refl
  merge_batch-store (c ∷ cs) e = after_merge-store e (vault_ops.merge_remote (c ∷ cs) e.vault)

  after_batch-store :
      (accepted : List (FeedChange × Option EnvelopeKind)) (r : Engine V S × SyncResult {0} Unit)
      → (after_batch vault_ops p fingerprint_of accepted r).0.store ≡ r.0.store
  unfolding learn
  after_batch-store accepted (e, err error) = refl
  after_batch-store accepted (e, ok done) = refl

  apply_page-store :
      (cs : List FeedChange) (e : Engine V S)
      → (apply_page vault_ops p fingerprint_of roster cs e).0.store ≡ e.store
  unfolding apply_page
  apply_page-store cs e =
      let sorted =
        sort_changes p roster cs (record { batch = []; accepted = []; report = e.report }) in
      let before : Engine V S = record e { report = sorted.report } in
      after_batch-store sorted.accepted (merge_batch vault_ops p fingerprint_of sorted.batch before)
      ∙ merge_batch-store sorted.batch before

  -- A page does not change the format of the state.
  after_merge-version :
      (e : Engine V S) (r : V × VaultResult MergeReport)
      → (after_merge vault_ops p fingerprint_of e r).0.state.format_version ≡ e.state.format_version
  after_merge-version e (new, err error) = refl
  after_merge-version e (new, ok merged) = refl

  merge_batch-version :
      (batch : List RemoteChange) (e : Engine V S)
      → (merge_batch vault_ops p fingerprint_of batch e).0.state.format_version
        ≡ e.state.format_version
  unfolding merge_batch
  merge_batch-version [] e = refl
  merge_batch-version (c ∷ cs) e = after_merge-version e (vault_ops.merge_remote (c ∷ cs) e.vault)

  after_batch-version :
      (accepted : List (FeedChange × Option EnvelopeKind)) (r : Engine V S × SyncResult {0} Unit)
      → (after_batch vault_ops p fingerprint_of accepted r).0.state.format_version
        ≡ r.0.state.format_version
  unfolding learn
  after_batch-version accepted (e, err error) = refl
  after_batch-version accepted (e, ok done) = refl

  apply_page-version :
      (cs : List FeedChange) (e : Engine V S)
      → (apply_page vault_ops p fingerprint_of roster cs e).0.state.format_version
        ≡ e.state.format_version
  unfolding apply_page
  apply_page-version cs e =
      let sorted =
        sort_changes p roster cs (record { batch = []; accepted = []; report = e.report }) in
      let before : Engine V S = record e { report = sorted.report } in
      after_batch-version sorted.accepted
        (merge_batch vault_ops p fingerprint_of sorted.batch before)
      ∙ merge_batch-version sorted.batch before

  module _ (durable : IsDurable store) where
    -- What the store holds after a step: the state itself where the step succeeded, and where it
    -- failed a state whose cursor is between the one before and the one in memory.
    abbrev pub Holds : Engine V S → Engine V S → SyncResult Bool → Type 0
    Holds e last (ok ends) = store.load last.store ≡ ok last.state
    Holds e last (err error) =
        (s : SyncState) × (store.load last.store ≡ ok s)
        × (position e ≤ or_zero s.cursor)
        × (or_zero s.cursor ≤ position last)

    saved-Holds :
        (e next : Engine V S) (state : SyncState) (ends : Bool) (r : SyncResult {0} Unit)
        → (store.save state next.store).1 ≡ r
        → store.load next.store ≡ ok e.state
        → state.format_version ≡ e.state.format_version
        → position e ≤ or_zero state.cursor
        → Holds e
            (record next { state = state; store = (store.save state next.store).0 })
            (save_result vault_ops store p fingerprint_of roster ends r)
    saved-Holds e next state ends (ok done) h held version forward =
        durable.saved e.state state next.store held version h
    saved-Holds e next state ends (err error) h held version forward =
        (e.state, durable.kept state next.store error h ∙ held, omega arith, forward)

    after_apply-Holds :
        (plan : Plan) (e : Engine V S) (r : Engine V S × SyncResult {0} Unit)
        → store.load r.0.store ≡ ok e.state
        → r.0.state.cursor ≡ e.state.cursor
        → r.0.state.format_version ≡ e.state.format_version
        → position e ≤ plan.next_cursor
        → let after = after_apply vault_ops store p fingerprint_of roster plan r in
          Holds e after.0 after.1
    unfolding advance
    after_apply-Holds plan e (next, err error) held same version forward =
        (e.state, held, omega arith, subst (λ c. position e ≤ or_zero c) (sym same) (omega arith))
    after_apply-Holds plan e (next, ok done) held same version forward =
        let state = record (next.state) { cursor = some plan.next_cursor } in
        saved-Holds e next state plan.ends _ refl held version forward

    after_check-Holds :
        (feed : ChangeFeed) (e : Engine V S) (checked : SyncResult {0} Unit)
        → check_page (position e) feed ≡ checked
        → store.load e.store ≡ ok e.state
        → let after =
            after_check vault_ops store p fingerprint_of roster feed (position e) e checked in
          Holds e after.0 after.1
    unfolding plan_page
    after_check-Holds feed e (err error) h held = (e.state, held, omega arith, omega arith)
    after_check-Holds feed e (ok done) h held =
        let plan = plan_page (position e) feed in
        let (pages, cursor) =
          apply_page-Stays vault_ops store p fingerprint_of roster plan.slice e in
        after_apply-Holds plan e (apply_page vault_ops p fingerprint_of roster plan.slice e)
          (ap store.load (apply_page-store plan.slice e) ∙ held) cursor
          (apply_page-version plan.slice e)
          (plan_from-forward (position e) feed (up_to_roster feed.changes) refl h)

    pub absorb_feed-Holds :
        (feed : ChangeFeed) (e : Engine V S)
        → store.load e.store ≡ ok e.state
        → let after = absorb_feed vault_ops store p fingerprint_of roster feed e in
          Holds e after.0 after.1
    unfolding absorb_feed
    absorb_feed-Holds feed e held =
        after_check-Holds feed (count_page vault_ops store p fingerprint_of roster feed e)
          (check_page (position e) feed) refl held
