-- ===== src/Sync/Pull/Ends.antt =====
-- The walk of `pull` in crates/misty-sync/src/engine.rs ends, and never goes back.
use misty.Prelude.{
  saturated, ℕ, zero, suc, ◌+◌, ◌-◌, ◌/◌, ◌<◌, ◌≤◌, ◌≡◌, refl, sym, subst, ◌∙◌, Bool, true, false,
  ◌&&◌, Bool-cases, inl, inr, ltb, ltb→lt, leb, Option, some, none, List, [], ◌∷◌, ok, err, Result,
  Result-cases, arith,
}
use misty.Crypto.Error.{Bytes, CryptoResult}
use misty.Crypto.Primitives.{Primitives}
use misty.Crypto.Identity.{Roster}
use misty.Crypto.Envelope.Header.{EnvelopeKind, item, group, device_roster, settings, custom_icon}
use misty.Sync.Error.{SyncError, SyncResult}
use misty.Vault.Error.{VaultResult}
use misty.Sync.State.{StateStore}
use misty.Vault.Change.{RemoteChange, MergeReport}
use misty.Sync.Page.{
  Rejection, FeedChange, ChangeFeed, Sorted, VaultOps, Engine, verify_change, accept_change,
  sort_verified, sort_envelope, sort_change, after_merge, after_batch, sort_changes, merge_batch,
  learn, apply_page, up_to_roster, max_pages_per_sync,
}
use misty.Sync.Pull.{
  or_zero, position, is_oversized, at_least_one, check_page, Plan, plan_page, after_apply,
  after_check, count_page, advance, absorb_feed, walk, pull,
}
use misty.Sync.Pull.Forward.{plan_from-forward}

and_right : (a b : Bool) → a && b ≡ true → b ≡ true
and_right true b h = h
and_right false b h = absurd cc

halves :
    (limit : ℕ) → 1 < limit → (at_least_one (limit / 2) < limit) × (1 ≤ at_least_one (limit / 2))
halves limit h = ground arith

asked_more : (error : SyncError) (limit : ℕ) → is_oversized error && ltb 1 limit ≡ true → 1 < limit
asked_more error limit h = ltb→lt 1 limit (and_right (is_oversized error) (ltb 1 limit) h)

accept_change-pages :
    (p : Primitives) (c : FeedChange) (envelope : Bytes) (kind : EnvelopeKind) (s : Sorted)
    → (accept_change p c envelope kind s).report.pages ≡ s.report.pages
unfolding accept_change
accept_change-pages p c envelope item s = refl
accept_change-pages p c envelope device_roster s = refl
accept_change-pages p c envelope settings s = refl
accept_change-pages p c envelope group s = refl
accept_change-pages p c envelope custom_icon s = refl

sort_verified-pages :
    (p : Primitives) (c : FeedChange) (envelope : Bytes) (r : Result Rejection EnvelopeKind)
    (s : Sorted)
    → (sort_verified p c envelope r s).report.pages ≡ s.report.pages
sort_verified-pages p c envelope (err reason) s = refl
sort_verified-pages p c envelope (ok kind) s = accept_change-pages p c envelope kind s

sort_envelope-pages :
    (p : Primitives) (roster : Roster) (c : FeedChange) (envelope : Option Bytes) (s : Sorted)
    → (sort_envelope p roster c envelope s).report.pages ≡ s.report.pages
sort_envelope-pages p roster c none s = refl
sort_envelope-pages p roster c (some envelope) s =
    sort_verified-pages p c envelope (verify_change p c.item_id envelope roster) s

sort_changes-pages :
    (p : Primitives) (roster : Roster) (cs : List FeedChange) (s : Sorted)
    → (sort_changes p roster cs s).report.pages ≡ s.report.pages
unfolding sort_changes
sort_changes-pages p roster [] s = refl
sort_changes-pages p roster (c ∷ cs) s =
    sort_changes-pages p roster cs (sort_change p roster c s)
    ∙ sort_envelope-pages p roster c c.envelope s

module _ {V S : Type 0} (vault_ops : VaultOps V) (store : StateStore S) (p : Primitives)
    (fingerprint_of : Bytes → CryptoResult Bytes) (roster : Roster) where
  -- What a page leaves alone while it is applied: the count of pages and the cursor.
  abbrev pub Stays : Engine V S → Engine V S → Type 0
  Stays e next = (next.report.pages ≡ e.report.pages) × (next.state.cursor ≡ e.state.cursor)

  after_merge-Stays :
      (e : Engine V S) (r : V × VaultResult MergeReport)
      → Stays e (after_merge vault_ops p fingerprint_of e r).0
  after_merge-Stays e (new, err error) = (refl, refl)
  after_merge-Stays e (new, ok merged) = (refl, refl)

  merge_batch-Stays :
      (batch : List RemoteChange) (e : Engine V S)
      → Stays e (merge_batch vault_ops p fingerprint_of batch e).0
  unfolding merge_batch
  merge_batch-Stays [] e = (refl, refl)
  merge_batch-Stays (c ∷ cs) e = after_merge-Stays e (vault_ops.merge_remote (c ∷ cs) e.vault)

  after_batch-Stays :
      (accepted : List (FeedChange × Option EnvelopeKind)) (r : Engine V S × SyncResult {0} Unit)
      → Stays r.0 (after_batch vault_ops p fingerprint_of accepted r).0
  unfolding learn
  after_batch-Stays accepted (e, err error) = (refl, refl)
  after_batch-Stays accepted (e, ok done) = (refl, refl)

  pub apply_page-Stays :
      (changes : List FeedChange) (e : Engine V S)
      → Stays e (apply_page vault_ops p fingerprint_of roster changes e).0
  unfolding apply_page
  apply_page-Stays changes e =
      let start : Sorted = record { batch = []; accepted = []; report = e.report } in
      let sorted = sort_changes p roster changes start in
      let before : Engine V S = record e { report = sorted.report } in
      let (pages, cursor) = merge_batch-Stays sorted.batch before in
      let (pages', cursor') =
        after_batch-Stays sorted.accepted
          (merge_batch vault_ops p fingerprint_of sorted.batch before) in
      (pages' ∙ pages ∙ sort_changes-pages p roster changes start, cursor' ∙ cursor)

  -- One page counts once, and does not move the cursor back.
  abbrev Steps : Engine V S → Engine V S → Type 0
  Steps e next = (next.report.pages ≡ e.report.pages) × (position e ≤ position next)

  after_apply-Steps :
      (plan : Plan) (e : Engine V S) (r : Engine V S × SyncResult {0} Unit)
      → Stays e r.0
      → position e ≤ plan.next_cursor
      → Steps e (after_apply vault_ops store p fingerprint_of roster plan r).0
  unfolding advance
  after_apply-Steps plan e (next, err error) s h =
      (s.0, subst (λ c. position e ≤ or_zero c) (sym s.1) (omega arith))
  after_apply-Steps plan e (next, ok done) s h = (s.0, h)

  after_check-Steps :
      (feed : ChangeFeed) (e : Engine V S) (checked : SyncResult {0} Unit)
      → check_page (position e) feed ≡ checked
      → Steps e (after_check vault_ops store p fingerprint_of roster feed (position e) e checked).0
  unfolding plan_page
  after_check-Steps feed e (err error) h = (refl, omega arith)
  after_check-Steps feed e (ok done) h =
      let plan = plan_page (position e) feed in
      after_apply-Steps plan e (apply_page vault_ops p fingerprint_of roster plan.slice e)
        (apply_page-Stays plan.slice e)
        (plan_from-forward (position e) feed (up_to_roster feed.changes) refl h)

  pub absorb_feed-Steps :
      (feed : ChangeFeed) (e : Engine V S)
      → let next = (absorb_feed vault_ops store p fingerprint_of roster feed e).0 in
        (next.report.pages ≡ saturated (e.report.pages + 1)) × (position e ≤ position next)
  unfolding absorb_feed
  absorb_feed-Steps feed e =
      after_check-Steps feed (count_page vault_ops store p fingerprint_of roster feed e)
        (check_page (position e) feed) refl

  module _ (server : ℕ → Option ℕ → ℕ → SyncResult ChangeFeed) where
    abbrev walk_all : ℕ → ℕ → ℕ → Engine V S → Option (Engine V S × SyncResult {0} Unit)
    walk_all = walk vault_ops store p fingerprint_of roster server

    -- The walk returned, with a cursor that is not behind where it started.
    abbrev pub Arrives : Engine V S → Option (Engine V S × SyncResult {0} Unit) → Type 0
    Arrives e none = ⊥
    Arrives e (some (last, result)) = position e ≤ position last

    Arrives-trans :
        (e next : Engine V S) (r : Option (Engine V S × SyncResult {0} Unit))
        → position e ≤ position next
        → Arrives next r
        → Arrives e r
    Arrives-trans e next none h a = a
    Arrives-trans e next (some (last, result)) h a = omega (arith, h, a)

    walk-Arrives :
        (fuel limit n : ℕ) (e : Engine V S)
        → (max_pages_per_sync - e.report.pages) + limit < fuel
        → 1 ≤ limit
        → Arrives e (walk_all fuel limit n e)
    unfolding walk
    walk-Arrives zero limit n e h one = absurd (omega arith)
    walk-Arrives (suc fuel) limit n e h one =
        elim (Bool-cases (leb max_pages_per_sync e.report.pages)) [
          | inl full ↦ rw (walk, full) (omega arith)
          | inr room ↦ elim (Result-cases (server n e.state.cursor limit)) [
            | inr (error, failed) ↦ elim (Bool-cases (is_oversized error && ltb 1 limit)) [
              | inl again ↦
                  let shrinks = halves limit (asked_more error limit again) in
                  rw (walk, room, failed, again)
                    (walk-Arrives fuel (at_least_one (limit / 2)) (suc n) e (omega (arith, shrinks))
                      shrinks.1)
              | inr final ↦ rw (walk, room, failed, final) (omega arith)
            ]
            | inl (feed, read) ↦
                let next = absorb_feed vault_ops store p fingerprint_of roster feed e in
                let (pages, forward) = absorb_feed-Steps feed e in
                elim (Result-cases next.1) [
                  | inr (error, failed) ↦ rw (walk, room, read, failed) forward
                  | inl (true, ended) ↦ rw (walk, room, read, ended) forward
                  | inl (false, goes_on) ↦
                      rw (walk, room, read, goes_on)
                        (Arrives-trans e next.0 _ forward (
                          walk-Arrives fuel limit (suc n) next.0 (ground (arith, pages, room, h))
                            one))
                ]
          ]
        ]

    -- Against any server, vault and state store, `pull` returns, with a value or an error, within
    -- `MAX_PAGES_PER_SYNC` plus the page limit plus one rounds of its loop, and with a cursor that is
    -- not behind where it was.
    pub pull-Arrives :
        (page_limit : ℕ) (e : Engine V S)
        → Arrives e (pull vault_ops store p fingerprint_of roster server page_limit e)
    unfolding pull
    pull-Arrives page_limit e = walk-Arrives _ _ 0 e (omega arith) (ground arith)
