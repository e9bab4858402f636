-- ===== src/Sync/Pull.antt =====
-- crates/misty-sync/src/engine.rs: `pull`, the walk over the change feed.
pub mod Forward
pub mod Ends
pub mod Feed
pub mod Complete
pub mod Delivers
pub mod Saved
pub mod Durable
pub mod Guarded
use misty.Prelude.{
  saturated, ℕ, zero, suc, ◌+◌, ◌/◌, Bool, true, false, not, ◌&&◌, ◌||◌, if◌then◌else◌, ltb, leb,
  Option, some, none, List, [], ◌∷◌, length, ok, err,
}
use misty.Crypto.Error.{Bytes, CryptoResult}
use misty.Crypto.Primitives.{Primitives}
use misty.Crypto.Identity.{Roster}
use misty.Sync.Error.{
  SyncError, SyncResult, response_too_large, envelope_too_large, seq_rollback, feed_too_long,
}
use misty.Sync.State.{StateStore}
use misty.Sync.Page.{
  FeedChange, ChangeFeed, VaultOps, Engine, apply_page, up_to_roster, max_pages_per_sync,
}

abbrev pub or_zero : Option ℕ → ℕ
or_zero (some n) = n
or_zero none = 0

-- Where the engine stands in the feed.
abbrev pub position : {V : Type 0} {S : Type 0} → Engine V S → ℕ
position e = or_zero e.state.cursor

abbrev pub is_oversized : SyncError → Bool
is_oversized (response_too_large operation max) = true
is_oversized (envelope_too_large len max) = true
is_oversized _ = false

abbrev pub at_least_one : ℕ → ℕ
at_least_one n = if leb n 1 then 1 else n

-- The first change that is not newer than the cursor.
unfoldable pub first_stale : ℕ → List FeedChange → Option ℕ
first_stale cursor [] = none
first_stale cursor (c ∷ cs) = if leb c.seq cursor then some c.seq else first_stale cursor cs

abbrev pub check_stale : ℕ → ℕ → Option ℕ → SyncResult {0} Unit
check_stale cursor next_seq (some seq) = err (seq_rollback seq cursor)
check_stale cursor next_seq none =
    if ltb next_seq cursor then err (seq_rollback next_seq cursor) else ok tt

-- The checks of a page against the cursor.
unfoldable pub check_page : ℕ → ChangeFeed → SyncResult {0} Unit
check_page cursor feed = check_stale cursor feed.next_seq (first_stale cursor feed.changes)

abbrev pub is_empty {ℓ} : {A : Type ℓ} → List A → Bool
is_empty [] = true
is_empty (x ∷ xs) = false

-- What a page asks for: the changes to apply, where to resume, and whether the walk ends with it.
pub record Plan : Type 0 where
  pub slice : List FeedChange
  pub next_cursor : ℕ
  pub ends : Bool

abbrev pub plan_from : ℕ → ChangeFeed → Option (List FeedChange × ℕ) → Plan
plan_from cursor feed (some (slice, seq)) = record { slice = slice; next_cursor = seq; ends = true }
plan_from cursor feed none = record {
  slice = feed.changes;
  next_cursor = feed.next_seq;
  ends = not feed.has_more || (is_empty feed.changes && leb feed.next_seq cursor);
}

unfoldable pub plan_page : ℕ → ChangeFeed → Plan
plan_page cursor feed = plan_from cursor feed (up_to_roster feed.changes)

module _ {V S : Type 0} (vault_ops : VaultOps V) (store : StateStore S) (p : Primitives)
    (fingerprint_of : Bytes → CryptoResult Bytes) (roster : Roster) where
  -- A page was read: it counts, whatever comes of it.
  abbrev pub count_page : ChangeFeed → Engine V S → Engine V S
  count_page feed e = record e {
    report = record (e.report) {
      pages = saturated (e.report.pages + 1);
      changes_seen = saturated (e.report.changes_seen + length feed.changes);
    };
  }

  -- The cursor moves once the page is applied, and is saved.
  abbrev pub save_result : Bool → SyncResult {0} Unit → SyncResult Bool
  save_result ends (err error) = err error
  save_result ends (ok done) = ok ends

  unfoldable pub advance : Plan → Engine V S → Engine V S × SyncResult Bool
  advance plan e =
      let state = record (e.state) { cursor = some plan.next_cursor } in
      let (kept, result) = store.save state e.store in
      (record e { state = state; store = kept }, save_result plan.ends result)

  abbrev pub after_apply : Plan → Engine V S × SyncResult {0} Unit → Engine V S × SyncResult Bool
  after_apply plan (e, err error) = (e, err error)
  after_apply plan (e, ok done) = advance plan e

  abbrev pub after_check :
      ChangeFeed → ℕ → Engine V S → SyncResult {0} Unit → Engine V S × SyncResult Bool
  after_check feed cursor e (err error) = (e, err error)
  after_check feed cursor e (ok checked) =
      let plan = plan_page cursor feed in
      after_apply plan (apply_page vault_ops p fingerprint_of roster plan.slice e)

  -- One page, up to the decision whether another one follows: `ok true` ends the walk.
  unfoldable pub absorb_feed : ChangeFeed → Engine V S → Engine V S × SyncResult Bool
  absorb_feed feed before =
      after_check feed (position before) (count_page feed before)
        (check_page (position before) feed)

  -- `server n cursor limit` is the answer to the `n`-th request.
  module _ (server : ℕ → Option ℕ → ℕ → SyncResult ChangeFeed) where
    unfoldable pub walk : ℕ → ℕ → ℕ → Engine V S → Option (Engine V S × SyncResult {0} Unit)
    walk zero limit n e = none
    walk (suc fuel) limit n e = elim (leb max_pages_per_sync e.report.pages) [
      | true ↦ some (e, err (feed_too_long max_pages_per_sync))
      | false ↦ elim (server n e.state.cursor limit) [
        | err error ↦ elim (is_oversized error && ltb 1 limit) [
          | true ↦ walk fuel (at_least_one (limit / 2)) (suc n) e
          | false ↦ some (e, err error)
        ]
        | ok feed ↦
            let (next, result) = absorb_feed feed e in
            elim result [
              | err error ↦ some (next, err error)
              | ok ends ↦ elim ends [
                | true ↦ some (next, ok tt)
                | false ↦ walk fuel limit (suc n) next
              ]
            ]
      ]
    ]

    -- The fuel: a request either halves the limit or counts a page.
    unfoldable pub pull : ℕ → Engine V S → Option (Engine V S × SyncResult {0} Unit)
    pull page_limit e =
        walk (suc (max_pages_per_sync + at_least_one page_limit)) (at_least_one page_limit) 0 e
