-- ===== src/Sync/Pull/Durable.antt =====
-- What `pull` of crates/misty-sync/src/engine.rs leaves in the state store.
use misty.Prelude.{
  ℕ, zero, suc, ◌/◌, ◌≤◌, ◌≡◌, subst, true, false, ◌&&◌, Bool-cases, inl, inr, ltb, leb, Option,
  some, none, ok, err, Result-cases, arith,
}
use misty.Crypto.Error.{Bytes, CryptoResult}
use misty.Crypto.Primitives.{Primitives}
use misty.Crypto.Identity.{Roster}
use misty.Sync.Error.{SyncResult, feed_too_long}
use misty.Sync.State.{SyncState, StateStore, IsDurable}
use misty.Sync.Page.{ChangeFeed, VaultOps, Engine, max_pages_per_sync}
use misty.Sync.Pull.{or_zero, position, is_oversized, at_least_one, absorb_feed, walk, pull}
use misty.Sync.Pull.Saved.{Holds, absorb_feed-Holds}
use misty.Sync.Pull.Ends.{absorb_feed-Steps, Arrives, pull-Arrives}

module _ {V S : Type 0} (vault_ops : VaultOps V) (store : StateStore S) (p : Primitives)
    (fingerprint_of : Bytes → CryptoResult Bytes) (roster : Roster) where
  module _ (durable : IsDurable store) where
    -- The same for a whole walk, when it has returned.
    abbrev WalkHolds : Engine V S → Option (Engine V S × SyncResult {0} Unit) → Type 0
    WalkHolds e none = Unit
    WalkHolds e (some (last, ok done)) = store.load last.store ≡ ok last.state
    WalkHolds e (some (last, err error)) =
        Holds vault_ops store p fingerprint_of roster durable e last (err error)

    WalkHolds-trans :
        (e next : Engine V S) (r : Option (Engine V S × SyncResult {0} Unit))
        → position e ≤ position next
        → WalkHolds next r
        → WalkHolds e r
    WalkHolds-trans e next none forward h = tt
    WalkHolds-trans e next (some (last, ok done)) forward h = h
    WalkHolds-trans e next (some (last, err error)) forward (s, held, low, high) =
        (s, held, omega (arith, forward, low), high)

    module _ (server : ℕ → Option ℕ → ℕ → SyncResult ChangeFeed) where
      walk-Holds :
          (fuel limit n : ℕ) (e : Engine V S)
          → store.load e.store ≡ ok e.state
          → WalkHolds e (walk vault_ops store p fingerprint_of roster server fuel limit n e)
      unfolding walk
      walk-Holds zero limit n e held = tt
      walk-Holds (suc fuel) limit n e held =
          let unmoved : Holds vault_ops store p fingerprint_of roster durable e e
              (err (feed_too_long max_pages_per_sync)) =
            (e.state, held, omega arith, omega arith) in
          elim (Bool-cases (leb max_pages_per_sync e.report.pages)) [
            | inl full ↦ rw (walk, full) unmoved
            | inr room ↦ elim (Result-cases (server n e.state.cursor limit)) [
              | inr (error, failed) ↦ elim (Bool-cases (is_oversized error && ltb 1 limit)) [
                | inl again ↦
                    rw (walk, room, failed, again)
                      (walk-Holds fuel (at_least_one (limit / 2)) (suc n) e held)
                | inr final ↦ rw (walk, room, failed, final) unmoved
              ]
              | inl (feed, read) ↦
                  let next = absorb_feed vault_ops store p fingerprint_of roster feed e in
                  let holds =
                    absorb_feed-Holds vault_ops store p fingerprint_of roster durable feed e held in
                  let (pages, forward) =
                    absorb_feed-Steps vault_ops store p fingerprint_of roster feed e in
                  elim (Result-cases next.1) [
                    | inr (error, failed) ↦
                        rw (walk, room, read, failed)
                          (subst (Holds vault_ops store p fingerprint_of roster durable e next.0)
                            failed holds)
                    | inl (true, ended) ↦
                        rw (walk, room, read, ended)
                          (subst (Holds vault_ops store p fingerprint_of roster durable e next.0)
                            ended holds)
                    | inl (false, goes_on) ↦
                        rw (walk, room, read, goes_on)
                          (WalkHolds-trans e next.0 _ forward (
                            walk-Holds fuel limit (suc n) next.0 (
                              subst (Holds vault_ops store p fingerprint_of roster durable e next.0)
                                goes_on holds)))
                  ]
            ]
          ]

      -- What is in the store when `pull` has returned, which it does.
      abbrev pub Kept : Engine V S → Option (Engine V S × SyncResult {0} Unit) → Type 0
      Kept e none = ⊥
      Kept e (some (last, ok done)) =
          (store.load last.store ≡ ok last.state) × (position e ≤ position last)
      Kept e (some (last, err error)) =
          (s : SyncState) × (store.load last.store ≡ ok s)
          × (position e ≤ or_zero s.cursor)
          × (or_zero s.cursor ≤ position last)

      returned :
          (e : Engine V S) (r : Option (Engine V S × SyncResult {0} Unit))
          → Arrives vault_ops store p fingerprint_of roster server e r
          → WalkHolds e r
          → Kept e r
      returned e none a h = a
      returned e (some (last, ok done)) a h = (h, a)
      returned e (some (last, err error)) a h = h

      -- With a store that holds the engine's state and whose saves are durable where the format of the
      -- state stays the same, `pull` returns, and then the store can be loaded: after a success it holds the engine's state, whose cursor is not
      -- behind the old one; after any error it holds a state whose cursor is neither behind the old
      -- one nor ahead of the engine's.
      pub pull-Kept :
          (page_limit : ℕ) (e : Engine V S)
          → store.load e.store ≡ ok e.state
          → Kept e (pull vault_ops store p fingerprint_of roster server page_limit e)
      unfolding pull
      pull-Kept page_limit e held =
          returned e _ (pull-Arrives vault_ops store p fingerprint_of roster server page_limit e)
            (walk-Holds _ _ 0 e held)
