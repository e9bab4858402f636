-- ===== src/Sync/Pull/Delivers.antt =====
-- `pull` of crates/misty-sync/src/engine.rs against an honest feed, page after page.
use misty.Prelude.{
  ℕ, zero, suc, ◌+◌, ◌*◌, ◌<◌, ◌≤◌, ◌≡◌, refl, sym, ap, ap₂, ◌∙◌, true, false, Bool-cases, inl, inr,
  ltb, ltb→lt, leb, Option, some, none, List, [], ◌∷◌, ◌++◌, append_assoc, length, ok, err, arith,
}
use native.Mathlib.Nat.{mul-suc}
use misty.Prelude.Bytes.{take, drop}
use misty.Prelude.Little.{length-drop, append-take-drop}
use misty.Crypto.Error.{Bytes, CryptoResult}
use misty.Crypto.Primitives.{Primitives}
use misty.Crypto.Identity.{Roster}
use misty.Sync.Error.{SyncResult}
use misty.Sync.State.{StateStore}
use misty.Vault.Change.{RemoteChange}
use misty.Sync.Page.{FeedChange, ChangeFeed, VaultOps, Engine, max_pages_per_sync}
use misty.Sync.Page.Accepted.{Takes}
use misty.Sync.Page.Batch.{mergeable, mergeable-append, mergeable-Takes}
use misty.Sync.Pull.{position, at_least_one, is_empty, plan_from, absorb_feed, walk, pull}
use misty.Sync.Pull.Ends.{absorb_feed-Steps}
use misty.Sync.Pull.Feed.{
  newer, last_seq, page_from, Serves, Ascends, Ascends-newer, last_seq-forward, newer-last_seq,
  newer-newer,
}
use misty.Sync.Pull.Complete.{NoRoster, Excuse, absorb_feed-page_from}

take-short : (k : ℕ) (cs : List FeedChange) → length cs ≤ k → (take k cs ≡ cs) × (drop k cs ≡ [])
take-short zero [] h = (refl, refl)
take-short zero (c ∷ cs) h = absurd (omega arith)
take-short (suc k) [] h = (refl, refl)
take-short (suc k) (c ∷ cs) h =
    let (same, none_left) = take-short k cs (omega arith) in (ap (◌∷◌ c) same, none_left)

-- After a page, what is left is what the page left out.
newer-page :
    (log : List FeedChange) (cursor limit : ℕ)
    → Ascends 0 log
    → newer (page_from log cursor limit).next_seq log ≡ drop limit (newer cursor log)
unfolding page_from
newer-page log cursor limit a =
    let left = newer cursor log in
    let up = Ascends-newer 0 cursor log a in
    let next = last_seq cursor (take limit left) in
    sym (newer-newer cursor next log (last_seq-forward cursor limit left up))
    ∙ newer-last_seq cursor limit left up

take-not_empty :
    (k : ℕ) (cs : List FeedChange) → 1 ≤ k → k < length cs → is_empty (take k cs) ≡ false
take-not_empty zero cs one h = absurd (omega arith)
take-not_empty (suc k) [] one h = absurd (omega arith)
take-not_empty (suc k) (c ∷ cs) one h = refl

-- A page of a walk that goes on is full.
goes_on-full :
    (log : List FeedChange) (cursor limit : ℕ)
    → (plan_from cursor (page_from log cursor limit) none).ends ≡ false
    → limit < length (newer cursor log)
unfolding page_from
goes_on-full log cursor limit h = ground (arith, h)

ends-short :
    (log : List FeedChange) (cursor limit : ℕ)
    → Ascends 0 log
    → 1 ≤ limit
    → (plan_from cursor (page_from log cursor limit) none).ends ≡ true
    → length (newer cursor log) ≤ limit
unfolding page_from
ends-short log cursor limit a one h =
    let left = newer cursor log in
    elim (Bool-cases (ltb limit (length left))) [
      | inr short ↦ ground (arith, short)
      | inl more ↦
          absurd (
            ground
              (arith, more, h, take-not_empty limit left one (ltb→lt limit (length left) more)))
    ]

room_left : (limit k n : ℕ) → n ≤ limit * suc k → limit < n → 1 ≤ k
room_left limit zero n h full = absurd (omega arith)
room_left limit (suc k) n h full = omega arith

module _ {V S : Type 0} (vault_ops : VaultOps V) (store : StateStore S) (p : Primitives)
    (fingerprint_of : Bytes → CryptoResult Bytes) (roster : Roster) (seen : V → List RemoteChange)
    (records : (batch : List RemoteChange) (v : V)
      → seen (vault_ops.merge_remote batch v).0 ≡ seen v ++ batch)
    (server : ℕ → Option ℕ → ℕ → SyncResult ChangeFeed) (log : List FeedChange)
    (serves : Serves server log) (ascends : Ascends 0 log) (no_roster : NoRoster log) where
  -- The walk ended well, nothing newer is left, and the vault was given exactly what of it is
  -- accepted; or it failed, with an excuse.
  abbrev pub Delivers : Engine V S → Option (Engine V S × SyncResult {0} Unit) → Type 0
  Delivers e none = ⊥
  Delivers e (some (last, ok done)) =
      (newer (position last) log ≡ [])
      × ((given : List RemoteChange) × Takes p roster (newer (position e) log) given
          × (seen last.vault ≡ seen e.vault ++ given))
  Delivers e (some (last, err error)) = Excuse vault_ops store p fingerprint_of roster error

  -- The same, of the changes that are computed.
  abbrev Reaches : Engine V S → Option (Engine V S × SyncResult {0} Unit) → Type 0
  Reaches e none = ⊥
  Reaches e (some (last, ok done)) =
      (newer (position last) log ≡ [])
      × (seen last.vault ≡ seen e.vault ++ mergeable p roster (newer (position e) log))
  Reaches e (some (last, err error)) = Excuse vault_ops store p fingerprint_of roster error

  Reaches-Delivers :
      (e : Engine V S) (r : Option (Engine V S × SyncResult {0} Unit)) → Reaches e r → Delivers e r
  Reaches-Delivers e none h = h
  Reaches-Delivers e (some (last, ok done)) h = (
    h.0,
    (
      mergeable p roster (newer (position e) log),
      mergeable-Takes p roster (newer (position e) log),
      h.1,
    ),
  )
  Reaches-Delivers e (some (last, err error)) h = h

  -- A page that is not the last, and what the rest of the walk delivers.
  Reaches-page :
      (e next : Engine V S) (limit : ℕ) (r : Option (Engine V S × SyncResult {0} Unit))
      → position next ≡ (page_from log (position e) limit).next_seq
      → seen next.vault
        ≡ seen e.vault ++ mergeable p roster (page_from log (position e) limit).changes
      → Reaches next r
      → Reaches e r
  unfolding page_from
  Reaches-page e next limit none at given d = d
  Reaches-page e next limit (some (last, err error)) at given d = d
  Reaches-page e next limit (some (last, ok done)) at given d =
      let left = newer (position e) log in
      let rest : newer (position next) log ≡ drop limit left =
        ap (λ n. newer n log) at ∙ newer-page log (position e) limit ascends in
      let parts : mergeable p roster (take limit left) ++ mergeable p roster (drop limit left)
          ≡ mergeable p roster left =
        sym (mergeable-append p roster (take limit left) (drop limit left))
        ∙ ap (mergeable p roster) (append-take-drop limit left) in
      (
        d.0,
        d.1
            ∙ ap₂ (λ xs ys. xs ++ mergeable p roster ys) given rest
            ∙ append_assoc (seen e.vault) (mergeable p roster (take limit left))
                (mergeable p roster (drop limit left))
            ∙ ap (λ xs. seen e.vault ++ xs) parts,
      )

  Reaches-last :
      (e next : Engine V S) (limit : ℕ)
      → length (newer (position e) log) ≤ limit
      → position next ≡ (page_from log (position e) limit).next_seq
      → seen next.vault
        ≡ seen e.vault ++ mergeable p roster (page_from log (position e) limit).changes
      → Reaches e (some (next, ok tt))
  unfolding page_from
  Reaches-last e next limit short at given =
      let (same, none_left) = take-short limit (newer (position e) log) short in
      (
        ap (λ n. newer n log) at ∙ newer-page log (position e) limit ascends ∙ none_left,
        given ∙ ap (λ cs. seen e.vault ++ mergeable p roster cs) same,
      )

  walk-Reaches :
      (fuel limit n k : ℕ) (e : Engine V S)
      → e.report.pages + k ≡ max_pages_per_sync
      → 1 ≤ limit
      → 1 ≤ k
      → length (newer (position e) log) ≤ limit * k
      → k < fuel
      → Reaches e (walk vault_ops store p fingerprint_of roster server fuel limit n e)
  unfolding walk
  walk-Reaches zero limit n k e h one room fits enough = absurd (omega arith)
  walk-Reaches (suc fuel) limit n zero e h one room fits enough = absurd (omega arith)
  walk-Reaches (suc fuel) limit n (suc k) e h one room fits enough =
      let feed = page_from log (position e) limit in
      let below : leb max_pages_per_sync e.report.pages ≡ false = ground (arith, h) in
      let read = serves n e.state.cursor limit in
      let next = absorb_feed vault_ops store p fingerprint_of roster feed e in
      let (pages, forward) = absorb_feed-Steps vault_ops store p fingerprint_of roster feed e in
      elim (absorb_feed-page_from vault_ops store p fingerprint_of roster seen records log limit e
        ascends no_roster) [
          | inr (error, failed, excuse) ↦ rw (walk, below, read, failed) excuse
          | inl (done, at, given) ↦ elim (Bool-cases (plan_from (position e) feed none).ends) [
            | inl ended ↦
                rw (walk, below, read, done, ended)
                  (Reaches-last e next.0 limit (ends-short log (position e) limit ascends one ended)
                    at given)
            | inr goes_on ↦
                let full = goes_on-full log (position e) limit goes_on in
                let left = newer (position e) log in
                let rest : newer (position next.0) log ≡ drop limit left =
                  ap (λ m. newer m log) at ∙ newer-page log (position e) limit ascends in
                let fits' : length (newer (position next.0) log) ≤ limit * k =
                  omega (arith, ap length rest, length-drop limit left, mul-suc limit k, fits) in
                rw (walk, below, read, done, goes_on)
                  (Reaches-page e next.0 limit _ at given (
                    walk-Reaches fuel limit (suc n) k next.0 (ground (arith, pages, h)) one
                      (room_left limit k _ fits full) fits' (omega arith)))
          ]
        ]

  -- A pull with a fresh report from an honest server, one that answers every request from one log in
  -- ascending order without a roster change, at most `MAX_PAGES_PER_SYNC` full pages of it newer than
  -- the cursor, fails only where the vault refuses a batch that is all that is accepted of some page,
  -- an envelope has no fingerprint, or the state is not saved. Otherwise it ends well: nothing newer
  -- than the cursor is left, and the vault, one of which we can tell what it was given, was given
  -- exactly the accepted changes of the log after the old cursor, each once and in the order of the
  -- log, however the feed was cut into pages. A change is accepted if its envelope is of at most
  -- 540672 bytes, parses, is of an item or a group, and was signed by a device of the roster for its
  -- id.
  pub pull-Delivers :
      (page_limit : ℕ) (e : Engine V S)
      → e.report.pages ≡ 0
      → length (newer (position e) log) ≤ at_least_one page_limit * max_pages_per_sync
      → Delivers e (pull vault_ops store p fingerprint_of roster server page_limit e)
  unfolding pull
  pull-Delivers page_limit e fresh fits = Reaches-Delivers e _ (
      walk-Reaches _ (at_least_one page_limit) 0 max_pages_per_sync e (omega arith) (ground arith)
        (omega arith) fits (ground arith))
