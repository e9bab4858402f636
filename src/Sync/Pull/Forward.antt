-- ===== src/Sync/Pull/Forward.antt =====
-- The page that `pull` of crates/misty-sync/src/engine.rs plans to take: its cursor is never behind.
use misty.Prelude.{
  ℕ, ◌<◌, ◌≤◌, ◌≡◌, Bool-cases, inl, inr, Option, some, none, List, [], ◌∷◌, ok, arith,
}
use misty.Sync.Page.{FeedChange, ChangeFeed, keep_before, is_roster_change, up_to_roster}
use misty.Sync.Pull.{first_stale, check_page, plan_from, check_stale}

first_stale-none :
    (cursor : ℕ) (c : FeedChange) (cs : List FeedChange)
    → first_stale cursor (c ∷ cs) ≡ none
    → (cursor < c.seq) × (first_stale cursor cs ≡ none)
unfolding first_stale
first_stale-none cursor c cs h = ground (arith, h)

keep_before-inverse :
    (c : FeedChange) (rest : Option (List FeedChange × ℕ)) (slice : List FeedChange) (seq : ℕ)
    → keep_before c rest ≡ some (slice, seq)
    → (inner : List FeedChange) × (rest ≡ some (inner, seq))
keep_before-inverse c none slice seq h = absurd cc
keep_before-inverse c (some (inner, n)) slice seq h = (inner, cc)

up_to_roster-newer :
    (cursor : ℕ) (cs slice : List FeedChange) (seq : ℕ)
    → first_stale cursor cs ≡ none
    → up_to_roster cs ≡ some (slice, seq)
    → cursor < seq
unfolding up_to_roster
up_to_roster-newer cursor [] slice seq h e = absurd cc
up_to_roster-newer cursor (c ∷ cs) slice seq h e =
    let (newer, others) = first_stale-none cursor c cs h in
    elim (Bool-cases (is_roster_change c)) [
      | inl here ↦ ground (arith, newer, here, e)
      | inr later ↦
          let (inner, found) =
            keep_before-inverse c (up_to_roster cs) slice seq (ground (arith, later, e)) in
          up_to_roster-newer cursor cs inner seq others found
    ]

check_stale-inverse :
    (cursor next : ℕ) (stale : Option ℕ)
    → check_stale cursor next stale ≡ ok tt
    → (stale ≡ none) × (cursor ≤ next)
check_stale-inverse cursor next (some seq) h = absurd cc
check_stale-inverse cursor next none h = ground (arith, h)

-- A page that passes the checks does not move the cursor back.
pub plan_from-forward :
    (cursor : ℕ) (feed : ChangeFeed) (halt : Option (List FeedChange × ℕ))
    → up_to_roster feed.changes ≡ halt
    → check_page cursor feed ≡ ok tt
    → cursor ≤ (plan_from cursor feed halt).next_cursor
unfolding check_page
plan_from-forward cursor feed none e h = (check_stale-inverse cursor feed.next_seq _ h).1
plan_from-forward cursor feed (some (slice, seq)) e h =
    let (fresh, forward) = check_stale-inverse cursor feed.next_seq _ h in
    let newer = up_to_roster-newer cursor feed.changes slice seq fresh e in omega (arith, newer)
