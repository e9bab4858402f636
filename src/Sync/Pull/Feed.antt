-- ===== src/Sync/Pull/Feed.antt =====
-- An honest change feed, as crates/misty-sync/src/engine.rs relies on it: a log of changes in
-- ascending order, offered in pages.
use misty.Prelude.{
  ℕ, zero, suc, ◌<◌, ◌≤◌, ◌≡◌, refl, sym, false, if◌then◌else◌, ltb, ltb→lt, Bool-cases, inl, inr,
  subst, Option, List, [], ◌∷◌, length, ok, arith,
}
use misty.Prelude.Bytes.{take, drop}
use misty.Sync.Page.{FeedChange, ChangeFeed}
use misty.Sync.Error.{SyncResult}
use misty.Sync.Pull.{or_zero}

unfoldable pub newer : ℕ → List FeedChange → List FeedChange
newer cursor [] = []
newer cursor (c ∷ cs) = let rest = newer cursor cs in if ltb cursor c.seq then c ∷ rest else rest

unfoldable pub last_seq : ℕ → List FeedChange → ℕ
last_seq cursor [] = cursor
last_seq cursor (c ∷ cs) = last_seq c.seq cs

-- A page of a log from a cursor on.
unfoldable pub page_from : List FeedChange → ℕ → ℕ → ChangeFeed
page_from log cursor limit =
    let left = newer cursor log in
    record {
      changes = take limit left;
      next_seq = last_seq cursor (take limit left);
      has_more = ltb limit (length left);
    }

-- Every request is answered from one log.
abbrev pub Serves : (ℕ → Option ℕ → ℕ → SyncResult ChangeFeed) → List FeedChange → Type 0
Serves server log =
    (n : ℕ) (cursor : Option ℕ) (limit : ℕ)
    → server n cursor limit ≡ ok (page_from log (or_zero cursor) limit)

-- The changes come after `cursor`, each after the one before it.
abbrev pub Ascends : ℕ → List FeedChange → Type 0
Ascends cursor [] = Unit
Ascends cursor (c ∷ cs) = (cursor < c.seq) × Ascends c.seq cs

Ascends-weaken : (m n : ℕ) (cs : List FeedChange) → m ≤ n → Ascends n cs → Ascends m cs
Ascends-weaken m n [] h a = tt
Ascends-weaken m n (c ∷ cs) h a = (omega (arith, a.0), a.1)

newer-all : (n : ℕ) (cs : List FeedChange) → Ascends n cs → newer n cs ≡ cs
unfolding newer
newer-all n [] a = refl
newer-all n (c ∷ cs) a =
    let rest = newer-all n cs (Ascends-weaken n c.seq cs (omega (arith, a.0)) a.1) in
    ground (arith, a.0, rest)

pub last_seq-forward :
    (cursor k : ℕ) (cs : List FeedChange) → Ascends cursor cs → cursor ≤ last_seq cursor (take k cs)
unfolding last_seq
last_seq-forward cursor zero cs a = omega arith
last_seq-forward cursor (suc k) [] a = omega arith
last_seq-forward cursor (suc k) (c ∷ cs) a = omega (arith, a.0, last_seq-forward c.seq k cs a.1)

pub Ascends-newer : (m n : ℕ) (cs : List FeedChange) → Ascends m cs → Ascends n (newer n cs)
unfolding newer
Ascends-newer m n [] a = tt
Ascends-newer m n (c ∷ cs) a = elim (Bool-cases (ltb n c.seq)) [
  | inl after ↦
      let le = ltb→lt n c.seq after in
      rw after (
        le,
        subst (Ascends c.seq) (sym (newer-all n cs (Ascends-weaken n c.seq cs (omega arith) a.1)))
            a.1,
      )
  | inr before ↦ rw before (Ascends-newer c.seq n cs a.1)
]

-- Nothing of a page before its end is offered again, and nothing after it is left out.
pub newer-last_seq :
    (cursor k : ℕ) (cs : List FeedChange)
    → Ascends cursor cs
    → newer (last_seq cursor (take k cs)) cs ≡ drop k cs
unfolding newer last_seq
newer-last_seq cursor zero cs a = newer-all cursor cs a
newer-last_seq cursor (suc k) [] a = refl
newer-last_seq cursor (suc k) (c ∷ cs) a =
    let forward = last_seq-forward c.seq k cs a.1 in
    let seen : ltb (last_seq c.seq (take k cs)) c.seq ≡ false = ground (arith, forward) in
    rw seen (newer-last_seq c.seq k cs a.1)

pub newer-newer : (m n : ℕ) (cs : List FeedChange) → m ≤ n → newer n (newer m cs) ≡ newer n cs
unfolding newer
newer-newer m n [] h = refl
newer-newer m n (c ∷ cs) h =
    let rest = newer-newer m n cs h in
    elim (Bool-cases (ltb m c.seq)) [
      | inl after ↦ ground (arith, after, rest)
      | inr before ↦
          let late : ltb n c.seq ≡ false = ground (arith, before) in rw (before, late) rest
    ]
