-- ===== src/Sync/Queue/Confirmed.antt =====
-- What `pending` and `push_one` of crates/misty-sync/src/engine.rs, and `is_deletable` of state.rs, find in a row
-- that is recorded of the server.
use misty.Prelude.{
  ◌≡◌, ◌⊎◌, ◌↔◌, refl, inl, inr, true, false, Bool-cases, Option, some, none, list_ord, nat_ord,
  option_ord, same_key_iff, ◌==◌, arith,
}
use misty.Crypto.Error.{Bytes}
use misty.Crypto.Envelope.Header.{from_u8}
use misty.Sync.State.{KnownRow, is_deletable}
use misty.Sync.Queue.{is_confirmed}

-- Something is recorded of the row, with this fingerprint.
abbrev pub IsConfirmed : Bytes → Option KnownRow → Type 0
IsConfirmed fingerprint slot =
    (known : KnownRow) × (slot ≡ some known) × (known.fingerprint ≡ some fingerprint)

pub is_confirmed-IsConfirmed :
    (fingerprint : Bytes) (slot : Option KnownRow)
    → (is_confirmed fingerprint slot ≡ true) ↔ IsConfirmed fingerprint slot
unfolding is_confirmed
is_confirmed-IsConfirmed fingerprint none = (λ h. absurd cc, λ (known, h, same). absurd cc)
is_confirmed-IsConfirmed fingerprint (some row) =
    let same = same_key_iff row.fingerprint (some fingerprint) in
    (λ h. (row, refl, same.0 h), λ (known, h, e). same.1 (cc (h, e)))

pub is_confirmed-unconfirmed :
    (fingerprint : Bytes) (slot : Option KnownRow)
    → (is_confirmed fingerprint slot ≡ false) ↔ ¬ (IsConfirmed fingerprint slot)
is_confirmed-unconfirmed fingerprint slot =
    let same = is_confirmed-IsConfirmed fingerprint slot in
    (
      λ h sure. absurd (ground (arith, h, same.1 sure)),
      λ h. elim (Bool-cases (is_confirmed fingerprint slot)) [
        | inl sure ↦ absurd (h (same.0 sure))
        | inr unsure ↦ unsure
      ],
    )

-- The kind byte of an item or of a group.
abbrev pub IsItemOrGroup : KnownRow → Type 0
IsItemOrGroup row = (row.kind ≡ 1) ⊎ (row.kind ≡ 4)

pub is_deletable-IsItemOrGroup : (row : KnownRow) → (is_deletable row ≡ true) ↔ IsItemOrGroup row
unfolding is_deletable from_u8
is_deletable-IsItemOrGroup row = (
  λ h. elim (Bool-cases (row.kind == 1)) [
    | inl one ↦ inl (ground (arith, one))
    | inr more ↦ elim (Bool-cases (row.kind == 4)) [
      | inl four ↦ inr (ground (arith, four))
      | inr other ↦ absurd (ground (arith, h, more, other))
    ]
  ],
  λ h. elim h [ inl a ↦ rw a refl | inr b ↦ rw b refl ],
)
