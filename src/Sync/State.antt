-- ===== src/Sync/State.antt =====
-- crates/misty-sync/src/state.rs: what this device remembers between two syncs.
use misty.Prelude.{
  ℕ, ◌≡◌, Bool, true, false, if◌then◌else◌, ltb, Option, some, none, ok, err, [], ℤ, list_ord,
  nat_ord,
}
use misty.Prelude.Map.{Map, get}
use misty.Crypto.Error.{Bytes, ItemId, CryptoResult}
use misty.Crypto.Envelope.Header.{EnvelopeKind, item, group, from_u8}
use misty.Sync.Error.{SyncError, SyncResult, state_too_new}

abbrev pub state_format_version : ℕ
state_format_version = 1

-- A `ServerVersion` is the bytes of its token, a `Fingerprint` its 32 bytes.
pub record KnownRow : Type 0 where
  pub kind : ℕ
  pub fingerprint : Option Bytes
  pub version : Option Bytes
  pub seq : Option ℕ

pub record TimeSample : Type 0 where
  pub measured_at_ms : ℤ
  pub server_ms : ℤ
  pub offset_ms : ℤ

pub record RotationState : Type 0 where
  pub target_epoch : ℕ

pub record SyncState : Type 0 where
  pub format_version : ℕ
  pub cursor : Option ℕ
  pub known : Map ItemId KnownRow
  pub time : Option TimeSample
  pub rotation : Option RotationState

abbrev pub new_state : SyncState
new_state = record {
  format_version = state_format_version;
  cursor = none;
  known = [];
  time = none;
  rotation = none;
}

abbrev is_item_or_group : CryptoResult EnvelopeKind → Bool
is_item_or_group (ok item) = true
is_item_or_group (ok group) = true
is_item_or_group _ = false

unfoldable pub is_deletable : KnownRow → Bool
is_deletable row = is_item_or_group (from_u8 row.kind)

unfoldable pub check_version : SyncState → SyncResult {0} Unit
check_version state =
    if ltb state_format_version state.format_version
    then err (state_too_new state.format_version state_format_version)
    else ok tt

abbrev row_version : Option KnownRow → Option Bytes
row_version (some row) = row.version
row_version none = none

unfoldable pub version_of : SyncState → ItemId → Option Bytes
version_of state id = row_version (get id state.known)

-- `StateStore`: what the engine asks of the place where the state is kept.
pub record StateStore (S : Type 0) : Type 1 where
  pub load : S → SyncResult SyncState
  pub save : SyncState → S → S × SyncResult {0} Unit

-- A save that succeeds, over a state that loads and is of the same format, is what is loaded next; one
-- that fails changes nothing.
pub record IsDurable {S : Type 0} (store : StateStore S) : Type 0 where
  pub saved :
      (held state : SyncState) (s : S)
      → store.load s ≡ ok held
      → state.format_version ≡ held.format_version
      → (store.save state s).1 ≡ ok tt
      → store.load (store.save state s).0 ≡ ok state
  pub kept :
      (state : SyncState) (s : S) (e : SyncError)
      → (store.save state s).1 ≡ err e
      → store.load (store.save state s).0 ≡ store.load s
