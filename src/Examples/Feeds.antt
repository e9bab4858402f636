-- ===== src/Examples/Feeds.antt =====
-- The change feed of crates/misty-sync, at the keys of Keys: a vault that lists what it is given, and
-- a server with three changes, one of which is an item that the phone signed.
use misty.Prelude.{
  ℕ, ◌≡◌, refl, true, false, Option, some, none, List, [], ◌∷◌, ◌++◌, ok, length, arith,
}
use misty.Prelude.Little.{zero_fill, length-zero_fill}
use misty.Crypto.Error.{Bytes, CryptoResult}
use misty.Crypto.Envelope.Header.{Header, item, as_u8}
use misty.Crypto.Envelope.Seal.{parse}
use misty.Crypto.Envelope.Seal.Parsed.{assembled, IsWhole, parse-assembled}
use misty.Sync.Error.{SyncResult}
use misty.Sync.State.{SyncState, StateStore, IsDurable, new_state}
use misty.Vault.Change.{RemoteChange}
use misty.Sync.Page.{
  FeedChange, ChangeFeed, SyncReport, VaultOps, Engine, is_roster_change, sort_changes,
}
use misty.Sync.Page.Accepted.{Takes}
use misty.Sync.Page.Batch.{AllVouchedFor, sort_changes-AllVouchedFor}
use misty.Sync.Pull.{or_zero, pull}
use misty.Sync.Pull.Ends.{Arrives, pull-Arrives}
use misty.Sync.Pull.Durable.{Kept, pull-Kept}
use misty.Sync.Pull.Feed.{page_from, Ascends}
use misty.Sync.Pull.Complete.{NoRoster}
use misty.Examples.Keys.{tagging, home_roster}

abbrev pub item_header : Header
item_header = record {
  kind = item;
  epoch = 3;
  signer = zero_fill 16;
  wik_nonce = zero_fill 24;
  payload_nonce = zero_fill 24;
}

abbrev pub item_bytes : Bytes
item_bytes = assembled item_header (zero_fill 48) (zero_fill 272) (zero_fill 64)

pub item_bytes-IsWhole : IsWhole item_header (zero_fill 48) (zero_fill 272) (zero_fill 64)
item_bytes-IsWhole = record {
  header_sized = record {
    epoch_word = omega arith;
    signer_sized = length-zero_fill 16;
    wik_sized = length-zero_fill 24;
    payload_sized = length-zero_fill 24;
  };
  wrapped_sized = length-zero_fill 48;
  blocks = omega (arith, length-zero_fill 272);
  not_empty = omega (arith, length-zero_fill 272);
  not_huge = omega (arith, length-zero_fill 272);
  signature_sized = length-zero_fill 64;
}

abbrev pub item_change : FeedChange
item_change = record {
  item_id = 10 ∷ [];
  seq = 2;
  version = some (118 ∷ []);
  envelope = some item_bytes;
  deleted = false;
}

abbrev short_change : FeedChange
short_change = record {
  item_id = 2 ∷ [];
  seq = 5;
  version = none;
  envelope = some (9 ∷ []);
  deleted = false;
}

abbrev pub log : List FeedChange
log =
    (record { item_id = 1 ∷ []; seq = 1; version = none; envelope = none; deleted = true })
    ∷ item_change
    ∷ short_change
    ∷ []

pub log-Ascends : Ascends 0 log
log-Ascends = (omega arith, (omega arith, (omega arith, tt)))

abbrev blank_report : SyncReport
blank_report = record {
  pages = 0;
  changes_seen = 0;
  applied = 0;
  ignored = 0;
  rejected = [];
  pushed = 0;
  deleted = 0;
  conflicts_resolved = 0;
  pending_after = 0;
  cursor = none;
  conflicts = [];
  roster_update = none;
}

abbrev pub listing : VaultOps (List RemoteChange)
listing = record {
  merge_remote = λ batch v. (
    v ++ batch,
    ok (record {
      applied = length batch;
      ignored = 0;
      items_written = [];
      groups_written = [];
      conflicts = [];
    }),
  );
  load_all = λ v. ok [];
  stored = λ id v. ok none;
}

abbrev pub one_place : StateStore SyncState
one_place = record { load = λ s. ok s; save = λ state s. (state, ok tt) }

abbrev pub first_byte : Bytes → CryptoResult Bytes
first_byte envelope = ok (0 ∷ [])

abbrev pub engine : Engine (List RemoteChange) SyncState
engine = record { vault = []; store = new_state; state = new_state; report = blank_report }

abbrev pub server : ℕ → Option ℕ → ℕ → SyncResult ChangeFeed
server n cursor limit = ok (page_from log (or_zero cursor) limit)

sort_changes-AllVouchedFor_example :
    let sorted =
      sort_changes tagging home_roster log
        (record { batch = []; accepted = []; report = blank_report }) in
    Takes tagging home_roster log sorted.batch × AllVouchedFor tagging home_roster sorted.batch
sort_changes-AllVouchedFor_example = sort_changes-AllVouchedFor tagging home_roster log blank_report

pull-Arrives_example :
    Arrives listing one_place tagging first_byte home_roster server engine
      (pull listing one_place tagging first_byte home_roster server 2 engine)
pull-Arrives_example = pull-Arrives listing one_place tagging first_byte home_roster server 2 engine

whole_is_no_roster : is_roster_change item_change ≡ false
unfolding is_roster_change
whole_is_no_roster =
    rw
      (parse-assembled item_header (zero_fill 48) (zero_fill 272) (zero_fill 64) item_bytes-IsWhole)
      (unfold as_u8 in refl)

short_is_no_roster : is_roster_change short_change ≡ false
unfolding is_roster_change parse
short_is_no_roster = refl

pub log-NoRoster : NoRoster log
unfolding is_roster_change
log-NoRoster = (refl, (whole_is_no_roster, (short_is_no_roster, tt)))

one_place-IsDurable : IsDurable one_place
one_place-IsDurable = record {
  saved = λ held state s loads version h. refl;
  kept = λ state s e h. absurd cc;
}

pull-Kept_example :
    Kept listing one_place tagging first_byte home_roster one_place-IsDurable server engine
      (pull listing one_place tagging first_byte home_roster server 2 engine)
pull-Kept_example =
    pull-Kept listing one_place tagging first_byte home_roster one_place-IsDurable server 2 engine
      refl
