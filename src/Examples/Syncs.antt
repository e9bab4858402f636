-- ===== src/Examples/Syncs.antt =====
-- Whole syncs of crates/misty-sync/src/engine.rs at the vault of Vaults: a server that takes puts, and others
-- that refuse.
use misty.Prelude.{
  nat_ord, list_ord, ℕ, suc, ◌↔◌, ◌≡◌, arith, ◌++◌, refl, true, false, some, none, List, [], ◌∷◌,
  ok, err,
}
use misty.Crypto.Error.{ItemId}
use misty.Crypto.Envelope.Header.{from_u8, as_u8}
use misty.Vault.Store.{StoredEnvelope}
use misty.Vault.Store.Memory.{MemoryStore, memory_store}
use misty.Sync.Error
use misty.Sync.Error.{transport, environment}
use misty.Sync.State.{is_deletable, SyncState, StateStore, new_state}
use misty.Sync.Page.{FeedChange, Engine}
use misty.Sync.Page.Batch.{AllVouchedFor, all_append}
use misty.Sync.Pull.{or_zero}
use misty.Sync.Pull.Feed.{page_from}
use misty.Sync.Client.{Remote, applied, conflict}
use misty.Sync.Queue.{
  PendingWrite, pending, puts, deletes, sort_writes, insert_write, is_confirmed, has_row, put,
  delete,
}
use misty.Sync.Queue.Elements.{In}
use misty.Sync.Queue.Exact.{IsUnsent, IsPurged, to_put, to_delete, pending-exact}
use misty.Prelude.Map.{get}
use misty.Sync.Client.{put_item}
use misty.Sync.Push.{push_one, push_rounds, push_round}
use misty.Sync.Once.Refused.{sync_once_refused}
use misty.Sync.Once.{new_report, sync_once}
use misty.Sync.Once.Guarded.{Returns}
use misty.Sync.Run.{run}
use misty.Sync.Run.Ends.{Ends, run-Ends}
use misty.Sync.Backoff.{default_backoff}
use misty.Vault.Change.{RemoteChange}
use misty.Sync.Local.{Local, local_ops}
use misty.Sync.Local.Credentials.{IsSafe, sync_once-IsSafe}
use misty.Examples.Data.{empty-IsValid}
use misty.Examples.Keys.{tagging, home_roster}
use misty.Examples.Feeds.{item_bytes, first_byte, listing, engine, one_place}
use misty.Examples.Vaults.{zeros, one_codec, draws, home, spare_row}

abbrev sent_change : FeedChange
sent_change = record {
  item_id = 10 ∷ [];
  seq = 5;
  version = some (118 ∷ []);
  envelope = some item_bytes;
  deleted = false;
}

abbrev states : StateStore SyncState
states = record { load = λ s. ok s; save = λ state s. (state, ok tt) }

abbrev local_engine : Engine (Local MemoryStore) SyncState
local_engine = record {
  vault = (home, 0);
  store = new_state;
  state = new_state;
  report = new_report;
}

-- A server that takes every put, deletes what it is asked to, and has one change.
abbrev pub server : Remote ℕ
server = record {
  send_put = λ id envelope version n. (suc n, ok (record { status = 200; body = [] }));
  send_delete = λ id version n. (n, ok (record { status = 404; body = [] }));
  feed = λ n count cursor limit. ok (page_from (sent_change ∷ []) (or_zero cursor) limit);
  meanwhile = λ n. n;
  decode_put_applied = λ body. ok (applied 9 (55 ∷ []));
  decode_conflict = λ body. ok (conflict none none);
}

sync_once-IsSafe_example : Returns (IsSafe memory_store one_codec zeros tagging (λ n. draws) home) (
    sync_once
      (local_ops memory_store one_codec zeros tagging (λ n. draws))
      states
      tagging
      first_byte
      home_roster
      server
      20
      local_engine
      0)
sync_once-IsSafe_example =
    sync_once-IsSafe memory_store one_codec zeros tagging (λ n. draws) home states first_byte
      home_roster server 20 0 local_engine 0 refl empty-IsValid

listing_keeps :
    (cs v : List RemoteChange)
    → AllVouchedFor tagging home_roster cs
    → AllVouchedFor tagging home_roster v
    → AllVouchedFor tagging home_roster (v ++ cs)
listing_keeps cs v vouched before = all_append tagging home_roster v cs before vouched

abbrev kept_home : Local MemoryStore
kept_home = (record home { store = (memory_store.put_row spare_row home.store).0 }, 0)

abbrev kept_engine : Engine (Local MemoryStore) SyncState
kept_engine = record local_engine { vault = kept_home }

abbrev pushed_engine : Engine (Local MemoryStore) SyncState
pushed_engine =
    (push_one (local_ops memory_store one_codec zeros tagging (λ n. draws)) states tagging
      first_byte home_roster server (50 ∷ []) kept_engine 0).0

-- The put is sent, and recorded.
put_is_taken :
    get (50 ∷ []) pushed_engine.state.known
    ≡ some
        (record { kind = 1; fingerprint = some (0 ∷ []); version = some (55 ∷ []); seq = some 9 })
unfolding push_one push_rounds push_round is_confirmed put_item get misty.Prelude.Map.put as_u8
put_is_taken = refl

queue_of_one :
    pending first_byte
      (local_ops memory_store one_codec zeros tagging (λ n. draws))
      new_state
      kept_home
    ≡ ok ((record { item_id = 50 ∷ []; action = put }) ∷ [])
unfolding pending puts deletes sort_writes insert_write is_confirmed misty.Prelude.Map.get
    misty.Prelude.Map.put
queue_of_one = refl

pending-exact_example :
    let ws : List PendingWrite = (record { item_id = 50 ∷ []; action = put }) ∷ [] in
    (rows : List StoredEnvelope) × (memory_store.load_all kept_home.0.store ≡ ok rows)
    × ((id : ItemId) → In (to_put id) ws ↔ IsUnsent first_byte id [] rows)
    × ((id : ItemId) → In (to_delete id) ws ↔ IsPurged id rows [])
pending-exact_example =
    pending-exact first_byte (local_ops memory_store one_codec zeros tagging (λ n. draws)) new_state
      kept_home ((record { item_id = 50 ∷ []; action = put }) ∷ []) queue_of_one

-- A server on which every item has changed since.
abbrev busy_server : Remote ℕ
busy_server = record server {
  send_delete = λ id version n. (suc n, ok (record { status = 409; body = [] }));
}

abbrev purged_engine : Engine (Local MemoryStore) SyncState
purged_engine = record local_engine {
  state = record new_state {
    known =
        (
          60 ∷ [],
          record { kind = 1; fingerprint = some (0 ∷ []); version = some (55 ∷ []); seq = some 2 },
        )
        ∷ [];
  };
}

abbrev purge : PendingWrite
purge = record { item_id = 60 ∷ []; action = delete }

purge_is_queued :
    pending first_byte
      (local_ops memory_store one_codec zeros tagging (λ n. draws))
      purged_engine.state
      purged_engine.vault
    ≡ ok (purge ∷ [])
unfolding pending puts deletes sort_writes insert_write is_deletable has_row from_u8
purge_is_queued = refl

sync_once_refused_example :
    sync_once
      (local_ops memory_store one_codec zeros tagging (λ n. draws))
      states
      tagging
      first_byte
      home_roster
      busy_server
      20
      purged_engine
      0
    ≡ some (record purged_engine { report = new_report }, 1, err (Error.server "delete item" 409))
sync_once_refused_example =
    sync_once_refused (local_ops memory_store one_codec zeros tagging (λ n. draws)) states tagging
      first_byte home_roster busy_server 20 purged_engine 0 1 purge [] [] purge_is_queued refl refl

-- A server that cannot serve its feed.
abbrev down_server : Remote ℕ
down_server = record server { feed = λ n count cursor limit. err (Error.server "changes" 503) }

run-Ends_example :
    Ends listing one_place tagging first_byte home_roster down_server
      (AllVouchedFor tagging home_roster)
      listing_keeps
      default_backoff
      (omega arith)
      (λ n. ok 7)
      (λ n. n)
      20
      3
      0
      (transport "sync" environment)
      engine
      0
      (run listing one_place tagging first_byte home_roster down_server default_backoff
        (λ n. ok 7)
        (λ n. n)
        20
        3
        engine
        0)
run-Ends_example =
    run-Ends listing one_place tagging first_byte home_roster down_server
      (AllVouchedFor tagging home_roster) listing_keeps default_backoff (omega arith) (λ n. ok 7)
      (λ n. n) 20 3 engine 0 tt
