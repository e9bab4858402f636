-- ===== src/Sync/Client.antt =====
-- crates/misty-sync/src/client.rs: `put_item` and `delete_item`. What the transport brings back, and the decoding of
-- a body by the crate `serde_json`, are parameters.
use misty.Prelude.{ℕ, ◌||◌, if◌then◌else◌, ltb, leb, ◌==◌, ◌&&◌, Option, length, ok, err}
use misty.Crypto.Error.{Bytes, ItemId}
use misty.Sync.Error.{SyncResult, envelope_too_large, quota_exhausted, server}
use misty.Sync.Page.{ChangeFeed, max_envelope_len}

pub data PutOutcome : Type 0 where
  applied : ℕ → Bytes → PutOutcome
  conflict : Option Bytes → Option Bytes → PutOutcome

pub record Response : Type 0 where
  pub status : ℕ
  pub body : Bytes

-- The server: each request is answered, or fails on the way, and leaves it in some state. The feed
-- gives the answers to the requests of one walk, and `meanwhile` is what happens during it.
pub record Remote (R : Type 0) : Type 0 where
  pub send_put : ItemId → Bytes → Option Bytes → R → R × SyncResult Response
  pub send_delete : ItemId → Option Bytes → R → R × SyncResult Response
  pub feed : R → ℕ → Option ℕ → ℕ → SyncResult ChangeFeed
  pub meanwhile : R → R
  pub decode_put_applied : Bytes → SyncResult PutOutcome
  pub decode_conflict : Bytes → SyncResult PutOutcome

module _ {R : Type 0} (remote : Remote R) where
  abbrev pub put_outcome : ℕ → Response → SyncResult PutOutcome
  put_outcome len response =
      if (response.status == 200) || (response.status == 201) || (response.status == 204)
      then remote.decode_put_applied response.body
      else if response.status == 409
      then remote.decode_conflict response.body
      else if response.status == 413
      then err (envelope_too_large len max_envelope_len)
      else if response.status == 507
      then err (quota_exhausted "put item")
      else err (server "put item" response.status)

  abbrev pub after_put : ℕ → R × SyncResult Response → R × SyncResult PutOutcome
  after_put len (r, err e) = (r, err e)
  after_put len (r, ok response) = (r, put_outcome len response)

  -- `if-match` with the version, `if-none-match` without one.
  unfoldable pub put_item : ItemId → Bytes → Option Bytes → R → R × SyncResult PutOutcome
  put_item id envelope version r =
      if ltb max_envelope_len (length envelope)
      then (r, err (envelope_too_large (length envelope) max_envelope_len))
      else after_put (length envelope) (remote.send_put id envelope version r)

  abbrev pub after_delete : R × SyncResult Response → R × SyncResult {0} Unit
  after_delete (r, err e) = (r, err e)
  after_delete (r, ok response) =
      if (leb 200 response.status && ltb response.status 300)
        || (response.status == 404)
        || (response.status == 410)
      then (r, ok tt)
      else (r, err (server "delete item" response.status))

  unfoldable pub delete_item : ItemId → Option Bytes → R → R × SyncResult {0} Unit
  delete_item id version r = after_delete (remote.send_delete id version r)
