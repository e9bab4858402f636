-- ===== src/Examples/Pulls.antt =====
-- `pull` of crates/misty-sync/src/engine.rs at the vault of Vaults, which also notes what it is given.
use misty.Prelude.{◌∷◌, refl, List, [], ◌++◌, arith, ◌≡◌, some, ok}
use misty.Vault.Store.Memory.{MemoryStore, memory_store}
use misty.Vault.Change.{RemoteChange}
use misty.Prelude.Little.{zero_fill, le_bytes, from_le, any_nonzero}
use misty.Crypto.Derive.{hkdf_sha512, epoch_key}
use misty.Crypto.Envelope.Pad.{unpad, unpad_declared, check_filler, padded_len}
use misty.Crypto.Envelope.Header.{take_at}
use misty.Crypto.Envelope.Seal.{open_envelope, verify_envelope, verify_with_signer, open_verified}
use misty.Crypto.Envelope.Seal.Parsed.{parse-assembled}
use misty.Vault.Item.{create}
use misty.Vault.Remote.{
  merge_remote, merge_all, merge_decoded, records_for, group_rows, verbatim, put_all, prepare,
}
use misty.Vault.ItemSet.{absorb, settle, settle_next, place, sort_dedup}
use misty.Prelude.Map.{get, put}
use misty.Vault.Store.{transaction}
use misty.Vault.Change.{decode_changes, decode_change, key_for, decode_payload}
use misty.Crypto.Identity.{find}
use misty.Sync.State.{SyncState, new_state}
use misty.Sync.Page.{VaultOps, Engine}
use misty.Sync.Pull.{pull}
use misty.Sync.Pull.Feed.{newer}
use misty.Sync.Pull.Delivers.{Delivers, pull-Delivers}
use misty.Sync.Once.{new_report}
use misty.Sync.Local.{Local, local_ops}
use misty.Examples.Keys.{tagging, home_roster}
use misty.Examples.Feeds.{
  first_byte, one_place, log, log-Ascends, log-NoRoster, server, item_header, item_bytes,
  item_bytes-IsWhole,
}
use misty.Examples.Vaults.{zeros, one_codec, draws, home, home_report, kept_verbatim}

abbrev local_vault : VaultOps (Local MemoryStore)
local_vault = local_ops memory_store one_codec zeros tagging (λ n. draws)

-- The vault, and what it was given.
abbrev noting : VaultOps (Local MemoryStore × List RemoteChange)
noting = record {
  merge_remote =
      λ batch v. (let r = local_vault.merge_remote batch v.0 in ((r.0, v.1 ++ batch), r.1));
  load_all = λ v. local_vault.load_all v.0;
  stored = λ id v. local_vault.stored id v.0;
}

abbrev noting_engine : Engine (Local MemoryStore × List RemoteChange) SyncState
noting_engine = record {
  vault = ((home, 0), []);
  store = new_state;
  state = new_state;
  report = new_report;
}

-- What of the log the vault is given is taken.
log_is_taken :
    (local_vault.merge_remote
      (record { item_id = 10 ∷ []; seq = some 2; version = some (118 ∷ []); envelope = item_bytes }
        ∷ [])
      (home, 0)).1
    ≡ ok home_report
unfolding merge_remote prepare decode_changes merge_all merge_decoded absorb records_for group_rows
    verbatim put_all transaction settle settle_next place sort_dedup get put create decode_change
    key_for epoch_key hkdf_sha512 open_envelope verify_envelope verify_with_signer find zero_fill
    open_verified unpad unpad_declared decode_payload check_filler le_bytes take_at from_le
    padded_len any_nonzero
log_is_taken =
    rw
      (
        parse-assembled item_header (zero_fill 48) (zero_fill 272) (zero_fill 64)
            item_bytes-IsWhole,
        kept_verbatim,
      )
      refl

pull-Delivers_example :
    Delivers noting one_place tagging first_byte home_roster
      (λ v. v.1)
      (λ batch v. refl)
      server
      log
      (λ n cursor limit. refl)
      log-Ascends
      log-NoRoster
      noting_engine
      (pull noting one_place tagging first_byte home_roster server 2 noting_engine)
pull-Delivers_example =
    pull-Delivers noting one_place tagging first_byte home_roster (λ v. v.1) (λ batch v. refl)
      server log (λ n cursor limit. refl) log-Ascends log-NoRoster 2 noting_engine refl
      (unfold newer in omega arith)
