-- ===== src/Examples/Vaults.antt =====
-- A vault of crates/misty-vault over its in-memory store, at the keys of Keys: the batches that it takes and the
-- ones that it does not. The key derivation and the codec are stand-ins: every key is zeros, and every payload is
-- the first item.
use misty.Prelude.{ℕ, ◌≡◌, refl, ◌↔◌, ◌⊎◌, ◌>>=◌, arith, true, some, none, [], ◌∷◌, ok, err, pos}
use misty.Prelude.Little.{zero_fill, le_bytes, from_le, any_nonzero}
use misty.Crypto.Error.{truncated}
use misty.Crypto.Derive.{Hkdf, hkdf_sha512, epoch_key}
use misty.Crypto.Identity.{find}
use misty.Crypto.Envelope.Pad.{unpad, unpad_declared, check_filler, padded_len}
use misty.Crypto.Envelope.Header.{take_at, item}
use misty.Crypto.Envelope.Seal.{
  Draws, parse, open_envelope, verify_envelope, verify_with_signer, open_verified,
}
use misty.Crypto.Envelope.Seal.Parsed.{parse-assembled}
use misty.Vault.Error.{VaultResult, crypto, no_transaction}
use misty.Vault.Hlc.Clock.{start}
use misty.Vault.Item.{create}
use misty.Vault.Crdt.Lww.{lww}
use misty.Vault.Group.{Group, create_group, merge_groups}
use misty.Vault.Group.Convergence.{Agree, merge_groups_assoc}
use misty.Vault.Conflict.{Text}
use misty.Vault.Same.{item_eq}
use misty.Vault.State.{Codec, Vault}
use misty.Vault.Store.{StoredEnvelope, transaction}
use misty.Vault.Store.Atomic.{Ended, transaction-Ended}
use misty.Vault.Store.Memory.{
  MemoryStore, empty_store, memory_store, memory_view, memory_saved, memory_store-IsTransactional,
}
use misty.Vault.Change.{
  RemoteChange, MergeReport, as_item, decode_changes, decode_change, key_for, decode_payload,
}
use misty.Vault.Change.Cache.{read_changes, decode_changes-read}
use misty.Vault.Remote.{
  merge_remote, merge_all, merge_decoded, records_for, group_rows, verbatim, put_all, prepare,
}
use misty.Vault.ItemSet.{absorb, settle, settle_next, place, sort_dedup}
use misty.Prelude.Map.{get, put}
use misty.Vault.Remote.Keeps.{Brings, merge_remote-Holds}
use misty.Vault.ItemSet.Held.{Holds, IsValid}
use misty.Vault.Conflict.{Secret}
use misty.Vault.Remote.Atomic.{Untouched, merge_remote-failed}
use misty.Examples.Data.{first_item, empty-IsValid, reading}
use misty.Examples.Keys.{tagging, phone, home_roster}
use misty.Examples.Feeds.{item_header, item_bytes, item_bytes-IsWhole}

abbrev pub zeros : Hkdf
zeros key salt info n = some (zero_fill n)

abbrev pub one_codec : Codec
one_codec = record {
  encode_item = λ item. ok (1 ∷ []);
  decode_item = λ payload. ok first_item;
  encode_group = λ group. ok (2 ∷ []);
  decode_group =
      λ payload. ok (create_group (40 ∷ []) (71 ∷ []) (reading 1 phone.device_id) (pos 0));
}

abbrev pub draws : ℕ → Draws
draws n = record {
  item_key = ok (zero_fill 32);
  wik = ok (zero_fill 24);
  payload = ok (zero_fill 24);
}

abbrev pub home : Vault MemoryStore
home = record {
  store = empty_store;
  vault_key = zero_fill 32;
  device = phone;
  roster = home_roster;
  epoch = 3;
  hlc = start phone.device_id;
  items = [];
  groups = [];
  conflicts = [];
}

abbrev broken : RemoteChange
broken = record { item_id = 10 ∷ []; seq = some 4; version = none; envelope = [] }

broken_is_refused :
    (merge_remote memory_store one_codec zeros tagging draws (broken ∷ []) home).1
    ≡ err (crypto (truncated "envelope" 458 0))
unfolding merge_remote prepare decode_changes decode_change parse
broken_is_refused = refl

merge_remote-failed_example :
    Untouched memory_store memory_view memory_saved memory_store-IsTransactional one_codec zeros
      tagging draws home
      (merge_remote memory_store one_codec zeros tagging draws (broken ∷ []) home).0
merge_remote-failed_example =
    merge_remote-failed memory_store memory_view memory_saved memory_store-IsTransactional one_codec
      zeros tagging draws (broken ∷ []) home _ broken_is_refused

abbrev sent : RemoteChange
sent = record { item_id = 10 ∷ []; seq = some 5; version = none; envelope = item_bytes }

pub sent_is_read :
    decode_change one_codec zeros tagging home.vault_key home_roster sent []
    ≡ ok (some (as_item first_item), (3, record { epoch = 3; key = zero_fill 32 }) ∷ [])
unfolding decode_change key_for epoch_key hkdf_sha512 open_envelope verify_envelope
    verify_with_signer find zero_fill open_verified unpad unpad_declared decode_payload create get
    put check_filler le_bytes take_at from_le padded_len any_nonzero
sent_is_read =
    rw
      (parse-assembled item_header (zero_fill 48) (zero_fill 272) (zero_fill 64) item_bytes-IsWhole)
      refl

abbrev pub home_report : MergeReport
home_report = record {
  applied = 1;
  ignored = 0;
  items_written = (10 ∷ []) ∷ [];
  groups_written = [];
  conflicts = [];
}

pub kept_verbatim : item_eq.beq first_item first_item ≡ true
kept_verbatim = (item_eq.beq_iff first_item first_item).1 refl

sent_is_taken :
    (merge_remote memory_store one_codec zeros tagging draws (sent ∷ []) home).1 ≡ ok home_report
unfolding merge_remote prepare decode_changes merge_all merge_decoded absorb records_for group_rows
    verbatim put_all transaction settle settle_next place sort_dedup get put create
sent_is_taken = rw (sent_is_read, kept_verbatim) refl

merge_remote-Holds_example :
    let after = (merge_remote memory_store one_codec zeros tagging draws (sent ∷ []) home).0 in
    IsValid after.items
    × ((s : Secret)
        → Holds s after.items ↔ (
            Holds s home.items
            ⊎ Brings memory_store one_codec zeros tagging draws home s (sent ∷ [])))
merge_remote-Holds_example =
    merge_remote-Holds memory_store one_codec zeros tagging draws home (sent ∷ []) home_report
      empty-IsValid sent_is_taken

decode_changes-read_example :
    decode_changes one_codec zeros tagging home.vault_key home_roster (sent ∷ sent ∷ []) []
    ≡ read_changes one_codec zeros tagging home.vault_key home_roster (sent ∷ sent ∷ [])
decode_changes-read_example =
    decode_changes-read one_codec zeros tagging home.vault_key home_roster (sent ∷ sent ∷ [])

put_row_saved :
    (row : StoredEnvelope) (s : MemoryStore)
    → memory_saved (memory_store.put_row row s).0 ≡ memory_saved s
put_row_saved row s = refl

abbrev pub spare_row : StoredEnvelope
spare_row = record {
  item_id = 50 ∷ [];
  kind = item;
  seq = none;
  version = none;
  envelope = 1 ∷ [];
  hlc_max = reading 2 phone.device_id;
}

-- A body that writes a row and then fails.
abbrev spoiled : MemoryStore → MemoryStore × VaultResult {0} Unit
spoiled s = ((memory_store.put_row spare_row s).0, err no_transaction)

transaction-Ended_example :
    Ended memory_store memory_view memory_saved spoiled empty_store
      (transaction memory_store spoiled empty_store)
transaction-Ended_example =
    transaction-Ended memory_store memory_view memory_saved memory_store-IsTransactional spoiled
      empty_store (put_row_saved spare_row)

abbrev named : Text → ℕ → Group
named name counter = record (create_group (40 ∷ []) name (reading 1 phone.device_id) (pos 0)) {
  name = lww name (reading counter phone.device_id);
}

named-Agree :
    (a b : Text) (m n : ℕ)
    → (reading m phone.device_id ≡ reading n phone.device_id → a ≡ b)
    → Agree (named a m) (named b n)
unfolding create_group
named-Agree a b m n h = record {
  id = refl;
  name = h;
  color = λ same. refl;
  manual_order = λ same. refl;
  deleted = tt;
}

merge_groups_assoc_example :
    (merge_groups (named (71 ∷ []) 1) (named (72 ∷ []) 2) >>= λ ab. merge_groups ab (named [] 3))
    ≡ (merge_groups (named (72 ∷ []) 2) (named [] 3) >>= λ bc. merge_groups (named (71 ∷ []) 1) bc)
merge_groups_assoc_example =
    merge_groups_assoc (named (71 ∷ []) 1) (named (72 ∷ []) 2) (named [] 3)
      (named-Agree (71 ∷ []) (72 ∷ []) 1 2 (λ h. ground (arith, h)))
      (named-Agree (72 ∷ []) [] 2 3 (λ h. ground (arith, h)))
      (named-Agree (71 ∷ []) [] 1 3 (λ h. ground (arith, h)))
