-- ===== src/Lib.antt =====
-- The verification library of Misty, an end-to-end encrypted authenticator vault: the crates
-- misty-vault, misty-otp, misty-crypto and misty-sync, as far as they are modelled.
--
-- The parts of the program and how they meet. A vault holds items (one credential each). Every
-- field of an item is a replicated value with its own merge rule, stamped by the hybrid logical
-- clock of the device that wrote it. Devices exchange items through a server that cannot read
-- them, and merge what they receive into their item set; two different credentials under one id
-- are both kept, one of them under a derived id. An item's OTP fields make a token, from which
-- codes are generated. What a device uploads is sealed in an envelope that the device signs; a
-- client that pulls the server's change feed opens only what a device of its roster signed, and
-- hands it to the vault page by page. The vault merges a page into copies, stores the result in one
-- transaction and only then adopts it. What the vault's rows have and the server has not confirmed
-- is the outbound queue; a put that the server answers with a conflict is resolved by a merge. A
-- client that cannot reach the server retries on a backoff schedule.
--
-- Prelude: shared helpers. `Tests` has Boolean tests on the native numbers, `Order` and `Instances`
--   three-way comparison with its laws (`Ord`), `Equality` derived equality (`Eq`), `Fallible` the
--   result type and its do blocks, `Map` sorted association lists for `BTreeMap` with `Map/Merge`
--   for pointwise merges, `Bytes` big-endian words and slices, `Little` little-endian words, checked
--   slices and zero filling, `Int` signed times.
-- Vault/Error: crates/misty-vault/src/error.rs.
-- Vault/Hlc: crates/misty-vault/src/hlc.rs. `Order` has `Hlc` and its derived order, `Wire` the 26
--   sortable bytes, `Clock` has `HlcClock` with `observe` and `tick`, and histories of a clock as
--   lists of events; `Clock/Monotone` reasons about them. Wall clocks are u64 and counters u16;
--   the bounds appear as hypotheses where a byte string or a history is read.
-- Vault/Crdt: crates/misty-vault/src/crdt. `Lww`, `Scalar` (`MaxWins`, `MinWins`), `Usage`, `OrSet`
--   with `OrSet/Laws`, `OrSet/Membership` and `OrSet/Bound`.
-- Vault/Tombstone, Vault/Conflict: model/tombstone.rs and conflict.rs of the same crate.
-- Vault/Item: model/item.rs, model/icon.rs and the `NewItem` of edit.rs. `Item` has the record,
--   `create` and `rebind`, `Merge` has `Item::merge`, `Clocks` the clocks of an item and deletion;
--   `Laws`, `Join`, `Convergence`, `Identity` and `Delete` reason about the merge.
-- Vault/ItemSet: merge.rs. The loop of `ItemSet::absorb` is `settle`, one round of it `round`. Its
--   fuel is the source's own bound `MAX_MERGE_STEPS` = 64, and running out is the source's own
--   error. The derivation of a forked id is the parameter `ForkIds`, as it is a trait in the
--   source. `Held`, `Meet`, `Rounds`, `Keeps`, `MergeSets`, `Settles` and `Agreement` reason about it.
-- Vault/Group: model/group.rs, with `Group/Convergence` about the merge.
-- Vault/Store: store/mod.rs and store/memory.rs. `Store` has the trait `VaultStore` as a record over an
--   unknown state, `transaction`, and the contract of a backend as `IsTransactional`; `Memory` has
--   `MemoryStore`, and `Atomic` reasons about transactions over any backend.
-- Vault/State: the vault of vault/mod.rs, the sealing, rows and commits of vault/write.rs, the fork ids
--   of merge.rs and `rotate_epoch` of vault/sync.rs. `Vault/Same` compares items and groups.
-- Vault/Change, Vault/Remote: `merge_remote` of vault/sync.rs. `Change` has its first phase, with `Cache`
--   about its cache of keys; `Remote` has the merge into copies, `records_for`, the transaction and
--   the adoption, with `Atomic`, `Keeps` and `Authentic`. The codec of payloads is the parameter
--   `Codec`; the n-th row that is sealed takes the n-th of the generator's `draws`.
-- Otp/Error, Otp/Config: error.rs and config.rs of crates/misty-otp/src, with `check_len` of
--   secret.rs; `Config/Valid` has the validity of a token.
-- Otp/Raw: raw.rs. `to_decimal` has fuel 20, the digits of the largest u64.
-- Otp/Generate: generate.rs and code.rs. HMAC, MD5, SHA-256 and hex text are the parameter
--   `Primitives`; what their crates document of lengths is `Documented` in `Generate/Sized`.
--   `Generate/Codes` reasons about whole codes. Characters are numbers.
-- Otp/Resync: `resync_counter` of generate.rs, whose loop runs over the clamped window;
--   `Resync/First` reasons about it.
-- Otp/Base32: base32.rs. The loops of `decode` and `encode` run over the text and the bytes; the
--   fuel of `drain` is the number of bits, and at most 7 characters pad a text. `Groups` follows
--   one byte through both loops, `RoundTrip` a byte string, `Padded` the padding.
-- Crypto/Error, Crypto/Identity: error.rs and identity.rs of crates/misty-crypto/src. `Identity` has
--   device records and the roster; `Devices`, `Signing` and `Signed` reason about its ids, the bytes
--   that are signed, and signatures.
-- Crypto/Primitives: what the crate calls of `chacha20poly1305` and `ed25519_dalek`, with what their
--   documentation says as the record `Documented`.
-- Crypto/Envelope: envelope/mod.rs, envelope/pad.rs and aead.rs. `Pad` has `pad` and `unpad`, with
--   `Framed` and `Exact`; `Header` the header and the reading at offsets, with `Slices` and
--   `RoundTrip`; `Seal` sealing, parsing, verifying and opening (`open_verified` is
--   `Verified::open`, `open_envelope` the function `open`), with `Parsed`, `RoundTrip` and
--   `Authentic`. The operating system's random draws are the argument `Draws` of `seal`.
-- Crypto/Derive: derive.rs of the same crate. HKDF-SHA-512 is the parameter `Hkdf`.
-- Sync/Error, Sync/State: error.rs and state.rs of crates/misty-sync/src. A place that keeps the
--   state is a `StateStore`. A sequence number is a number, as the wire decoder refuses negative ones.
-- Sync/Page: `verify_change` and `apply_page` of engine.rs, over the interface `VaultOps` to the
--   vault; `Page/Accepted` says without that code which changes of a page are to reach the vault, and
--   `Page/Batch` that they do.
-- Sync/Pull: `pull` of engine.rs. The server's answers are a function of the request. A round of the
--   loop is `absorb_feed`. The fuel of `walk` is `MAX_PAGES_PER_SYNC` and the page limit and one: each
--   request counts a page or halves the limit, so it is enough. `Ends` shows that. `Forward` is about
--   the plan for a page, `Feed` has honest feeds, and `Complete` and `Delivers` follow a walk over
--   one. `Saved` and `Durable` are about what the state store holds, and `Guarded` about what a walk
--   keeps of the vault.
-- Sync/Queue: `pending` of engine.rs, with `Queue/Confirmed`, `Queue/Elements` and
--   `Queue/Exact`. Sorting is by insertion.
-- Sync/Client: `put_item` and `delete_item` of client.rs. The transport, the session and the JSON of a
--   body are the parameter `Remote`, a server with a state that each request may change.
-- Sync/Resolve: `resolve_conflict` and `verify_conflict` of engine.rs, with `Resolve/Guarded`.
-- Sync/Push: `push_deletes`, `push_writes` and `push_one` of engine.rs. The fuel of `push_rounds`
--   is the source's own bound, `MAX_CONFLICT_RETRIES` and one, and running out is the source's own
--   error. `Settles` and `Guarded` reason about it.
-- Sync/Once: `sync_once` of engine.rs, with `Guarded` and `Refused`. A request of the walk is answered by
--   the server as it was when the walk began, and `meanwhile` is how the walk leaves it.
-- Sync/Run: `run` of engine.rs and `next_delay_ms` of backoff.rs, with `Run/Attempts` and `Run/Ends`. A
--   sleeper is the list of the delays that it was given; the fuel of `run_rounds` is the source's number of attempts.
-- Sync/Local: the vault of Vault/Remote as the engine's vault, with `Credentials` about a whole sync.
-- Sync/Backoff: crates/misty-sync/src/backoff.rs; `Backoff/Bands` reasons about it.
-- Examples: concrete vaults, clocks and tokens, and runs of the model on them.
--
-- How code becomes definitions. A method that mutates its receiver returns the receiver after it,
-- with its result: `absorb` returns the set also when it fails. A failed `Item::merge` returns no
-- item, since every caller drops the half-merged one. Byte strings and texts are lists of numbers.
-- `BTreeMap` is a list in key order; that it is sorted is a hypothesis or an invariant.
--
-- Not modelled: the ciphers, signatures, hashes, key derivation, CBOR, JSON and SQLite themselves (calls
-- of libraries), backups, recovery kits and enrolment, the item codec and its text limits, the vault's
-- edits, search and loading, otpauth URIs, the roster, revocation and rotation of the sync engine, the
-- client's authentication and feed decoder, importers, the server, the bindings and the user
-- interface.
pub mod Prelude
pub mod Otp
pub mod Vault
pub mod Examples
pub mod Crypto
pub mod Sync
