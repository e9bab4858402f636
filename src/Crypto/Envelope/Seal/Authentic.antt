-- ===== src/Crypto/Envelope/Seal/Authentic.antt =====
-- What an envelope of crates/misty-crypto/src/envelope/mod.rs has passed when it is opened.
use misty.Prelude.{
  ◌+◌, ◌-◌, ◌%◌, ◌≡◌, ◌≤◌, sym, ap, subst, ◌∙◌, true, not, inl, inr, ltb, ◌==◌, length, ok, bind_ok,
  guard_ok, guard_else_ok, ok-injective, Option-cases, some, none, Option, ◌++◌, append_assoc,
  arith,
}
use misty.Crypto.Error.{
  Bytes, ItemId, CryptoError, epoch_mismatch, item_key_unwrap_failed, payload_decrypt_failed,
  bad_verifying_key, signature_invalid, truncated, malformed_body,
}
use misty.Crypto.Primitives.{Primitives}
use misty.Crypto.Identity.{DeviceRecord, Roster, contains}
use misty.Crypto.Identity.Signing.{cancel}
use misty.Crypto.Envelope.Pad.{unpad}
use misty.Crypto.Envelope.Header.{parse_header, take_at}
use misty.Crypto.Envelope.Header.Slices.{length-take_at}
use misty.Crypto.Envelope.Seal.{
  Envelope, EpochKey, Verified, ok_or, parse, aad, signed_message, verify_with_signer,
  verify_envelope, open_verified, open_envelope,
}

ok_or-inverse : (e : CryptoError) (o : Option Bytes) (x : Bytes) → ok_or e o ≡ ok x → o ≡ some x
ok_or-inverse e (some y) x h = cc
ok_or-inverse e none x h = absurd cc

-- The parts of a parsed envelope have the sizes of the format.
pub record IsParsed (e : Envelope) : Type 0 where
  pub bytes_sized : length e.header_bytes ≡ 74
  pub wrapped_sized : length e.wrapped_item_key ≡ 48

module _ (p : Primitives) where
  -- The key and the padded text that an opened envelope held.
  abbrev pub Holds : Envelope → ItemId → EpochKey → Bytes → Type 0
  Holds e item_id epoch_key text =
      (item_key : Bytes) × (padded : Bytes) × (p.aead_decrypt epoch_key.key e.header.wik_nonce
          (aad e item_id) e.wrapped_item_key
        ≡ some item_key)
      × (length item_key ≡ 32)
      × (p.aead_decrypt item_key e.header.payload_nonce (aad e item_id) e.ciphertext ≡ some padded)
      × (unpad padded ≡ ok text)

  open_verified-inverse :
      (v : Verified) (epoch_key : EpochKey) (text : Bytes)
      → open_verified p v epoch_key ≡ ok text
      → (v.envelope.header.epoch ≡ epoch_key.epoch) × Holds v.envelope v.item_id epoch_key text
  unfolding open_verified
  open_verified-inverse v epoch_key text h =
      let e = v.envelope in
      let opened = λ (k : Bytes) (nonce : Bytes) (sealed : Bytes).
        p.aead_decrypt k nonce (aad e v.item_id) sealed in
      let (same, h1) =
        guard_ok (not (e.header.epoch == epoch_key.epoch))
          (epoch_mismatch epoch_key.epoch e.header.epoch) _ text h in
      let (k, unwrapped, h2) =
        bind_ok
          (ok_or item_key_unwrap_failed
            (opened epoch_key.key e.header.wik_nonce e.wrapped_item_key))
          _ text h1 in
      let (size, h3) = guard_ok (not (length k == 32)) item_key_unwrap_failed _ text h2 in
      let (padded, plain, read) =
        bind_ok (ok_or payload_decrypt_failed (opened k e.header.payload_nonce e.ciphertext)) _ text
          h3 in
      (
        ground (arith, same),
        (
          k,
          padded,
          ok_or-inverse item_key_unwrap_failed _ k unwrapped,
          ground (arith, size),
          ok_or-inverse payload_decrypt_failed _ padded plain,
          read,
        ),
      )

  pub verify_with_signer-inverse :
      (e : Envelope) (item_id : ItemId) (key : Bytes) (v : Verified)
      → verify_with_signer p e item_id key ≡ ok v
      → (signature : Bytes) × (take_at e.signature 0 64 "envelope header" ≡ ok signature)
        × (p.verify_strict key (signed_message e item_id) signature ≡ true)
        × (v ≡ record { envelope = e; item_id = item_id })
  unfolding verify_with_signer
  verify_with_signer-inverse e item_id key v h =
      let (signature, read, rest) = bind_ok (take_at e.signature 0 64 "envelope header") _ v h in
      let (good, rest1) = guard_ok (not (p.is_verifying_key key)) bad_verifying_key _ v rest in
      let (verified, rest2) =
        guard_else_ok (p.verify_strict key (signed_message e item_id) signature) signature_invalid _
          v rest1 in
      (signature, read, verified, sym (ok-injective rest2))

  pub verify_envelope-inverse :
      (e : Envelope) (item_id : ItemId) (roster : Roster) (v : Verified)
      → verify_envelope p e item_id roster ≡ ok v
      → (r : DeviceRecord) × (contains roster e.header.signer ≡ some r)
        × (verify_with_signer p e item_id r.ed25519_pub ≡ ok v)
  unfolding verify_envelope
  verify_envelope-inverse e item_id roster v h =
      elim (Option-cases (contains roster e.header.signer)) [
        | inr absent ↦ absurd (ground (arith, absent, h))
        | inl (r, found) ↦ (r, found, ground (arith, found, h))
      ]

  -- An envelope that opens was parsed, names as its signer a device of the roster, whose key verifies
  -- the envelope's signature over its header, the item id, the wrapped key and the ciphertext; it is
  -- of the epoch of the key; and what it held was decrypted from exactly those parts.
  pub open_envelope-authentic :
      (bytes : Bytes) (item_id : ItemId) (epoch_key : EpochKey) (roster : Roster) (text : Bytes)
      → open_envelope p bytes item_id epoch_key roster ≡ ok text
      → (e : Envelope) × (r : DeviceRecord) × (signature : Bytes) × (parse bytes ≡ ok e)
        × (contains roster e.header.signer ≡ some r)
        × (take_at e.signature 0 64 "envelope header" ≡ ok signature)
        × (p.verify_strict r.ed25519_pub (signed_message e item_id) signature ≡ true)
        × (e.header.epoch ≡ epoch_key.epoch)
        × Holds e item_id epoch_key text
  unfolding open_envelope
  open_envelope-authentic bytes item_id epoch_key roster text h =
      let (e, parsed, h1) = bind_ok (parse bytes) _ text h in
      let (v, checked, h2) = bind_ok (verify_envelope p e item_id roster) _ text h1 in
      let (r, found, verified) = verify_envelope-inverse e item_id roster v checked in
      let (signature, read, good, same) =
        verify_with_signer-inverse e item_id r.ed25519_pub v verified in
      let (epoch, holds) =
        open_verified-inverse (record { envelope = e; item_id = item_id }) epoch_key text
          (subst (λ w. open_verified p w epoch_key ≡ ok text) same h2) in
      (e, r, signature, parsed, found, read, good, epoch, holds)

parse-IsParsed : (bytes : Bytes) (e : Envelope) → parse bytes ≡ ok e → IsParsed e
unfolding parse
parse-IsParsed bytes e h =
    let n = length bytes - 186 in
    let (long, h1) =
      guard_ok (ltb (length bytes) 458) (truncated "envelope" 458 (length bytes)) _ e h in
    let (header, parsed, h2) = bind_ok (parse_header bytes) _ e h1 in
    let (blocks, h3) =
      guard_ok (not ((n - 16) % 256 == 0))
        (malformed_body "ciphertext length is not a multiple of 256 plus a 16-byte tag") _ e h2 in
    let (hb, one, h4) = bind_ok (take_at bytes 0 74 "envelope header") _ e h3 in
    let (w, two, h5) = bind_ok (take_at bytes 74 48 "wrapped item key") _ e h4 in
    let (c, three, h6) = bind_ok (take_at bytes 122 n "ciphertext") _ e h5 in
    let (s, four, h7) = bind_ok (take_at bytes (122 + n) 64 "signature") _ e h6 in
    let same = ok-injective h7 in
    record {
      bytes_sized =
          ap (λ x. length x.header_bytes) (sym same)
          ∙ length-take_at bytes 0 74 "envelope header" hb (omega arith) one;
      wrapped_sized =
          ap (λ x. length x.wrapped_item_key) (sym same)
          ∙ length-take_at bytes 74 48 "wrapped item key" w (omega arith) two;
    }

-- The signature of an envelope whose length is a u64.
pub parse-signature :
    (bytes : Bytes) (e : Envelope)
    → length bytes ≤ 18446744073709551615
    → parse bytes ≡ ok e
    → length e.signature ≡ 64
unfolding parse
parse-signature bytes e word h =
    let n = length bytes - 186 in
    let (long, h1) =
      guard_ok (ltb (length bytes) 458) (truncated "envelope" 458 (length bytes)) _ e h in
    let (header, parsed, h2) = bind_ok (parse_header bytes) _ e h1 in
    let (blocks, h3) =
      guard_ok (not ((n - 16) % 256 == 0))
        (malformed_body "ciphertext length is not a multiple of 256 plus a 16-byte tag") _ e h2 in
    let (hb, one, h4) = bind_ok (take_at bytes 0 74 "envelope header") _ e h3 in
    let (w, two, h5) = bind_ok (take_at bytes 74 48 "wrapped item key") _ e h4 in
    let (c, three, h6) = bind_ok (take_at bytes 122 n "ciphertext") _ e h5 in
    let (s, four, h7) = bind_ok (take_at bytes (122 + n) 64 "signature") _ e h6 in
    let within : 122 + n + 64 ≤ 18446744073709551615 = ground (arith, long, word) in
    ap (λ x. length x.signature) (sym (ok-injective h7))
    ∙ length-take_at bytes (122 + n) 64 "signature" s within four

signed_message-right :
    (e : Envelope) (item_id : ItemId)
    → signed_message e item_id ≡ e.header_bytes ++ (item_id ++ (e.wrapped_item_key ++ e.ciphertext))
unfolding signed_message aad
signed_message-right e item_id = simp append_assoc

-- The signed bytes determine the item and every part that they cover: two envelopes that parse
-- and have the same signed bytes, for item ids of 16 bytes, have the same item id, header bytes, wrapped key and
-- ciphertext.
pub signed_message-injective :
    (bytes others : Bytes) (e f : Envelope) (item_id other : ItemId)
    → parse bytes ≡ ok e
    → parse others ≡ ok f
    → length item_id ≡ 16
    → length other ≡ 16
    → signed_message e item_id ≡ signed_message f other
    → (item_id ≡ other)
      × (e.header_bytes ≡ f.header_bytes)
      × (e.wrapped_item_key ≡ f.wrapped_item_key)
      × (e.ciphertext ≡ f.ciphertext)
signed_message-injective bytes others e f item_id other x y m n h =
    let p = parse-IsParsed bytes e x in
    let q = parse-IsParsed others f y in
    let h' = sym (signed_message-right e item_id) ∙ h ∙ signed_message-right f other in
    let (same_header, h1) =
      cancel e.header_bytes f.header_bytes _ _ (p.bytes_sized ∙ sym q.bytes_sized) h' in
    let (same_id, h2) = cancel item_id other _ _ (m ∙ sym n) h1 in
    let (same_key, same_text) =
      cancel e.wrapped_item_key f.wrapped_item_key _ _ (p.wrapped_sized ∙ sym q.wrapped_sized) h2 in
    (same_id, same_header, same_key, same_text)
