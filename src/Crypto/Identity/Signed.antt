-- ===== src/Crypto/Identity/Signed.antt =====
-- Signing and verifying a roster of crates/misty-crypto/src/identity.rs.
use misty.Prelude.{
  ◌≡◌, refl, sym, ap, subst, ◌∙◌, true, Bool-cases, inl, inr, some, none, ok, bind_ok, Option-cases,
  same_key, same_key_iff, list_ord, nat_ord, arith, Option, List, [], ◌∷◌,
}
use misty.Crypto.Error.{Bytes, DeviceId}
use misty.Crypto.Primitives.{Primitives, Documented}
use misty.Crypto.Identity.{
  DeviceRecord, DeviceIdentity, Roster, find, contains, validate, sign, verify, verify_parts,
  verify_signed, signing_bytes,
}

-- The device that an id names has that id.
pub find-device_id :
    (id : DeviceId) (rs : List DeviceRecord) (r : DeviceRecord)
    → find id rs ≡ some r
    → r.device_id ≡ id
unfolding find
find-device_id id (x ∷ rs) r h = elim (Bool-cases (same_key x.device_id id)) [
  | inl same ↦
      let found : x ≡ r = ground (arith, same, h) in
      sym (ap (λ y. y.device_id) found) ∙ (same_key_iff x.device_id id).0 same
  | inr other ↦ find-device_id id rs r (ground (arith, other, h))
]
find-device_id id [] r h = absurd cc

module _ (p : Primitives) where
  -- What the checks of `verify` establish: the roster is valid, the device that it returns is the
  -- one that the roster's signer names, and the stored signature is that device's, over the bytes of
  -- this roster.
  abbrev pub IsSignedBy : Roster → DeviceRecord → Type 0
  IsSignedBy roster r =
      (validate p roster ≡ ok tt)
      × (roster.signed_by ≡ some r.device_id)
      × (contains roster r.device_id ≡ some r)
      × ((signature : Bytes) × (roster.signature ≡ some signature)
          × (p.verify_strict r.ed25519_pub (signing_bytes roster r.device_id) signature ≡ true))

  verify_signed-inverse :
      (roster : Roster) (signer : DeviceId) (signature : Bytes) (r : DeviceRecord)
      → verify_signed p roster signer signature ≡ ok r
      → (contains roster signer ≡ some r)
        × (p.verify_strict r.ed25519_pub (signing_bytes roster signer) signature ≡ true)
  unfolding verify_signed
  verify_signed-inverse roster signer signature r h = elim (Option-cases (contains roster signer)) [
    | inr absent ↦ absurd (ground (arith, absent, h))
    | inl (x, found) ↦ elim (Bool-cases (p.is_verifying_key x.ed25519_pub)) [
      | inr bad ↦ absurd (ground (arith, found, bad, h))
      | inl key ↦
          elim (Bool-cases
            (p.verify_strict x.ed25519_pub (signing_bytes roster signer) signature)) [
              | inr forged ↦ absurd (ground (arith, found, key, forged, h))
              | inl good ↦
                  let same : x ≡ r = ground (arith, found, key, good, h) in
                  (
                    found ∙ ap some same,
                    subst
                        (λ y.
                          p.verify_strict y.ed25519_pub (signing_bytes roster signer) signature
                          ≡ true)
                        same good,
                  )
            ]
    ]
  ]

  verify_parts-inverse :
      (roster : Roster) (by : Option DeviceId) (seal : Option Bytes) (r : DeviceRecord)
      → verify_parts p roster by seal ≡ ok r
      → (signer : DeviceId) × (signature : Bytes) × (by ≡ some signer)
        × (seal ≡ some signature)
        × (verify_signed p roster signer signature ≡ ok r)
  verify_parts-inverse roster none seal r h = absurd cc
  verify_parts-inverse roster (some signer) none r h = absurd cc
  verify_parts-inverse roster (some signer) (some signature) r h =
      (signer, signature, refl, refl, h)

  -- A roster that `verify` accepts is valid, and carries a signature over its own bytes that the key
  -- of the device it returns verifies; that device is in the roster, and is the one named as signer.
  pub verify-IsSignedBy :
      (roster : Roster) (r : DeviceRecord) → verify p roster ≡ ok r → IsSignedBy roster r
  unfolding verify
  verify-IsSignedBy roster r h =
      let (done, valid, parts) = bind_ok (validate p roster) _ r h in
      let (signer, signature, by, seal, checked) = verify_parts-inverse roster _ _ r parts in
      let (found, verified) = verify_signed-inverse roster signer signature r checked in
      let id = find-device_id signer roster.devices r found in
      (
        valid,
        by ∙ ap some (sym id),
        subst (λ i. contains roster i ≡ some r) (sym id) found,
        (
          signature,
          seal,
          subst (λ i. p.verify_strict r.ed25519_pub (signing_bytes roster i) signature ≡ true)
              (sym id) verified,
        ),
      )

  sign-inverse :
      (identity : DeviceIdentity) (roster new : Roster)
      → sign p identity roster ≡ ok new
      → (r : DeviceRecord) × (validate p roster ≡ ok tt)
        × (contains roster identity.device_id ≡ some r)
        × (r.ed25519_pub ≡ p.verifying_key identity.signing)
        × (new ≡ record {
          devices = roster.devices;
          signed_by = some identity.device_id;
          signature =
              some (p.sign_message identity.signing (signing_bytes roster identity.device_id));
        })
  unfolding sign
  sign-inverse identity roster new h =
      let (done, valid, rest) = bind_ok (validate p roster) _ new h in
      elim (Option-cases (contains roster identity.device_id)) [
        | inr absent ↦ absurd (ground (arith, absent, rest))
        | inl (x, found) ↦
            elim (Bool-cases (same_key x.ed25519_pub (p.verifying_key identity.signing))) [
              | inl same ↦
                  (x, valid, found, (same_key_iff _ _).0 same, ground (arith, found, same, rest))
              | inr other ↦ absurd (ground (arith, found, other, rest))
            ]
      ]

  verify_signed-found :
      (roster : Roster) (signer : DeviceId) (signature : Bytes) (r : DeviceRecord)
      → contains roster signer ≡ some r
      → p.is_verifying_key r.ed25519_pub ≡ true
      → p.verify_strict r.ed25519_pub (signing_bytes roster signer) signature ≡ true
      → verify_signed p roster signer signature ≡ ok r
  unfolding verify_signed
  verify_signed-found roster signer signature r found key good =
      rw (verify_signed, found, key, good) refl

  -- With primitives that do what their crates document, a roster that a device signs is accepted by
  -- `verify`, which returns that device's record; signing succeeds only for a device of the roster
  -- with the key that the roster gives it, and changes no device.
  pub verify-sign :
      (identity : DeviceIdentity) (roster new : Roster)
      → Documented p
      → sign p identity roster ≡ ok new
      → (r : DeviceRecord) × (verify p new ≡ ok r)
        × (new.devices ≡ roster.devices)
        × (r.device_id ≡ identity.device_id)
        × (r.ed25519_pub ≡ p.verifying_key identity.signing)
  unfolding verify signing_bytes
  verify-sign identity roster new d h =
      let (r, valid, found, key, same) = sign-inverse identity roster new h in
      let id = find-device_id identity.device_id roster.devices r found in
      let message = signing_bytes roster identity.device_id in
      let accepted =
        subst (λ k. p.is_verifying_key k ≡ true) (sym key) (d.key_accepted identity.signing) in
      let signed =
        subst (λ k. p.verify_strict k message (p.sign_message identity.signing message) ≡ true)
          (sym key) (d.signature_accepted identity.signing message) in
      let signed_roster : Roster = record {
        devices = roster.devices;
        signed_by = some identity.device_id;
        signature = some (p.sign_message identity.signing message);
      } in
      let checked : verify p new ≡ ok r = rw same (
        rw valid (
          verify_signed-found signed_roster identity.device_id
            (p.sign_message identity.signing message) r found accepted signed)) in
      (r, checked, ap (λ n. n.devices) same, id, key)
