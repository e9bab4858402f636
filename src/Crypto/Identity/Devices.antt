-- ===== src/Crypto/Identity/Devices.antt =====
-- The devices of a roster of crates/misty-crypto/src/identity.rs: each id stands once.
use misty.Prelude.{
  ◌≡◌, ◌≢◌, refl, sym, ◌∙◌, false, ◌||◌, Bool-cases, inl, inr, some, none, List, [], ◌∷◌, ◌++◌, ok,
  err, bind_ok, Result-cases, Option-cases, ◌⊎◌, same_key, same_key_iff, list_ord, nat_ord, arith,
}
use misty.Crypto.Error.{DeviceId, CryptoResult, duplicate_device}
use misty.Crypto.Primitives.{Primitives}
use misty.Crypto.Identity.{
  DeviceRecord, Roster, find, contains, any_with_id, retain_not, remove, validate_record,
  validate_devices, validate, add,
}

any_with_id-find :
    (id : DeviceId) (rs : List DeviceRecord) → find id rs ≡ none → any_with_id id rs ≡ false
unfolding any_with_id find
any_with_id-find id [] h = refl
any_with_id-find id (r ∷ rs) h = ground (arith, any_with_id-find id rs)

any_with_id-append :
    (id : DeviceId) (xs ys : List DeviceRecord)
    → any_with_id id (xs ++ ys) ≡ any_with_id id xs || any_with_id id ys
unfolding any_with_id
any_with_id-append id [] ys = refl
any_with_id-append id (x ∷ xs) ys = ground (arith, any_with_id-append id xs ys)

any_with_id-retain_not :
    (id other : DeviceId) (rs : List DeviceRecord)
    → any_with_id id rs ≡ false
    → any_with_id id (retain_not other rs) ≡ false
unfolding any_with_id retain_not
any_with_id-retain_not id other [] h = refl
any_with_id-retain_not id other (r ∷ rs) h = ground (arith, any_with_id-retain_not id other rs)

find-retain_not : (id : DeviceId) (rs : List DeviceRecord) → find id (retain_not id rs) ≡ none
unfolding find retain_not
find-retain_not id [] = refl
find-retain_not id (r ∷ rs) = ground (arith, find-retain_not id rs)

find-retain_not_other :
    (other id : DeviceId) (rs : List DeviceRecord)
    → other ≢ id
    → find other (retain_not id rs) ≡ find other rs
unfolding find retain_not
find-retain_not_other other id [] differs = refl
find-retain_not_other other id (r ∷ rs) differs = elim (Bool-cases (same_key r.device_id id)) [
  | inl gone ↦
      let apart : same_key r.device_id other ≡ false =
        elim (Bool-cases (same_key r.device_id other)) [
          | inl same ↦ absurd (
              differs (
                sym ((same_key_iff r.device_id other).0 same)
                ∙ (same_key_iff r.device_id id).0 gone))
          | inr unlike ↦ unlike
        ] in
      rw (gone, apart) (find-retain_not_other other id rs differs)
  | inr stays ↦
      let rest = find-retain_not_other other id rs differs in rw stays (ground (arith, rest))
]

find-append :
    (id : DeviceId) (rs : List DeviceRecord) (r : DeviceRecord)
    → find id rs ≡ none
    → r.device_id ≡ id
    → find id (rs ++ (r ∷ [])) ≡ some r
unfolding find
find-append id [] r h e = rw ((same_key_iff r.device_id id).1 e) refl
find-append id (x ∷ rs) r h e = ground (arith, find-append id rs r)

same_key_swap : (a b : DeviceId) → same_key a b ≡ false → same_key b a ≡ false
same_key_swap a b h = elim (Bool-cases (same_key b a)) [
  | inl same ↦ absurd (ground (arith, (same_key_iff a b).1 (sym ((same_key_iff b a).0 same))))
  | inr other ↦ other
]

module _ (p : Primitives) where
  -- A roster whose devices are valid, and whose ids are different.
  validate_devices-cons :
      (r : DeviceRecord) (rs : List DeviceRecord)
      → validate_devices p (r ∷ rs) ≡ ok tt
      → (validate_record p r ≡ ok tt)
        × (any_with_id r.device_id rs ≡ false)
        × (validate_devices p rs ≡ ok tt)
  unfolding validate_devices
  validate_devices-cons r rs v =
      let (done, valid, rest) = bind_ok (validate_record p r) _ tt v in
      let apart : any_with_id r.device_id rs ≡ false = ground (arith, rest) in
      (valid, apart, ground (arith, rest, apart))

  cons-validate_devices :
      (r : DeviceRecord) (rs : List DeviceRecord)
      → validate_record p r ≡ ok tt
      → any_with_id r.device_id rs ≡ false
      → validate_devices p rs ≡ ok tt
      → validate_devices p (r ∷ rs) ≡ ok tt
  unfolding validate_devices
  cons-validate_devices r rs v w u = rw (v, w, u) refl

  validate_devices-snoc :
      (rs : List DeviceRecord) (r : DeviceRecord)
      → validate_devices p rs ≡ ok tt
      → validate_record p r ≡ ok tt
      → find r.device_id rs ≡ none
      → validate_devices p (rs ++ (r ∷ [])) ≡ ok tt
  unfolding find any_with_id
  validate_devices-snoc [] r v w f =
      cons-validate_devices r [] w refl (unfold validate_devices in refl)
  validate_devices-snoc (x ∷ rs) r v w f =
      let (valid, once, rest) = validate_devices-cons x rs v in
      let differs : same_key x.device_id r.device_id ≡ false = ground arith in
      let absent : find r.device_id rs ≡ none = ground (arith, f, differs) in
      let apart = same_key_swap x.device_id r.device_id differs in
      cons-validate_devices x (rs ++ (r ∷ [])) valid
        (any_with_id-append x.device_id rs (r ∷ []) ∙ rw (once, apart) refl)
        (validate_devices-snoc rs r rest w absent)

  validate_devices-retain_not :
      (id : DeviceId) (rs : List DeviceRecord)
      → validate_devices p rs ≡ ok tt
      → validate_devices p (retain_not id rs) ≡ ok tt
  unfolding retain_not
  validate_devices-retain_not id [] v = v
  validate_devices-retain_not id (r ∷ rs) v =
      let (valid, once, rest) = validate_devices-cons r rs v in
      let kept = validate_devices-retain_not id rs rest in
      elim (Bool-cases (same_key r.device_id id)) [
        | inl gone ↦ rw gone kept
        | inr stays ↦ rw stays (
            cons-validate_devices r (retain_not id rs) valid
              (any_with_id-retain_not r.device_id id rs once) kept)
      ]

  add-inverse :
      (r : DeviceRecord) (roster new : Roster)
      → add p r roster ≡ ok new
      → (validate_record p r ≡ ok tt)
        × (contains roster r.device_id ≡ none)
        × (new
            ≡ record { devices = roster.devices ++ (r ∷ []); signed_by = none; signature = none })
  unfolding add
  add-inverse r roster new h =
      let (done, valid, rest) = bind_ok (validate_record p r) _ new h in
      (valid, ground (arith, rest), ground (arith, rest))

  -- What `add` makes of a valid roster, and when it refuses.
  unfoldable pub Added : DeviceRecord → Roster → CryptoResult Roster → Type 0
  Added r roster (ok new) =
      (validate p new ≡ ok tt)
      × (contains new r.device_id ≡ some r)
      × (new.signed_by ≡ none)
      × (new.signature ≡ none)
  Added r roster (err e) =
      (validate_record p r ≡ err e)
      ⊎ ((contains roster r.device_id ≢ none) × (e ≡ duplicate_device r.device_id))

  add-Added' :
      (r : DeviceRecord) (roster : Roster) (result : CryptoResult Roster)
      → validate p roster ≡ ok tt
      → add p r roster ≡ result
      → Added r roster result
  unfolding Added add
  add-Added' r roster (ok new) v h =
      let (valid, absent, same) = add-inverse r roster new h in
      rw same (
        validate_devices-snoc roster.devices r v valid absent,
        find-append r.device_id roster.devices r absent refl,
        refl,
        refl,
      )
  add-Added' r roster (err e) v h = elim (Result-cases (validate_record p r)) [
    | inr (f, invalid) ↦ inl (ground (arith, invalid, h))
    | inl (done, valid) ↦ inr (elim (Option-cases (contains roster r.device_id)) [
      | inl (old, taken) ↦
          (λ absent. ground (arith, taken, absent), ground (arith, valid, taken, h))
      | inr absent ↦ absurd (ground (arith, valid, absent, h))
    ])
  ]

  -- Adding a device to a roster that `validate` accepts gives a roster that it accepts, in which the
  -- device's id names its record and which is no longer signed; it is refused exactly with the
  -- record's own error, or because the id is taken.
  pub add-Added :
      (r : DeviceRecord) (roster : Roster)
      → validate p roster ≡ ok tt
      → Added r roster (add p r roster)
  add-Added r roster v = add-Added' r roster (add p r roster) v refl

  -- Removing a device from a roster that `validate` accepts gives a roster that it accepts, that no
  -- longer names the device and is no longer signed; every other id names the record that it named.
  pub remove-validate :
      (id other : DeviceId) (roster : Roster)
      → validate p roster ≡ ok tt
      → other ≢ id
      → (validate p (remove id roster).0 ≡ ok tt)
        × (contains (remove id roster).0 id ≡ none)
        × ((remove id roster).0.signed_by ≡ none)
        × ((remove id roster).0.signature ≡ none)
        × (contains (remove id roster).0 other ≡ contains roster other)
  unfolding remove
  remove-validate id other roster v differs = (
    validate_devices-retain_not id roster.devices v,
    find-retain_not id roster.devices,
    refl,
    refl,
    find-retain_not_other other id roster.devices differs,
  )
