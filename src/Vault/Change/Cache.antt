-- ===== src/Vault/Change/Cache.antt =====
-- The first phase of `merge_remote` of crates/misty-vault/src/vault/sync.rs without its cache of epoch keys, and
-- what it reads.
use misty.Prelude.{
  ℕ, ◌≡◌, refl, not, if◌then◌else◌, Bool-cases, inl, inr, Option, none, some, List, [], ◌∷◌, ok,
  err, ◌>>=◌, nat_ord, list_ord, Result-cases, arith,
}
use misty.Prelude.Map.{get, put, get-put}
use misty.Crypto.Error.{Bytes}
use misty.Crypto.Primitives.{Primitives}
use misty.Crypto.Identity.{Roster}
use misty.Crypto.Envelope.Seal.{EpochKey, parse, open_envelope}
use misty.Crypto.Derive.{Hkdf, epoch_key}
use misty.Vault.Error.{VaultResult}
use misty.Vault.State.{Codec, from_crypto}
use misty.Vault.Change.{
  RemoteChange, Decoded, is_mergeable, Keys, note, key_for_slot, key_for, decode_payload,
  decode_change, decode_changes,
}

module _ (codec : Codec) (hkdf : Hkdf) (p : Primitives) (vault_key : Bytes) (roster : Roster) where
  -- What one change holds, with the key of its epoch derived for it.
  unfoldable pub read_change : RemoteChange → VaultResult (Option Decoded)
  read_change change = do
    parsed ← from_crypto (parse change.envelope)
    if not (is_mergeable parsed.header.kind) then ok none else do
      key ← from_crypto (epoch_key hkdf vault_key parsed.header.epoch)
      payload ← from_crypto (open_envelope p change.envelope change.item_id key roster)
      decoded ← decode_payload codec parsed.header.kind change.item_id payload
      ok (some decoded)

  unfoldable pub read_changes : List RemoteChange → VaultResult (List (RemoteChange × Decoded) × ℕ)
  read_changes [] = ok ([], 0)
  read_changes (c ∷ cs) = do
    decoded ← read_change c
    rest ← read_changes cs
    ok (note c decoded rest)

  -- Every key of the cache is the key of its epoch.
  abbrev AreEpochKeys : Keys → Type 0
  AreEpochKeys keys =
      (epoch : ℕ) (key : EpochKey)
      → get epoch keys ≡ some key
      → epoch_key hkdf vault_key epoch ≡ ok key

  -- A step with the cache gives what the step without it gives, and keeps the cache right.
  abbrev Follows : {A : Type 0} → VaultResult A → VaultResult (A × Keys) → Type 0
  Follows (ok x) (ok (y, keys)) = (x ≡ y) × AreEpochKeys keys
  Follows (err e) (err f) = e ≡ f
  Follows (ok x) (err f) = ⊥
  Follows (err e) (ok y) = ⊥

  put-AreEpochKeys :
      (epoch : ℕ) (key : EpochKey) (keys : Keys)
      → epoch_key hkdf vault_key epoch ≡ ok key
      → AreEpochKeys keys
      → AreEpochKeys (put epoch key keys)
  put-AreEpochKeys epoch key keys made good other found h =
      ground
        (arith, get-put epoch other key keys, nat_ord.eq_of_cmp epoch other, good other found, made)

  key_for_slot-Follows :
      (epoch : ℕ) (keys : Keys) (slot : Option EpochKey)
      → get epoch keys ≡ slot
      → AreEpochKeys keys
      → Follows
          (from_crypto (epoch_key hkdf vault_key epoch))
          (key_for_slot hkdf vault_key epoch keys slot)
  key_for_slot-Follows epoch keys (some key) found good = rw (good epoch key found) (refl, good)
  key_for_slot-Follows epoch keys none found good =
      elim (Result-cases (epoch_key hkdf vault_key epoch)) [
        | inl (key, made) ↦ rw made (refl, put-AreEpochKeys epoch key keys made good)
        | inr (e, failed) ↦ rw failed refl
      ]

  key_for-Follows :
      (epoch : ℕ) (keys : Keys)
      → AreEpochKeys keys
      → Follows (from_crypto (epoch_key hkdf vault_key epoch)) (key_for hkdf vault_key epoch keys)
  unfolding key_for
  key_for-Follows epoch keys good = key_for_slot-Follows epoch keys (get epoch keys) refl good

  -- A step in common, and a step that follows another.
  Follows-same :
      {A B : Type 0} (m : VaultResult A) (f : A → VaultResult B) (g : A → VaultResult (B × Keys))
      → ((a : A) → Follows (f a) (g a))
      → Follows (m >>= f) (m >>= g)
  Follows-same (ok a) f g h = h a
  Follows-same (err e) f g h = refl

  Follows-bind :
      {A B : Type 0} (m : VaultResult A) (n : VaultResult (A × Keys)) (f : A → VaultResult B)
      (g : A × Keys → VaultResult (B × Keys))
      → Follows m n
      → ((a : A) (keys : Keys) → AreEpochKeys keys → Follows (f a) (g (a, keys)))
      → Follows (m >>= f) (n >>= g)
  Follows-bind (ok a) (ok (b, keys)) f g (same, good) h = rw same (h b keys good)
  Follows-bind (err e) (err d) f g same h = same
  Follows-bind (ok a) (err d) f g same h = absurd same
  Follows-bind (err e) (ok b) f g same h = absurd same

  decode_change-Follows :
      (c : RemoteChange) (keys : Keys)
      → AreEpochKeys keys
      → Follows (read_change c) (decode_change codec hkdf p vault_key roster c keys)
  unfolding read_change decode_change
  decode_change-Follows c keys good = Follows-same (from_crypto (parse c.envelope)) _ _ (λ parsed.
      elim (Bool-cases (is_mergeable parsed.header.kind)) [
        | inr other ↦ rw other (refl, good)
        | inl wanted ↦ rw wanted (
            Follows-bind _ (key_for hkdf vault_key parsed.header.epoch keys) _ _
              (key_for-Follows parsed.header.epoch keys good)
              (λ key kept right.
                Follows-same (from_crypto (open_envelope p c.envelope c.item_id key roster)) _ _
                  (λ payload.
                    Follows-same (decode_payload codec parsed.header.kind c.item_id payload) _ _
                      (λ decoded. (refl, right)))))
      ])

  read_next :
      (c : RemoteChange) (cs : List RemoteChange) (m : VaultResult (Option Decoded))
      (n : VaultResult (Option Decoded × Keys))
      → ((keys : Keys)
          → AreEpochKeys keys
          → decode_changes codec hkdf p vault_key roster cs keys ≡ read_changes cs)
      → Follows m n
      → (n >>= λ r.
          decode_changes codec hkdf p vault_key roster cs r.1 >>= λ rest. ok (note c r.0 rest))
        ≡ (m >>= λ decoded. read_changes cs >>= λ rest. ok (note c decoded rest))
  read_next c cs (ok a) (ok (b, keys)) ih (same, good) = rw (same, ih keys good) refl
  read_next c cs (err e) (err d) ih same = rw same refl
  read_next c cs (ok a) (err d) ih same = absurd same
  read_next c cs (err e) (ok b) ih same = absurd same

  decode_changes_cached :
      (cs : List RemoteChange) (keys : Keys)
      → AreEpochKeys keys
      → decode_changes codec hkdf p vault_key roster cs keys ≡ read_changes cs
  unfolding decode_changes read_changes
  decode_changes_cached [] keys good = refl
  decode_changes_cached (c ∷ cs) keys good =
      read_next c cs (read_change c) (decode_change codec hkdf p vault_key roster c keys)
        (decode_changes_cached cs) (decode_change-Follows c keys good)

  -- The first phase, which keeps the key of every epoch that it meets for the changes after it, reads
  -- of a batch what a derivation for each change would read, and fails with the same error.
  pub decode_changes-read :
      (cs : List RemoteChange)
      → decode_changes codec hkdf p vault_key roster cs [] ≡ read_changes cs
  unfolding get
  decode_changes-read cs = decode_changes_cached cs [] (λ epoch key h. absurd cc)
