-- ===== src/Crypto/Identity/Signing.antt =====
-- The bytes that a roster's signature covers, in crates/misty-crypto/src/identity.rs, stand for one
-- roster.
use misty.Prelude.{
  ℕ, ◌-◌, ◌<◌, ◌≡◌, refl, sym, ap, ◌∙◌, true, leb, some, none, Option, List, [], ◌∷◌, ◌++◌, length,
  arith, append_assoc, ℤ, pos, negsuc,
}
use misty.Prelude.Little.{le_bytes, length-le_bytes, le_bytes-injective}
use misty.Crypto.Error.{Bytes, DeviceId}
use misty.Crypto.Identity.{
  DeviceRecord, Roster, int_bytes, word_bytes, append_str, enrolled_by_bytes, append_signing_bytes,
  all_signing_bytes, signing_bytes, roster_signing_context,
}

-- The values of an `i64`.
abbrev pub IsWord : ℤ → Type 0
IsWord (pos n) = n < 9223372036854775808
IsWord (negsuc n) = n < 9223372036854775808

abbrev pub IsId : Option DeviceId → Type 0
IsId none = Unit
IsId (some id) = length id ≡ 16

-- The arrays of a record have their sizes, its strings at most `u32::MAX` bytes.
pub record IsSizedRecord (r : DeviceRecord) : Type 0 where
  pub id_sized : length r.device_id ≡ 16
  pub key_sized : length r.ed25519_pub ≡ 32
  pub name_sized : length r.name < 4294967296
  pub platform_sized : length r.platform < 4294967296
  pub time_word : IsWord r.enrolled_at
  pub by_sized : IsId r.enrolled_by

abbrev pub AllSized : List DeviceRecord → Type 0
AllSized [] = Unit
AllSized (r ∷ rs) = IsSizedRecord r × AllSized rs

abbrev pub Cancels : Bytes → Bytes → Bytes → Bytes → Type 0
Cancels a b s t = (a ≡ b) × (s ≡ t)

pub cancel : (a b s t : Bytes) → length a ≡ length b → a ++ s ≡ b ++ t → Cancels a b s t
cancel [] [] s t n h = (refl, h)
cancel [] (y ∷ b) s t n h = absurd (omega arith)
cancel (x ∷ a) [] s t n h = absurd (omega arith)
cancel (x ∷ a) (y ∷ b) s t n h = let (same, rest) = cancel a b s t (omega arith) cc in (cc, rest)

cancel_word :
    (m n : ℕ) (s t : Bytes)
    → m < 4294967296
    → n < 4294967296
    → word_bytes m ++ s ≡ word_bytes n ++ t
    → (m ≡ n) × (s ≡ t)
unfolding word_bytes
cancel_word m n s t p q h =
    let left : leb m 4294967295 ≡ true = ground arith in
    let right : leb n 4294967295 ≡ true = ground arith in
    let short = length-le_bytes 4 in
    let h' : le_bytes 4 m ++ s ≡ le_bytes 4 n ++ t =
      ap (λ k. le_bytes 4 k ++ s) (rw left refl)
      ∙ h
      ∙ ap (λ k. le_bytes 4 k ++ t) (rw right refl) in
    let (same, rest) = cancel (le_bytes 4 m) (le_bytes 4 n) s t (short m ∙ sym (short n)) h' in
    (le_bytes-injective 4 m n p q same, rest)

cancel_str :
    (a b s t : Bytes)
    → length a < 4294967296
    → length b < 4294967296
    → append_str a ++ s ≡ append_str b ++ t
    → Cancels a b s t
unfolding append_str
cancel_str a b s t p q h =
    let (size, rest) = cancel_word (length a) (length b) (a ++ s) (b ++ t) p q (
      sym (append_assoc (word_bytes (length a)) a s)
      ∙ h
      ∙ append_assoc (word_bytes (length b)) b t) in
    cancel a b s t size rest

int_bytes-injective : (i j : ℤ) → IsWord i → IsWord j → int_bytes i ≡ int_bytes j → i ≡ j
int_bytes-injective (pos m) (pos n) p q h =
    ap pos (le_bytes-injective 8 m n (omega arith) (omega arith) h)
int_bytes-injective (negsuc m) (negsuc n) p q h =
    let same =
      le_bytes-injective 8 (18446744073709551615 - m) (18446744073709551615 - n) (omega arith)
        (omega arith) h in
    ap negsuc (omega arith)
int_bytes-injective (pos m) (negsuc n) p q h =
    let same = le_bytes-injective 8 m (18446744073709551615 - n) (omega arith) (omega arith) h in
    absurd (omega arith)
int_bytes-injective (negsuc m) (pos n) p q h =
    let same = le_bytes-injective 8 (18446744073709551615 - m) n (omega arith) (omega arith) h in
    absurd (omega arith)

length-int_bytes : (i : ℤ) → length (int_bytes i) ≡ 8
length-int_bytes (pos n) = length-le_bytes 8 n
length-int_bytes (negsuc n) = length-le_bytes 8 (18446744073709551615 - n)

cancel_int :
    (i j : ℤ) (s t : Bytes)
    → IsWord i
    → IsWord j
    → int_bytes i ++ s ≡ int_bytes j ++ t
    → (i ≡ j) × (s ≡ t)
cancel_int i j s t p q h =
    let (same, rest) =
      cancel (int_bytes i) (int_bytes j) s t (length-int_bytes i ∙ sym (length-int_bytes j)) h in
    (int_bytes-injective i j p q same, rest)

cancel_by :
    (a b : Option DeviceId) (s t : Bytes)
    → IsId a
    → IsId b
    → enrolled_by_bytes a ++ s ≡ enrolled_by_bytes b ++ t
    → (a ≡ b) × (s ≡ t)
cancel_by none none s t p q h = (refl, cc)
cancel_by none (some y) s t p q h = absurd cc
cancel_by (some x) none s t p q h = absurd cc
cancel_by (some x) (some y) s t p q h =
    let (same, rest) = cancel x y s t (p ∙ sym q) cc in (ap some same, rest)

append_signing_bytes-right :
    (r : DeviceRecord) (u : Bytes)
    → append_signing_bytes r ++ u
      ≡ r.device_id
        ++ (r.ed25519_pub
            ++ (append_str r.name
                ++ (append_str r.platform
                    ++ (int_bytes r.enrolled_at ++ (enrolled_by_bytes r.enrolled_by ++ u)))))
unfolding append_signing_bytes
append_signing_bytes-right r u = simp append_assoc

cancel_record :
    (a b : DeviceRecord) (s t : Bytes)
    → IsSizedRecord a
    → IsSizedRecord b
    → append_signing_bytes a ++ s ≡ append_signing_bytes b ++ t
    → (a ≡ b) × (s ≡ t)
cancel_record a b s t p q h =
    let h' = sym (append_signing_bytes-right a s) ∙ h ∙ append_signing_bytes-right b t in
    let (id, h1) = cancel a.device_id b.device_id _ _ (p.id_sized ∙ sym q.id_sized) h' in
    let (key, h2) = cancel a.ed25519_pub b.ed25519_pub _ _ (p.key_sized ∙ sym q.key_sized) h1 in
    let (name, h3) = cancel_str a.name b.name _ _ p.name_sized q.name_sized h2 in
    let (platform, h4) =
      cancel_str a.platform b.platform _ _ p.platform_sized q.platform_sized h3 in
    let (at, h5) = cancel_int a.enrolled_at b.enrolled_at _ _ p.time_word q.time_word h4 in
    let (by, rest) = cancel_by a.enrolled_by b.enrolled_by s t p.by_sized q.by_sized h5 in
    (cc, rest)

all_signing_bytes-injective :
    (xs ys : List DeviceRecord)
    → AllSized xs
    → AllSized ys
    → length xs ≡ length ys
    → all_signing_bytes xs ≡ all_signing_bytes ys
    → xs ≡ ys
unfolding all_signing_bytes
all_signing_bytes-injective [] [] p q n h = refl
all_signing_bytes-injective [] (b ∷ ys) p q n h = absurd (omega arith)
all_signing_bytes-injective (a ∷ xs) [] p q n h = absurd (omega arith)
all_signing_bytes-injective (a ∷ xs) (b ∷ ys) p q n h =
    let (same, rest) = cancel_record a b _ _ p.0 q.0 h in
    let others = all_signing_bytes-injective xs ys p.1 q.1 (omega arith) rest in cc

-- The bytes that are signed determine who signs and every device of the roster, in order: two
-- rosters of records of the proper sizes, with fewer than 2^32 devices and for signers of 16 bytes,
-- give the same bytes only if the signers and the devices are the same.
pub signing_bytes-injective :
    (r t : Roster) (signer other : DeviceId)
    → AllSized r.devices
    → AllSized t.devices
    → length r.devices < 4294967296
    → length t.devices < 4294967296
    → length signer ≡ 16
    → length other ≡ 16
    → signing_bytes r signer ≡ signing_bytes t other
    → (signer ≡ other) × (r.devices ≡ t.devices)
unfolding signing_bytes
signing_bytes-injective r t signer other p q m n u v h =
    let (context, h1) = cancel roster_signing_context roster_signing_context _ _ refl h in
    let (count, h2) = cancel_word (length r.devices) (length t.devices) _ _ m n h1 in
    let (same, h3) = cancel signer other _ _ (u ∙ sym v) h2 in
    (same, all_signing_bytes-injective r.devices t.devices p q count h3)
