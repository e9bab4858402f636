-- ===== src/Sync/Page/Accepted.antt =====
-- Which changes of a page crates/misty-sync/src/engine.rs is to hand to the vault, said without the code that sorts
-- them.
use misty.Prelude.{
  ◌≤◌, ◌≡◌, ◌⊎◌, refl, sym, ap, ◌∙◌, true, not, inl, inr, ltb, length, some, List, [], ◌∷◌,
  append-nil, ok, bind_ok, guard_ok, guard_else_ok, ok-injective, Result-cases, false, arith,
}
use misty.Crypto.Error.{Bytes, ItemId, bad_verifying_key, signature_invalid}
use misty.Crypto.Primitives.{Primitives}
use misty.Crypto.Identity.{DeviceRecord, Roster, contains}
use misty.Crypto.Envelope.Header.{EnvelopeKind, item, group, take_at}
use misty.Crypto.Envelope.Header.Slices.{take_at-slice}
use misty.Crypto.Envelope.Seal.{
  Envelope, parse, signed_message, verify_envelope, verify_with_signer,
}
use misty.Crypto.Envelope.Seal.Authentic.{parse-signature, verify_envelope-inverse}
use misty.Vault.Change.{RemoteChange, is_mergeable}
use misty.Sync.Page.{too_large, FeedChange, max_envelope_len, verify_change}

abbrev pub remote_change : FeedChange → Bytes → RemoteChange
remote_change c envelope = record {
  item_id = c.item_id;
  seq = some c.seq;
  version = c.version;
  envelope = envelope;
}

whole_signature :
    (bytes : Bytes) (e : Envelope)
    → length bytes ≤ 540672
    → parse bytes ≡ ok e
    → take_at e.signature 0 64 "envelope header" ≡ ok e.signature
whole_signature bytes e small h =
    take_at-slice e.signature [] e.signature [] 0 64 "envelope header"
      (sym (append-nil e.signature)) refl (parse-signature bytes e (omega (arith, small)) h)
      (omega arith)

module _ (p : Primitives) (roster : Roster) where
  -- An envelope that is not too long and parses, that is of an item or a group, and that a device of
  -- the roster signed for this item id.
  pub record IsAccepted (id : ItemId) (envelope : Bytes) : Type 0 where
    pub parsed : Envelope
    pub signer : DeviceRecord
    pub fits : length envelope ≤ 540672
    pub parses : parse envelope ≡ ok parsed
    pub listed : contains roster parsed.header.signer ≡ some signer
    pub usable : p.is_verifying_key signer.ed25519_pub ≡ true
    pub signed :
        p.verify_strict signer.ed25519_pub (signed_message parsed id) parsed.signature ≡ true
    pub wanted : (parsed.header.kind ≡ item) ⊎ (parsed.header.kind ≡ group)

  -- Of a page, in order, exactly the changes with an accepted envelope.
  pub data Takes : List FeedChange → List RemoteChange → Type 0 where
    done : Takes [] []
    taken :
        (c : FeedChange) (envelope : Bytes) (cs : List FeedChange) (out : List RemoteChange)
        → c.envelope ≡ some envelope
        → IsAccepted c.item_id envelope
        → Takes cs out
        → Takes (c ∷ cs) (remote_change c envelope ∷ out)
    left_out :
        (c : FeedChange) (cs : List FeedChange) (out : List RemoteChange)
        → ((envelope : Bytes) → c.envelope ≡ some envelope → ¬ (IsAccepted c.item_id envelope))
        → Takes cs out
        → Takes (c ∷ cs) out

  pub kind_wanted :
      (kind : EnvelopeKind) → is_mergeable kind ≡ true → (kind ≡ item) ⊎ (kind ≡ group)
  kind_wanted item h = inl refl
  kind_wanted group h = inr refl
  kind_wanted EnvelopeKind.device_roster h = absurd cc
  kind_wanted EnvelopeKind.settings h = absurd cc
  kind_wanted EnvelopeKind.custom_icon h = absurd cc

  pub accepted_kind :
      (kind : EnvelopeKind) → (kind ≡ item) ⊎ (kind ≡ group) → is_mergeable kind ≡ true
  accepted_kind kind (inl a) = ap is_mergeable a
  accepted_kind kind (inr b) = ap is_mergeable b

  -- What `verify_change` finds of an accepted envelope, and which envelopes it accepts.
  pub verify_change-accepted :
      (id : ItemId) (envelope : Bytes) (a : IsAccepted id envelope)
      → verify_change p id envelope roster ≡ ok a.parsed.header.kind
  unfolding verify_change verify_envelope verify_with_signer
  verify_change-accepted id envelope a =
      let small : ltb max_envelope_len (length envelope) ≡ false = ground (arith, a.fits) in
      let read = whole_signature envelope a.parsed a.fits a.parses in
      rw (small, a.parses, a.listed, read, a.usable, a.signed) refl

  pub verify_change-IsAccepted :
      (id : ItemId) (envelope : Bytes) (kind : EnvelopeKind)
      → verify_change p id envelope roster ≡ ok kind
      → is_mergeable kind ≡ true
      → IsAccepted id envelope
  unfolding verify_change verify_with_signer
  verify_change-IsAccepted id envelope kind h merges =
      let (small, h1) = guard_ok (ltb max_envelope_len (length envelope)) too_large _ kind h in
      elim (Result-cases (parse envelope)) [
        | inr (error, bad) ↦ absurd (ground (arith, bad, h1))
        | inl (e, parsed) ↦ elim (Result-cases (verify_envelope p e id roster)) [
          | inr (error, bad) ↦ absurd (ground (arith, parsed, bad, h1))
          | inl (v, checked) ↦
              let (r, found, verified) = verify_envelope-inverse p e id roster v checked in
              let whole = whole_signature envelope e (ground (arith, small)) parsed in
              let (signature, read, rest) =
                bind_ok (take_at e.signature 0 64 "envelope header") _ v verified in
              let (good, rest1) =
                guard_ok (not (p.is_verifying_key r.ed25519_pub)) bad_verifying_key _ v rest in
              let (signed, rest2) =
                guard_else_ok (p.verify_strict r.ed25519_pub (signed_message e id) signature)
                  signature_invalid _ v rest1 in
              let same : signature ≡ e.signature = ok-injective (sym read ∙ whole) in
              let of_kind : e.header.kind ≡ kind = ground (arith, parsed, checked, h1) in
              record {
                parsed = e;
                signer = r;
                fits = ground (arith, small);
                parses = parsed;
                listed = found;
                usable = ground (arith, good);
                signed =
                    ap (p.verify_strict r.ed25519_pub (signed_message e id)) (sym same) ∙ signed;
                wanted = kind_wanted e.header.kind (ap is_mergeable of_kind ∙ merges);
              }
        ]
      ]
