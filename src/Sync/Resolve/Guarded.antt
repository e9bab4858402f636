-- ===== src/Sync/Resolve/Guarded.antt =====
-- What the merge of a conflicting write in crates/misty-sync/src/engine.rs lets reach the vault.
use misty.Prelude.{
  ◌≡◌, refl, sym, ap, ◌∙◌, true, inl, inr, ltb, length, Bool-cases, Option, some, none, List, ok,
  err, bind_ok, guard_ok, ok-injective, ok_not_err, list_ord, nat_ord, option_ord,
}
use misty.Prelude.Map.{get}
use misty.Crypto.Error.{Bytes, ItemId, CryptoResult}
use misty.Crypto.Primitives.{Primitives}
use misty.Crypto.Identity.{Roster}
use misty.Crypto.Envelope.Header.{EnvelopeKind}
use misty.Crypto.Envelope.Seal.{Verified, parse, verify_envelope}
use misty.Crypto.Envelope.Seal.Authentic.{verify_envelope-inverse, verify_with_signer-inverse}
use misty.Vault.Error.{VaultResult}
use misty.Vault.Conflict.{add_conflicts}
use misty.Vault.Change.{RemoteChange, MergeReport, is_mergeable}
use misty.Sync.Error.{SyncResult, envelope_too_large}
use misty.Sync.State.{StateStore}
use misty.Sync.Page.{VaultOps, Engine, max_envelope_len}
use misty.Sync.Page.Accepted.{kind_wanted}
use misty.Sync.Page.Batch.{AllVouchedFor}
use misty.Sync.Queue.{from_crypto}
use misty.Sync.Resolve.{
  known_without_bytes, set_known, already_merged, attributed, verify_conflict, after_save,
  count_resolved, after_conflict_merge, single, merge_conflict, take_conflict, with_fingerprint,
  with_kind, resolve_conflict,
}

module _ {V S : Type 0} (vault_ops : VaultOps V) (store : StateStore S) (p : Primitives)
    (fingerprint_of : Bytes → CryptoResult Bytes) (roster : Roster) where
  attributed-inverse :
      (kind found : EnvelopeKind) (r : CryptoResult Verified)
      → attributed kind r ≡ ok found
      → (v : Verified) × (r ≡ ok v) × (kind ≡ found)
  attributed-inverse kind found (ok v) h = (v, refl, ok-injective h)
  attributed-inverse kind found (err e) h = absurd (ok_not_err (sym h))

  from_crypto-inverse : {A : Type 0} (r : CryptoResult A) (x : A) → from_crypto r ≡ ok x → r ≡ ok x
  from_crypto-inverse (ok y) x h = ap ok (ok-injective h)
  from_crypto-inverse (err e) x h = absurd (ok_not_err (sym h))

  -- A conflicting write that was attributed, and holds an item or a group, is vouched for.
  verify_conflict-AllVouchedFor :
      (id : ItemId) (envelope : Bytes) (kind : EnvelopeKind)
      → verify_conflict p id envelope roster ≡ ok kind
      → is_mergeable kind ≡ true
      → AllVouchedFor p roster (single vault_ops store p fingerprint_of roster id envelope)
  unfolding verify_conflict
  verify_conflict-AllVouchedFor id envelope kind h wanted =
      let (small, h1) =
        guard_ok (ltb max_envelope_len (length envelope))
          (envelope_too_large (length envelope) max_envelope_len) _ kind h in
      let (e, whole, h2) = bind_ok (from_crypto (parse envelope)) _ kind h1 in
      let (v, checked, same) =
        attributed-inverse e.header.kind kind (verify_envelope p e id roster) h2 in
      let (r, found, verified) = verify_envelope-inverse p e id roster v checked in
      let (signature, read, good, one) =
        verify_with_signer-inverse p e id r.ed25519_pub v verified in
      (
        (
          e,
          r,
          signature,
          from_crypto-inverse (parse envelope) e whole,
          found,
          good,
          kind_wanted p roster e.header.kind (ap is_mergeable same ∙ wanted),
        ),
        tt,
      )

  -- A property of the vault that a merge keeps when a device of the roster vouches for every change.
  module _ (P : V → Type 0)
      (keeps : (cs : List RemoteChange) (v : V)
        → AllVouchedFor p roster cs
        → P v
        → P (vault_ops.merge_remote cs v).0) where
    pub after_save-keeps :
        (f : Engine V S → Engine V S) (e : Engine V S) (a : S × SyncResult {0} Unit)
        → ((s : S) → P (f (record e { store = s })).vault)
        → P e.vault
        → P (after_save vault_ops store p fingerprint_of roster f e a).0.vault
    after_save-keeps f e (s, ok done) h q = h s
    after_save-keeps f e (s, err error) h q = q

    after_conflict_merge-keeps :
        (e : Engine V S) (a : V × VaultResult MergeReport)
        → P a.0
        → P (after_conflict_merge vault_ops store p fingerprint_of roster e a).0.vault
    after_conflict_merge-keeps e (new, err error) h = h
    after_conflict_merge-keeps e (new, ok merged) h =
        let next : Engine V S = record e {
          vault = new;
          report = record (e.report) {
            conflicts = add_conflicts e.report.conflicts merged.conflicts;
          };
        } in
        after_save-keeps (count_resolved vault_ops store p fingerprint_of roster) next
          (store.save next.state next.store) (λ s. h) h

    merge_conflict-keeps :
        (id : ItemId) (envelope : Bytes) (kind : EnvelopeKind) (e : Engine V S)
        → verify_conflict p id envelope roster ≡ ok kind
        → P e.vault
        → P (merge_conflict vault_ops store p fingerprint_of roster id envelope kind e).0.vault
    unfolding merge_conflict
    merge_conflict-keeps id envelope kind e checked h = elim (Bool-cases (is_mergeable kind)) [
      | inl wanted ↦ rw wanted (
          after_conflict_merge-keeps e
            (vault_ops.merge_remote (single vault_ops store p fingerprint_of roster id envelope)
              e.vault)
            (keeps _ e.vault (verify_conflict-AllVouchedFor id envelope kind checked wanted) h))
      | inr other ↦ rw other (
          after_save-keeps (count_resolved vault_ops store p fingerprint_of roster) e
            (store.save e.state e.store) (λ s. h) h)
    ]

    with_fingerprint-keeps :
        (id : ItemId) (version : Option Bytes) (envelope : Bytes) (kind : EnvelopeKind)
        (e : Engine V S) (f : CryptoResult Bytes)
        → verify_conflict p id envelope roster ≡ ok kind
        → P e.vault
        → let r =
            with_fingerprint vault_ops store p fingerprint_of roster id version envelope kind e f in
          P r.0.vault
    unfolding take_conflict
    with_fingerprint-keeps id version envelope kind e (err error) checked h = h
    with_fingerprint-keeps id version envelope kind e (ok fingerprint) checked h =
        elim (Bool-cases (already_merged fingerprint version (get id e.state.known))) [
          | inl looped ↦ rw looped h
          | inr fresh ↦ rw fresh (merge_conflict-keeps id envelope kind _ checked h)
        ]

    with_kind-keeps :
        (id : ItemId) (version : Option Bytes) (envelope : Bytes) (e : Engine V S)
        (r : SyncResult EnvelopeKind)
        → verify_conflict p id envelope roster ≡ r
        → P e.vault
        → P (with_kind vault_ops store p fingerprint_of roster id version envelope e r).0.vault
    with_kind-keeps id version envelope e (err error) checked h = h
    with_kind-keeps id version envelope e (ok kind) checked h =
        with_fingerprint-keeps id version envelope kind e (fingerprint_of envelope) checked h

    pub resolve_conflict-keeps :
        (id : ItemId) (version : Option Bytes) (envelope : Option Bytes) (e : Engine V S)
        → P e.vault
        → P (resolve_conflict vault_ops store p fingerprint_of roster id version envelope e).0.vault
    unfolding resolve_conflict
    resolve_conflict-keeps id version none e h =
        let next = set_known (known_without_bytes id version e.state.known) e in
        after_save-keeps (count_resolved vault_ops store p fingerprint_of roster) next
          (store.save next.state next.store) (λ s. h) h
    resolve_conflict-keeps id version (some envelope) e h =
        with_kind-keeps id version envelope e (verify_conflict p id envelope roster) refl h
