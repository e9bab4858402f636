-- ===== src/Vault/Store/Atomic.antt =====
-- `VaultStore::transaction` of crates/misty-vault/src/store/mod.rs over any backend that keeps the
-- contract of the trait.
use misty.Prelude.{◌≡◌, ◌⊎◌, inl, inr, refl, sym, ◌∙◌, ap, ok, err, List, ◌∷◌, nat_ord, list_ord}
use misty.Vault.Error.{VaultError, VaultResult}
use misty.Vault.Store.{
  VaultStore, Contents, IsTransactional, outermost, transaction, keep_value, keep_error,
  end_transaction, in_transaction,
}

-- What is left when the process ends here.
abbrev pub durable : {S : Type 0} → (S → Contents) → (S → List Contents) → S → Contents
durable view saved s = outermost (view s) (saved s)

module _ {S : Type 0} (store : VaultStore S) (view : S → Contents) (saved : S → List Contents) where
  module _ {R : Type 0} where
    -- Why a transaction failed: it was not begun, with nothing changed; its body failed with the same
    -- error from the view at the start, and is undone, the view and the open transactions being what
    -- they were; or the commit or the rollback that was to end it failed, and left this state.
    abbrev pub Undone : (S → S × VaultResult R) → S → S → VaultError → Type 0
    Undone f before s error =
        (((store.begin before).1 ≡ err error) × (view s ≡ view before) × (saved s ≡ saved before))
        ⊎ (((inner : S) × (view inner ≡ view before)
              × ((f inner).1 ≡ err error)
              × (view s ≡ view before)
              × (saved s ≡ saved before))
            ⊎ ((t : S) × (saved t ≡ view before ∷ saved before)
                × ((store.commit t ≡ (s, err error)) ⊎ (store.rollback t ≡ (s, err error)))))

    -- What a transaction comes to: after a success the body ran from the view at the start to the
    -- view at the end, and no transaction is open that was not; after a failure what a crash leaves
    -- is what it was, and the failure is undone.
    abbrev pub Ended : (S → S × VaultResult R) → S → S × VaultResult R → Type 0
    Ended f before (s, ok value) =
        (inner : S) × (view inner ≡ view before)
        × ((f inner).1 ≡ ok value)
        × (view s ≡ view (f inner).0)
        × (saved s ≡ saved before)
    Ended f before (s, err error) =
        (durable view saved s ≡ durable view saved before) × Undone f before s error

    module _ (lawful : IsTransactional store view saved) where
      keep_value-Ended :
          (f : S → S × VaultResult R) (before inner s : S) (value : R)
          (r : S × VaultResult {0} Unit)
          → store.commit s ≡ r
          → view inner ≡ view before
          → f inner ≡ (s, ok value)
          → saved s ≡ view before ∷ saved before
          → Ended f before (keep_value value r)
      keep_value-Ended f before inner s value (next, ok done) e v ran h =
          let (same, popped) =
            lawful.committed s (view before) (saved before) h (ap (λ r. r.1) e) in
          (
            inner,
            v,
            ap (λ r. r.1) ran,
            ap (λ r. view r.0) (sym e) ∙ same ∙ ap (λ r. view r.0) (sym ran),
            ap (λ r. saved r.0) (sym e) ∙ popped,
          )
      keep_value-Ended f before inner s value (next, err error) e v ran h =
          let left : saved next ≡ view before ∷ saved before =
            ap (λ r. saved r.0) (sym e) ∙ lawful.not_committed s error (ap (λ r. r.1) e) ∙ h in
          (rw left refl, inr (inr (s, h, inl e)))

      keep_error-Ended :
          (f : S → S × VaultResult R) (before inner s : S) (failure : VaultError)
          (r : S × VaultResult {0} Unit)
          → store.rollback s ≡ r
          → view inner ≡ view before
          → f inner ≡ (s, err failure)
          → saved s ≡ view before ∷ saved before
          → Ended f before (keep_error failure r)
      keep_error-Ended f before inner s failure (next, ok done) e v ran h =
          let (back, popped) =
            lawful.rolled_back s (view before) (saved before) h (ap (λ r. r.1) e) in
          let seen : view next ≡ view before = ap (λ r. view r.0) (sym e) ∙ back in
          let left : saved next ≡ saved before = ap (λ r. saved r.0) (sym e) ∙ popped in
          (rw (seen, left) refl, inr (inl (inner, v, ap (λ r. r.1) ran, seen, left)))
      keep_error-Ended f before inner s failure (next, err error) e v ran h =
          let left : saved next ≡ view before ∷ saved before =
            ap (λ r. saved r.0) (sym e) ∙ lawful.not_rolled_back s error (ap (λ r. r.1) e) ∙ h in
          (rw left refl, inr (inr (s, h, inr e)))

      end_transaction-Ended :
          (f : S → S × VaultResult R) (before inner : S) (r : S × VaultResult R)
          → f inner ≡ r
          → view inner ≡ view before
          → saved r.0 ≡ view before ∷ saved before
          → Ended f before (end_transaction store r)
      end_transaction-Ended f before inner (s, ok value) e v h =
          keep_value-Ended f before inner s value (store.commit s) refl v e h
      end_transaction-Ended f before inner (s, err error) e v h =
          keep_error-Ended f before inner s error (store.rollback s) refl v e h

      in_transaction-Ended :
          (f : S → S × VaultResult R) (before : S) (r : S × VaultResult {0} Unit)
          → store.begin before ≡ r
          → ((s : S) → saved (f s).0 ≡ saved s)
          → Ended f before (in_transaction store f r)
      in_transaction-Ended f before (s, ok done) e keeps =
          let (seen, opened) = lawful.begun before (ap (λ r. r.1) e) in
          end_transaction-Ended f before s (f s) refl (ap (λ r. view r.0) (sym e) ∙ seen)
            (keeps s ∙ ap (λ r. saved r.0) (sym e) ∙ opened)
      in_transaction-Ended f before (s, err error) e keeps =
          let (seen, opened) = lawful.not_begun before error (ap (λ r. r.1) e) in
          let here : view s ≡ view before = ap (λ r. view r.0) (sym e) ∙ seen in
          let left : saved s ≡ saved before = ap (λ r. saved r.0) (sym e) ∙ opened in
          (rw (here, left) refl, inl (ap (λ r. r.1) e, here, left))

      -- Over a backend that keeps the contract, a transaction whose body opens none itself is all
      -- or nothing: one that succeeds ran its body from the view at its start to the view at its
      -- end, and leaves open only what was open; one that fails, for whatever reason, leaves what a
      -- crash leaves as it was, and with it the view and the open transactions, unless it is the
      -- commit or the rollback that failed.
      pub transaction-Ended :
          (f : S → S × VaultResult R) (before : S)
          → ((s : S) → saved (f s).0 ≡ saved s)
          → Ended f before (transaction store f before)
      unfolding transaction
      transaction-Ended f before keeps =
          in_transaction-Ended f before (store.begin before) refl keeps
