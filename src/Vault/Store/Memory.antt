-- ===== src/Vault/Store/Memory.antt =====
-- crates/misty-vault/src/store/memory.rs: the backend that works on every target, with snapshots for
-- transactions.
use misty.Prelude.{ℕ, ◌≡◌, refl, ok-injective, List, [], ◌∷◌, ok, err, nat_ord, list_ord}
use misty.Prelude.Map.{get, put, remove}
use misty.Vault.Error.{VaultError, VaultResult, no_transaction}
use misty.Vault.Store.{StoredEnvelope, Rows, VaultStore, Contents, IsTransactional}

pub record MemoryStore : Type 0 where
  pub rows : Rows
  pub epoch : ℕ
  pub snapshots : List (Rows × ℕ)

abbrev pub empty_store : MemoryStore
empty_store = record { rows = []; epoch = 0; snapshots = [] }

abbrev pub values : Rows → List StoredEnvelope
values [] = []
values ((id, row) ∷ rows) = row ∷ values rows

abbrev pub drop_snapshot : MemoryStore → List (Rows × ℕ) → MemoryStore × VaultResult {0} Unit
drop_snapshot s [] = (s, err no_transaction)
drop_snapshot s (c ∷ cs) = (record s { snapshots = cs }, ok tt)

abbrev pub back_to : MemoryStore → List (Rows × ℕ) → MemoryStore × VaultResult {0} Unit
back_to s [] = (s, err no_transaction)
back_to s ((rows, epoch) ∷ cs) = (record { rows = rows; epoch = epoch; snapshots = cs }, ok tt)

abbrev pub memory_store : VaultStore MemoryStore
memory_store = record {
  load_all = λ s. ok (values s.rows);
  get_row = λ id s. ok (get id s.rows);
  put_row = λ row s. (record s { rows = put row.item_id row s.rows }, ok tt);
  remove_row = λ id s. (record s { rows = remove id s.rows }, ok tt);
  epoch = λ s. ok s.epoch;
  set_epoch = λ n s. (record s { epoch = n }, ok tt);
  begin = λ s. (record s { snapshots = (s.rows, s.epoch) ∷ s.snapshots }, ok tt);
  commit = λ s. drop_snapshot s s.snapshots;
  rollback = λ s. back_to s s.snapshots;
}

abbrev pub memory_view : MemoryStore → Contents
memory_view s = record { rows = s.rows; epoch = s.epoch }

abbrev contents : List (Rows × ℕ) → List Contents
contents [] = []
contents ((rows, epoch) ∷ cs) = record { rows = rows; epoch = epoch } ∷ contents cs

abbrev pub memory_saved : MemoryStore → List Contents
memory_saved s = contents s.snapshots

cons_inverse :
    {c d : Contents} {cs ds : List Contents}
    → ◌≡◌ {A = List Contents} (c ∷ cs) (d ∷ ds)
    → (c ≡ d) × (cs ≡ ds)
cons_inverse h = (cc, cc)

drop_snapshot-Ends :
    (s : MemoryStore) (before : List (Rows × ℕ)) (c : Contents) (cs : List Contents)
    → contents before ≡ c ∷ cs
    → (memory_view (drop_snapshot s before).0 ≡ memory_view s)
      × (memory_saved (drop_snapshot s before).0 ≡ cs)
drop_snapshot-Ends s [] c cs h = absurd cc
drop_snapshot-Ends s ((rows, epoch) ∷ before) c cs h = (refl, (cons_inverse h).1)

drop_snapshot_failed :
    (s : MemoryStore) (before : List (Rows × ℕ)) (e : VaultError)
    → (drop_snapshot s before).1 ≡ err e
    → memory_saved (drop_snapshot s before).0 ≡ memory_saved s
drop_snapshot_failed s [] e h = refl
drop_snapshot_failed s (c ∷ before) e h = absurd cc

back_to-Ends :
    (s : MemoryStore) (before : List (Rows × ℕ)) (c : Contents) (cs : List Contents)
    → contents before ≡ c ∷ cs
    → (memory_view (back_to s before).0 ≡ c) × (memory_saved (back_to s before).0 ≡ cs)
back_to-Ends s [] c cs h = absurd cc
back_to-Ends s ((rows, epoch) ∷ before) c cs h = cons_inverse h

back_to_failed :
    (s : MemoryStore) (before : List (Rows × ℕ)) (e : VaultError)
    → (back_to s before).1 ≡ err e
    → memory_saved (back_to s before).0 ≡ memory_saved s
back_to_failed s [] e h = refl
back_to_failed s ((rows, epoch) ∷ before) e h = absurd cc

-- The in-memory backend keeps the transaction contract, savepoints included.
pub memory_store-IsTransactional : IsTransactional memory_store memory_view memory_saved
memory_store-IsTransactional = record {
  got = λ id s row h. ok-injective h;
  put_seen = λ row s h. refl;
  put_saved = λ row s. refl;
  removed_seen = λ id s h. refl;
  removed_saved = λ id s. refl;
  epoch_seen = λ n s h. refl;
  epoch_saved = λ n s. refl;
  begun = λ s h. (refl, refl);
  not_begun = λ s e h. absurd cc;
  committed = λ s c cs h k. drop_snapshot-Ends s s.snapshots c cs h;
  not_committed = λ s e h. drop_snapshot_failed s s.snapshots e h;
  rolled_back = λ s c cs h k. back_to-Ends s s.snapshots c cs h;
  not_rolled_back = λ s e h. back_to_failed s s.snapshots e h;
}
