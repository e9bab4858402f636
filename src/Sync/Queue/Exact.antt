-- ===== src/Sync/Queue/Exact.antt =====
-- What the outbound queue of crates/misty-sync/src/engine.rs holds.
use misty.Prelude.{
  ◌≡◌, ◌⊎◌, ◌↔◌, sym, subst, ap, ◌∙◌, inl, inr, true, false, not, ◌&&◌, Bool-cases, if◌then◌else◌,
  List, [], ◌∷◌, ◌++◌, ok, err, bind_ok, ok-injective, ok_not_err, list_ord, nat_ord, option_ord,
  same_key, same_key_iff, pair_ord, arith,
}
use misty.Prelude.Map.{Map, get}
use misty.Crypto.Error.{Bytes, ItemId, CryptoResult}
use misty.Vault.Error.{VaultResult}
use misty.Vault.Store.{StoredEnvelope}
use misty.Sync.State.{KnownRow, SyncState, is_deletable}
use misty.Sync.Page.{VaultOps}
use misty.Sync.Queue.Confirmed.{
  IsConfirmed, is_confirmed-unconfirmed, IsItemOrGroup, is_deletable-IsItemOrGroup,
}
use misty.Sync.Queue.Elements.{In, sort_writes-In, append-In, if-In, if_not-In}
use misty.Sync.Queue.{
  PendingWrite, put, delete, is_confirmed, from_crypto, from_vault, sort_writes, has_row, deletes,
  puts, pending,
}

-- The vault has a row of the item.
abbrev pub IsStored : ItemId → List StoredEnvelope → Type 0
IsStored id [] = ⊥
IsStored id (row ∷ rows) = (row.item_id ≡ id) ⊎ IsStored id rows

has_row-IsStored :
    (id : ItemId) (rows : List StoredEnvelope) → has_row id rows ≡ false → ¬ (IsStored id rows)
unfolding has_row
has_row-IsStored id [] h s = s
has_row-IsStored id (row ∷ rows) h (inl same) =
    ground (arith, h, (same_key_iff row.item_id id).1 same)
has_row-IsStored id (row ∷ rows) h (inr rest) = elim (Bool-cases (same_key row.item_id id)) [
  | inl same ↦ ground (arith, h, same)
  | inr other ↦ has_row-IsStored id rows (ground (arith, h, other)) rest
]

IsStored-has_row :
    (id : ItemId) (rows : List StoredEnvelope) → has_row id rows ≡ true → IsStored id rows
unfolding has_row
IsStored-has_row id [] h = absurd cc
IsStored-has_row id (row ∷ rows) h = elim (Bool-cases (same_key row.item_id id)) [
  | inl same ↦ inl ((same_key_iff row.item_id id).0 same)
  | inr other ↦ inr (IsStored-has_row id rows (ground (arith, h, other)))
]

-- The server has a row of this item or group, and the vault has none.
abbrev pub IsPurged : ItemId → List StoredEnvelope → List (ItemId × KnownRow) → Type 0
IsPurged id rows [] = ⊥
IsPurged id rows ((j, known) ∷ rest) =
    ((j ≡ id) × IsItemOrGroup known × ¬ (IsStored j rows)) ⊎ IsPurged id rows rest

abbrev pub to_delete : ItemId → PendingWrite
to_delete id = record { item_id = id; action = delete }

abbrev pub to_put : ItemId → PendingWrite
to_put id = record { item_id = id; action = put }

put_not_delete : (i j : ItemId) → to_put i ≡ to_delete j → ⊥
put_not_delete i j h = actions (ap (λ (w : PendingWrite). w.action) h)
  where
    actions : put ≡ delete → ⊥
    actions e = cc

is_purged_test :
    (j : ItemId) (k : KnownRow) (rows : List StoredEnvelope)
    → (is_deletable k && not (has_row j rows) ≡ true) ↔ (IsItemOrGroup k × ¬ (IsStored j rows))
is_purged_test j k rows = elim (Bool-cases (has_row j rows)) [
  | inl here ↦
      (λ h. absurd (ground (arith, h, here)), λ h. absurd (h.1 (IsStored-has_row j rows here)))
  | inr gone ↦ (
    λ h. ((is_deletable-IsItemOrGroup k).0 (ground (arith, h, gone)), has_row-IsStored j rows gone),
    λ h. ground (arith, (is_deletable-IsItemOrGroup k).1 h.0, gone),
  )
]

deletes-In :
    (id : ItemId) (rows : List StoredEnvelope) (known : List (ItemId × KnownRow))
    → In (to_delete id) (deletes rows known) ↔ IsPurged id rows known
unfolding deletes
deletes-In id rows [] = (λ h. h, λ h. h)
deletes-In id rows ((j, k) ∷ rest) =
    let head =
      if-In (is_deletable k && not (has_row j rows)) (to_delete id) (to_delete j)
        (deletes rows rest) in
    let test = is_purged_test j k rows in
    let tail = deletes-In id rows rest in
    (
      λ h. elim (head.0 h) [
        | inl a ↦
            let (due, gone) = test.0 a.1 in
            inl (sym (ap (λ (w : PendingWrite). w.item_id) a.0), due, gone)
        | inr b ↦ inr (tail.0 b)
      ],
      λ h. elim h [
        | inl a ↦ head.1 (inl (ap to_delete (sym a.0), test.1 (a.1, a.2)))
        | inr b ↦ head.1 (inr (tail.1 b))
      ],
    )

deletes_no_put :
    (id : ItemId) (rows : List StoredEnvelope) (known : List (ItemId × KnownRow))
    → ¬ (In (to_put id) (deletes rows known))
unfolding deletes
deletes_no_put id rows [] h = h
deletes_no_put id rows ((j, k) ∷ rest) h =
    elim ((if-In (is_deletable k && not (has_row j rows)) (to_put id) (to_delete j)
        (deletes rows rest)).0
      h) [ inl a ↦ put_not_delete id j a.0 | inr b ↦ deletes_no_put id rows rest b ]

module _ (fingerprint_of : Bytes → CryptoResult Bytes) where
  -- The vault has a row of the item whose fingerprint is not the one that is known of the item.
  abbrev pub IsUnsent : ItemId → Map ItemId KnownRow → List StoredEnvelope → Type 0
  IsUnsent id known [] = ⊥
  IsUnsent id known (row ∷ rows) =
      ((row.item_id ≡ id)
        × ((f : Bytes) × (fingerprint_of row.envelope ≡ ok f)
            × ¬ (IsConfirmed f (get row.item_id known))))
      ⊎ IsUnsent id known rows

  from_crypto-inverse : (r : CryptoResult Bytes) (f : Bytes) → from_crypto r ≡ ok f → r ≡ ok f
  from_crypto-inverse (ok g) f h = ap ok (ok-injective h)
  from_crypto-inverse (err e) f h = absurd (ok_not_err (sym h))

  from_vault-inverse :
      (r : VaultResult (List StoredEnvelope)) (rows : List StoredEnvelope)
      → from_vault "read the vault" r ≡ ok rows
      → r ≡ ok rows
  from_vault-inverse (ok x) rows h = ap ok (ok-injective h)
  from_vault-inverse (err e) rows h = absurd (ok_not_err (sym h))

  abbrev Listed : Map ItemId KnownRow → List StoredEnvelope → List PendingWrite → Type 0
  Listed known rows ws =
      ((id : ItemId) → In (to_put id) ws ↔ IsUnsent id known rows)
      × ((id : ItemId) → ¬ (In (to_delete id) ws))

  puts_head :
      (known : Map ItemId KnownRow) (row : StoredEnvelope) (rows : List StoredEnvelope)
      (rest : List PendingWrite) (f : Bytes)
      → fingerprint_of row.envelope ≡ ok f
      → Listed known rows rest
      → Listed known
          (row ∷ rows)
          (if is_confirmed f (get row.item_id known) then rest else to_put row.item_id ∷ rest)
  puts_head known row rows rest f made (listed, no_delete) = (
    λ id.
        let head =
          if_not-In (is_confirmed f (get row.item_id known)) (to_put id) (to_put row.item_id)
            rest in
        (
          λ h. elim (head.0 h) [
            | inl a ↦ inl (
              sym (ap (λ (w : PendingWrite). w.item_id) a.0),
              (f, made, (is_confirmed-unconfirmed f (get row.item_id known)).0 a.1),
            )
            | inr b ↦ inr ((listed id).0 b)
          ],
          λ h. elim h [
            | inl a ↦
                let same : a.1.0 ≡ f = ok-injective (sym a.1.1 ∙ made) in
                head.1 (
                  inl (
                    ap to_put (sym a.0),
                    subst (λ g. is_confirmed g (get row.item_id known) ≡ false) same
                        ((is_confirmed-unconfirmed a.1.0 (get row.item_id known)).1 a.1.2),
                  ))
            | inr b ↦ head.1 (inr ((listed id).1 b))
          ],
        ),
    λ id h.
        elim ((if_not-In (is_confirmed f (get row.item_id known)) (to_delete id)
            (to_put row.item_id) rest).0
          h) [ inl a ↦ put_not_delete row.item_id id (sym a.0) | inr b ↦ no_delete id b ],
  )

  puts-Listed :
      (known : Map ItemId KnownRow) (rows : List StoredEnvelope) (ws : List PendingWrite)
      → puts fingerprint_of known rows ≡ ok ws
      → Listed known rows ws
  unfolding puts
  puts-Listed known [] ws h =
      subst (Listed known []) (ok-injective h) (λ id. (λ a. a, λ a. a), λ id a. a)
  puts-Listed known (row ∷ rows) ws h =
      let (f, made, h1) = bind_ok (from_crypto (fingerprint_of row.envelope)) _ ws h in
      let (rest, others, last) = bind_ok (puts fingerprint_of known rows) _ ws h1 in
      subst (Listed known (row ∷ rows)) (ok-injective last) (
        puts_head known row rows rest f (from_crypto-inverse _ f made)
          (puts-Listed known rows rest others))

  module _ {V : Type 0} (vault_ops : VaultOps V) where
    -- A queue that is derived is exact: an item is to be sent exactly when the vault has a row of it for
    -- which nothing is recorded of the server with the fingerprint of the row's envelope, and to be
    -- deleted exactly when an item or a group is recorded of which the vault has no row.
    pub pending-exact :
        (state : SyncState) (v : V) (ws : List PendingWrite)
        → pending fingerprint_of vault_ops state v ≡ ok ws
        → (rows : List StoredEnvelope) × (vault_ops.load_all v ≡ ok rows)
          × ((id : ItemId) → In (to_put id) ws ↔ IsUnsent id state.known rows)
          × ((id : ItemId) → In (to_delete id) ws ↔ IsPurged id rows state.known)
    unfolding pending
    pending-exact state v ws h =
        let (rows, loaded, h1) =
          bind_ok (from_vault "read the vault" (vault_ops.load_all v)) _ ws h in
        let (writes, listed, last) = bind_ok (puts fingerprint_of state.known rows) _ ws h1 in
        let (each, none_deleted) = puts-Listed state.known rows writes listed in
        let here : sort_writes (writes ++ deletes rows state.known) ≡ ws = ok-injective last in
        let forth = λ (w : PendingWrite) (k : In w ws).
          (append-In w writes (deletes rows state.known)).0 (
            (sort_writes-In w (writes ++ deletes rows state.known)).0
              (subst (In w) (sym here) k)) in
        let back = λ (w : PendingWrite) (k : In w writes ⊎ In w (deletes rows state.known)).
          subst (In w) here (
            (sort_writes-In w (writes ++ deletes rows state.known)).1
              ((append-In w writes (deletes rows state.known)).1 k)) in
        (
          rows,
          from_vault-inverse (vault_ops.load_all v) rows loaded,
          λ id. (
            λ k. elim (forth (to_put id) k) [
              | inl a ↦ (each id).0 a
              | inr b ↦ absurd (deletes_no_put id rows state.known b)
            ],
            λ k. back (to_put id) (inl ((each id).1 k)),
          ),
          λ id. (
            λ k. elim (forth (to_delete id) k) [
              | inl a ↦ absurd (none_deleted id a)
              | inr b ↦ (deletes-In id rows state.known).0 b
            ],
            λ k. back (to_delete id) (inr ((deletes-In id rows state.known).1 k)),
          ),
        )
