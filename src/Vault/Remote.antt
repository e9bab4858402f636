-- ===== src/Vault/Remote.antt =====
-- `merge_remote` of crates/misty-vault/src/vault/sync.rs: what a peer wrote is verified and decoded,
-- merged into copies, stored in one transaction and then adopted.
pub mod Atomic
pub mod Keeps
pub mod Authentic
use misty.Prelude.{
  ℕ, suc, Bool, false, if◌then◌else◌, Option, none, some, List, [], ◌∷◌, ◌++◌, length, ok, err,
  ◌>>=◌, nat_ord, list_ord,
}
use misty.Prelude.Map.{Map, get, put}
use misty.Crypto.Primitives.{Primitives}
use misty.Crypto.Envelope.Header.{EnvelopeKind}
use misty.Crypto.Envelope.Seal.{Draws}
use misty.Crypto.Derive.{Hkdf}
use misty.Vault.Error.{ItemId, VaultResult, no_such_item, no_such_group}
use misty.Vault.Hlc.Order.{Hlc}
use misty.Vault.Hlc.Clock.{HlcClock, observe}
use misty.Vault.Conflict.{Conflict, add_conflicts}
use misty.Vault.Item.{Item, GroupId}
use misty.Vault.Item.Clocks.{max_hlc, every_hlc}
use misty.Vault.ItemSet.{ForkIds, ItemSet, absorb, sort_dedup}
use misty.Vault.Group.{Group, merge_groups, group_max_hlc, group_hlcs}
use misty.Vault.Same.{item_eq, group_eq}
use misty.Vault.State.{Codec, Vault, vault_fork_ids, item_record, group_record}
use misty.Vault.Change.{RemoteChange, MergeReport, Decoded, as_item, as_group, decode_changes}
use misty.Vault.Store.{StoredEnvelope, VaultStore, Write, transaction}

-- The copies that the second phase works on.
pub record Copies : Type 0 where
  pub items : ItemSet
  pub groups : Map GroupId Group
  pub conflicts : List Conflict
  pub touched_items : List ItemId
  pub touched_groups : List GroupId

abbrev pub absorbed :
    Copies → ItemSet × List Conflict × VaultResult (List ItemId) → VaultResult Copies
absorbed c (items, conflicts, err e) = err e
absorbed c (items, conflicts, ok ids) =
    ok (record c { items = items; conflicts = conflicts; touched_items = c.touched_items ++ ids })

abbrev pub put_group : Copies → Group → Copies
put_group c merged = record c {
  groups = put merged.id merged c.groups;
  touched_groups = c.touched_groups ++ merged.id ∷ [];
}

abbrev pub merge_group : Copies → Group → Option Group → VaultResult Copies
merge_group c group none = ok (put_group c group)
merge_group c group (some local) = do merged ← merge_groups local group; ok (put_group c merged)

unfoldable pub merge_decoded : ForkIds → Decoded → Copies → VaultResult Copies
merge_decoded fork (as_item item) c = absorbed c (absorb fork item c.items c.conflicts)
merge_decoded fork (as_group group) c = merge_group c group (get group.id c.groups)

-- The second phase.
unfoldable pub merge_all : ForkIds → List (RemoteChange × Decoded) → Copies → VaultResult Copies
merge_all fork [] c = ok c
merge_all fork ((change, decoded) ∷ rest) c = do
  next ← merge_decoded fork decoded c
  merge_all fork rest next

-- The objects that a merge left exactly as a peer wrote them.
pub record Verbatim : Type 0 where
  pub items : Map ItemId RemoteChange
  pub groups : Map GroupId RemoteChange

abbrev pub same_item : Item → Option Item → Bool
same_item incoming (some merged) = item_eq.beq merged incoming
same_item incoming none = false

abbrev pub same_group : Group → Option Group → Bool
same_group incoming (some merged) = group_eq.beq merged incoming
same_group incoming none = false

unfoldable pub verbatim : Copies → List (RemoteChange × Decoded) → Verbatim → Verbatim
verbatim c [] found = found
verbatim c ((change, as_item item) ∷ rest) found = verbatim c rest (
    if same_item item (get item.id c.items)
    then record found { items = put item.id change found.items }
    else found)
verbatim c ((change, as_group group) ∷ rest) found = verbatim c rest (
    if same_group group (get group.id c.groups)
    then record found { groups = put group.id change found.groups }
    else found)

-- A peer's own envelope, with the peer's `seq` and `version`.
abbrev pub peer_row : ItemId → EnvelopeKind → Hlc → RemoteChange → StoredEnvelope
peer_row id kind hlc change = record {
  item_id = id;
  kind = kind;
  seq = change.seq;
  version = change.version;
  envelope = change.envelope;
  hlc_max = hlc;
}

abbrev pub put_next : {S : Type 0} → Write S → S × VaultResult {0} Unit → S × VaultResult {0} Unit
put_next rest (next, ok done) = rest next
put_next rest (next, err error) = (next, err error)

unfoldable pub put_all : {S : Type 0} → VaultStore S → List StoredEnvelope → Write S
put_all store [] s = (s, ok tt)
put_all store (row ∷ rows) s = put_next (put_all store rows) (store.put_row row s)

-- The clock is pulled up past everything that arrived.
unfoldable pub observe_all : List Hlc → HlcClock → HlcClock
observe_all [] clock = clock
observe_all (h ∷ hs) clock = observe_all hs (observe h clock)

abbrev pub item_clocks : Option Item → List Hlc
item_clocks (some item) = every_hlc item
item_clocks none = []

abbrev pub group_clocks : Option Group → List Hlc
group_clocks (some group) = group_hlcs group
group_clocks none = []

unfoldable pub observe_items : ItemSet → List ItemId → HlcClock → HlcClock
observe_items items [] clock = clock
observe_items items (id ∷ ids) clock =
    observe_items items ids (observe_all (item_clocks (get id items)) clock)

unfoldable pub observe_groups : Map GroupId Group → List GroupId → HlcClock → HlcClock
observe_groups groups [] clock = clock
observe_groups groups (id ∷ ids) clock =
    observe_groups groups ids (observe_all (group_clocks (get id groups)) clock)

-- What the first three phases have computed when the transaction is opened.
pub record Prepared : Type 0 where
  pub applied : ℕ
  pub ignored : ℕ
  pub copies : Copies
  pub rows : List StoredEnvelope

abbrev pub copies_of : {S : Type 0} → Vault S → Copies
copies_of v = record {
  items = v.items;
  groups = v.groups;
  conflicts = [];
  touched_items = [];
  touched_groups = [];
}

abbrev pub settled : Copies → Copies
settled c = record c {
  touched_items = sort_dedup c.touched_items;
  touched_groups = sort_dedup c.touched_groups;
}

-- `draws n` is what the generator gives to the n-th row, if it is sealed.
module _ {S : Type 0} (store : VaultStore S) (codec : Codec) (hkdf : Hkdf) (p : Primitives)
    (draws : ℕ → Draws) where
  abbrev pub item_row :
      ℕ → Vault S → ItemId → Option Item → Option RemoteChange → VaultResult StoredEnvelope
  item_row n v id none change = err (no_such_item id)
  item_row n v id (some item) (some change) =
      ok (peer_row id EnvelopeKind.item (max_hlc item) change)
  item_row n v id (some item) none = item_record store codec hkdf p (draws n) v item

  abbrev pub group_row :
      ℕ → Vault S → GroupId → Option Group → Option RemoteChange → VaultResult StoredEnvelope
  group_row n v id none change = err (no_such_group id)
  group_row n v id (some group) (some change) =
      ok (peer_row id EnvelopeKind.group (group_max_hlc group) change)
  group_row n v id (some group) none = group_record store codec hkdf p (draws n) v group

  unfoldable pub group_rows :
      ℕ → Vault S → Copies → Verbatim → List GroupId → VaultResult (List StoredEnvelope)
  group_rows n v c found [] = ok []
  group_rows n v c found (id ∷ ids) = do
    row ← group_row n v id (get id c.groups) (get id found.groups)
    rows ← group_rows (suc n) v c found ids
    ok (row ∷ rows)

  -- The third phase, `records_for`.
  unfoldable pub records_for :
      ℕ → Vault S → Copies → Verbatim → List ItemId → VaultResult (List StoredEnvelope)
  records_for n v c found [] = group_rows n v c found c.touched_groups
  records_for n v c found (id ∷ ids) = do
    row ← item_row n v id (get id c.items) (get id found.items)
    rows ← records_for (suc n) v c found ids
    ok (row ∷ rows)

  unfoldable pub prepare : List RemoteChange → Vault S → VaultResult Prepared
  prepare changes v = do
    (decoded, ignored) ← decode_changes codec hkdf p v.vault_key v.roster changes []
    merged ← merge_all (vault_fork_ids hkdf v.vault_key) decoded (copies_of v)
    let copies = settled merged
    let found = verbatim copies decoded (record { items = []; groups = [] })
    rows ← records_for 0 v copies found copies.touched_items
    ok (record { applied = length decoded; ignored = ignored; copies = copies; rows = rows })

  -- The last phase.
  unfoldable pub adopt : Copies → Vault S → Vault S
  adopt c v = record v {
    hlc = observe_groups c.groups c.touched_groups (observe_items c.items c.touched_items v.hlc);
    items = c.items;
    groups = c.groups;
    conflicts = add_conflicts v.conflicts c.conflicts;
  }

  abbrev pub after_commit :
      Prepared → Vault S → S × VaultResult {0} Unit → Vault S × VaultResult MergeReport
  after_commit plan v (s, err error) = (record v { store = s }, err error)
  after_commit plan v (s, ok done) = (
    adopt plan.copies (record v { store = s }),
    ok (record {
      applied = plan.applied;
      ignored = plan.ignored;
      items_written = plan.copies.touched_items;
      groups_written = plan.copies.touched_groups;
      conflicts = plan.copies.conflicts;
    }),
  )

  abbrev pub commit_plan : Vault S → VaultResult Prepared → Vault S × VaultResult MergeReport
  commit_plan v (err error) = (v, err error)
  commit_plan v (ok plan) =
      after_commit plan v (transaction store (put_all store plan.rows) v.store)

  unfoldable pub merge_remote : List RemoteChange → Vault S → Vault S × VaultResult MergeReport
  merge_remote changes v = commit_plan v (prepare changes v)
