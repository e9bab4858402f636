-- ===== src/Vault/Hlc/Order.antt =====
-- crates/misty-vault/src/hlc.rs: the reading `Hlc` and its derived `Ord`.
use misty.Prelude.{
  ℕ, ap, Bool, ◌&&◌, leb, ltb, if◌then◌else◌, ok, err, compare, Ordering, then_by, Ord, IsLawful,
  cmp_pair, cmp_pair-IsLawful, nat_ord, list_ord, pair_ord, cmp_list,
}
use misty.Vault.Error.{DeviceId, VaultResult, hlc_out_of_range}

abbrev pub min_wall_ms : ℕ
min_wall_ms = 1_577_836_800_000

abbrev pub max_wall_ms : ℕ
max_wall_ms = 4_102_444_800_000

abbrev pub hlc_len : ℕ
hlc_len = 26

pub record Hlc : Type 0 where
  pub wall_ms : ℕ
  pub counter : ℕ
  pub device_id : DeviceId

-- The derived `Ord`: lexicographic over the fields in their order.
abbrev pub cmp_hlc : Hlc → Hlc → Ordering
cmp_hlc a b =
    then_by (compare a.wall_ms b.wall_ms)
      (then_by (compare a.counter b.counter) (cmp_list a.device_id b.device_id))

abbrev fields : Hlc → ℕ × (ℕ × DeviceId)
fields a = (a.wall_ms, (a.counter, a.device_id))

of_fields : ℕ × (ℕ × DeviceId) → Hlc
of_fields t = record { wall_ms = t.0; counter = t.1.0; device_id = t.1.1 }

cmp_fields-IsLawful : IsLawful {K = ℕ × (ℕ × DeviceId)} cmp_pair
cmp_fields-IsLawful = cmp_pair-IsLawful

pub cmp_hlc-IsLawful : IsLawful cmp_hlc
unfolding of_fields
cmp_hlc-IsLawful = record {
  cmp_refl = λ a. cmp_fields-IsLawful.cmp_refl (fields a);
  eq_of_cmp = λ a b h. ap of_fields (cmp_fields-IsLawful.eq_of_cmp (fields a) (fields b) h);
  cmp_flip = λ a b. cmp_fields-IsLawful.cmp_flip (fields a) (fields b);
  lt_trans = λ a b c. cmp_fields-IsLawful.lt_trans (fields a) (fields b) (fields c);
}

instance abbrev pub hlc_ord : Ord Hlc
hlc_ord = record { cmp = cmp_hlc; lawful = cmp_hlc-IsLawful }

-- `(MIN_WALL_MS..MAX_WALL_MS).contains(&wall_ms)`
abbrev pub in_window : ℕ → Bool
in_window wall_ms = leb min_wall_ms wall_ms && ltb wall_ms max_wall_ms

-- `Hlc::new`
unfoldable pub new : ℕ → ℕ → DeviceId → VaultResult Hlc
new wall_ms counter device_id =
    if in_window wall_ms
    then ok (record { wall_ms = wall_ms; counter = counter; device_id = device_id })
    else err (hlc_out_of_range wall_ms min_wall_ms max_wall_ms)

-- `Hlc::zero`
unfoldable pub zero_reading : DeviceId → Hlc
zero_reading device_id = record { wall_ms = min_wall_ms; counter = 0; device_id = device_id }
