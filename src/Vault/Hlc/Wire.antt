-- ===== src/Vault/Hlc/Wire.antt =====
-- crates/misty-vault/src/hlc.rs: the 26 wire bytes of a reading, which the store compares as blobs.
use misty.Prelude.{
  ◌∷◌, [], ◌<◌, ◌^◌, ◌≡◌, refl, ◌++◌, if◌then◌else◌, err, ◌==◌, nat_ord, list_ord, cmp_list, arith,
  length, length-append,
}
use misty.Prelude.Bytes.{
  be_bytes, from_be, take, drop, take-append, drop-append, length-be_bytes, from_be-be_bytes,
  cmp-be_bytes,
}
use misty.Vault.Error.{Bytes, VaultResult, storage}
use misty.Vault.Hlc.Order.{Hlc, cmp_hlc, hlc_len, new}

-- `Hlc::to_sort_bytes`
unfoldable pub to_sort_bytes : Hlc → Bytes
to_sort_bytes h = be_bytes 8 h.wall_ms ++ (be_bytes 2 h.counter ++ h.device_id)

-- `Hlc::from_sort_bytes`, on an array of `HLC_LEN` bytes
unfoldable pub from_sort_bytes : Bytes → VaultResult Hlc
unfolding new
from_sort_bytes bytes =
    let wall_src = take 8 bytes in
    let rest = drop 8 bytes in
    let counter_src = take 2 rest in
    let device_src = drop 2 rest in new (from_be wall_src) (from_be counter_src) device_src

-- `Hlc::from_slice`: the length is checked first
unfoldable pub from_slice : Bytes → VaultResult Hlc
unfolding from_sort_bytes
from_slice bytes =
    if length bytes == hlc_len
    then from_sort_bytes bytes
    else err (storage "hlc_max is {} bytes, expected {HLC_LEN}" (length bytes ∷ []))

-- A reading that fits the machine words of its fields.
pub record Fits (h : Hlc) : Type 0 where
  pub wall_fits : h.wall_ms < 2 ^ 64
  pub counter_fits : h.counter < 2 ^ 16
  pub device_fits : length h.device_id ≡ 16

-- The wire bytes of two readings that fit their words compare, byte by byte, as the readings do.
pub cmp-to_sort_bytes :
    (a b : Hlc) → Fits a → Fits b → cmp_list (to_sort_bytes a) (to_sort_bytes b) ≡ cmp_hlc a b
unfolding to_sort_bytes
cmp-to_sort_bytes a b p q = rw (
  cmp-be_bytes 8 a.wall_ms b.wall_ms (be_bytes 2 a.counter ++ a.device_id)
      (be_bytes 2 b.counter ++ b.device_id) (omega arith) (omega arith),
  cmp-be_bytes 2 a.counter b.counter a.device_id b.device_id (omega arith) (omega arith),
)

-- Reading back the wire bytes of a reading gives that reading if its wall clock is in the window,
-- and the range error otherwise.
pub from_slice-to_sort_bytes :
    (h : Hlc) → Fits h → from_slice (to_sort_bytes h) ≡ new h.wall_ms h.counter h.device_id
unfolding from_slice from_sort_bytes to_sort_bytes
from_slice-to_sort_bytes h p =
    rw
      (
        length-append (be_bytes 8 h.wall_ms) (be_bytes 2 h.counter ++ h.device_id),
        length-append (be_bytes 2 h.counter) h.device_id,
        length-be_bytes 8 h.wall_ms,
        length-be_bytes 2 h.counter,
        p.device_fits,
        take-append 8 (be_bytes 8 h.wall_ms) (be_bytes 2 h.counter ++ h.device_id)
            (length-be_bytes 8 h.wall_ms),
        drop-append 8 (be_bytes 8 h.wall_ms) (be_bytes 2 h.counter ++ h.device_id)
            (length-be_bytes 8 h.wall_ms),
        take-append 2 (be_bytes 2 h.counter) h.device_id (length-be_bytes 2 h.counter),
        drop-append 2 (be_bytes 2 h.counter) h.device_id (length-be_bytes 2 h.counter),
        from_be-be_bytes 8 h.wall_ms (omega arith),
        from_be-be_bytes 2 h.counter (omega arith),
      )
      refl
