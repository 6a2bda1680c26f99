-- ===== src/Filesystem/Bulk.antt =====
-- loader/filesystem/bulk_read.c: reads of a file whose blocks lie in ranges on a disk, and
-- fs_check_read of loader/filesystem/filesystem.c.
--
-- The bytes that went to the buffer are the result; `none` is the result false. A block shift is
-- at most 15, so that the masks, which are u16, hold a block size less one.
pub mod Ranges
pub mod Delivers
pub mod Wrap
use hyper.Base.{
  ℕ, zero, suc, ◌+◌, ◌-◌, ◌*◌, ◌/◌, ◌%◌, ◌^◌, Bool, true, false, not, ◌&&◌, ltb, ◌==◌,
  if◌then◌else◌, min, max, Option, none, some, List, [], ◌∷◌, ◌++◌, Run, ok, panic, stuck, bug_on,
  ◌>>=◌, ◌>>◌, add64, sub64, u32_mod, u64_mod,
}
use hyper.Text.Ctype.{Bytes}

-- `hole` is the offset BLOCK_RANGE_OFF_HOLE.
pub data BlockOffset : Type 0 where
  hole : BlockOffset
  part_byte_off : ℕ → BlockOffset

pub record BlockRange : Type 0 where
  pub where_at : BlockOffset
  pub blocks : ℕ

-- What the reads use of the file's filesystem and disk.
pub record Volume : Type 0 where
  pub fs_shift : ℕ
  pub disk_shift : ℕ
  pub lba_begin : ℕ

unfoldable pub zeros : ℕ → Bytes
zeros zero = []
zeros (suc n) = 0 ∷ zeros n

unfoldable pub fs_check_read : ℕ → ℕ → ℕ → Run (Unit {0})
fs_check_read file_size offset size =
    let final_offset = add64 offset size in
    if size == 0
    then panic
    else if ltb final_offset offset
    then panic
    else if ltb file_size final_offset
    then panic
    else ok tt

-- ALIGN_UP to a block size, a power of two: the sum less its remainder.
unfoldable pub br_wanted_block_count : Volume → ℕ → ℕ → ℕ
br_wanted_block_count v file_off bytes =
    let block = 2 ^ v.fs_shift in
    let padded = file_off % block + bytes + (block - 1) in (padded - padded % block) / block

abbrev pub prepend : Bytes → Option Bytes → Option Bytes
prepend chunk none = none
prepend chunk (some rest) = some (chunk ++ rest)

-- The unaligned head, the aligned part and the unaligned tail of a read.
unfoldable pub split_parts : Volume → ℕ → ℕ → List ℕ
split_parts v offset bytes =
    let block_size = 2 ^ max v.fs_shift v.disk_shift in
    let inner = offset % block_size in
    let head = if inner == 0 then 0 else min (block_size - inner) bytes in
    let tail = (bytes - head) % block_size in head ∷ (bytes - head - tail) ∷ tail ∷ []

-- The callback, ds_read by bytes and ds_read_blocks by blocks, each with its place and its count.
module _ (get_range : ℕ → ℕ → Option BlockRange) (ds_read : ℕ → ℕ → Option Bytes)
    (ds_read_blocks : ℕ → ℕ → Option Bytes) (v : Volume) where
  -- The bytes of one range, from `inner` bytes into it.
  unfoldable pub read_range : BlockOffset → ℕ → ℕ → Option Bytes
  read_range hole inner n = some (zeros n)
  read_range (part_byte_off off) inner n =
      let at = add64 off inner in
      let disk_block = 2 ^ v.disk_shift in
      if (at % disk_block == 0) && (n % disk_block == 0)
      then ds_read_blocks (add64 v.lba_begin (at / disk_block)) (n / disk_block)
      else ds_read (add64 (v.lba_begin * disk_block % u64_mod) at) n

  -- The loop on fuel; each round reads a byte or more, unless the u32 `bytes_in_range` wraps to 0.
  unfoldable pub do_bulk_read : ℕ → ℕ → ℕ → Run (Option Bytes)
  unfolding read_range br_wanted_block_count
  do_bulk_read fuel file_off zero = ok (some [])
  do_bulk_read zero file_off (suc bytes) = stuck
  do_bulk_read (suc fuel) file_off (suc bytes) =
      let block = 2 ^ v.fs_shift in
      let inner = file_off % block in
      elim (get_range (file_off / block) (br_wanted_block_count v file_off (suc bytes))) [
        | none ↦ ok none
        | some out_range ↦ do
          bug_on (out_range.blocks == 0)
          let n = min (sub64 (out_range.blocks * block % u64_mod) inner % u32_mod) (suc bytes)
          elim (read_range out_range.where_at inner n) [
            | none ↦ ok none
            | some chunk ↦ do
              rest ← do_bulk_read fuel (add64 file_off n) (suc bytes - n)
              ok (prepend chunk rest)
          ]
      ]

  -- The loop over the parts: those that are empty are passed over, and a failure ends it.
  unfoldable pub read_parts : ℕ → List ℕ → Run (Option Bytes)
  unfolding do_bulk_read
  read_parts file_off [] = ok (some [])
  read_parts file_off (part ∷ parts) = do
    chunk ← do_bulk_read part file_off part
    elim chunk [
      | none ↦ ok none
      | some bytes ↦ do rest ← read_parts (add64 file_off part) parts; ok (prepend bytes rest)
    ]

  unfoldable pub bulk_read_file : ℕ → ℕ → ℕ → Run (Option Bytes)
  unfolding fs_check_read read_parts split_parts
  bulk_read_file file_size offset bytes = do
    fs_check_read file_size offset bytes
    read_parts offset (split_parts v offset bytes)
