-- ===== src/Filesystem/Detect/Mbr.antt =====
-- loader/filesystem/mbr.c: the partitions of an MBR, and the chain of the extended ones on fuel.
use hyper.Base.{
  ℕ, zero, suc, ◌+◌, ◌*◌, ◌^◌, ◌%◌, Bool, true, false, not, ◌&&◌, ◌==◌, if◌then◌else◌, Option, none,
  some, u64_mod, add64, Run, ok, stuck, ◌>>=◌,
}
use hyper.Text.Ctype.{Bytes}
use hyper.Cache.{BlockCache, block_cache_read}
use hyper.Filesystem.Table.{fst_add_mbr_fs_entry}
use hyper.Filesystem.Detect.{
  Medium, Services, Detection, field, fs_try_detect, add_found, signature_is,
}

pub record MbrPartitionEntry : Type 0 where
  pub type : ℕ
  pub first_block : ℕ
  pub block_count : ℕ

-- entry `i` of the list
unfoldable pub partition_entry : Bytes → ℕ → MbrPartitionEntry
unfolding field
partition_entry bytes i = record {
  type = field bytes (16 * i + 4) 1;
  first_block = field bytes (16 * i + 8) 4;
  block_count = field bytes (16 * i + 12) 4;
}

-- OFFSET_TO_MBR_PARTITION_LIST
abbrev pub offset_to_mbr_partition_list : ℕ
offset_to_mbr_partition_list = 0x1BE

module _ (sv : Services) (d : Medium) where
  -- One partition of the list at `sector_offset`; false is `break`. `chain` is the recursive call.
  unfoldable pub mbr_partition :
      (ℕ → ℕ → Detection → Run Detection)
      → ℕ
      → ℕ
      → ℕ
      → MbrPartitionEntry
      → Detection
      → Run (Bool × Detection)
  unfolding fs_try_detect
  mbr_partition chain base_index sector_offset i p st =
      let is_ebr = not (base_index == 0) in
      let real_partition_offset = add64 sector_offset p.first_block in
      if p.type == 0
      then ok (true, st)
      else if p.type == 5
      then (if is_ebr && (i == 0) then ok (false, st) else (do
        st' ← chain (base_index + (if is_ebr then 1 else 4)) real_partition_offset st
        ok (true, st')))
      else if (i == 1) && is_ebr
      then ok (false, st)
      else (do
        found ←
            fs_try_detect sv d
              (record {
                begin = real_partition_offset;
                end = add64 real_partition_offset p.block_count;
              })
              st.bc
        ok (
          true,
          add_found
              (fst_add_mbr_fs_entry sv.per_increment (sv.allocates st.table) st.table d.disk
                (base_index + i))
              st.table found,
        ))

  abbrev pub unless_break : Bool × Detection → (Detection → Run Detection) → Run Detection
  unless_break (true, st) next = next st
  unless_break (false, st) next = ok st

  -- `count` partitions from `i` on
  unfoldable pub mbr_partitions :
      (ℕ → ℕ → Detection → Run Detection) → ℕ → ℕ → Bytes → ℕ → ℕ → Detection → Run Detection
  unfolding mbr_partition partition_entry
  mbr_partitions chain base_index sector_offset bytes zero i st = ok st
  mbr_partitions chain base_index sector_offset bytes (suc count) i st = do
    r ← mbr_partition chain base_index sector_offset i (partition_entry bytes i) st
    unless_break r (mbr_partitions chain base_index sector_offset bytes count (suc i))

  abbrev pub with_partitions :
      Detection → BlockCache × Option Bytes → (Bytes → Detection → Run Detection) → Run Detection
  with_partitions st (bc, none) next = ok (record st { bc = bc })
  with_partitions st (bc, some bytes) next = next bytes (record st { bc = bc })

  unfoldable pub mbr_do_initialize : ℕ → ℕ → ℕ → Detection → Run Detection
  unfolding mbr_partitions block_cache_read
  mbr_do_initialize zero base_index sector_offset st = stuck
  mbr_do_initialize (suc fuel) base_index sector_offset st = do
    r ←
        block_cache_read sv.refill st.bc
          (add64 (sector_offset * 2 ^ d.block_shift % u64_mod) offset_to_mbr_partition_list) 64
    with_partitions st r (λ bytes st'.
        mbr_partitions (mbr_do_initialize fuel) base_index sector_offset bytes
          (if base_index == 0 then 4 else 2) 0 st')

  unfoldable pub mbr_initialize : ℕ → Detection → Run (Detection × Bool)
  unfolding mbr_do_initialize field
  mbr_initialize fuel st = do
    (bc, signature) ← block_cache_read sv.refill st.bc 510 2
    let st' : Detection = record st { bc = bc }
    (if signature_is 2 0xAA55 signature
        then (do st'' ← mbr_do_initialize fuel 0 0 st'; ok (st'', true))
        else ok (st', false))
