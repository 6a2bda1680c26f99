-- ===== src/Filesystem/Detect/Gpt.antt =====
-- loader/filesystem/gpt.c: the partitions of a GPT.
use hyper.Base.{
  ℕ, zero, suc, ◌+◌, ◌*◌, ◌^◌, ◌%◌, Bool, true, false, ltb, if◌then◌else◌, Option, none, some,
  slice, u64_mod, add64, Run, ok, ◌>>=◌,
}
use hyper.Text.Ctype.{Bytes}
use hyper.Cache.{BlockCache, block_cache_read}
use hyper.Filesystem.Guid.{Guid, zero_guid, guid_equal}
use hyper.Filesystem.Table.{fst_add_gpt_fs_entry}
use hyper.Filesystem.Detect.{
  Medium, Services, Detection, field, fs_try_detect, add_found, signature_is,
}

pub record GptHeader : Type 0 where
  pub disk_guid : Guid
  pub partition_entry_lba : ℕ
  pub number_of_partition_entries : ℕ
  pub size_of_partition_entry : ℕ

pub record GptPartitionEntry : Type 0 where
  pub partition_type_guid : Guid
  pub unique_partition_guid : Guid
  pub starting_lba : ℕ
  pub ending_lba : ℕ

unfoldable pub guid_at : Bytes → ℕ → Guid
unfolding field
guid_at bytes off = record {
  data1 = field bytes off 4;
  data2 = field bytes (off + 4) 2;
  data3 = field bytes (off + 6) 2;
  data4 = slice (off + 8) 8 bytes;
}

unfoldable pub gpt_header : Bytes → GptHeader
unfolding guid_at
gpt_header bytes = record {
  disk_guid = guid_at bytes 56;
  partition_entry_lba = field bytes 72 8;
  number_of_partition_entries = field bytes 80 4;
  size_of_partition_entry = field bytes 84 4;
}

unfoldable pub gpt_partition_entry : Bytes → GptPartitionEntry
unfolding guid_at
gpt_partition_entry bytes = record {
  partition_type_guid = guid_at bytes 0;
  unique_partition_guid = guid_at bytes 16;
  starting_lba = field bytes 32 8;
  ending_lba = field bytes 40 8;
}

module _ (sv : Services) (d : Medium) where
  unfoldable pub gpt_initialize_partition : Guid → ℕ → GptPartitionEntry → Detection → Run Detection
  unfolding guid_equal fs_try_detect
  gpt_initialize_partition disk_guid part_idx pe st =
      if guid_equal zero_guid pe.partition_type_guid then ok st else (do
        found ← fs_try_detect sv d (record { begin = pe.starting_lba; end = pe.ending_lba }) st.bc
        ok (
            add_found
              (fst_add_gpt_fs_entry sv.per_increment (sv.allocates st.table) st.table d.disk
                part_idx disk_guid pe.unique_partition_guid)
              st.table found))

  -- Where the read fails, `current_off` stays.
  abbrev pub on_entry :
      BlockCache × Option Bytes
      → Detection
      → (Bytes → Detection → Run Detection)
      → (Detection → Run Detection)
      → Run Detection
  on_entry (bc, none) st entry skip = skip (record st { bc = bc })
  on_entry (bc, some bytes) st entry skip = entry bytes (record st { bc = bc })

  -- `count` entries are left.
  unfoldable pub gpt_loop : GptHeader → ℕ → ℕ → ℕ → Detection → Run Detection
  unfolding block_cache_read gpt_partition_entry gpt_initialize_partition
  gpt_loop hdr zero part_idx current_off st = ok st
  gpt_loop hdr (suc count) part_idx current_off st = do
    r ← block_cache_read sv.refill st.bc current_off 128
    on_entry r st
        (λ bytes st'. do
          st'' ← gpt_initialize_partition hdr.disk_guid part_idx (gpt_partition_entry bytes) st'
          gpt_loop hdr count (suc part_idx) (add64 current_off hdr.size_of_partition_entry) st'')
        (gpt_loop hdr count (suc part_idx) current_off)

  unfoldable pub with_header : GptHeader → Detection → Run Detection
  unfolding gpt_loop
  with_header hdr st =
      if ltb hdr.size_of_partition_entry 128
      then ok st
      else gpt_loop hdr hdr.number_of_partition_entries 0
          (hdr.partition_entry_lba * 2 ^ d.block_shift % u64_mod) st

  unfoldable pub gpt_do_initialize : Detection → Run Detection
  unfolding with_header gpt_header block_cache_read
  gpt_do_initialize st = do
    r ← block_cache_read sv.refill st.bc (2 ^ d.block_shift) 96
    on_entry r st (λ bytes st'. with_header (gpt_header bytes) st') (λ st'. ok st')

  unfoldable pub gpt_initialize : Detection → Run (Detection × Bool)
  unfolding gpt_do_initialize field
  gpt_initialize st = do
    (bc, signature) ← block_cache_read sv.refill st.bc (2 ^ d.block_shift) 8
    let st' : Detection = record st { bc = bc }
    (if signature_is 8 0x5452415020494645 signature
        then (do st'' ← gpt_do_initialize st'; ok (st'', true))
        else ok (st', false))
