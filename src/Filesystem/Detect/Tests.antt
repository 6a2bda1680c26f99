-- ===== src/Filesystem/Detect/Tests.antt =====
-- The detection of filesystems on concrete disks.
use hyper.Base.{
  ◌*◌, ◌^◌, ◌%◌, ◌≡◌, refl, true, false, ◌==◌, if◌then◌else◌, none, some, [], ◌∷◌, ◌++◌, u64_mod,
  add64, arith, ok, stuck, ◌>>=◌,
}
use hyper.Text.Ctype.{Bytes}
use hyper.Cache.{Refill, BlockCache, block_cache_read, block_cache_try_complete_req}
use hyper.Filesystem.Bulk.{zeros}
use hyper.Filesystem.Guid.{zero_guid}
use hyper.Filesystem.Table.{
  FsEntry, Table, kind_hd, fse_mbr, fse_raw, disk_fs_entry, fst_add_mbr_fs_entry, slot_alloc,
}
use hyper.Filesystem.Detect.{Medium, FilesystemType, Services, Detection}
use hyper.Filesystem.Detect.Mbr.{partition_entry, offset_to_mbr_partition_list, mbr_do_initialize}
use hyper.Filesystem.Detect.All.{fs_detect_all}
use hyper.Filesystem.Detect.Chain.{self_link_hangs}

-- a block with two partition entries and the signature of an MBR
abbrev table_block : Bytes → Bytes → Bytes
table_block first second = zeros 446 ++ first ++ second ++ zeros 32 ++ 0x55 ∷ 0xAA ∷ []

-- type 0x0C at block 2, eight blocks
abbrev fat_partition : Bytes
fat_partition = 0 ∷ 0 ∷ 0 ∷ 0 ∷ 0x0C ∷ 0 ∷ 0 ∷ 0 ∷ 2 ∷ 0 ∷ 0 ∷ 0 ∷ 8 ∷ 0 ∷ 0 ∷ 0 ∷ []

-- an extended partition at its own block
abbrev self_link : Bytes
self_link = 0 ∷ 0 ∷ 0 ∷ 0 ∷ 5 ∷ zeros 11

abbrev mbr_disk : Refill
mbr_disk block count = some (if block == 0 then table_block fat_partition (zeros 16) else zeros 512)

-- a filesystem that is found in every partition at block 2
abbrev found_at_two : FilesystemType
found_at_two = record {
  is_cd_fs = false;
  detect = λ d r bc.
      ok (bc, if r.begin == 2 then some (record { name = 1; lba_begin = r.begin }) else none);
}

abbrev services : Services
services = record {
  refill = mbr_disk;
  filesystems = found_at_two ∷ [];
  per_increment = 4;
  allocates = λ t. true;
}

abbrev medium : Medium
medium = record {
  disk = record { handle = 7; id = 0; kind = kind_hd };
  sectors = 10;
  block_shift = 9;
}

abbrev cache : Bytes → BlockCache
cache buf = record {
  cache_buf = some buf;
  cache_block_cap = 1;
  cache_base = 0;
  nocopy_refs = 0;
  block_size = 512;
  block_shift = 9;
  empty = true;
  direct_io = false;
}

abbrev raw_entry : FsEntry
raw_entry =
    disk_fs_entry fse_raw (record { handle = 3; id = 1; kind = kind_hd }) 0 zero_guid zero_guid
      (record { name = 2; lba_begin = 0 })

abbrev one_entry : Table
one_entry = record {
  origin_fs = raw_entry;
  entries = raw_entry ∷ [];
  capacity = 4;
  moved = 1;
  boot_dev = none;
  boot_entry = none;
  pxe_entry = none;
}

abbrev before_detection : Detection
before_detection = record { bc = cache (zeros 512); table = one_entry }

-- The partition is the first one of the MBR; the disk as a whole holds no filesystem.
detected_test :
    (do st ← fs_detect_all services 4 medium before_detection; ok st.table.entries)
    ≡ ok (
        raw_entry
        ∷ disk_fs_entry fse_mbr medium.disk 0 zero_guid zero_guid
            (record { name = 1; lba_begin = 2 })
        ∷ [])
unfolding fs_detect_all zeros block_cache_try_complete_req fst_add_mbr_fs_entry slot_alloc
detected_test = refl

-- the window holds block 1
abbrev at_link : Detection
at_link = record {
  bc = record (cache (table_block (zeros 16) self_link)) { cache_base = 1; empty = false };
  table = one_entry;
}

readable :
    block_cache_read mbr_disk at_link.bc
      (add64 (1 * 2 ^ 9 % u64_mod) offset_to_mbr_partition_list)
      64
    ≡ ok (at_link.bc, some (zeros 16 ++ self_link ++ zeros 32))
unfolding block_cache_read zeros block_cache_try_complete_req
readable = refl

empty_first : (partition_entry (zeros 16 ++ self_link ++ zeros 32) 0).type ≡ 0
unfolding partition_entry zeros
empty_first = refl

link_second : (partition_entry (zeros 16 ++ self_link ++ zeros 32) 1).type ≡ 5
unfolding partition_entry zeros
link_second = refl

to_itself : (partition_entry (zeros 16 ++ self_link ++ zeros 32) 1).first_block ≡ 0
unfolding partition_entry zeros
to_itself = refl

self_link_hangs_example : mbr_do_initialize services medium 100 4 1 at_link ≡ stuck
self_link_hangs_example =
    self_link_hangs services medium 100 4 1 (zeros 16 ++ self_link ++ zeros 32) at_link
      (omega arith) (omega arith) readable empty_first link_second to_itself
