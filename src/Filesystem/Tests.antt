-- ===== src/Filesystem/Tests.antt =====
-- Paths and the table of filesystems at concrete disks.
use hyper.Base.{
  ℕ, suc, ◌*◌, ◌^◌, ◌≡◌, inr, panic, slice, ltb, if◌then◌else◌, stuck, ◌%◌, refl, true, Option,
  none, some, [], ◌∷◌, Returns, arith,
}
use hyper.Text.Ctype.{Bytes}
use hyper.Filesystem.Guid.{zero_guid}
use hyper.Filesystem.Path.{FullPath, zero_path, disk_hd, partition_by_index, path_parse}
use hyper.Filesystem.Path.Wellformed.{is_selector, IsParsed, path_parse-IsParsed}
use hyper.Filesystem.Bulk.{
  BlockRange, hole, part_byte_off, Volume, zeros, read_range, do_bulk_read, bulk_read_file,
}
use hyper.Filesystem.Bulk.Ranges.{bulk_read_file_stops}
use hyper.Filesystem.Bulk.Wrap.{wrapped_range_hangs}
use hyper.Filesystem.Table.{
  Filesystem, Disk, kind_hd, Table, fse_raw, fse_mbr, pxe_fs_entry, disk_fs_entry, BootDevice,
  boot_disk, boot_partition_index,
}
use hyper.Filesystem.Table.Lookup.{slot_pointer, fst_fs_by_full_path}
use hyper.Filesystem.Table.Select.{is_volume, IsFirst, Selects, fst_fs_by_full_path-IsFirst}

-- hd0-part1::/k
abbrev selector_text : Bytes
selector_text =
    b'h' ∷ b'd' ∷ b'0' ∷ b'-' ∷ b'p' ∷ b'a' ∷ b'r' ∷ b't' ∷ b'1' ∷ b':' ∷ b':' ∷ b'/' ∷ b'k' ∷ []

path_parse-IsParsed_example : Returns (IsParsed selector_text) (path_parse selector_text)
path_parse-IsParsed_example = path_parse-IsParsed selector_text (omega arith)

abbrev fat : Filesystem
fat = record { name = 1; lba_begin = 2048 }

abbrev first_disk : Disk
first_disk = record { handle = 7; id = 0; kind = kind_hd }

abbrev two_entries : Table
two_entries = record {
  origin_fs = disk_fs_entry fse_raw first_disk 0 zero_guid zero_guid fat;
  entries =
      pxe_fs_entry fat (10 ∷ 0 ∷ 0 ∷ 1 ∷ [])
      ∷ disk_fs_entry fse_mbr first_disk 1 zero_guid zero_guid fat
      ∷ [];
  capacity = 2;
  moved = 1;
  boot_dev = none;
  boot_entry = none;
  pxe_entry = some (record { generation = 1; index = 0 });
}

abbrev first_partition : FullPath
first_partition = record zero_path {
  disk_id_type = disk_hd;
  partition_id_type = partition_by_index;
  partition_index = 1;
}

volume : is_volume first_partition.disk_id_type ≡ true
volume = refl

by_number : is_selector disk_hd first_partition.partition_id_type ≡ true
unfolding is_selector
by_number = refl

fst_fs_by_full_path-IsFirst_example :
    (found : Option ℕ) × (fst_fs_by_full_path two_entries first_partition
      ≡ slot_pointer two_entries found)
    × IsFirst (Selects first_partition) two_entries.entries found
fst_fs_by_full_path-IsFirst_example =
    fst_fs_by_full_path-IsFirst two_entries first_partition volume by_number

abbrev no_network : Table
no_network = record two_entries { entries = []; pxe_entry = none }

abbrev booted_from : BootDevice
booted_from = record {
  type = boot_disk;
  boot_disk_id = 0;
  boot_disk_kind = kind_hd;
  partition_id = boot_partition_index 1;
}

-- two blocks of two bytes at sector 1 of a disk with sectors of two bytes, in a file of four bytes
abbrev small_volume : Volume
small_volume = record { fs_shift = 1; disk_shift = 1; lba_begin = 1 }

abbrev small_disk : Bytes
small_disk = 9 ∷ 9 ∷ 1 ∷ 2 ∷ 3 ∷ 4 ∷ []

abbrev small_file : Bytes
small_file = 1 ∷ 2 ∷ 3 ∷ 4 ∷ []

abbrev read_bytes : ℕ → ℕ → Option Bytes
read_bytes off n = some (slice off n small_disk)

abbrev read_sectors : ℕ → ℕ → Option Bytes
read_sectors block count = some (slice (block * 2 ^ 1) (count * 2 ^ 1) small_disk)

-- A block of the file, if it has that many.
abbrev block_range : ℕ → BlockRange
block_range block = record { where_at = part_byte_off (block * 2); blocks = 1 }

abbrev one_at_a_time : ℕ → ℕ → Option BlockRange
one_at_a_time block want = if ltb block 2 then some (block_range block) else none

bulk_read_file_stops_example :
    bulk_read_file one_at_a_time read_bytes read_sectors small_volume 4 3 2 ≡ panic
bulk_read_file_stops_example =
    bulk_read_file_stops one_at_a_time read_bytes read_sectors small_volume 4 3 2 (omega arith)
      (omega arith) (omega arith) (inr (omega arith))

-- a hole of 2 ^ 32 bytes
abbrev huge_hole : ℕ → ℕ → Option BlockRange
huge_hole block want = some (record { where_at = hole; blocks = 0x8000_0000 })

nothing_read :
    read_range huge_hole read_bytes read_sectors small_volume hole (0 % 2 ^ small_volume.fs_shift) 0
    ≡ some []
unfolding read_range zeros
nothing_read = refl

wrapped_range_hangs_example :
    do_bulk_read huge_hole read_bytes read_sectors small_volume 1000 0 (suc 3) ≡ stuck
wrapped_range_hangs_example =
    wrapped_range_hangs huge_hole read_bytes read_sectors small_volume 1000 0 3
      (record { where_at = hole; blocks = 0x8000_0000 }) [] (omega arith) refl (omega arith) refl
      refl nothing_read
