-- ===== src/Filesystem/Table.antt =====
-- loader/filesystem/filesystem_table.c: the filesystems that the loader found, and the lookups in them.
--
-- The entries lie in a buffer that moves when it grows (loader/include/common/dynamic_buffer.h); a pointer
-- to one is its index and the generation of the buffer that it points into. The members
-- `partition_guid` and `ip` of the union are two fields: the code reads the one that the type of
-- the entry names.
pub mod Lookup
pub mod BootLookup
pub mod Select
pub mod Boot
use hyper.Base.{
  ℕ, zero, suc, ◌+◌, Bool, true, false, not, ◌&&◌, ◌==◌, if◌then◌else◌, Option, none, some, List,
  [], ◌∷◌, ◌++◌, length, get_elem?, Run, ok, panic, stuck, bug_on, ◌>>=◌, ◌>>◌,
}
use hyper.Text.Ctype.{Bytes}
use hyper.Filesystem.Guid.{Guid, zero_guid, guid_equal}
use hyper.Filesystem.Path.{
  DiskIdentifier, disk_invalid, disk_hd, disk_cd, disk_uuid, disk_any, disk_origin, disk_pxe,
  PartitionIdentifier, partition_invalid, partition_raw, partition_by_index, partition_uuid,
  partition_origin, FullPath,
}

pub data FseType : Type 0 where
  fse_raw : FseType
  fse_mbr : FseType
  fse_gpt : FseType
  fse_pxe : FseType

pub data DiskKind : Type 0 where
  kind_hd : DiskKind
  kind_cd : DiskKind

abbrev pub same_kind : DiskKind → DiskKind → Bool
same_kind kind_hd kind_hd = true
same_kind kind_cd kind_cd = true
same_kind _ _ = false

abbrev pub is_pxe : FseType → Bool
is_pxe fse_pxe = true
is_pxe _ = false

abbrev pub is_raw : FseType → Bool
is_raw fse_raw = true
is_raw _ = false

pub record FsLocation : Type 0 where
  pub disk_id : ℕ
  pub partition_index : ℕ
  pub entry_type : FseType
  pub disk_kind : DiskKind
  pub disk_guid : Guid
  pub partition_guid : Guid
  pub ip : Bytes

-- What the table uses of a filesystem: which one it is, and lba_range.begin.
pub record Filesystem : Type 0 where
  pub name : ℕ
  pub lba_begin : ℕ

pub record FsEntry : Type 0 where
  pub disk_handle : ℕ
  pub loc : FsLocation
  pub fs : Filesystem

-- struct disk, as far as the table uses it.
pub record Disk : Type 0 where
  pub handle : ℕ
  pub id : ℕ
  pub kind : DiskKind

pub data BootPartition : Type 0 where
  boot_partition_none : BootPartition
  boot_partition_index : ℕ → BootPartition
  boot_partition_lba : ℕ → BootPartition

pub data BootDeviceType : Type 0 where
  boot_disk : BootDeviceType
  boot_pxe : BootDeviceType

abbrev pub is_boot_pxe : BootDeviceType → Bool
is_boot_pxe boot_disk = false
is_boot_pxe boot_pxe = true

pub record BootDevice : Type 0 where
  pub type : BootDeviceType
  pub boot_disk_id : ℕ
  pub boot_disk_kind : DiskKind
  pub partition_id : BootPartition

pub record Slot : Type 0 where
  pub generation : ℕ
  pub index : ℕ

-- A `struct fs_entry *` that is not NULL.
pub data EntryPointer : Type 0 where
  to_origin : EntryPointer
  to_slot : Slot → EntryPointer

-- The static variables. `boot_dev` is there if `has_boot_dev` is set.
pub record Table : Type 0 where
  pub origin_fs : FsEntry
  pub entries : List FsEntry
  pub capacity : ℕ
  pub moved : ℕ
  pub boot_dev : Option BootDevice
  pub boot_entry : Option Slot
  pub pxe_entry : Option Slot

-- Neither `origin_fs` nor `pxe_entry` is touched.
unfoldable pub fst_init : Table → Table
fst_init t = record t { entries = []; capacity = 0; boot_dev = none; boot_entry = none }

-- dynamic_buffer_slot_alloc and the assignment to the slot: `per_increment` entries fit into a
-- growth of the buffer, `allocates` says whether the allocation, if one is needed, succeeds.
unfoldable pub slot_alloc : ℕ → Bool → Table → FsEntry → Option (Table × Slot)
slot_alloc per_increment allocates t entry =
    let slot = length t.entries in
    if slot == t.capacity
    then (if allocates
        then some (
          record t {
            entries = t.entries ++ entry ∷ [];
            capacity = t.capacity + per_increment;
            moved = t.moved + 1;
          },
          record { generation = t.moved + 1; index = slot },
        )
        else none)
    else some (
      record t { entries = t.entries ++ entry ∷ [] },
      record { generation = t.moved; index = slot },
    )

abbrev pub is_set : Option Slot → Bool
is_set none = false
is_set (some _) = true

-- The entry that each of the four functions builds.
abbrev pub pxe_fs_entry : Filesystem → Bytes → FsEntry
pxe_fs_entry fs ip = record {
  disk_handle = 0;
  loc = record {
    disk_id = 0;
    partition_index = 0;
    entry_type = fse_pxe;
    disk_kind = kind_hd;
    disk_guid = zero_guid;
    partition_guid = zero_guid;
    ip = ip;
  };
  fs = fs;
}

abbrev pub disk_fs_entry : FseType → Disk → ℕ → Guid → Guid → Filesystem → FsEntry
disk_fs_entry entry_type d partition_index disk_guid partition_guid fs = record {
  disk_handle = d.handle;
  loc = record {
    disk_id = d.id;
    partition_index = partition_index;
    entry_type = entry_type;
    disk_kind = d.kind;
    disk_guid = disk_guid;
    partition_guid = partition_guid;
    ip = [];
  };
  fs = fs;
}

abbrev pub table_of : Table → Option (Table × Slot) → Table
table_of t none = t
table_of t (some (grown, _)) = grown

-- What fst_add_pxe_fs_entry does with its slot.
abbrev pub install_pxe : Table → Option (Table × Slot) → Run Table
install_pxe t none = ok t
install_pxe t (some (grown, fse)) = do
  bug_on (is_set t.pxe_entry)
  ok (record grown { pxe_entry = some fse })

module _ (per_increment : ℕ) (allocates : Bool) where
  unfoldable pub fst_add_pxe_fs_entry : Table → Filesystem → Bytes → Run Table
  unfolding slot_alloc
  fst_add_pxe_fs_entry t fs ip =
      install_pxe t (slot_alloc per_increment allocates t (pxe_fs_entry fs ip))

  unfoldable pub fst_add_raw_fs_entry : Table → Disk → Filesystem → Table
  fst_add_raw_fs_entry t d fs =
      table_of t
        (slot_alloc per_increment allocates t (disk_fs_entry fse_raw d 0 zero_guid zero_guid fs))

  unfoldable pub fst_add_mbr_fs_entry : Table → Disk → ℕ → Filesystem → Table
  fst_add_mbr_fs_entry t d partition_index fs = table_of t (
      slot_alloc per_increment allocates t
        (disk_fs_entry fse_mbr d partition_index zero_guid zero_guid fs))

  unfoldable pub fst_add_gpt_fs_entry : Table → Disk → ℕ → Guid → Guid → Filesystem → Table
  fst_add_gpt_fs_entry t d partition_index disk_guid partition_guid fs = table_of t (
      slot_alloc per_increment allocates t
        (disk_fs_entry fse_gpt d partition_index disk_guid partition_guid fs))
