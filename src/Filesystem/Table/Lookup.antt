-- ===== src/Filesystem/Table/Lookup.antt =====
-- fst_fs_by_full_path of loader/filesystem/filesystem_table.c: the entry that a path selects.
use hyper.Base.{
  ℕ, ◌+◌, Bool, true, false, not, ◌&&◌, ◌==◌, if◌then◌else◌, Option, none, some, List, [], ◌∷◌,
  get_elem?, Run, ok, stuck,
}
use hyper.Filesystem.Guid.{guid_equal}
use hyper.Filesystem.Path.{
  DiskIdentifier, disk_invalid, disk_hd, disk_cd, disk_uuid, disk_any, disk_origin, disk_pxe,
  PartitionIdentifier, partition_invalid, partition_raw, partition_by_index, partition_origin,
  FullPath,
}
use hyper.Filesystem.Table.{
  DiskKind, same_kind, is_pxe, is_raw, FsEntry, Slot, EntryPointer, Table, kind_hd, kind_cd,
  to_origin, to_slot,
}

-- The variables that fst_fs_by_full_path sets in front of its loop.
pub record Selector : Type 0 where
  pub by_disk_index : Bool
  pub by_disk_guid : Bool
  pub by_partition_index : Bool
  pub raw_partition : Bool
  pub wanted_disk : ℕ
  pub wanted_kind : DiskKind
  pub wanted_partition : ℕ

abbrev is_by_index : PartitionIdentifier → Bool
is_by_index partition_by_index = true
is_by_index _ = false

abbrev is_by_raw : PartitionIdentifier → Bool
is_by_raw partition_raw = true
is_by_raw _ = false

-- With the disk decided, the partition's part.
abbrev pub selector : FullPath → Bool → Bool → ℕ → DiskKind → Selector
selector path by_index by_guid disk kind = record {
  by_disk_index = by_index;
  by_disk_guid = by_guid;
  by_partition_index = is_by_index path.partition_id_type;
  raw_partition = is_by_raw path.partition_id_type;
  wanted_disk = disk;
  wanted_kind = kind;
  wanted_partition = if is_by_index path.partition_id_type then path.partition_index else 0;
}

-- The body of the loop: true where it returns the entry, false where it continues.
unfoldable pub is_selected : Selector → FullPath → FsEntry → Bool
is_selected sel path entry =
    if is_pxe entry.loc.entry_type
    then false
    else if sel.by_disk_index
        && not (
            (sel.wanted_disk == entry.loc.disk_id) && same_kind sel.wanted_kind entry.loc.disk_kind)
    then false
    else if not sel.by_disk_index
        && (sel.by_disk_guid && not (guid_equal path.disk_guid entry.loc.disk_guid))
    then false
    else if sel.raw_partition
    then is_raw entry.loc.entry_type
    else if is_raw entry.loc.entry_type
    then false
    else if sel.by_partition_index
    then sel.wanted_partition == entry.loc.partition_index
    else guid_equal path.partition_guid entry.loc.partition_guid

-- The loop from index `i` on.
unfoldable pub first_index : (FsEntry → Bool) → ℕ → List FsEntry → Option ℕ
first_index f i [] = none
first_index f i (entry ∷ entries) =
    let rest = first_index f (i + 1) entries in if f entry then some i else rest

abbrev pub slot_pointer : Table → Option ℕ → Option EntryPointer
slot_pointer t none = none
slot_pointer t (some i) = some (to_slot (record { generation = t.moved; index = i }))

unfoldable pub search : Table → FullPath → Selector → Option EntryPointer
unfolding first_index is_selected
search t path sel = slot_pointer t (first_index (is_selected sel path) 0 t.entries)

abbrev pub pxe_pointer : Option Slot → Option EntryPointer
pxe_pointer none = none
pxe_pointer (some slot) = some (to_slot slot)

abbrev is_whole : PartitionIdentifier → Bool
is_whole partition_origin = true
is_whole partition_raw = true
is_whole _ = false

-- The chain of tests on disk_id_type.
unfoldable pub by_disk : Table → FullPath → DiskIdentifier → Option EntryPointer
unfolding search
by_disk t path disk_invalid = none
by_disk t path disk_pxe = pxe_pointer t.pxe_entry
by_disk t path disk_origin =
    let found =
      search t path (selector path true false t.origin_fs.loc.disk_id t.origin_fs.loc.disk_kind) in
    if is_whole path.partition_id_type then some to_origin else found
by_disk t path disk_hd = search t path (selector path true false path.disk_index kind_hd)
by_disk t path disk_cd = search t path (selector path true false path.disk_index kind_cd)
by_disk t path disk_uuid = search t path (selector path false true 0 kind_hd)
by_disk t path disk_any = search t path (selector path false false 0 kind_hd)

abbrev pub is_invalid : PartitionIdentifier → Bool
is_invalid partition_invalid = true
is_invalid _ = false

unfoldable pub fst_fs_by_full_path : Table → FullPath → Option EntryPointer
unfolding by_disk
fst_fs_by_full_path t path =
    if is_invalid path.partition_id_type then none else by_disk t path path.disk_id_type

unfoldable pub fst_set_origin : Table → FsEntry → Table
fst_set_origin t entry = record t { origin_fs = entry }

unfoldable pub fst_get_origin : Table → FsEntry
fst_get_origin t = t.origin_fs

-- What a pointer points to; one into a buffer that was freed since has no run.
unfoldable pub entry_at : Table → EntryPointer → Run FsEntry
entry_at t to_origin = ok t.origin_fs
entry_at t (to_slot slot) =
    if slot.generation == t.moved
    then elim (get_elem? t.entries slot.index) [ none ↦ stuck | some entry ↦ ok entry ]
    else stuck
