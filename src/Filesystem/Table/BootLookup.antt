-- ===== src/Filesystem/Table/BootLookup.antt =====
-- The boot device in loader/filesystem/filesystem_table.c, joined against the entries of the table.
use hyper.Base.{
  ℕ, ◌+◌, Bool, true, false, not, ◌&&◌, ◌==◌, if◌then◌else◌, Option, none, some, List, [], ◌∷◌, Run,
  ok, panic, ◌>>=◌,
}
use hyper.Filesystem.Table.{
  same_kind, is_pxe, FsEntry, BootPartition, is_boot_pxe, BootDevice, Slot, Table,
  boot_partition_none, boot_partition_index, boot_partition_lba,
}

-- The switch in the loop of fst_resolve_boot_entry.
unfoldable pub locates : BootPartition → FsEntry → Run Bool
locates (boot_partition_index n) e = ok (e.loc.partition_index == n)
locates (boot_partition_lba n) e = ok (e.fs.lba_begin == n)
locates boot_partition_none e = panic

-- The body of that loop.
unfoldable pub is_boot_entry : BootDevice → FsEntry → Run Bool
unfolding locates
is_boot_entry dev e =
    if is_pxe e.loc.entry_type
    then ok false
    else if not
        ((e.loc.disk_id == dev.boot_disk_id) && same_kind e.loc.disk_kind dev.boot_disk_kind)
    then ok false
    else locates dev.partition_id e

-- That loop from index `i` on.
unfoldable pub find_boot_entry : BootDevice → ℕ → List FsEntry → Run (Option ℕ)
unfolding is_boot_entry
find_boot_entry dev i [] = ok none
find_boot_entry dev i (e ∷ entries) = do
  found ← is_boot_entry dev e
  elim found [ true ↦ ok (some i) | false ↦ find_boot_entry dev (i + 1) entries ]

abbrev pub slot_of : Table → Option ℕ → Option Slot
slot_of t none = none
slot_of t (some i) = some (record { generation = t.moved; index = i })

abbrev pub names_no_partition : BootPartition → Bool
names_no_partition boot_partition_none = true
names_no_partition _ = false

-- The option is what ds_query_boot_device reports.
unfoldable pub fst_resolve_boot_entry : Option BootDevice → Table → Run Table
unfolding find_boot_entry
fst_resolve_boot_entry none t = ok (record t { boot_dev = none; boot_entry = none })
fst_resolve_boot_entry (some dev) t =
    if is_boot_pxe dev.type
    then ok (record t { boot_dev = some dev; boot_entry = t.pxe_entry })
    else if names_no_partition dev.partition_id
    then ok (record t { boot_dev = some dev; boot_entry = none })
    else do
      found ← find_boot_entry dev 0 t.entries
      ok (record t { boot_dev = some dev; boot_entry = slot_of t found })

unfoldable pub fst_boot_device_info : Table → Option BootDevice
fst_boot_device_info t = t.boot_dev

unfoldable pub fst_boot_entry : Table → Option Slot
fst_boot_entry t = t.boot_entry

unfoldable pub fst_entry_on_boot_device : Table → FsEntry → Bool
fst_entry_on_boot_device t entry = elim t.boot_dev [
  | none ↦ false
  | some dev ↦
      if is_pxe entry.loc.entry_type
      then is_boot_pxe dev.type
      else if is_boot_pxe dev.type
      then false
      else (entry.loc.disk_id == dev.boot_disk_id)
        && same_kind entry.loc.disk_kind dev.boot_disk_kind
]
