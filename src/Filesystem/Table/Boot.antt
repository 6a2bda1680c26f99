-- ===== src/Filesystem/Table/Boot.antt =====
-- The entry of the network, and the entry that the loader was booted from.
use hyper.Base.{
  ℕ, zero, suc, ◌≡◌, Bool, true, false, ◌&&◌, ◌==◌, Option, none, some, List, [], ◌∷◌, ◌++◌, length,
  get_elem?, Bool-cases, inl, inr,
}
use hyper.Filesystem.Guid.{Guid}
use hyper.Filesystem.Table.{
  FsEntry, Filesystem, Disk, Table, Slot, BootDevice, is_pxe, same_kind, slot_alloc, table_of,
  fst_add_raw_fs_entry, fst_add_mbr_fs_entry, fst_add_gpt_fs_entry,
}
use hyper.Filesystem.Table.BootLookup.{fst_entry_on_boot_device}

-- The slot, if there is one, holds the network's entry.
abbrev pub HoldsPxe : List FsEntry → Option Slot → Type 0
HoldsPxe entries none = Unit {0}
HoldsPxe entries (some slot) =
    (e : FsEntry) × (get_elem? entries slot.index ≡ some e) × (is_pxe e.loc.entry_type ≡ true)

abbrev pub IsTable : Table → Type 0
IsTable t = HoldsPxe t.entries t.pxe_entry

get_elem?-append :
    (entries more : List FsEntry) (i : ℕ) {e : FsEntry}
    → get_elem? entries i ≡ some e
    → get_elem? (entries ++ more) i ≡ some e
get_elem?-append [] more i h = cc
get_elem?-append (x ∷ entries) more zero h = h
get_elem?-append (x ∷ entries) more (suc i) h = get_elem?-append entries more i h

HoldsPxe-append :
    (entries more : List FsEntry) (slot : Option Slot)
    → HoldsPxe entries slot
    → HoldsPxe (entries ++ more) slot
HoldsPxe-append entries more none h = tt
HoldsPxe-append entries more (some slot) (e, at, pxe) =
    (e, get_elem?-append entries more slot.index at, pxe)

module _ (per_increment : ℕ) (allocates : Bool) where
  alloc-IsTable :
      (t : Table) (entry : FsEntry)
      → IsTable t
      → IsTable (table_of t (slot_alloc per_increment allocates t entry))
  unfolding slot_alloc
  alloc-IsTable t entry h =
      let more = HoldsPxe-append t.entries (entry ∷ []) t.pxe_entry h in
      elim (Bool-cases (length t.entries == t.capacity)) [
        | inl full ↦ elim (Bool-cases allocates) [
          | inl granted ↦ rw (full, granted) more
          | inr refused ↦ rw (full, refused) h
        ]
        | inr room ↦ rw room more
      ]

  pub adds-IsTable :
      (t : Table) (d : Disk) (n : ℕ) (disk partition : Guid) (fs : Filesystem)
      → IsTable t
      → IsTable (fst_add_raw_fs_entry per_increment allocates t d fs)
        × IsTable (fst_add_mbr_fs_entry per_increment allocates t d n fs)
        × IsTable (fst_add_gpt_fs_entry per_increment allocates t d n disk partition fs)
  unfolding fst_add_raw_fs_entry fst_add_mbr_fs_entry fst_add_gpt_fs_entry
  adds-IsTable t d n disk partition fs h =
      (alloc-IsTable t _ h, alloc-IsTable t _ h, alloc-IsTable t _ h)

-- What fst_resolve_boot_entry leaves: an entry of the boot device, if any.
abbrev pub BootEntryIsBooted : Table → Type 0
BootEntryIsBooted t = elim t.boot_entry [
  | none ↦ Unit {0}
  | some slot ↦
      (e : FsEntry) × (get_elem? t.entries slot.index ≡ some e)
      × (fst_entry_on_boot_device t e ≡ true)
]

abbrev OnDevice : BootDevice → FsEntry → Type 0
OnDevice dev e =
    (is_pxe e.loc.entry_type ≡ false)
    × (((e.loc.disk_id == dev.boot_disk_id) && same_kind e.loc.disk_kind dev.boot_disk_kind) ≡ true)
