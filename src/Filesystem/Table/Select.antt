-- ===== src/Filesystem/Table/Select.antt =====
-- Which entry of the table a path selects.
use hyper.Base.{
  ℕ, suc, ◌+◌, ◌≡◌, ◌≢◌, ◌⊎◌, refl, ap, ◌∙◌, ◌↔◌, Bool, true, false, not, ◌&&◌, ◌==◌, ==_iff,
  if◌then◌else◌, Option, none, some, List, [], ◌∷◌, get_elem?, take, All, arith, Bool-cases, inl,
  inr,
}
use hyper.Filesystem.Guid.{guid_equal}
use hyper.Filesystem.Guid.Equal.{guid_equal_iff}
use hyper.Filesystem.Path.{
  DiskIdentifier, disk_invalid, disk_hd, disk_cd, disk_uuid, disk_any, disk_origin, disk_pxe,
  PartitionIdentifier, partition_invalid, partition_raw, partition_by_index, partition_uuid,
  partition_origin, FullPath,
}
use hyper.Filesystem.Path.Wellformed.{is_selector}
use hyper.Filesystem.Table.{
  FseType, fse_raw, fse_mbr, fse_gpt, fse_pxe, DiskKind, kind_hd, kind_cd, same_kind, is_pxe,
  is_raw, FsEntry, Table,
}
use hyper.Filesystem.Table.Lookup.{
  Selector, selector, is_selected, first_index, slot_pointer, is_invalid, search, by_disk,
  fst_fs_by_full_path,
}

-- The entry is on the disk that the path names.
abbrev pub OnDisk : DiskIdentifier → FullPath → FsEntry → Type 0
OnDisk disk_hd path e = (path.disk_index ≡ e.loc.disk_id) × (kind_hd ≡ e.loc.disk_kind)
OnDisk disk_cd path e = (path.disk_index ≡ e.loc.disk_id) × (kind_cd ≡ e.loc.disk_kind)
OnDisk disk_uuid path e = path.disk_guid ≡ e.loc.disk_guid
OnDisk disk_any path e = Unit {0}
OnDisk _ path e = ⊥

-- The entry is the partition that the path names.
abbrev pub IsNamed : PartitionIdentifier → FullPath → FsEntry → Type 0
IsNamed partition_raw path e = e.loc.entry_type ≡ fse_raw
IsNamed partition_by_index path e =
    (e.loc.entry_type ≢ fse_raw) × (path.partition_index ≡ e.loc.partition_index)
IsNamed partition_uuid path e =
    (e.loc.entry_type ≢ fse_raw) × (path.partition_guid ≡ e.loc.partition_guid)
IsNamed _ path e = ⊥

abbrev SelectsAs : DiskIdentifier → PartitionIdentifier → FullPath → FsEntry → Type 0
SelectsAs d p path e = (e.loc.entry_type ≢ fse_pxe) × OnDisk d path e × IsNamed p path e

abbrev pub Selects : FullPath → FsEntry → Type 0
Selects path = SelectsAs path.disk_id_type path.partition_id_type path

not_pxe : (k : FseType) → (is_pxe k ≡ false) ↔ (k ≢ fse_pxe)
not_pxe fse_raw = (λ _ h. cc, λ _. refl)
not_pxe fse_mbr = (λ _ h. cc, λ _. refl)
not_pxe fse_gpt = (λ _ h. cc, λ _. refl)
not_pxe fse_pxe = (λ h _. cc, λ h. elim (h refl) [ ])

only_raw : (k : FseType) → (is_raw k ≡ true) ↔ (k ≡ fse_raw)
only_raw fse_raw = (λ _. refl, λ _. refl)
only_raw fse_mbr = (λ h. cc, λ h. cc)
only_raw fse_gpt = (λ h. cc, λ h. cc)
only_raw fse_pxe = (λ h. cc, λ h. cc)

kind_iff : (a b : DiskKind) → (same_kind a b ≡ true) ↔ (a ≡ b)
kind_iff kind_hd kind_hd = (λ _. refl, λ _. refl)
kind_iff kind_hd kind_cd = (λ h. cc, λ h. cc)
kind_iff kind_cd kind_hd = (λ h. cc, λ h. cc)
kind_iff kind_cd kind_cd = (λ _. refl, λ _. refl)

abbrev disk_ok : Selector → FullPath → FsEntry → Bool
disk_ok sel path e =
    if sel.by_disk_index
    then (sel.wanted_disk == e.loc.disk_id) && same_kind sel.wanted_kind e.loc.disk_kind
    else if sel.by_disk_guid
    then guid_equal path.disk_guid e.loc.disk_guid
    else true

abbrev partition_ok : Selector → FullPath → FsEntry → Bool
partition_ok sel path e =
    if sel.raw_partition
    then is_raw e.loc.entry_type
    else not (is_raw e.loc.entry_type)
      && (if sel.by_partition_index
          then sel.wanted_partition == e.loc.partition_index
          else guid_equal path.partition_guid e.loc.partition_guid)

selected_parts :
    (sel : Selector) (path : FullPath) (e : FsEntry)
    → is_selected sel path e
      ≡ (not (is_pxe e.loc.entry_type) && (disk_ok sel path e && partition_ok sel path e))
unfolding is_selected
selected_parts sel path e = ground arith

partition_iff :
    (path : FullPath) (e : FsEntry) (p : PartitionIdentifier) (by_index by_guid : Bool) (disk : ℕ)
    (kind : DiskKind)
    → path.partition_id_type ≡ p
    → is_selector disk_hd p ≡ true
    → (partition_ok (selector path by_index by_guid disk kind) path e ≡ true) ↔ IsNamed p path e
unfolding is_selector
partition_iff path e partition_raw by_index by_guid disk kind h k = rw h (only_raw e.loc.entry_type)
partition_iff path e partition_by_index by_index by_guid disk kind h k =
    let raw = only_raw e.loc.entry_type in
    let same = ==_iff path.partition_index e.loc.partition_index in
    rw h (λ t. ground (arith, raw.0, raw.1, same.0), λ t. ground (arith, raw.0, raw.1, same.1))
partition_iff path e partition_uuid by_index by_guid disk kind h k =
    let raw = only_raw e.loc.entry_type in
    let same = guid_equal_iff path.partition_guid e.loc.partition_guid in
    rw h (λ t. ground (arith, raw.0, raw.1, same.0), λ t. ground (arith, raw.0, raw.1, same.1))
partition_iff path e partition_invalid by_index by_guid disk kind h k = cc
partition_iff path e partition_origin by_index by_guid disk kind h k = cc

index_iff :
    (path : FullPath) (e : FsEntry) (disk : ℕ) (kind : DiskKind)
    → (disk_ok (selector path true false disk kind) path e ≡ true)
      ↔ ((disk ≡ e.loc.disk_id) × (kind ≡ e.loc.disk_kind))
index_iff path e disk kind =
    let same = ==_iff disk e.loc.disk_id in
    let kinds = kind_iff kind e.loc.disk_kind in
    (λ t. ground (arith, same.0, kinds.0), λ t. ground (arith, same.1, kinds.1))

-- What the whole test amounts to, given what its two parts amount to.
parts_iff :
    (P Q : Type 0) (sel : Selector) (path : FullPath) (e : FsEntry)
    → (disk_ok sel path e ≡ true) ↔ P
    → (partition_ok sel path e ≡ true) ↔ Q
    → (is_selected sel path e ≡ true) ↔ ((e.loc.entry_type ≢ fse_pxe) × P × Q)
parts_iff P Q sel path e d p =
    let pxe = not_pxe e.loc.entry_type in
    rw (selected_parts sel path e)
      (λ h. ground (arith, pxe.0, d.0, p.0), λ (n, a, b). ground (arith, pxe.1 n, d.1 a, p.1 b))

-- The answer of a search for the first entry of which P holds.
abbrev pub IsFirst : (FsEntry → Type 0) → List FsEntry → Option ℕ → Type 0
IsFirst P entries none = All (λ e. ¬ P e) entries
IsFirst P entries (some i) =
    (e : FsEntry) × (get_elem? entries i ≡ some e) × P e × All (λ x. ¬ P x) (take i entries)

first_index-IsFirst :
    (P : FsEntry → Type 0) (f : FsEntry → Bool) (entries : List FsEntry) (i : ℕ)
    → ((e : FsEntry) → (f e ≡ true) ↔ P e)
    → (first_index f i entries ≡ none) × IsFirst P entries none
      ⊎ (k : ℕ) × (first_index f i entries ≡ some (i + k)) × IsFirst P entries (some k)
unfolding first_index
first_index-IsFirst P f [] i d = inl (refl, tt)
first_index-IsFirst P f (e ∷ entries) i d = elim (Bool-cases (f e)) [
  | inl h ↦ inr (0, rw h (ground arith), (e, refl, (d e).0 h, tt))
  | inr h ↦
      let other : ¬ P e = λ p. let t = (d e).1 p in cc in
      elim (first_index-IsFirst P f entries (i + 1) d) [
        | inl (g, all) ↦ inl (rw h g, (other, all))
        | inr (k, g, (x, at, px, before)) ↦
            inr (suc k, rw (h, g) (ap some (omega arith)), (x, at, px, (other, before)))
      ]
]

-- A path names a disk, or any disk: not the origin and not the network.
abbrev pub is_volume : DiskIdentifier → Bool
is_volume disk_hd = true
is_volume disk_cd = true
is_volume disk_uuid = true
is_volume disk_any = true
is_volume _ = false

search-IsFirst :
    (t : Table) (path : FullPath) (sel : Selector) (P : FsEntry → Type 0)
    → ((e : FsEntry) → (is_selected sel path e ≡ true) ↔ P e)
    → (found : Option ℕ) × (search t path sel ≡ slot_pointer t found) × IsFirst P t.entries found
unfolding search
search-IsFirst t path sel P d = elim (first_index-IsFirst P (is_selected sel path) t.entries 0 d) [
  | inl (g, first) ↦ (none, rw g refl, first)
  | inr (k, g, first) ↦
      let same : 0 + k ≡ k = omega arith in (some k, ap (slot_pointer t) (g ∙ ap some same), first)
]

module _ (t : Table) (path : FullPath) (p : PartitionIdentifier)
    (named : path.partition_id_type ≡ p) (k : is_selector disk_hd p ≡ true) where
  -- The search with the disk decided.
  selector-IsFirst :
      (d : DiskIdentifier) (by_index by_guid : Bool) (disk : ℕ) (kind : DiskKind)
      → ((e : FsEntry)
          → (disk_ok (selector path by_index by_guid disk kind) path e ≡ true) ↔ OnDisk d path e)
      → (found : Option ℕ) × (search t path (selector path by_index by_guid disk kind)
          ≡ slot_pointer t found)
        × IsFirst (SelectsAs d p path) t.entries found
  selector-IsFirst d by_index by_guid disk kind on_disk =
      let sel = selector path by_index by_guid disk kind in
      search-IsFirst t path sel (SelectsAs d p path) (λ e.
        parts_iff (OnDisk d path e) (IsNamed p path e) sel path e (on_disk e)
          (partition_iff path e p by_index by_guid disk kind named k))

  by_disk-IsFirst :
      (d : DiskIdentifier)
      → is_volume d ≡ true
      → (found : Option ℕ) × (by_disk t path d ≡ slot_pointer t found)
        × IsFirst (SelectsAs d p path) t.entries found
  unfolding by_disk
  by_disk-IsFirst disk_hd v =
      selector-IsFirst disk_hd true false path.disk_index kind_hd (λ e. index_iff path e _ _)
  by_disk-IsFirst disk_cd v =
      selector-IsFirst disk_cd true false path.disk_index kind_cd (λ e. index_iff path e _ _)
  by_disk-IsFirst disk_uuid v =
      selector-IsFirst disk_uuid false true 0 kind_hd
        (λ e. guid_equal_iff path.disk_guid e.loc.disk_guid)
  by_disk-IsFirst disk_any v =
      selector-IsFirst disk_any false false 0 kind_hd (λ e. (λ _. tt, λ _. refl))
  by_disk-IsFirst disk_invalid v = cc
  by_disk-IsFirst disk_origin v = cc
  by_disk-IsFirst disk_pxe v = cc

-- Where the path names a disk or any disk, not the origin or the network, and a partition by
-- index, by GUID or as raw, fst_fs_by_full_path returns the first entry of the table that is on
-- that disk and that partition, or NULL if there is none. The entry of the network is never
-- returned.
pub fst_fs_by_full_path-IsFirst :
    (t : Table) (path : FullPath)
    → is_volume path.disk_id_type ≡ true
    → is_selector disk_hd path.partition_id_type ≡ true
    → (found : Option ℕ) × (fst_fs_by_full_path t path ≡ slot_pointer t found)
      × IsFirst (Selects path) t.entries found
unfolding fst_fs_by_full_path is_selector
fst_fs_by_full_path-IsFirst t path v k =
    let (found, e, first) =
      by_disk-IsFirst t path path.partition_id_type refl k path.disk_id_type v in
    (
      found,
      ap (λ b. if b then none else by_disk t path path.disk_id_type)
            (valid path.partition_id_type k)
          ∙ e,
      first,
    )
  where
    valid : (p : PartitionIdentifier) → is_selector disk_hd p ≡ true → is_invalid p ≡ false
    valid partition_raw h = refl
    valid partition_by_index h = refl
    valid partition_uuid h = refl
    valid partition_invalid h =
        let no_match : is_selector disk_hd partition_invalid ≡ true = h in cc
    valid partition_origin h = refl
