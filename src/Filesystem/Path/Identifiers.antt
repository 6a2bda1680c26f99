-- ===== src/Filesystem/Path/Identifiers.antt =====
-- What the readers of disk and partition identifiers in loader/filesystem/path.c accept.
use hyper.Base.{
  ◌≤◌, ◌≡◌, refl, ap, Bool, true, false, length, drop, Run, ok, Option-cases, Bool-cases, inl, inr,
}
use hyper.Text.Ctype.{Bytes}
use hyper.Text.View.{sv_starts_with, sv_starts_with_caseless}
use hyper.Filesystem.Path.Tail.{
  IsTail, IsTail-trans, IsTail-refl, caseless_length, sequence-IsTail, skip_dash-IsTail,
  guid-IsTail,
}
use hyper.Text.Convert.Safe.{offset_ok}
use hyper.Filesystem.Guid.{Guid, zero_guid}
use hyper.Filesystem.Path.{
  DiskIdentifier, disk_hd, disk_cd, disk_uuid, PartitionIdentifier, partition_raw,
  partition_by_index, partition_uuid, FullPath, zero_path, path_consume_numeric_sequence, Consumed,
  consume_disk_uuid, consume_disk_index, path_consume_disk_identifier, diskuuid_str, hd_str, cd_str,
  consume_partition_uuid, consume_partition_index, path_consume_partition_identifier, partuuid_str,
  part_str, root_str, is_indexed,
}

-- A disk that path_consume_disk_identifier names.
abbrev pub names_disk : DiskIdentifier → Bool
names_disk disk_hd = true
names_disk disk_cd = true
names_disk disk_uuid = true
names_disk _ = false

-- What is known of the output once the disk identifier is read.
abbrev pub IsDiskRead : Consumed → Type 0
IsDiskRead (false, (_, out)) = out.partition_guid ≡ zero_guid
IsDiskRead (true, (_, out)) =
    (out.partition_guid ≡ zero_guid) × (names_disk out.disk_id_type ≡ true)

abbrev pub DiskRead : Bytes → Run Consumed → Type 0
DiskRead path m = (r : Consumed) × (m ≡ ok r) × IsTail path (r.1.0) × IsDiskRead r

disk_uuid-DiskRead :
    (path : Bytes)
    → length diskuuid_str ≤ length path
    → DiskRead path (consume_disk_uuid path zero_path)
unfolding consume_disk_uuid
disk_uuid-DiskRead path h =
    let ((res, (rest, guid)), e, t) = guid-IsTail (drop 9 path) zero_guid refl in
    let (after, f, u) = skip_dash-IsTail rest in
    let tail = IsTail-trans (9, refl) t in
    elim (Bool-cases res) [
      | inl found ↦ (
        (true, (after, record zero_path { disk_id_type = disk_uuid; disk_guid = guid })),
        rw (offset_ok path 9 h, e, found, f) refl,
        IsTail-trans tail u,
        (refl, refl),
      )
      | inr lost ↦ (
        (false, (rest, record zero_path { disk_guid = guid })),
        rw (offset_ok path 9 h, e, lost) refl,
        tail,
        refl,
      )
    ]

disk_index-DiskRead :
    (kind : DiskIdentifier) (path : Bytes)
    → names_disk kind ≡ true
    → 2 ≤ length path
    → DiskRead path (consume_disk_index kind path zero_path)
unfolding consume_disk_index
disk_index-DiskRead kind path named h =
    let ((value, rest), e0, t) = sequence-IsTail (drop 2 path) in
    let e : path_consume_numeric_sequence (drop 2 path) ≡ ok (value, rest) = e0 in
    let (after, f, u) = skip_dash-IsTail rest in
    let tail = IsTail-trans (2, refl) t in
    elim (Option-cases value) [
      | inl missing ↦
          ((false, (rest, zero_path)), rw (offset_ok path 2 h, e, missing) refl, tail, refl)
      | inr (index, found) ↦ (
        (true, (after, record zero_path { disk_id_type = kind; disk_index = index })),
        rw (offset_ok path 2 h, e, found, f) refl,
        IsTail-trans tail u,
        (refl, named),
      )
    ]

pub disk-DiskRead : (path : Bytes) → DiskRead path (path_consume_disk_identifier path zero_path)
unfolding path_consume_disk_identifier
disk-DiskRead path = elim (Bool-cases (sv_starts_with_caseless path diskuuid_str)) [
  | inl h ↦ rw h (disk_uuid-DiskRead path (caseless_length path diskuuid_str h))
  | inr h0 ↦ elim (Bool-cases (sv_starts_with_caseless path hd_str)) [
    | inl h ↦ rw (h0, h) (disk_index-DiskRead disk_hd path refl (caseless_length path hd_str h))
    | inr h1 ↦ elim (Bool-cases (sv_starts_with_caseless path cd_str)) [
      | inl h ↦
          rw (h0, h1, h) (disk_index-DiskRead disk_cd path refl (caseless_length path cd_str h))
      | inr h ↦ ((false, (path, zero_path)), rw (h0, h1, h) refl, IsTail-refl path, refl)
    ]
  ]
]

-- A partition identifier that may follow a disk identifier, here or in front of a partition GUID.
abbrev pub names_partition : DiskIdentifier → PartitionIdentifier → Bool
names_partition disk partition_raw = is_indexed disk
names_partition disk partition_by_index = true
names_partition disk partition_uuid = true
names_partition disk _ = false

abbrev pub IsPartitionRead : DiskIdentifier → Consumed → Type 0
IsPartitionRead disk (false, (_, out)) = Unit {0}
IsPartitionRead disk (true, (_, out)) =
    (out.disk_id_type ≡ disk) × (names_partition disk out.partition_id_type ≡ true)

abbrev pub PartitionRead : Bytes → DiskIdentifier → Run Consumed → Type 0
PartitionRead path disk m =
    (r : Consumed) × (m ≡ ok r) × IsTail path (r.1.0) × IsPartitionRead disk r

partition_uuid-PartitionRead :
    (path : Bytes) (out : FullPath)
    → out.partition_guid ≡ zero_guid
    → length partuuid_str ≤ length path
    → PartitionRead path out.disk_id_type (consume_partition_uuid path out)
unfolding consume_partition_uuid
partition_uuid-PartitionRead path out z h =
    let ((res, (rest, guid)), e, t) =
      guid-IsTail (drop 9 path) out.partition_guid (ap (λ (g : Guid). length g.data4) z) in
    (
      (res, (rest, record out { partition_id_type = partition_uuid; partition_guid = guid })),
      rw (offset_ok path 9 h, e) refl,
      IsTail-trans (9, refl) t,
      read res rest guid,
    )
  where
    read :
        (res : Bool) (rest : Bytes) (guid : Guid)
        → IsPartitionRead out.disk_id_type
            (res, (rest, record out { partition_id_type = partition_uuid; partition_guid = guid }))
    read false rest guid = tt
    read true rest guid = (refl, refl)

partition_index-PartitionRead :
    (path : Bytes) (out : FullPath)
    → length part_str ≤ length path
    → PartitionRead path out.disk_id_type (consume_partition_index path out)
unfolding consume_partition_index
partition_index-PartitionRead path out h =
    let ((value, rest), e0, t) = sequence-IsTail (drop 4 path) in
    let e : path_consume_numeric_sequence (drop 4 path) ≡ ok (value, rest) = e0 in
    let tail = IsTail-trans (4, refl) t in
    elim (Option-cases value) [
      | inl missing ↦ (
        (false, (rest, record out { partition_id_type = partition_by_index })),
        rw (offset_ok path 4 h, e, missing) refl,
        tail,
        tt,
      )
      | inr (index, found) ↦ (
        (
          true,
          (rest, record out { partition_id_type = partition_by_index; partition_index = index }),
        ),
        rw (offset_ok path 4 h, e, found) refl,
        tail,
        (refl, refl),
      )
    ]

pub partition-PartitionRead :
    (path : Bytes) (out : FullPath)
    → out.partition_guid ≡ zero_guid
    → PartitionRead path out.disk_id_type (path_consume_partition_identifier path out)
unfolding path_consume_partition_identifier
partition-PartitionRead path out z = elim (Bool-cases (sv_starts_with_caseless path partuuid_str)) [
  | inl h ↦ rw h (partition_uuid-PartitionRead path out z (caseless_length path partuuid_str h))
  | inr h0 ↦ elim (Bool-cases (sv_starts_with_caseless path part_str)) [
    | inl h ↦ rw (h0, h) (partition_index-PartitionRead path out (caseless_length path part_str h))
    | inr h1 ↦ elim (Bool-cases (sv_starts_with path root_str)) [
      | inl h ↦ elim (Bool-cases (is_indexed out.disk_id_type)) [
        | inl raw ↦ (
          (true, (path, record out { partition_id_type = partition_raw })),
          rw (h0, h1, h, raw) refl,
          IsTail-refl path,
          (refl, raw),
        )
        | inr other ↦ ((false, (path, out)), rw (h0, h1, h, other) refl, IsTail-refl path, tt)
      ]
      | inr h ↦ ((false, (path, out)), rw (h0, h1, h) refl, IsTail-refl path, tt)
    ]
  ]
]
