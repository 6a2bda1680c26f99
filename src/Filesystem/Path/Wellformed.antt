-- ===== src/Filesystem/Path/Wellformed.antt =====
-- What path_parse of loader/filesystem/path.c makes of any text.
use hyper.Base.{
  ◌≤◌, ◌<◌, ◌≡◌, refl, ap, ◌∙◌, Bool, true, false, not, leb, if◌then◌else◌, [], ◌∷◌, length, drop,
  length-drop, ok, ◌>>=◌, Returns, returned, arith, Bool-cases, inl, inr, lt→leb,
}
use hyper.Text.Ctype.{Bytes}
use hyper.Text.View.{same_bytes, sv_starts_with, sv_starts_with_caseless}
use hyper.Filesystem.Path.Tail.{
  IsTail, IsTail-trans, IsTail-refl, IsTail-le, caseless_length, starts_length,
}
use hyper.Filesystem.Path.Identifiers.{
  names_disk, IsDiskRead, names_partition, IsPartitionRead, disk-DiskRead, partition-PartitionRead,
}
use hyper.Text.Convert.Safe.{offset_ok}
use hyper.Filesystem.Guid.{zero_guid}
use hyper.Filesystem.Path.{
  DiskIdentifier, disk_hd, disk_cd, disk_uuid, disk_any, disk_origin, disk_pxe, PartitionIdentifier,
  partition_raw, partition_by_index, partition_uuid, partition_origin, FullPath, zero_path,
  Consumed, Parsed, path_consume_disk_identifier, pxe_str, tftp_str, root_str, consume_pxe_root,
  path_consume_pxe_identifier, is_refused, parse_root, parse_partition, parse_selectors, path_parse,
}

root_slash :
    (path : Bytes)
    → sv_starts_with path root_str ≡ true
    → sv_starts_with (drop 2 path) (b'/' ∷ []) ≡ true
unfolding sv_starts_with same_bytes
root_slash [] h = cc
root_slash (a ∷ []) h = ground arith
root_slash (a ∷ b ∷ []) h = ground arith
root_slash (a ∷ b ∷ c ∷ path) h = ground arith

-- Which disk identifiers go with which partition identifiers.
unfoldable pub is_selector : DiskIdentifier → PartitionIdentifier → Bool
is_selector disk_origin partition_origin = true
is_selector disk_pxe partition_raw = true
is_selector disk_any partition_uuid = true
is_selector disk_uuid partition_uuid = true
is_selector disk_uuid partition_by_index = true
is_selector disk_hd partition_uuid = true
is_selector disk_hd partition_by_index = true
is_selector disk_hd partition_raw = true
is_selector disk_cd partition_uuid = true
is_selector disk_cd partition_by_index = true
is_selector disk_cd partition_raw = true
is_selector _ _ = false

-- What an accepted text says: the identifiers go together, and the path within the partition is an
-- absolute path at the end of the text.
abbrev pub IsParsed : Bytes → Parsed → Type 0
IsParsed path (false, _) = Unit {0}
IsParsed path (true, out) =
    (is_selector out.disk_id_type out.partition_id_type ≡ true)
    × IsTail path out.path_within_partition
    × (sv_starts_with out.path_within_partition (b'/' ∷ []) ≡ true)

short_enough : (path : Bytes) → length path < 255 → leb 255 (length (drop 2 path)) ≡ false
short_enough path h =
    let l = length-drop 2 path in lt→leb 255 (length (drop 2 path)) (omega (arith, h, l))

root-IsParsed :
    (whole path : Bytes) (out : FullPath)
    → length whole < 255
    → IsTail whole path
    → is_selector out.disk_id_type out.partition_id_type ≡ true
    → Returns (IsParsed whole) (parse_root path out)
unfolding parse_root
root-IsParsed whole path out short t ok_ids = elim (Bool-cases (sv_starts_with path root_str)) [
  | inl h ↦
      let le = IsTail-le t in
      let two : 2 ≤ length path = omega (arith, starts_length path root_str h) in
      rw (h, offset_ok path 2 two, short_enough path (omega (arith, short, le)))
        (ok_ids, IsTail-trans t (2, refl), root_slash path h)
  | inr h ↦ rw h tt
]

disk_partition :
    (d : DiskIdentifier) (p : PartitionIdentifier)
    → names_disk d ≡ true
    → names_partition d p ≡ true
    → is_selector d p ≡ true
unfolding is_selector
disk_partition disk_hd partition_raw h k = refl
disk_partition disk_hd partition_by_index h k = refl
disk_partition disk_hd partition_uuid h k = refl
disk_partition disk_cd partition_raw h k = refl
disk_partition disk_cd partition_by_index h k = refl
disk_partition disk_cd partition_uuid h k = refl
disk_partition disk_uuid partition_by_index h k = refl
disk_partition disk_uuid partition_uuid h k = refl
disk_partition d p h k = cc

any_partition :
    (p : PartitionIdentifier) → is_refused true p ≡ false → is_selector disk_any p ≡ true
unfolding is_selector
any_partition partition_uuid h = refl
any_partition p h = cc

-- The disk of `out` and its partition, once it is read and not refused, go together.
abbrev MayFollow : Bool → FullPath → Type 0
MayFollow any_disk out =
    (p : PartitionIdentifier)
    → names_partition out.disk_id_type p ≡ true
    → is_refused any_disk p ≡ false
    → is_selector out.disk_id_type p ≡ true

partition-IsParsed :
    (whole path : Bytes) (any_disk : Bool) (out : FullPath)
    → length whole < 255
    → IsTail whole path
    → out.partition_guid ≡ zero_guid
    → MayFollow any_disk out
    → Returns (IsParsed whole) (parse_partition any_disk path out)
unfolding parse_partition
partition-IsParsed whole path any_disk out short t z follow =
    let ((res, (rest, read)), e, u, known) = partition-PartitionRead path out z in
    rw e (finish res rest read u known)
  where
    finish :
        (res : Bool) (rest : Bytes) (read : FullPath)
        → IsTail path rest
        → IsPartitionRead out.disk_id_type (res, (rest, read))
        → Returns (IsParsed whole) (
            if not res
            then ok (false, read)
            else if is_refused any_disk read.partition_id_type
            then ok (false, read)
            else parse_root rest read)
    finish false rest read u known = tt
    finish true rest read u (same, named) =
        elim (Bool-cases (is_refused any_disk read.partition_id_type)) [
          | inl h ↦ rw h tt
          | inr h ↦
              let ids : is_selector read.disk_id_type read.partition_id_type ≡ true =
                ap (λ d. is_selector d read.partition_id_type) same
                ∙ follow read.partition_id_type named h in
              rw h (root-IsParsed whole rest read short (IsTail-trans t u) ids)
        ]

-- The result of path_consume_pxe_identifier leaves the path where it is.
abbrev IsServerPath : Bytes → Consumed → Type 0
IsServerPath path (false, (rest, out)) = (rest ≡ path) × (out ≡ zero_path)
IsServerPath path (true, (rest, out)) = IsParsed path (true, out)

pxe_root-IsServerPath :
    (path p : Bytes)
    → length path < 255
    → IsTail path p
    → Returns (IsServerPath path) (consume_pxe_root path p zero_path)
unfolding consume_pxe_root is_selector
pxe_root-IsServerPath path p short t = elim (Bool-cases (sv_starts_with p root_str)) [
  | inl h ↦
      let le = IsTail-le t in
      let two : 2 ≤ length p = omega (arith, starts_length p root_str h) in
      rw (h, offset_ok p 2 two, short_enough p (omega (arith, short, le)))
        (refl, IsTail-trans t (2, refl), root_slash p h)
  | inr h ↦ rw h (refl, refl)
]

pxe-IsServerPath :
    (path : Bytes)
    → length path < 255
    → Returns (IsServerPath path) (path_consume_pxe_identifier path zero_path)
unfolding path_consume_pxe_identifier
pxe-IsServerPath path short = elim (Bool-cases (sv_starts_with_caseless path pxe_str)) [
  | inl h ↦
      rw (h, offset_ok path 3 (caseless_length path pxe_str h))
        (pxe_root-IsServerPath path (drop 3 path) short (3, refl))
  | inr h0 ↦ elim (Bool-cases (sv_starts_with_caseless path tftp_str)) [
    | inl h ↦
        rw (h0, h, offset_ok path 4 (caseless_length path tftp_str h))
          (pxe_root-IsServerPath path (drop 4 path) short (4, refl))
    | inr h ↦ rw (h0, h) (refl, refl)
  ]
]

selectors-IsParsed :
    (path : Bytes) → length path < 255 → Returns (IsParsed path) (parse_selectors path)
unfolding parse_selectors
selectors-IsParsed path short =
    let ((res, (rest, out)), e, pxe) =
      returned (IsServerPath path) (path_consume_pxe_identifier path zero_path)
        (pxe-IsServerPath path short) in
    rw e (after_pxe res rest out pxe)
  where
    after_disk :
        (res : Bool) (rest : Bytes) (out : FullPath)
        → IsTail path rest
        → IsDiskRead (res, (rest, out))
        → Returns (IsParsed path) (
            if res
            then parse_partition false rest out
            else parse_partition true path (record out { disk_id_type = disk_any }))
    after_disk false rest out t z =
        partition-IsParsed path path true (record out { disk_id_type = disk_any }) short
          (IsTail-refl path) z (λ p _ h. any_partition p h)
    after_disk true rest out t (z, named) =
        partition-IsParsed path rest false out short t z
          (λ p h _. disk_partition out.disk_id_type p named h)

    after_pxe :
        (res : Bool) (rest : Bytes) (out : FullPath)
        → IsServerPath path (res, (rest, out))
        → Returns (IsParsed path) (
            if res then ok (true, out) else do
              (has_disk, (disk_path, disk_out)) ← path_consume_disk_identifier rest out
              (if has_disk
                  then parse_partition false disk_path disk_out
                  else parse_partition true rest (record disk_out { disk_id_type = disk_any })))
    after_pxe true rest out known = known
    after_pxe false rest out (same, clean) =
        let ((has_disk, (disk_path, disk_out)), e, t, known) = disk-DiskRead path in
        rw (same, clean, e) (after_disk has_disk disk_path disk_out t known)

-- On a text of fewer than 255 bytes path_parse returns. If it accepts the text, then the kinds of
-- disk and partition identifier are a pair that `is_selector` allows, and the path within the
-- partition is what the text ends with and starts with a slash.
pub path_parse-IsParsed :
    (path : Bytes) → length path < 255 → Returns (IsParsed path) (path_parse path)
unfolding path_parse is_selector
path_parse-IsParsed path short = elim (Bool-cases (sv_starts_with path (b'/' ∷ []))) [
  | inl h ↦ rw h (refl, IsTail-refl path, h)
  | inr h0 ↦ elim (Bool-cases (sv_starts_with path root_str)) [
    | inl h ↦
        let two : 2 ≤ length path = omega (arith, starts_length path root_str h) in
        rw (h0, h, offset_ok path 2 two) (refl, (2, refl), root_slash path h)
    | inr h ↦ rw (h0, h) (selectors-IsParsed path short)
  ]
]
