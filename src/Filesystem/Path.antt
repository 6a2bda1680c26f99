-- ===== src/Filesystem/Path.antt =====
-- loader/filesystem/path.c and loader/include/filesystem/path.h: selectors such as HD0-PART1::/boot/kernel.
pub mod Tail
pub mod Identifiers
pub mod Wellformed
use hyper.Base.{
  ℕ, zero, suc, ◌+◌, Bool, true, false, not, ◌&&◌, ◌||◌, ltb, leb, ◌==◌, if◌then◌else◌, Option,
  none, some, List, [], ◌∷◌, length, take, drop, Run, ok, panic, stuck, bug_on, ◌>>=◌, ◌>>◌,
}
use hyper.Text.Ctype.{Bytes, tolower}
use hyper.Text.View.{
  sv_empty, sv_equals, sv_find, sv_offset_by, sv_starts_with, sv_starts_with_caseless,
}
use hyper.Text.Convert.{str_to_u32_with_base}
use hyper.Filesystem.Guid.{Guid, zero_guid, consume_guid}

-- MAX_PATH_SIZE
abbrev pub max_path_size : ℕ
max_path_size = 255

pub data DiskIdentifier : Type 0 where
  disk_invalid : DiskIdentifier
  disk_hd : DiskIdentifier
  disk_cd : DiskIdentifier
  disk_uuid : DiskIdentifier
  disk_any : DiskIdentifier
  disk_origin : DiskIdentifier
  disk_pxe : DiskIdentifier

pub data PartitionIdentifier : Type 0 where
  partition_invalid : PartitionIdentifier
  partition_raw : PartitionIdentifier
  partition_by_index : PartitionIdentifier
  partition_uuid : PartitionIdentifier
  partition_origin : PartitionIdentifier

pub record FullPath : Type 0 where
  pub disk_id_type : DiskIdentifier
  pub disk_guid : Guid
  pub disk_index : ℕ
  pub partition_id_type : PartitionIdentifier
  pub partition_guid : Guid
  pub partition_index : ℕ
  pub path_within_partition : Bytes

-- (struct full_path) { 0 }
abbrev pub zero_path : FullPath
zero_path = record {
  disk_id_type = disk_invalid;
  disk_guid = zero_guid;
  disk_index = 0;
  partition_id_type = partition_invalid;
  partition_guid = zero_guid;
  partition_index = 0;
  path_within_partition = [];
}

-- The result of a function that reads from `*path` and writes to `*out_path`, and both afterwards.
abbrev pub Consumed : Type 0
Consumed = Bool × (Bytes × FullPath)

-- The first loop of next_path_node.
unfoldable pub skip_slashes : Bytes → Bytes
skip_slashes [] = []
skip_slashes (c ∷ node) = if c == b'/' then skip_slashes node else c ∷ node

-- The node and the path behind it.
unfoldable pub next_path_node : Bytes → Run (Option (Bytes × Bytes))
unfolding skip_slashes
next_path_node path =
    let node = skip_slashes path in
    if sv_empty node then ok none else do
      path_end ← sv_find node (b'/' ∷ []) 0
      elim path_end [ none ↦ ok (some (node, [])) | some k ↦ ok (some (take k node, drop k node)) ]

abbrev pub is_numeric : ℕ → Bool
is_numeric c =
    (leb b'0' (tolower c) && leb (tolower c) b'9') || (leb b'a' (tolower c) && leb (tolower c) b'z')

-- The loop of path_consume_numeric_sequence: the prefix and the view behind it.
unfoldable pub numeric_prefix : Bytes → Bytes × Bytes
numeric_prefix [] = ([], [])
numeric_prefix (c ∷ str) =
    let (prefix, rest) = numeric_prefix str in
    if is_numeric c then (c ∷ prefix, rest) else ([], c ∷ str)

unfoldable pub path_consume_numeric_sequence : Bytes → Run (Option ℕ × Bytes)
unfolding numeric_prefix
path_consume_numeric_sequence str =
    let (prefix, rest) = numeric_prefix str in
    if sv_empty prefix
    then ok (none, rest)
    else do out ← str_to_u32_with_base prefix 16; ok (out, rest)

unfoldable pub path_skip_dash : Bytes → Run Bytes
path_skip_dash path = if sv_starts_with path (b'-' ∷ []) then sv_offset_by path 1 else ok path

abbrev pub diskuuid_str : Bytes
diskuuid_str = b'D' ∷ b'I' ∷ b'S' ∷ b'K' ∷ b'U' ∷ b'U' ∷ b'I' ∷ b'D' ∷ b'-' ∷ []

abbrev pub hd_str : Bytes
hd_str = b'H' ∷ b'D' ∷ []

abbrev pub cd_str : Bytes
cd_str = b'C' ∷ b'D' ∷ []

abbrev pub partuuid_str : Bytes
partuuid_str = b'P' ∷ b'A' ∷ b'R' ∷ b'T' ∷ b'U' ∷ b'U' ∷ b'I' ∷ b'D' ∷ b'-' ∷ []

abbrev pub part_str : Bytes
part_str = b'P' ∷ b'A' ∷ b'R' ∷ b'T' ∷ []

abbrev pub pxe_str : Bytes
pxe_str = b'P' ∷ b'X' ∷ b'E' ∷ []

abbrev pub tftp_str : Bytes
tftp_str = b'T' ∷ b'F' ∷ b'T' ∷ b'P' ∷ []

abbrev pub root_str : Bytes
root_str = b':' ∷ b':' ∷ b'/' ∷ []

-- A disk by its GUID, behind DISKUUID-.
unfoldable pub consume_disk_uuid : Bytes → FullPath → Run Consumed
consume_disk_uuid path out_path = do
  text ← sv_offset_by path (length diskuuid_str)
  (res, (rest, guid)) ← consume_guid text out_path.disk_guid
  if not res then ok (false, (rest, record out_path { disk_guid = guid })) else do
    after ← path_skip_dash rest
    ok (true, (after, record out_path { disk_id_type = disk_uuid; disk_guid = guid }))

-- A disk by its index, behind HD or CD.
unfoldable pub consume_disk_index : DiskIdentifier → Bytes → FullPath → Run Consumed
consume_disk_index kind path out_path = do
  text ← sv_offset_by path (length hd_str)
  (value, rest) ← path_consume_numeric_sequence text
  elim value [
    | none ↦ ok (false, (rest, out_path))
    | some index ↦ do
      after ← path_skip_dash rest
      ok (true, (after, record out_path { disk_id_type = kind; disk_index = index }))
  ]

unfoldable pub path_consume_disk_identifier : Bytes → FullPath → Run Consumed
unfolding consume_disk_uuid consume_disk_index
path_consume_disk_identifier path out_path =
    if sv_starts_with_caseless path diskuuid_str
    then consume_disk_uuid path out_path
    else if sv_starts_with_caseless path hd_str
    then consume_disk_index disk_hd path out_path
    else if sv_starts_with_caseless path cd_str
    then consume_disk_index disk_cd path out_path
    else ok (false, (path, out_path))

-- A partition by its GUID, behind PARTUUID-.
unfoldable pub consume_partition_uuid : Bytes → FullPath → Run Consumed
consume_partition_uuid path out_path = do
  text ← sv_offset_by path (length partuuid_str)
  (res, (rest, guid)) ← consume_guid text out_path.partition_guid
  ok (res, (rest, record out_path { partition_id_type = partition_uuid; partition_guid = guid }))

-- A partition by its index, behind PART.
unfoldable pub consume_partition_index : Bytes → FullPath → Run Consumed
consume_partition_index path out_path = do
  text ← sv_offset_by path (length part_str)
  (value, rest) ← path_consume_numeric_sequence text
  let named = record out_path { partition_id_type = partition_by_index }
  elim value [
    | none ↦ ok (false, (rest, named))
    | some index ↦ ok (true, (rest, record named { partition_index = index }))
  ]

abbrev pub is_indexed : DiskIdentifier → Bool
is_indexed disk_hd = true
is_indexed disk_cd = true
is_indexed _ = false

unfoldable pub path_consume_partition_identifier : Bytes → FullPath → Run Consumed
unfolding consume_partition_uuid consume_partition_index
path_consume_partition_identifier path out_path =
    if sv_starts_with_caseless path partuuid_str
    then consume_partition_uuid path out_path
    else if sv_starts_with_caseless path part_str
    then consume_partition_index path out_path
    else if sv_starts_with path root_str
    then (if is_indexed out_path.disk_id_type
        then ok (true, (path, record out_path { partition_id_type = partition_raw }))
        else ok (false, (path, out_path)))
    else ok (false, (path, out_path))

-- What follows the prefix of a PXE path: `p` is the view behind it, `*path` stays as it is.
unfoldable pub consume_pxe_root : Bytes → Bytes → FullPath → Run Consumed
consume_pxe_root path p out_path =
    if not (sv_starts_with p root_str) then ok (false, (path, out_path)) else do
      inner ← sv_offset_by p 2
      bug_on (leb max_path_size (length inner))
      ok (
        true,
        (
          path,
          record out_path {
            disk_id_type = disk_pxe;
            partition_id_type = partition_raw;
            path_within_partition = inner;
          },
        ),
      )

unfoldable pub path_consume_pxe_identifier : Bytes → FullPath → Run Consumed
unfolding consume_pxe_root
path_consume_pxe_identifier path out_path =
    if sv_starts_with_caseless path pxe_str
    then (do p ← sv_offset_by path (length pxe_str); consume_pxe_root path p out_path)
    else if sv_starts_with_caseless path tftp_str
    then (do p ← sv_offset_by path (length tftp_str); consume_pxe_root path p out_path)
    else ok (false, (path, out_path))

-- The result of path_parse and `*out_path` afterwards.
abbrev pub Parsed : Type 0
Parsed = Bool × FullPath

-- The end of path_parse, behind the selectors.
unfoldable pub parse_root : Bytes → FullPath → Run Parsed
parse_root path out_path = if not (sv_starts_with path root_str) then ok (false, out_path) else do
  inner ← sv_offset_by path 2
  bug_on (leb max_path_size (length inner))
  ok (true, record out_path { path_within_partition = inner })

-- partition_id_type != PARTITION_IDENTIFIER_UUID, where no disk was named
abbrev pub is_refused : Bool → PartitionIdentifier → Bool
is_refused false _ = false
is_refused true partition_uuid = false
is_refused true _ = true

-- The rest once the disk is read; `any_disk` says that none was named.
unfoldable pub parse_partition : Bool → Bytes → FullPath → Run Parsed
unfolding parse_root
parse_partition any_disk path out_path = do
  (res, (rest, out)) ← path_consume_partition_identifier path out_path
  (if not res
      then ok (false, out)
      else if is_refused any_disk out.partition_id_type
      then ok (false, out)
      else parse_root rest out)

-- A path on the disk of the configuration.
abbrev pub origin_path : Bytes → FullPath
origin_path path = record zero_path {
  disk_id_type = disk_origin;
  partition_id_type = partition_origin;
  path_within_partition = path;
}

-- path_parse where the path is not relative to the disk of the configuration.
unfoldable pub parse_selectors : Bytes → Run Parsed
unfolding parse_partition
parse_selectors path = do
  (is_pxe, (pxe_path, pxe_out)) ← path_consume_pxe_identifier path zero_path
  if is_pxe then ok (true, pxe_out) else do
    (has_disk, (disk_path, out)) ← path_consume_disk_identifier pxe_path pxe_out
    (if has_disk
        then parse_partition false disk_path out
        else parse_partition true pxe_path (record out { disk_id_type = disk_any }))

unfoldable pub path_parse : Bytes → Run Parsed
unfolding parse_selectors
path_parse path =
    if sv_starts_with path (b'/' ∷ [])
    then ok (true, origin_path path)
    else if sv_starts_with path root_str
    then (do rest ← sv_offset_by path 2; ok (true, origin_path rest))
    else parse_selectors path
