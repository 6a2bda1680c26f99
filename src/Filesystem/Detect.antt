-- ===== src/Filesystem/Detect.antt =====
-- loader/filesystem/filesystem.c: the filesystems that are found on a disk. The partitions are those of mbr.c
-- (Detect/Mbr) and gpt.c (Detect/Gpt).
--
-- A filesystem's `detect` is a parameter, as is the answer of the allocator for the table at hand.
pub mod Mbr
pub mod Gpt
pub mod All
pub mod Grown
pub mod Keeps
pub mod Chain
mod Tests
use hyper.Base.{
  ℕ, ◌+◌, ◌*◌, ◌^◌, Bool, true, false, ◌==◌, Option, none, some, List, [], ◌∷◌, slice, Run, ok,
  ◌>>=◌,
}
use hyper.Text.Ctype.{Bytes}
use hyper.Cache.{Refill, BlockCache}
use hyper.Filesystem.Table.{Filesystem, Disk, Table, fst_add_raw_fs_entry}

pub record Range : Type 0 where
  pub begin : ℕ
  pub end : ℕ

-- The rest of struct disk; its block_shift is at most 15.
pub record Medium : Type 0 where
  pub disk : Disk
  pub sectors : ℕ
  pub block_shift : ℕ

pub record FilesystemType : Type 0 where
  pub is_cd_fs : Bool
  pub detect : Medium → Range → BlockCache → Run (BlockCache × Option Filesystem)

-- The cache of the disk, and the table of the filesystems.
pub record Detection : Type 0 where
  pub bc : BlockCache
  pub table : Table

-- A number in its bytes, the lowest first: `n` bytes at an offset of a structure.
unfoldable pub little_endian : Bytes → ℕ
little_endian [] = 0
little_endian (c ∷ s) = c + 256 * little_endian s

unfoldable pub field : Bytes → ℕ → ℕ → ℕ
unfolding little_endian
field bytes off n = little_endian (slice off n bytes)

-- The signature that was read, in `n` bytes.
abbrev pub signature_is : ℕ → ℕ → Option Bytes → Bool
signature_is n signature none = false
signature_is n signature (some bytes) = field bytes 0 n == signature

-- The surroundings of the detection: the reads of the disk, the list of the filesystems, and the
-- entries that a growth of the table adds, if it succeeds.
pub record Services : Type 0 where
  pub refill : Refill
  pub filesystems : List FilesystemType
  pub per_increment : ℕ
  pub allocates : Table → Bool

-- is_cd_fs == (dt == FS_DETECT_CD)
abbrev pub same_media : Bool → Bool → Bool
same_media true cd = cd
same_media false true = false
same_media false false = true

-- What `detect` answers ends the loop, or is followed by the rest of it.
abbrev or_next :
    BlockCache × Option Filesystem
    → (BlockCache → Run (BlockCache × Option Filesystem))
    → Run (BlockCache × Option Filesystem)
or_next (bc, none) next = next bc
or_next (bc, some fs) next = ok (bc, some fs)

abbrev if_media :
    Bool
    → Run (BlockCache × Option Filesystem)
    → Run (BlockCache × Option Filesystem)
    → Run (BlockCache × Option Filesystem)
if_media true m k = m
if_media false m k = k

unfoldable pub fs_do_detect :
    List FilesystemType → Medium → Range → BlockCache → Bool → Run (BlockCache × Option Filesystem)
fs_do_detect [] d lba_range bc cd = ok (bc, none)
fs_do_detect (fst ∷ fsts) d lba_range bc cd =
    let skipped = fs_do_detect fsts d lba_range bc cd in
    if_media (same_media fst.is_cd_fs cd)
      (do
        found ← fst.detect d lba_range bc
        or_next found (λ bc'. fs_do_detect fsts d lba_range bc' cd))
      skipped

unfoldable pub fs_try_detect :
    Services → Medium → Range → BlockCache → Run (BlockCache × Option Filesystem)
unfolding fs_do_detect
fs_try_detect sv d lba_range bc = fs_do_detect sv.filesystems d lba_range bc false

-- The entry that a detected filesystem adds.
abbrev pub add_found : (Filesystem → Table) → Table → BlockCache × Option Filesystem → Detection
add_found add t (bc, none) = record { bc = bc; table = t }
add_found add t (bc, some fs) = record { bc = bc; table = add fs }

abbrev pub is_found : Option Filesystem → Bool
is_found none = false
is_found (some fs) = true

unfoldable pub detect_entire : Services → Medium → Detection → Bool → Run (Detection × Bool)
unfolding fs_do_detect
detect_entire sv d st cd = do
  found ← fs_do_detect sv.filesystems d (record { begin = 0; end = d.sectors }) st.bc cd
  ok (
    add_found (fst_add_raw_fs_entry sv.per_increment (sv.allocates st.table) st.table d.disk)
        st.table found,
    is_found found.1,
  )
