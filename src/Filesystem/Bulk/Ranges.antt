-- ===== src/Filesystem/Bulk/Ranges.antt =====
-- The disk and the layout of a file behind a bulk read, the check in front of it, and how it is
-- split into parts.
use native.Mathlib.Nat.{one-le-pow, mod-le, div-add-mod'}
use hyper.Base.{
  ℕ, ◌+◌, ◌-◌, ◌*◌, ◌/◌, ◌%◌, ◌^◌, ◌≤◌, ◌<◌, ◌≡◌, ◌⊎◌, inl, inr, refl, true, ◌&&◌, ◌==◌,
  if◌then◌else◌, min, max, Option, none, some, List, [], ◌∷◌, length, slice, ok, panic, u32_mod,
  u64_mod, arith,
}
use hyper.Text.Ctype.{Bytes}
use hyper.Filesystem.Bulk.{
  hole, part_byte_off, BlockRange, Volume, zeros, fs_check_read, split_parts, bulk_read_file,
}

-- The two reads of a disk fail or yield its bytes.
pub record IsDisk (ds_read ds_read_blocks : ℕ → ℕ → Option Bytes) (disk : Bytes) (shift : ℕ)
    : Type 0 where
  pub by_bytes : (off n : ℕ) → (ds_read off n ≡ none) ⊎ (ds_read off n ≡ some (slice off n disk))
  pub by_blocks :
      (block count : ℕ)
      → (ds_read_blocks block count ≡ none)
        ⊎ (ds_read_blocks block count ≡ some (slice (block * 2 ^ shift) (count * 2 ^ shift) disk))

-- The range, `first` being the file's block that it starts with, is not empty, is shorter than
-- 2 ^ 32 bytes, and shows the file: a hole its zeros, another range the disk's bytes.
pub record IsRange (v : Volume) (disk contents : Bytes) (first : ℕ) (r : BlockRange) : Type 0 where
  pub some_blocks : 0 < r.blocks
  pub narrow : r.blocks * 2 ^ v.fs_shift < u32_mod
  pub hole_is_zero :
      r.where_at ≡ hole
      → (from n : ℕ) → from + n ≤ r.blocks * 2 ^ v.fs_shift
      → zeros n ≡ slice (first * 2 ^ v.fs_shift + from) n contents
  pub inside :
      (off : ℕ)
      → r.where_at ≡ part_byte_off off
      → v.lba_begin * 2 ^ v.disk_shift + off + r.blocks * 2 ^ v.fs_shift ≤ length disk
  pub shows :
      (off : ℕ)
      → r.where_at ≡ part_byte_off off
      → (from n : ℕ) → from + n ≤ r.blocks * 2 ^ v.fs_shift
      → slice (v.lba_begin * 2 ^ v.disk_shift + (off + from)) n disk
        ≡ slice (first * 2 ^ v.fs_shift + from) n contents

-- The callback fails or describes the file.
pub record IsLayout (get_range : ℕ → ℕ → Option BlockRange) (v : Volume) (disk contents : Bytes)
    : Type 0 where
  pub answer :
      (block want : ℕ)
      → (get_range block want ≡ none)
        ⊎ (r : BlockRange) × (get_range block want ≡ some r) × IsRange v disk contents block r

-- A function that stands for a service failed.
abbrev pub Fails {ℓ} : {A : Type ℓ} → (ℕ → ℕ → Option A) → Type ℓ
Fails f = (a : ℕ) × (b : ℕ) × (f a b ≡ none)

pub pow_pos : (k : ℕ) → 0 < 2 ^ k
pow_pos k = one-le-pow k 2 (omega arith)

pub both_zero : (a b : ℕ) → ((a == 0) && (b == 0)) ≡ true → (a ≡ 0) × (b ≡ 0)
both_zero a b h = (ground arith, ground arith)

pub one_block : (blocks k : ℕ) → 0 < blocks → k ≤ blocks * k
one_block blocks k h = grind arith

-- The block of an aligned place starts there.
pub aligned : (begin at k : ℕ) → at % k ≡ 0 → (begin + at / k) * k ≡ begin * k + at
aligned begin at k h = grind (arith, div-add-mod' at k)

pub aligned_count : (n k : ℕ) → n % k ≡ 0 → n / k * k ≡ n
aligned_count n k h = omega (arith, div-add-mod' n k)

pub scaled_le : (x k : ℕ) → 0 < k → x ≤ x * k
scaled_le x k h = grind arith

-- The bytes of all parts.
unfoldable pub total : List ℕ → ℕ
total [] = 0
total (part ∷ parts) = part + total parts

pub split-total : (v : Volume) (offset bytes : ℕ) → total (split_parts v offset bytes) ≡ bytes
unfolding split_parts total
split-total v offset bytes =
    let block : ℕ = 2 ^ max v.fs_shift v.disk_shift in
    let inner : ℕ = offset % 2 ^ max v.fs_shift v.disk_shift in
    adds_up (if inner == 0 then 0 else min (block - inner) bytes) block (head_le inner block)
  where
    head_le : (inner block : ℕ) → (if inner == 0 then 0 else min (block - inner) bytes) ≤ bytes
    head_le inner block = ground arith

    adds_up :
        (head block : ℕ)
        → head ≤ bytes
        → head + (bytes - head - (bytes - head) % block + ((bytes - head) % block + 0)) ≡ bytes
    adds_up head block le = omega (arith, mod-le (bytes - head) block)

pub check_passes :
    (size offset bytes : ℕ)
    → 0 < bytes
    → offset + bytes ≤ size
    → size < u64_mod
    → fs_check_read size offset bytes ≡ ok tt
unfolding fs_check_read
check_passes size offset bytes pos inside small = ground arith

pub check_stops :
    (size offset bytes : ℕ)
    → size < u64_mod
    → offset < u64_mod
    → bytes < u32_mod
    → (bytes ≡ 0) ⊎ (size < offset + bytes)
    → fs_check_read size offset bytes ≡ panic
unfolding fs_check_read
check_stops size offset bytes s o b (inl e) = ground arith
check_stops size offset bytes s o b (inr outside) = ground arith

-- For an offset and a file size below 2 ^ 64 and a count below 2 ^ 32, a read of no bytes, or one
-- that leaves the file, stops the loader.
pub bulk_read_file_stops :
    (get_range : ℕ → ℕ → Option BlockRange) (ds_read ds_read_blocks : ℕ → ℕ → Option Bytes)
    (v : Volume) (size offset bytes : ℕ)
    → size < u64_mod
    → offset < u64_mod
    → bytes < u32_mod
    → (bytes ≡ 0) ⊎ (size < offset + bytes)
    → bulk_read_file get_range ds_read ds_read_blocks v size offset bytes ≡ panic
unfolding bulk_read_file
bulk_read_file_stops get_range ds_read ds_read_blocks v size offset bytes s o b outside =
    rw (check_stops size offset bytes s o b outside) refl
