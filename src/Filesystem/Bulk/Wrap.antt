-- ===== src/Filesystem/Bulk/Wrap.antt =====
-- A bulk read of a range whose size in bytes is a multiple of 2 ^ 32.
use hyper.Base.{
  ℕ, zero, suc, ◌-◌, ◌*◌, ◌/◌, ◌%◌, ◌^◌, ◌<◌, ◌≡◌, refl, min, Option, some, stuck, add64, sub64,
  u32_mod, u64_mod, arith, ne→==,
}
use hyper.Text.Ctype.{Bytes}
use hyper.Filesystem.Bulk.{BlockRange, Volume, br_wanted_block_count, read_range, do_bulk_read}

-- Where the callback answers with a range that is not empty and whose bytes are a multiple of 2 ^
-- 32, where the read starts at the begin of a block, and where reading no bytes succeeds, the loop
-- never ends: no fuel is enough.
pub wrapped_range_hangs :
    (get_range : ℕ → ℕ → Option BlockRange) (ds_read ds_read_blocks : ℕ → ℕ → Option Bytes)
    (v : Volume) (fuel off bytes : ℕ) (r : BlockRange) (chunk : Bytes)
    → off < u64_mod
    → off % 2 ^ v.fs_shift ≡ 0
    → 0 < r.blocks
    → r.blocks * 2 ^ v.fs_shift % u32_mod ≡ 0
    → get_range (off / 2 ^ v.fs_shift) (br_wanted_block_count v off (suc bytes)) ≡ some r
    → read_range get_range ds_read ds_read_blocks v r.where_at (off % 2 ^ v.fs_shift) 0 ≡ some chunk
    → do_bulk_read get_range ds_read ds_read_blocks v fuel off (suc bytes) ≡ stuck
unfolding do_bulk_read
wrapped_range_hangs get_range ds_read ds_read_blocks v zero off bytes r chunk fits start some_blocks
      wraps found got =
    refl
wrapped_range_hangs get_range ds_read ds_read_blocks v (suc fuel) off bytes r chunk fits start
      some_blocks wraps found got =
    let positive = ne→== r.blocks 0 (λ e. omega arith) in
    let size : min (sub64 (r.blocks * 2 ^ v.fs_shift % u64_mod) (off % 2 ^ v.fs_shift) % u32_mod)
          (suc bytes)
        ≡ 0 =
      omega arith in
    let stays : add64 off 0 ≡ off = omega arith in
    let left : suc bytes - 0 ≡ suc bytes = omega arith in
    let again =
      wrapped_range_hangs get_range ds_read ds_read_blocks v fuel off bytes r chunk fits start
        some_blocks wraps found got in
    rw (found, do_bulk_read, positive, size, got, size, stays, left, again) refl
