-- ===== src/Cache.antt =====
-- loader/filesystem/block_cache.c: a window of consecutive blocks of a device, and reads through it.
--
-- The buffer is a list of bytes; a pointer into it is an offset. Bytes copied out are appended to
-- the request. A copy past the end of the buffer has no run in the model (`stuck`).
mod Tests
pub mod Device
pub mod Read
pub mod Refs
pub mod TakeRef
use hyper.Base.{
  ℕ, zero, suc, ◌+◌, ◌-◌, ◌*◌, ◌/◌, ◌%◌, ◌^◌, Bool, true, false, not, ltb, leb, ◌==◌, if◌then◌else◌,
  ◌&&◌, ◌||◌, min, Option, none, some, List, [], ◌∷◌, ◌++◌, length, take, drop, Run, ok, panic,
  stuck, bug_on, ◌>>=◌, ◌>>◌, add64, u64_mod, u32_mod, u16_mod,
}
use hyper.Text.Ctype.{Bytes}

-- refill_blocks_cb with its user_ptr: the bytes that a read of `count` blocks from `block` on
-- yields, or none if it fails.
abbrev pub Refill : Type 0
Refill = ℕ → ℕ → Option Bytes

-- `empty` and `direct_io` are the flags BC_EMPTY and BC_DIRECT_IO; no buffer is a NULL cache_buf.
pub record BlockCache : Type 0 where
  pub cache_buf : Option Bytes
  pub cache_block_cap : ℕ
  pub cache_base : ℕ
  pub nocopy_refs : ℕ
  pub block_size : ℕ
  pub block_shift : ℕ
  pub empty : Bool
  pub direct_io : Bool

-- x << shift on a u64
abbrev pub shl64 : ℕ → ℕ → ℕ
shl64 x shift = x * 2 ^ shift % u64_mod

unfoldable pub block_cache_init : ℕ → Option Bytes → ℕ → BlockCache
block_cache_init block_shift cache_buf buf_block_cap = record {
  cache_buf = cache_buf;
  cache_block_cap = buf_block_cap;
  cache_base = 0;
  nocopy_refs = 0;
  block_size = 2 ^ block_shift % u16_mod;
  block_shift = block_shift;
  empty = true;
  direct_io = false;
}

abbrev zeroed : BlockCache
zeroed = record {
  cache_buf = none;
  cache_block_cap = 0;
  cache_base = 0;
  nocopy_refs = 0;
  block_size = 0;
  block_shift = 0;
  empty = false;
  direct_io = false;
}

-- The cache afterwards, and the number of bytes given to free_bytes, if it is called.
unfoldable pub block_cache_release : BlockCache → Run (BlockCache × Option ℕ)
block_cache_release bc = do
  bug_on (not (bc.nocopy_refs == 0))
  elim bc.cache_buf [
    | none ↦ ok (bc, none)
    | some _ ↦ ok (zeroed, some (shl64 bc.cache_block_cap bc.block_shift))
  ]

abbrev pub buffer : BlockCache → Bytes
buffer bc = elim bc.cache_buf [ none ↦ [] | some bytes ↦ bytes ]

-- struct cached_span: `start` is the offset of `data` in the buffer.
pub record CachedSpan : Type 0 where
  pub blocks : ℕ
  pub start : ℕ

unfoldable pub cached_span_from_block : BlockCache → ℕ → Option CachedSpan
cached_span_from_block bc base_block =
    if bc.empty
    then none
    else if ltb base_block bc.cache_base
    then none
    else if leb bc.cache_block_cap (base_block - bc.cache_base)
    then none
    else some (record {
      blocks = bc.cache_block_cap - (base_block - bc.cache_base);
      start = shl64 (base_block - bc.cache_base) bc.block_shift;
    })

unfoldable pub cached_range_get_ptr : BlockCache → ℕ → ℕ → Option ℕ
unfolding cached_span_from_block
cached_range_get_ptr bc base_block count = elim (cached_span_from_block bc base_block) [
  | none ↦ none
  | some cs ↦ if ltb cs.blocks count then none else some cs.start
]

-- The device's bytes over the front of the buffer.
abbrev pub overwrite : Bytes → Bytes → Bytes
overwrite bytes buf = bytes ++ drop (length bytes) buf

module _ (refill : Refill) where
  unfoldable pub block_cache_refill : BlockCache → ℕ → Run (BlockCache × Bool)
  block_cache_refill bc base_block =
      if (bc.cache_base == base_block) && not bc.empty then ok (bc, true) else do
        bug_on (not (bc.nocopy_refs == 0))
        elim (refill base_block bc.cache_block_cap) [
          | none ↦ ok (record bc { empty = true }, false)
          | some bytes ↦ ok (
            record bc {
              cache_buf = some (overwrite bytes (buffer bc));
              cache_base = base_block;
              empty = false;
            },
            true,
          )
        ]

-- struct block_coords and struct block_req; `copied` is what went to `buf` so far.
pub record BlockReq : Type 0 where
  pub base_block : ℕ
  pub byte_off : ℕ
  pub block_count : ℕ
  pub copied : Bytes
  pub bytes_to_copy : ℕ

-- ALIGN_UP to the block size, a power of two: the sum less its remainder.
unfoldable pub byte_offsets_to_block_coords : BlockCache → ℕ → ℕ → Run BlockReq
byte_offsets_to_block_coords bc byte_off byte_cnt = do
  bug_on (byte_cnt == 0)
  let inner = byte_off % bc.block_size
  let padded = add64 (inner + byte_cnt) (bc.block_size - 1)
  ok (record {
    base_block = byte_off / 2 ^ bc.block_shift;
    byte_off = inner;
    block_count = (padded - padded % bc.block_size) / 2 ^ bc.block_shift;
    copied = [];
    bytes_to_copy = byte_cnt;
  })

-- memcpy of `n` bytes from offset `from` of a buffer
unfoldable pub copy_out : Bytes → ℕ → ℕ → Run Bytes
copy_out buf from n = if ltb (length buf) (from + n) then stuck else ok (take n (drop from buf))

pub data CompletionResult : Type 0 where
  cr_none cr_partial cr_full : CompletionResult

unfoldable pub block_cache_try_complete_req :
    BlockCache → BlockReq → Run (CompletionResult × BlockReq)
unfolding cached_span_from_block copy_out
block_cache_try_complete_req bc br = elim (cached_span_from_block bc br.base_block) [
  | none ↦ ok (cr_none, br)
  | some cs ↦ do
    let blocks = min br.block_count cs.blocks
    let n = min (shl64 blocks bc.block_shift) br.bytes_to_copy
    bytes ← copy_out (buffer bc) (cs.start + br.byte_off) n
    let left = br.bytes_to_copy - n
    ok (
      (if left == 0 then cr_full else cr_partial),
      record {
        base_block = add64 br.base_block blocks;
        byte_off = 0;
        block_count = br.block_count - blocks;
        copied = br.copied ++ bytes;
        bytes_to_copy = left;
      },
    )
]

module _ (refill : Refill) where
  -- The loop of req_exec on fuel: the cache, and the bytes copied or none for the result false.
  unfoldable pub req_exec : ℕ → BlockCache → BlockReq → Run (BlockCache × Option Bytes)
  req_exec zero bc br = stuck
  req_exec (suc fuel) bc br = do
    (result, br') ← block_cache_try_complete_req bc br
    elim result [
      | cr_full ↦ ok (bc, some br'.copied)
      | cr_none ↦ do
        (bc', filled) ← block_cache_refill refill bc br'.base_block
        elim filled [ true ↦ req_exec fuel bc' br' | false ↦ ok (bc', none) ]
      | cr_partial ↦ do
        (bc', filled) ← block_cache_refill refill bc br'.base_block
        elim filled [ true ↦ req_exec fuel bc' br' | false ↦ ok (bc', none) ]
    ]

  -- Each round but the first copies a block or more.
  unfoldable pub block_cache_read : BlockCache → ℕ → ℕ → Run (BlockCache × Option Bytes)
  unfolding req_exec byte_offsets_to_block_coords
  block_cache_read bc byte_off count = do
    br ← byte_offsets_to_block_coords bc byte_off count
    req_exec (br.block_count + 1) bc br

  -- The request of block_cache_read_blocks that goes through the cache.
  unfoldable pub read_blocks_cached : BlockCache → ℕ → ℕ → Run (BlockCache × Option Bytes)
  unfolding req_exec
  read_blocks_cached bc block count = req_exec (count + 1) bc (record {
    base_block = block;
    byte_off = 0;
    block_count = count;
    copied = [];
    bytes_to_copy = shl64 count bc.block_shift;
  })

  unfoldable pub block_cache_read_blocks : BlockCache → ℕ → ℕ → Run (BlockCache × Option Bytes)
  unfolding read_blocks_cached
  block_cache_read_blocks bc block count =
      if ltb bc.cache_block_cap count && bc.direct_io
      then (elim (refill block count) [
        | some bytes ↦ ok (bc, some bytes)
        | none ↦ read_blocks_cached bc block count
      ])
      else read_blocks_cached bc block count

  -- The cache and the offset in the buffer that `*buf` points to, or none for the result false.
  unfoldable pub block_cache_take_ref : BlockCache → ℕ → ℕ → Run (BlockCache × Option ℕ)
  unfolding byte_offsets_to_block_coords cached_range_get_ptr block_cache_refill
  block_cache_take_ref bc byte_off count = do
    c ← byte_offsets_to_block_coords bc byte_off count
    bug_on (ltb bc.cache_block_cap c.block_count)
    elim (cached_range_get_ptr bc c.base_block c.block_count) [
      | some start ↦
          ok (record bc { nocopy_refs = (bc.nocopy_refs + 1) % u32_mod }, some (start + c.byte_off))
      | none ↦ do
        (bc', filled) ← block_cache_refill refill bc c.base_block
        elim filled [
          | true ↦
              ok (record bc' { nocopy_refs = (bc'.nocopy_refs + 1) % u32_mod }, some c.byte_off)
          | false ↦ ok (bc', none)
        ]
    ]

unfoldable pub block_cache_release_ref : BlockCache → Run BlockCache
block_cache_release_ref bc = do
  bug_on (bc.nocopy_refs == 0)
  ok (record bc { nocopy_refs = bc.nocopy_refs - 1 })

unfoldable pub block_cache_enable_direct_io : BlockCache → BlockCache
block_cache_enable_direct_io bc = record bc { direct_io = true }
