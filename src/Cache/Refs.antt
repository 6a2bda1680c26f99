-- ===== src/Cache/Refs.antt =====
-- References into the buffer of a block cache, and the read that runs past it.
use hyper.Base.{
  ℕ, suc, ◌+◌, ◌-◌, ◌*◌, ◌^◌, ◌<◌, ◌≡◌, ap, ◌∙◌, false, min, length, stuck, u64_mod, arith, lt→ltb,
}
use hyper.Text.Ctype.{Bytes}
use hyper.Cache.{
  Refill, BlockCache, BlockReq, buffer, block_cache_try_complete_req, copy_out,
  cached_span_from_block, req_exec,
}
use hyper.Cache.Device.{Shows}
use hyper.Cache.Read.{span_at, shl64_exact, mul_mono}

-- On a cache that shows the device and is not empty, a request that starts inside a cached block,
-- behind its first byte, asks for more blocks than the window has from there, and for more bytes
-- than the window holds behind the start, is copied from the buffer past its end.
pub unaligned_overruns :
    (refill : Refill) (disk : Bytes) (shift blocks fuel : ℕ) (bc : BlockCache) (br : BlockReq)
    (c : ℕ)
    → blocks * 2 ^ shift < u64_mod
    → Shows disk shift blocks bc
    → bc.empty ≡ false
    → c < blocks
    → br.base_block ≡ bc.cache_base + c
    → 0 < br.byte_off
    → blocks - c < br.block_count
    → (blocks - c) * 2 ^ shift < br.bytes_to_copy + br.byte_off
    → req_exec refill (suc fuel) bc br ≡ stuck
unfolding req_exec block_cache_try_complete_req
unaligned_overruns refill disk shift blocks fuel bc br c bounded s filled less here inner many
      long =
    let span =
      ap (cached_span_from_block bc) here ∙ span_at disk shift blocks bounded bc c s filled less in
    let m : min br.block_count (blocks - c) ≡ blocks - c = omega arith in
    let whole = mul_mono (blocks - c) blocks (2 ^ shift) (omega arith) in
    let parts = ap (λ k. k * 2 ^ shift) (split c blocks less) in
    rw (
      span,
      block_cache_try_complete_req,
      m,
      shl64_exact (blocks - c) bc.block_shift shift s.same_shift (omega arith),
      overrun (buffer bc) (c * 2 ^ shift + br.byte_off)
          (min ((blocks - c) * 2 ^ shift) br.bytes_to_copy) (omega (arith, s.sized, parts)),
    )
  where
    split : (c blocks : ℕ) → c < blocks → blocks ≡ c + (blocks - c)
    split c blocks h = omega arith

    overrun : (buf : Bytes) (from n : ℕ) → length buf < from + n → copy_out buf from n ≡ stuck
    overrun buf from n h = unfold copy_out in rw (lt→ltb (length buf) (from + n) h)
