-- ===== src/Cache/Read.antt =====
-- Reads through the cache: what they copy, and that they end.
use hyper.Base.{
  ℕ, zero, suc, ◌+◌, ◌-◌, ◌*◌, ◌%◌, ◌^◌, ◌≤◌, ◌<◌, ◌≡◌, ◌⊎◌, inl, inr, refl, ap, ◌∙◌, false, ◌==◌,
  ==_iff, if◌then◌else◌, Option, none, some, [], ◌++◌, min, length, slice, slice-plus, ok, Returns,
  u64_mod, add64, arith, Bool-cases, Option-cases, le→ltb, lt→leb,
}
use native.Mathlib.Nat.{one-le-pow}
use hyper.Text.Ctype.{Bytes}
use hyper.Cache.{
  Refill, BlockCache, BlockReq, buffer, shl64, CachedSpan, cached_span_from_block, copy_out,
  cr_none, cr_partial, cr_full, block_cache_try_complete_req, req_exec, read_blocks_cached,
}
use hyper.Cache.Device.{IsDevice, Shows, RefillFails, refill-Shows}

pub copy_inside :
    (buf : Bytes) (from n : ℕ) → from + n ≤ length buf → copy_out buf from n ≡ ok (slice from n buf)
unfolding copy_out
copy_inside buf from n h = rw (le→ltb (length buf) (from + n) h)

pow_pos : (k : ℕ) → 0 < 2 ^ k
pow_pos k = one-le-pow k 2 (omega arith)

pub mul_mono : (x y z : ℕ) → x ≤ y → x * z ≤ y * z
mul_mono x y z h = grind arith

pub shl64_exact :
    (x sh shift : ℕ) → sh ≡ shift → x * 2 ^ shift < u64_mod → shl64 x sh ≡ x * 2 ^ shift
shl64_exact x sh shift e h = ap (λ k. shl64 x k) e ∙ fits (x * 2 ^ shift) h
  where
    fits : (y : ℕ) → y < u64_mod → y % u64_mod ≡ y
    fits y p = omega arith

module _ (disk : Bytes) (shift blocks : ℕ) (bounded : blocks * 2 ^ shift < u64_mod) where
  -- The cached block is `c` blocks into the window.
  pub span_at :
      (bc : BlockCache) (c : ℕ)
      → Shows disk shift blocks bc
      → bc.empty ≡ false
      → c < blocks
      → cached_span_from_block bc (bc.cache_base + c)
        ≡ some (record { blocks = blocks - c; start = c * 2 ^ shift })
  unfolding cached_span_from_block
  span_at bc c s filled less =
      let distance : bc.cache_base + c - bc.cache_base ≡ c = omega arith in
      let left : bc.cache_block_cap - c ≡ blocks - c = ap (λ k. k - c) s.same_cap in
      let small = mul_mono c blocks (2 ^ shift) (omega arith) in
      rw (
        filled,
        le→ltb (bc.cache_base + c) bc.cache_base (omega arith),
        distance,
        lt→leb bc.cache_block_cap c (omega (arith, s.same_cap)),
        left,
        shl64_exact c bc.block_shift shift s.same_shift (omega arith),
      )

  -- One try at a request whose first block is cached, `c` blocks into the window: it copies what
  -- the window has of it.
  try_cached :
      (bc : BlockCache) (br : BlockReq) (c : ℕ)
      → Shows disk shift blocks bc
      → bc.empty ≡ false
      → c < blocks
      → br.base_block ≡ bc.cache_base + c
      → br.byte_off ≡ 0
      → br.base_block * 2 ^ shift + br.bytes_to_copy ≤ length disk
      → (q : ℕ) × (q ≡ min (min br.block_count (blocks - c) * 2 ^ shift) br.bytes_to_copy)
        × (block_cache_try_complete_req bc br
            ≡ ok (
              (if br.bytes_to_copy - q == 0 then cr_full else cr_partial),
              record {
                base_block = add64 br.base_block (min br.block_count (blocks - c));
                byte_off = 0;
                block_count = br.block_count - min br.block_count (blocks - c);
                copied = br.copied ++ slice (br.base_block * 2 ^ shift) q disk;
                bytes_to_copy = br.bytes_to_copy - q;
              },
            ))
  unfolding block_cache_try_complete_req
  try_cached bc br c s filled less here aligned inside =
      let m : ℕ = min br.block_count (blocks - c) in
      let q : ℕ = min (m * 2 ^ shift) br.bytes_to_copy in
      let part = mul_mono (m + c) blocks (2 ^ shift) (omega arith) in
      let base = ap (λ k. k * 2 ^ shift) here in
      let shown = s.window filled (c * 2 ^ shift) q (omega arith) (omega arith) in
      let spot : bc.cache_base * 2 ^ shift + c * 2 ^ shift ≡ br.base_block * 2 ^ shift =
        omega arith in
      let from : c * 2 ^ shift + br.byte_off ≡ c * 2 ^ shift = omega arith in
      (
        q,
        refl,
        rw (
          ap (cached_span_from_block bc) here ∙ span_at bc c s filled less,
          block_cache_try_complete_req,
          shl64_exact m bc.block_shift shift s.same_shift (omega arith),
          from,
          copy_inside (buffer bc) (c * 2 ^ shift) q (omega (arith, s.sized)),
          shown,
          spot,
        ),
      )

  module _ (refill : Refill) (device : IsDevice refill disk shift) (positive : 0 < blocks) where
    -- The cache still shows the device, and the bytes are `target`, unless the device fails.
    abbrev pub Delivers : Bytes → BlockCache × Option Bytes → Type 0
    Delivers target (bc, result) =
        Shows disk shift blocks bc
        × ((result ≡ some target) ⊎ ((result ≡ none) × RefillFails refill blocks))

    -- A request in progress: from `start` on, `total` bytes of the device are wanted; those before
    -- the request's first block are copied.
    record InProgress (start total : ℕ) (br : BlockReq) : Type 0 where
      aligned : br.byte_off ≡ 0
      some_left : 0 < br.bytes_to_copy
      counted : br.bytes_to_copy ≤ br.block_count * 2 ^ shift
      on_disk : br.base_block * 2 ^ shift + br.bytes_to_copy ≤ length disk
      small : br.base_block + br.block_count < u64_mod
      from_start : start ≤ br.base_block * 2 ^ shift
      so_far : br.copied ≡ slice start (br.base_block * 2 ^ shift - start) disk
      to_end : br.base_block * 2 ^ shift + br.bytes_to_copy ≡ start + total

    -- The bytes copied so far and the next `q` ones.
    copied_more :
        (start total q : ℕ) (br : BlockReq)
        → InProgress start total br
        → br.copied ++ slice (br.base_block * 2 ^ shift) q disk
          ≡ slice start (br.base_block * 2 ^ shift - start + q) disk
    copied_more start total q br p =
        let spot : br.base_block * 2 ^ shift ≡ start + (br.base_block * 2 ^ shift - start) =
          omega (arith, p.from_start) in
        ap (λ l. l ++ slice (br.base_block * 2 ^ shift) q disk) p.so_far
        ∙ (ap (λ k. slice start (br.base_block * 2 ^ shift - start) disk ++ slice k q disk) spot
            ∙ slice-plus start (br.base_block * 2 ^ shift - start) q disk)

    some_blocks : (start total : ℕ) (br : BlockReq) → InProgress start total br → 0 < br.block_count
    some_blocks start total br p = grind (arith, p.counted, p.some_left)

    -- A try that leaves something has copied `m` whole blocks.
    module _ (start total q m : ℕ) (br : BlockReq) (p : InProgress start total br)
        (size : q ≡ min (m * 2 ^ shift) br.bytes_to_copy)
        (more : (br.bytes_to_copy - q == 0) ≡ false) (fits : m ≤ br.block_count) where
      whole : q ≡ m * 2 ^ shift
      whole = ground arith

      next_base : add64 br.base_block m ≡ br.base_block + m
      next_base = omega (arith, p.small)

      next_begin : add64 br.base_block m * 2 ^ shift ≡ br.base_block * 2 ^ shift + q
      next_begin = ap (λ k. k * 2 ^ shift) next_base ∙ omega (arith, whole)

      next-InProgress : InProgress start total (record {
        base_block = add64 br.base_block m;
        byte_off = 0;
        block_count = br.block_count - m;
        copied = br.copied ++ slice (br.base_block * 2 ^ shift) q disk;
        bytes_to_copy = br.bytes_to_copy - q;
      })
      next-InProgress =
          let split : br.block_count ≡ br.block_count - m + m = omega arith in
          let split' = ap (λ k. k * 2 ^ shift) split in
          let length_so_far : br.base_block * 2 ^ shift - start + q
              ≡ add64 br.base_block m * 2 ^ shift - start =
            omega (arith, next_begin, p.from_start) in
          record {
            aligned = refl;
            some_left = ground arith;
            counted = omega (arith, whole, split', p.counted);
            on_disk = omega (arith, next_begin, p.on_disk, size);
            small = omega (arith, next_base, p.small);
            from_start = omega (arith, next_begin, p.from_start);
            so_far = copied_more start total q br p ∙ ap (λ k. slice start k disk) length_so_far;
            to_end = omega (arith, next_begin, p.to_end, size);
          }

    exec_cached :
        (fuel : ℕ) (bc : BlockCache) (br : BlockReq) (c start total : ℕ)
        → Shows disk shift blocks bc
        → bc.empty ≡ false
        → c < blocks
        → br.base_block ≡ bc.cache_base + c
        → InProgress start total br
        → br.block_count ≤ fuel
        → Returns (Delivers (slice start total disk)) (req_exec refill fuel bc br)
    unfolding req_exec
    exec_cached zero bc br c start total s filled less here p enough =
        absurd (omega (arith, some_blocks start total br p))
    exec_cached (suc fuel) bc br c start total s filled less here p enough =
        let (q, size, e) = try_cached bc br c s filled less here p.aligned p.on_disk in
        let m : ℕ = min br.block_count (blocks - c) in
        elim (Bool-cases (br.bytes_to_copy - q == 0)) [
          | inl full ↦
              let all : br.base_block * 2 ^ shift - start + q ≡ total =
                omega
                  (arith, (==_iff (br.bytes_to_copy - q) 0).0 full, size, p.to_end, p.from_start) in
              rw (e, full)
                (
                  s,
                  inl (ap some (copied_more start total q br p ∙ ap (λ k. slice start k disk) all)),
                )
          | inr more ↦
              let (bc', flag, e', s', outcome) =
                refill-Shows refill disk shift blocks device bc (add64 br.base_block m) s in
              let some_now = some_blocks start total br p in
              elim outcome [
                | inl (did, at) ↦
                    rw (e, more, e', did)
                      (exec_cached fuel bc' _ 0 start total s' at.filled positive
                        (omega (arith, at.at_base))
                        (next-InProgress start total q m br p size more (omega arith))
                        (omega arith))
                | inr (failed, fails) ↦ rw (e, more, e', failed) (s', inr (refl, fails))
              ]
        ]

    no_try :
        (bc : BlockCache) (br : BlockReq)
        → cached_span_from_block bc br.base_block ≡ none
        → block_cache_try_complete_req bc br ≡ ok (cr_none, br)
    unfolding block_cache_try_complete_req
    no_try bc br e = rw (e, block_cache_try_complete_req)

    span_inside :
        (bc : BlockCache) (block : ℕ) (cs : CachedSpan)
        → cached_span_from_block bc block ≡ some cs
        → (bc.empty ≡ false)
          × (bc.cache_base ≤ block)
          × (block - bc.cache_base < bc.cache_block_cap)
    unfolding cached_span_from_block
    span_inside bc block cs e = ground arith

    -- Either the block is in the window, or a try does nothing.
    window_cases :
        (bc : BlockCache) (br : BlockReq)
        → Shows disk shift blocks bc
        → ((c : ℕ) × (bc.empty ≡ false) × (c < blocks) × (br.base_block ≡ bc.cache_base + c))
          ⊎ (block_cache_try_complete_req bc br ≡ ok (cr_none, br))
    window_cases bc br s = elim (Option-cases (cached_span_from_block bc br.base_block)) [
      | inl outside ↦ inr (no_try bc br outside)
      | inr (cs, found) ↦
          let (filled, base, within) = span_inside bc br.base_block cs found in
          inl (br.base_block - bc.cache_base, filled, omega (arith, s.same_cap), omega arith)
    ]

    exec_any :
        (fuel : ℕ) (bc : BlockCache) (br : BlockReq) (start total : ℕ)
        → Shows disk shift blocks bc
        → InProgress start total br
        → br.block_count < fuel
        → Returns (Delivers (slice start total disk)) (req_exec refill fuel bc br)
    exec_any zero bc br start total s p enough = elim enough [ ]
    exec_any (suc fuel) bc br start total s p enough = elim (window_cases bc br s) [
      | inl (c, filled, less, here) ↦
          exec_cached (suc fuel) bc br c start total s filled less here p (omega arith)
      | inr nothing ↦
          let (bc', flag, e', s', outcome) =
            refill-Shows refill disk shift blocks device bc br.base_block s in
          elim outcome [
            | inl (did, at) ↦
                unfold req_exec in
                rw (nothing, e', did)
                  (exec_cached fuel bc' br 0 start total s' at.filled positive
                    (omega (arith, at.at_base)) p (omega arith))
            | inr (failed, fails) ↦
                unfold req_exec in rw (nothing, e', failed) (s', inr (refl, fails))
          ]
    ]

    begins :
        (block k n : ℕ)
        → 0 < n
        → n ≤ k * 2 ^ shift
        → block * 2 ^ shift + n ≤ length disk
        → block + k < u64_mod
        → InProgress (block * 2 ^ shift) n (record {
          base_block = block;
          byte_off = 0;
          block_count = k;
          copied = [];
          bytes_to_copy = n;
        })
    begins block k n pos counted on_disk small = record {
      aligned = refl;
      some_left = pos;
      counted = counted;
      on_disk = on_disk;
      small = small;
      from_start = omega arith;
      so_far =
          (let e : 0 ≡ block * 2 ^ shift - block * 2 ^ shift = omega arith in
            ap (λ k. slice (block * 2 ^ shift) k disk) e);
      to_end = refl;
    }

    -- With a window of at least one block and fewer than 2 ^ 64 bytes that shows the device,
    -- reading one or more whole blocks inside the device through the cache, however many windows
    -- they span, returns: with the bytes of the device, or with the result false, and then the
    -- device fails. The cache shows the device afterwards.
    pub read_blocks-Delivers :
        (bc : BlockCache) (block count : ℕ)
        → Shows disk shift blocks bc
        → 0 < count
        → (block + count) * 2 ^ shift ≤ length disk
        → block + count < u64_mod
        → count * 2 ^ shift < u64_mod
        → Returns
            (Delivers (slice (block * 2 ^ shift) (count * 2 ^ shift) disk))
            (read_blocks_cached refill bc block count)
    unfolding read_blocks_cached
    read_blocks-Delivers bc block count s pos inside small fits =
        rw (shl64_exact count bc.block_shift shift s.same_shift fits) (
          exec_any (count + 1) bc _ (block * 2 ^ shift) (count * 2 ^ shift) s
            (begins block count (count * 2 ^ shift) (bytes_pos count pos) (omega arith)
              (omega arith) small)
            (omega arith))
      where
        bytes_pos : (count : ℕ) → 0 < count → 0 < count * 2 ^ shift
        bytes_pos count h = grind (arith, pow_pos shift)
