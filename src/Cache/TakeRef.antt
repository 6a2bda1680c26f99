-- ===== src/Cache/TakeRef.antt =====
-- What block_cache_take_ref hands out: a place in the buffer where the wanted bytes are.
use native.Mathlib.Nat.{
  mod-lt, div-add-mod', div-lt_iff_lt-mul, mul-div_cancel, add-mul, one-le-pow,
}
use hyper.Base.{
  ℕ, ◌+◌, ◌-◌, ◌*◌, ◌/◌, ◌%◌, ◌^◌, ◌≤◌, ◌<◌, ◌≡◌, inl, inr, refl, ap, ◌∙◌, true, false, ◌==◌,
  Option, none, some, [], length, slice, Run, ok, Returns, ◌>>=◌, ◌>>◌, bug_on, add64, u64_mod,
  u32_mod, arith, Option-cases, ne→==, le→ltb,
}
use hyper.Text.Ctype.{Bytes}
use hyper.Cache.{
  Refill, BlockCache, BlockReq, buffer, block_cache_refill, byte_offsets_to_block_coords,
  cached_range_get_ptr, cached_span_from_block, shl64, block_cache_take_ref,
}
use hyper.Cache.Device.{IsDevice, Shows, RefillFails, refill-Shows}
use hyper.Cache.Read.{mul_mono, shl64_exact}

pow_pos : (k : ℕ) → 0 < 2 ^ k
pow_pos k = one-le-pow k 2 (omega arith)

-- The coordinates for a block size and a shift.
coords : ℕ → ℕ → ℕ → ℕ → Run BlockReq
coords size shift byte_off byte_cnt = do
  bug_on (byte_cnt == 0)
  let inner = byte_off % size
  let padded = add64 (inner + byte_cnt) (size - 1)
  ok (record {
    base_block = byte_off / 2 ^ shift;
    byte_off = inner;
    block_count = (padded - padded % size) / 2 ^ shift;
    copied = [];
    bytes_to_copy = byte_cnt;
  })

coords_lem :
    (bc : BlockCache) (byte_off byte_cnt : ℕ)
    → byte_offsets_to_block_coords bc byte_off byte_cnt
      ≡ coords bc.block_size bc.block_shift byte_off byte_cnt
unfolding coords byte_offsets_to_block_coords
coords_lem bc byte_off byte_cnt = refl

-- The blocks that a padded size rounds down to.
whole_blocks : (p k : ℕ) → 0 < k → (p - p % k) / k ≡ p / k
whole_blocks p k h =
    let rounded : p - p % k ≡ p / k * k = omega (arith, div-add-mod' p k) in
    ap (λ x. x / k) rounded ∙ mul-div_cancel (p / k) h

-- Padding to whole blocks covers the bytes, and takes no more blocks than they fit in.
padded_blocks :
    (n k blocks : ℕ)
    → 0 < k
    → n ≤ blocks * k
    → (n ≤ (n + (k - 1)) / k * k) × ((n + (k - 1)) / k ≤ blocks)
padded_blocks n k blocks h le =
    let p : ℕ = n + (k - 1) in
    let more : n + (k - 1) < (blocks + 1) * k = omega (arith, add-mul blocks 1 k) in
    let less = (div-lt_iff_lt-mul {k = k} {x = p} {y = blocks + 1} h).1 more in
    (omega (arith, div-add-mod' p k, mod-lt p h), omega arith)

coords_value :
    (shift byte_off count : ℕ)
    → 0 < count
    → byte_off % 2 ^ shift + count + (2 ^ shift - 1) < u64_mod
    → coords (2 ^ shift) shift byte_off count
      ≡ ok (record {
        base_block = byte_off / 2 ^ shift;
        byte_off = byte_off % 2 ^ shift;
        block_count = (byte_off % 2 ^ shift + count + (2 ^ shift - 1)) / 2 ^ shift;
        copied = [];
        bytes_to_copy = count;
      })
unfolding coords
coords_value shift byte_off count pos fits =
    let padded : add64 (byte_off % 2 ^ shift + count) (2 ^ shift - 1)
        ≡ byte_off % 2 ^ shift + count + (2 ^ shift - 1) =
      omega arith in
    rw
      (
        ne→== count 0 (λ e. omega arith),
        padded,
        whole_blocks (byte_off % 2 ^ shift + count + (2 ^ shift - 1)) (2 ^ shift) (pow_pos shift),
      )
      refl

-- What cached_range_get_ptr has tested, and the pointer.
pointer_tests :
    (bc : BlockCache) (block count start : ℕ)
    → cached_range_get_ptr bc block count ≡ some start
    → (bc.empty ≡ false)
      × (bc.cache_base ≤ block)
      × (block - bc.cache_base < bc.cache_block_cap)
      × (count ≤ bc.cache_block_cap - (block - bc.cache_base))
      × (start ≡ shl64 (block - bc.cache_base) bc.block_shift)
unfolding cached_range_get_ptr cached_span_from_block
pointer_tests bc block count start h =
    (ground arith, ground arith, ground arith, ground arith, ground arith)

module _ (disk : Bytes) (shift blocks : ℕ) (bounded : blocks * 2 ^ shift < u64_mod) where
  -- The wanted bytes, seen from a window that lies at `base`, `c` blocks in front of them.
  bytes_at :
      (bc : BlockCache) (c byte_off count : ℕ)
      → Shows disk shift blocks bc
      → bc.empty ≡ false
      → bc.cache_base + c ≡ byte_off / 2 ^ shift
      → c * 2 ^ shift + (byte_off % 2 ^ shift + count) ≤ blocks * 2 ^ shift
      → byte_off + count ≤ length disk
      → slice (c * 2 ^ shift + byte_off % 2 ^ shift) count (buffer bc) ≡ slice byte_off count disk
  bytes_at bc c byte_off count s filled here inside on_disk =
      let k : ℕ = 2 ^ shift in
      let split = div-add-mod' byte_off (2 ^ shift) in
      let block = add-mul bc.cache_base c (2 ^ shift) in
      let same = ap (λ x. x * 2 ^ shift) here in
      let place : bc.cache_base * 2 ^ shift + (c * 2 ^ shift + byte_off % 2 ^ shift) ≡ byte_off =
        omega (arith, split, block, same) in
      s.window filled (c * 2 ^ shift + byte_off % 2 ^ shift) count (omega arith) (omega arith)
      ∙ ap (λ x. slice x count disk) place

  -- The cache after a reference was taken, and the pointer, or a failure of the device.
  abbrev pub RefTaken : Refill → ℕ → ℕ → BlockCache × Option ℕ → Type 0
  RefTaken refill byte_off count (bc, none) = RefillFails refill blocks
  RefTaken refill byte_off count (bc, some start) =
      (slice start count (buffer bc) ≡ slice byte_off count disk) × (bc.nocopy_refs ≡ 1)

  hit-RefTaken :
      (refill : Refill) (bc : BlockCache) (byte_off count start : ℕ)
      → Shows disk shift blocks bc
      → byte_off + count ≤ length disk
      → byte_off % 2 ^ shift + count
        ≤ (byte_off % 2 ^ shift + count + (2 ^ shift - 1)) / 2 ^ shift * 2 ^ shift
      → cached_range_get_ptr bc
          (byte_off / 2 ^ shift)
          ((byte_off % 2 ^ shift + count + (2 ^ shift - 1)) / 2 ^ shift)
        ≡ some start
      → RefTaken refill byte_off count (
        record bc { nocopy_refs = (bc.nocopy_refs + 1) % u32_mod },
        some (start + byte_off % 2 ^ shift),
      )
  hit-RefTaken refill bc byte_off count start s on_disk covered h =
      let q : ℕ = (byte_off % 2 ^ shift + count + (2 ^ shift - 1)) / 2 ^ shift in
      let (filled, above, in_window, enough, at) =
        pointer_tests bc (byte_off / 2 ^ shift) q start h in
      let c : ℕ = byte_off / 2 ^ shift - bc.cache_base in
      let here : bc.cache_base + c ≡ byte_off / 2 ^ shift = omega arith in
      let whole = mul_mono (c + q) blocks (2 ^ shift) (omega (arith, s.same_cap)) in
      let parts = add-mul c q (2 ^ shift) in
      let small : c * 2 ^ shift < u64_mod = omega arith in
      let place : start + byte_off % 2 ^ shift ≡ c * 2 ^ shift + byte_off % 2 ^ shift =
        ap (λ x. x + byte_off % 2 ^ shift)
          (at ∙ shl64_exact c bc.block_shift shift s.same_shift small) in
      (
        ap (λ x. slice x count (buffer bc)) place
            ∙ bytes_at bc c byte_off count s filled here (omega arith) on_disk,
        ap (λ x. (x + 1) % u32_mod) s.unreferenced,
      )

  module _ (refill : Refill) (device : IsDevice refill disk shift) where
    miss-RefTaken :
        (bc : BlockCache) (byte_off count : ℕ)
        → Shows disk shift blocks bc
        → byte_off + count ≤ length disk
        → byte_off % 2 ^ shift + count ≤ blocks * 2 ^ shift
        → Returns (RefTaken refill byte_off count) (
            block_cache_refill refill bc (byte_off / 2 ^ shift) >>= λ r. elim (r.1) [
              | true ↦ ok (
                record (r.0) { nocopy_refs = ((r.0).nocopy_refs + 1) % u32_mod },
                some (byte_off % 2 ^ shift),
              )
              | false ↦ ok (r.0, none)
            ])
    miss-RefTaken bc byte_off count s on_disk inside =
        let (bc', filled, e, s', how) =
          refill-Shows refill disk shift blocks device bc (byte_off / 2 ^ shift) s in
        elim how [
          | inl (yes_, cached) ↦
              let base : bc'.cache_base + 0 ≡ byte_off / 2 ^ shift =
                omega (arith, cached.at_base) in
              let place : byte_off % 2 ^ shift ≡ 0 * 2 ^ shift + byte_off % 2 ^ shift =
                omega arith in
              rw (e, yes_)
                (
                  ap (λ x. slice x count (buffer bc')) place
                      ∙ bytes_at bc' 0 byte_off count s' cached.filled base (omega arith) on_disk,
                  ap (λ x. (x + 1) % u32_mod) s'.unreferenced,
                )
          | inr (no_, fails) ↦ rw (e, no_) fails
        ]

    -- With a window that shows the device, a reference to at least one byte inside the device,
    -- where the bytes from the begin of the first block on fit into the window, returns: with a
    -- pointer at which the buffer holds the wanted bytes of the device, and the reference counted,
    -- or with the result false, and then the device fails.
    pub take_ref-RefTaken :
        (bc : BlockCache) (byte_off count : ℕ)
        → Shows disk shift blocks bc
        → 0 < count
        → byte_off + count ≤ length disk
        → byte_off % 2 ^ shift + count ≤ blocks * 2 ^ shift
        → byte_off % 2 ^ shift + count + (2 ^ shift - 1) < u64_mod
        → Returns (RefTaken refill byte_off count) (block_cache_take_ref refill bc byte_off count)
    unfolding block_cache_take_ref
    take_ref-RefTaken bc byte_off count s pos on_disk inside fits =
        let q : ℕ = (byte_off % 2 ^ shift + count + (2 ^ shift - 1)) / 2 ^ shift in
        let (covered, few) =
          padded_blocks (byte_off % 2 ^ shift + count) (2 ^ shift) blocks (pow_pos shift) inside in
        let value =
          coords_lem bc byte_off count
          ∙ ap (λ z. coords z bc.block_shift byte_off count) s.same_size
          ∙ ap (λ z. coords (2 ^ shift) z byte_off count) s.same_shift
          ∙ coords_value shift byte_off count pos fits in
        let held = le→ltb bc.cache_block_cap q (omega (arith, s.same_cap, few)) in
        elim (Option-cases (cached_range_get_ptr bc (byte_off / 2 ^ shift) q)) [
          | inl miss ↦ rw (value, held, miss) (miss-RefTaken bc byte_off count s on_disk inside)
          | inr (start, hit) ↦
              rw (value, held, hit)
                (hit-RefTaken refill bc byte_off count start s on_disk covered hit)
        ]
