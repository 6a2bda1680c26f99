-- ===== src/Cache/Device.antt =====
-- A device behind a block cache, and what it means that the cache's buffer shows the device.
use hyper.Base.{
  ℕ, ◌+◌, ◌*◌, ◌^◌, ◌≤◌, ◌≡◌, ◌⊎◌, inl, inr, refl, ap, ◌∙◌, Bool, true, false, not, ◌==◌, ◌&&◌,
  none, some, length, drop, slice, length-append, length-drop, length-take, slice-append,
  slice-slice, ok, arith, Bool-cases, eq→==,
}
use hyper.Text.Ctype.{Bytes}
use hyper.Cache.{Refill, BlockCache, buffer, block_cache_refill, overwrite}

-- Every read fails, or yields the device's bytes, cut off at the end of the device.
pub record IsDevice (refill : Refill) (disk : Bytes) (shift : ℕ) : Type 0 where
  pub answer :
      (block count : ℕ)
      → (refill block count ≡ none)
        ⊎ (refill block count ≡ some (slice (block * 2 ^ shift) (count * 2 ^ shift) disk))

-- A cache of `cap` blocks of 2 ^ shift bytes; if it is not empty, its buffer shows the device from
-- the cached base on, as far as the device goes.
pub record Shows (disk : Bytes) (shift blocks : ℕ) (bc : BlockCache) : Type 0 where
  pub same_shift : bc.block_shift ≡ shift
  pub same_size : bc.block_size ≡ 2 ^ shift
  pub same_cap : bc.cache_block_cap ≡ blocks
  pub unreferenced : bc.nocopy_refs ≡ 0
  pub sized : length (buffer bc) ≡ blocks * 2 ^ shift
  pub window :
      bc.empty ≡ false
      → (from n : ℕ) → from + n ≤ blocks * 2 ^ shift
      → bc.cache_base * 2 ^ shift + (from + n) ≤ length disk
      → slice from n (buffer bc) ≡ slice (bc.cache_base * 2 ^ shift + from) n disk

-- The cache's window lies at `base`.
pub record CachedAt (base : ℕ) (bc : BlockCache) : Type 0 where
  pub filled : bc.empty ≡ false
  pub at_base : bc.cache_base ≡ base

abbrev pub RefillFails : Refill → ℕ → Type 0
RefillFails refill blocks = (block : ℕ) × (refill block blocks ≡ none)

module _ (refill : Refill) (disk : Bytes) (shift blocks : ℕ)
    (device : IsDevice refill disk shift) where
  length-overwrite :
      (bytes buf : Bytes) → length bytes ≤ length buf → length (overwrite bytes buf) ≡ length buf
  length-overwrite bytes buf h =
      omega (arith, length-append bytes (drop (length bytes) buf), length-drop (length bytes) buf)

  filled-Shows :
      (bc : BlockCache) (block : ℕ)
      → Shows disk shift blocks bc
      → Shows disk shift blocks (record bc {
        cache_buf =
            some (overwrite (slice (block * 2 ^ shift) (blocks * 2 ^ shift) disk) (buffer bc));
        cache_base = block;
        empty = false;
      })
  filled-Shows bc block s =
      let read : Bytes = slice (block * 2 ^ shift) (blocks * 2 ^ shift) disk in
      let taken = length-take (blocks * 2 ^ shift) (drop (block * 2 ^ shift) disk) in
      let left = length-drop (block * 2 ^ shift) disk in
      record {
        same_shift = s.same_shift;
        same_size = s.same_size;
        same_cap = s.same_cap;
        unreferenced = s.unreferenced;
        sized = length-overwrite read (buffer bc) (omega (arith, s.sized)) ∙ s.sized;
        window = λ _ from n inside on_disk.
            slice-append from n read (drop (length read) (buffer bc)) (omega arith)
            ∙ slice-slice from n (block * 2 ^ shift) (blocks * 2 ^ shift) disk inside;
      }

  -- On a cache that shows the device and has no references, block_cache_refill returns and the
  -- cache still shows the device; either the result is true and the window lies at the wanted
  -- block, or it is false and the device fails.
  pub refill-Shows :
      (bc : BlockCache) (block : ℕ)
      → Shows disk shift blocks bc
      → (bc' : BlockCache) × (filled : Bool) × (block_cache_refill refill bc block
          ≡ ok (bc', filled))
        × Shows disk shift blocks bc'
        × (((filled ≡ true) × CachedAt block bc') ⊎ ((filled ≡ false) × RefillFails refill blocks))
  unfolding block_cache_refill
  refill-Shows bc block s = elim (Bool-cases ((bc.cache_base == block) && not bc.empty)) [
    | inl hit ↦ (bc, true, rw hit, s, inl (refl, hit-CachedAt hit))
    | inr miss ↦ elim (device.answer block blocks) [
      | inl fails ↦ (
        record bc { empty = true },
        false,
        rw (miss, eq→== bc.nocopy_refs 0 s.unreferenced, ap (refill block) s.same_cap ∙ fails),
        record {
          same_shift = s.same_shift;
          same_size = s.same_size;
          same_cap = s.same_cap;
          unreferenced = s.unreferenced;
          sized = s.sized;
          window = λ e from n p q. absurd_window e;
        },
        inr (refl, (block, fails)),
      )
      | inr reads ↦ (
        record bc {
          cache_buf =
              some (overwrite (slice (block * 2 ^ shift) (blocks * 2 ^ shift) disk) (buffer bc));
          cache_base = block;
          empty = false;
        },
        true,
        rw (miss, eq→== bc.nocopy_refs 0 s.unreferenced, ap (refill block) s.same_cap ∙ reads),
        filled-Shows bc block s,
        inl (refl, record { filled = refl; at_base = refl }),
      )
    ]
  ]
    where
      hit-CachedAt : ((bc.cache_base == block) && not bc.empty) ≡ true → CachedAt block bc
      hit-CachedAt hit = record { filled = ground arith; at_base = ground arith }

      absurd_window : {A : Type 0} → true ≡ false → A
      absurd_window e = cc
