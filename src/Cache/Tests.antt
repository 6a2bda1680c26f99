-- ===== src/Cache/Tests.antt =====
-- The block cache on a device of eight bytes in blocks of two.
use hyper.Base.{
  ◌*◌, ◌^◌, ◌≡◌, ◌⊎◌, inr, refl, Bool, true, false, some, [], ◌∷◌, slice, slice-slice, ok, stuck,
  Returns, arith,
}
use hyper.Text.Ctype.{Bytes}
use hyper.Cache.{
  block_cache_take_ref, Refill, BlockCache, BlockReq, block_cache_refill, read_blocks_cached,
  req_exec,
}
use hyper.Cache.Device.{IsDevice, Shows, CachedAt, RefillFails, refill-Shows}
use hyper.Cache.Read.{Delivers, read_blocks-Delivers}
use hyper.Cache.TakeRef.{RefTaken, take_ref-RefTaken}
use hyper.Cache.Refs.{unaligned_overruns}

abbrev disk : Bytes
disk = 1 ∷ 2 ∷ 3 ∷ 4 ∷ 5 ∷ 6 ∷ 7 ∷ 8 ∷ []

abbrev read_disk : Refill
read_disk block count = some (slice (block * 2 ^ 1) (count * 2 ^ 1) disk)

device : IsDevice read_disk disk 1
device = record { answer = λ block count. inr refl }

abbrev empty_cache : BlockCache
empty_cache = record {
  cache_buf = some (0 ∷ 0 ∷ 0 ∷ 0 ∷ []);
  cache_block_cap = 2;
  cache_base = 0;
  nocopy_refs = 0;
  block_size = 2;
  block_shift = 1;
  empty = true;
  direct_io = false;
}

empty-Shows : Shows disk 1 2 empty_cache
empty-Shows = record {
  same_shift = refl;
  same_size = refl;
  same_cap = refl;
  unreferenced = refl;
  sized = refl;
  window = λ e. absurd (true_false e);
}
  where
    true_false : true ≡ false → ⊥
    true_false e = cc

read_blocks-Delivers_example :
    Returns
      (Delivers disk 1 2
        (omega arith)
        read_disk
        device
        (omega arith)
        (slice (1 * 2 ^ 1) (3 * 2 ^ 1) disk))
      (read_blocks_cached read_disk empty_cache 1 3)
read_blocks-Delivers_example =
    read_blocks-Delivers disk 1 2 (omega arith) read_disk device (omega arith) empty_cache 1 3
      empty-Shows (omega arith) (omega arith) (omega arith) (omega arith)

refill-Shows_example :
    (bc' : BlockCache) × (filled : Bool) × (block_cache_refill read_disk empty_cache 1
      ≡ ok (bc', filled))
    × Shows disk 1 2 bc'
    × (((filled ≡ true) × CachedAt 1 bc') ⊎ ((filled ≡ false) × RefillFails read_disk 2))
refill-Shows_example = refill-Shows read_disk disk 1 2 device empty_cache 1 empty-Shows

abbrev pinned : BlockCache
pinned = record empty_cache { empty = false; nocopy_refs = 1 }

abbrev filled_cache : BlockCache
filled_cache = record empty_cache { cache_buf = some (1 ∷ 2 ∷ 3 ∷ 4 ∷ []); empty = false }

filled-Shows : Shows disk 1 2 filled_cache
filled-Shows = record {
  same_shift = refl;
  same_size = refl;
  same_cap = refl;
  unreferenced = refl;
  sized = refl;
  window = λ _ from n inside _. slice-slice from n 0 4 disk inside;
}

-- five bytes from the second byte of the device on
abbrev unaligned : BlockReq
unaligned = record { base_block = 0; byte_off = 1; block_count = 3; copied = []; bytes_to_copy = 5 }

unaligned_overruns_example : req_exec read_disk 4 filled_cache unaligned ≡ stuck
unaligned_overruns_example =
    unaligned_overruns read_disk disk 1 2 3 filled_cache unaligned 0 (omega arith) filled-Shows refl
      (omega arith) refl (omega arith) (omega arith) (omega arith)

take_ref-RefTaken_example :
    Returns
      (RefTaken disk 1 2 (omega arith) read_disk 3 2)
      (block_cache_take_ref read_disk filled_cache 3 2)
take_ref-RefTaken_example =
    take_ref-RefTaken disk 1 2 (omega arith) read_disk device filled_cache 3 2 filled-Shows
      (omega arith) (omega arith) (omega arith) (omega arith)
