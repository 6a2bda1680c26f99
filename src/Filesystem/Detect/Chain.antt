-- ===== src/Filesystem/Detect/Chain.antt =====
-- The chain of extended partitions of loader/filesystem/mbr.c.
use hyper.Base.{
  ℕ, zero, suc, ◌+◌, ◌*◌, ◌^◌, ◌%◌, ◌<◌, ◌≡◌, refl, some, u64_mod, add64, arith, ne→==, Run, ok,
  stuck,
}
use hyper.Text.Ctype.{Bytes}
use hyper.Cache.{block_cache_read}
use hyper.Filesystem.Detect.{Medium, Services, Detection}
use hyper.Filesystem.Detect.Mbr.{
  partition_entry, offset_to_mbr_partition_list, mbr_partition, mbr_partitions, mbr_do_initialize,
}

module _ (sv : Services) (d : Medium) (base_index sector_offset : ℕ) (bytes : Bytes)
    (st : Detection) where
  link_taken :
      (chain : ℕ → ℕ → Detection → Run Detection)
      → 0 < base_index
      → (partition_entry bytes 0).type ≡ 0
      → (partition_entry bytes 1).type ≡ 5
      → chain (base_index + 1) (add64 sector_offset (partition_entry bytes 1).first_block) st
        ≡ stuck
      → mbr_partitions sv d chain base_index sector_offset bytes 2 0 st ≡ stuck
  unfolding mbr_partitions mbr_partition
  link_taken chain extended empty link hangs =
      let ebr = ne→== base_index 0 (λ e. omega arith) in rw (empty, link, ebr, hangs) refl

-- Where the extended partition at `sector_offset` links to itself, its first entry being empty, and
-- where its list can be read again and again, the chain is followed for ever: no fuel is enough.
pub self_link_hangs :
    (sv : Services) (d : Medium) (fuel base_index sector_offset : ℕ) (bytes : Bytes)
    (st : Detection)
    → 0 < base_index
    → sector_offset < u64_mod
    → block_cache_read sv.refill st.bc
        (add64 (sector_offset * 2 ^ d.block_shift % u64_mod) offset_to_mbr_partition_list)
        64
      ≡ ok (st.bc, some bytes)
    → (partition_entry bytes 0).type ≡ 0
    → (partition_entry bytes 1).type ≡ 5
    → (partition_entry bytes 1).first_block ≡ 0
    → mbr_do_initialize sv d fuel base_index sector_offset st ≡ stuck
unfolding mbr_do_initialize
self_link_hangs sv d zero base_index sector_offset bytes st extended fits readable empty link self =
    refl
self_link_hangs sv d (suc fuel) base_index sector_offset bytes st extended fits readable empty link
      self =
    let ebr = ne→== base_index 0 (λ e. omega arith) in
    let stays : add64 sector_offset 0 ≡ sector_offset = omega arith in
    let again : mbr_do_initialize sv d fuel (base_index + 1)
          (add64 sector_offset (partition_entry bytes 1).first_block) st
        ≡ stuck =
      rw (self, stays)
        (self_link_hangs sv d fuel (base_index + 1) sector_offset bytes st (omega arith) fits
          readable empty link self) in
    rw (readable, ebr)
      (link_taken sv d base_index sector_offset bytes st (mbr_do_initialize sv d fuel) extended
        empty link again)
