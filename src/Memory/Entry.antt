-- ===== src/Memory/Entry.antt =====
-- loader/include/memory_services.h: memory types, and one range of the memory map.
use hyper.Base.{
  ℕ, ◌-◌, Bool, true, false, not, ◌&&◌, ltb, leb, ◌==◌, if◌then◌else◌, min, add64, sub64, page_size,
  page_down,
}

abbrev pub memory_type_invalid : ℕ
memory_type_invalid = 0

abbrev pub memory_type_free : ℕ
memory_type_free = 1

abbrev pub memory_type_reserved : ℕ
memory_type_reserved = 2

-- MEMORY_TYPE_SOFT_RESERVED
abbrev pub memory_type_max : ℕ
memory_type_max = 9

abbrev pub memory_type_loader_reclaimable : ℕ
memory_type_loader_reclaimable = 0xFFFE_FFFF

abbrev pub memory_type_proto_specific_base : ℕ
memory_type_proto_specific_base = 0xFFFF_0000

pub record MemoryMapEntry : Type 0 where
  pub physical_address : ℕ
  pub size_in_bytes : ℕ
  pub type : ℕ

abbrev pub mme_end : MemoryMapEntry → ℕ
mme_end me = add64 me.physical_address me.size_in_bytes

unfoldable pub mme_is_valid : MemoryMapEntry → Bool
mme_is_valid me =
    if me.size_in_bytes == 0
    then false
    else if not (me.type == memory_type_free)
    then true
    else leb page_size me.size_in_bytes

-- The size that is left once the bytes between the aligned begin and the begin are taken off.
abbrev pub size_from_begin : MemoryMapEntry → ℕ
size_from_begin me =
    let aligned_begin = page_down me.physical_address in
    if me.physical_address == aligned_begin
    then me.size_in_bytes
    else me.size_in_bytes - min me.size_in_bytes (me.physical_address - aligned_begin)

unfoldable pub mme_align_if_needed : MemoryMapEntry → MemoryMapEntry
mme_align_if_needed me = if not (me.type == memory_type_free) then me else record me {
  physical_address = page_down me.physical_address;
  size_in_bytes = page_down (size_from_begin me);
}

-- addr_outside_of_address_space and range_outside_of_address_space for a pointer width in bytes.
unfoldable pub addr_outside_of_address_space : ℕ → ℕ → Bool
addr_outside_of_address_space pointer_bytes addr =
    if ltb 4 pointer_bytes then false else leb 0x1_0000_0000 addr

unfoldable pub range_outside_of_address_space : ℕ → ℕ → ℕ → Bool
unfolding addr_outside_of_address_space
range_outside_of_address_space pointer_bytes addr bytes =
    if addr == 0 && bytes == 0
    then false
    else addr_outside_of_address_space pointer_bytes (sub64 (add64 addr bytes) 1)
