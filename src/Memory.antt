-- ===== src/Memory.antt =====
-- loader/memory_services.c: the loader's memory map. The map is sorted, its overlaps are resolved and
-- its touching ranges of one type are merged.
mod Tests
pub mod Entry
pub mod Types
pub mod Sort
pub mod Search
pub mod Overlap
pub mod Insert
pub mod Fixup
