-- ===== src/Lib.antt =====
-- Hyper, the boot loader: a model of its core and the theorems that make it correct.
--
-- The parts, and how they meet:
--   Base        shared names, tests on numbers, lists under native indices, machine words, and runs
--               that may panic (Outcome): BUG(), DIE() and oops() are `panic`. `stuck` belongs to the
--               model: a loop out of fuel, or a read past the end of its memory.
--   Text        loader/common/string_view.c, loader/include/common/string_view.h and ctype.h (Text/View,
--               Text/Ctype): a string view is the list of the bytes that it shows.
--               loader/common/conversions.c (Text/Convert): numbers from text.
--   Net         loader/ip.c: IPv4 addresses and DHCP options. It reads octets with Text/Convert and
--               finds dots with Text/View.
--   Memory      loader/memory_services.c and loader/include/memory_services.h: entries (Memory/Entry),
--               the types that the protocol knows (Memory/Types), mm_sort (Memory/Sort),
--               mm_find_first_that_contains (Memory/Search), the resolution of overlaps
--               (Memory/Overlap), mme_insert and mme_insert_try_merge (Memory/Insert), and mm_fixup
--               over all of them (Memory/Fixup). The map is the list of its entries.
--   Cache       loader/filesystem/block_cache.c and its header: a window of blocks of a device. The
--               device is the refill callback, a parameter; what is assumed of it is IsDevice in
--               Cache/Device.
--   Filesystem  loader/filesystem/path.c (Filesystem/Path) and loader/include/filesystem/guid.h
--               (Filesystem/Guid): the selectors that name files, read with Text.
--               loader/filesystem/filesystem_table.c (Filesystem/Table, with its Lookup and its
--               BootLookup): the table in which a selector is looked up. A pointer into its growing
--               buffer is an index and the generation of the buffer; the allocator's answer and the
--               size of a growth are parameters, as is what the firmware says of the boot device.
--               loader/filesystem/bulk_read.c (Filesystem/Bulk): reads of a file whose blocks lie in
--               ranges. The callback that gives the ranges and the reads of the disk services are
--               parameters; IsLayout and IsDisk in Filesystem/Bulk/Ranges say what is assumed.
--               loader/filesystem/filesystem.c, mbr.c and gpt.c (Filesystem/Detect): the filesystems of a
--               disk, found in its partitions through the block cache and added to the table.
--   Config      loader/config.c and loader/include/config.h: the values and entries (Config), the parser's
--               state and its characters (Config/Scan), the loops over characters (Config/Skip), the
--               tokens (Config/Token), the entries with their links and cfg_parse (Config/Parse), and
--               the lookups (Config/Query). It reads numbers with Text/Convert. A command takes the
--               parser and returns it, or raises an error, or stops; a pointer to an entry is its index.
--   Format      loader/common/format.c and loader/include/common/format.h: the writer with its capacity and
--               write_integer (Format), the conversions (Format/Conversion), vsnprintf and its wrappers
--               (Format/Print). It reads a width with Text/Convert. The target has 64-bit `long` and
--               `size_t`; va_list is a list of arguments with their types; snprintf within a conversion is
--               a parameter that inner_snprintf fills.
--
-- A function of the source is a definition of the same name. A field that the source writes through
-- a pointer is part of the result; a Boolean result with an output is an Option. Machine words are
-- native numbers with their wrap-around written out. Branches of a long function have names of their
-- own (consume_disk_uuid, merge_at, overlap_step).
--
-- Fuel: the binary search runs on length + 1, each round leaving less between its bounds; the walk
-- over the map on a number of rounds that the caller gives, each round without an overlap taking one
-- entry; the walk over DHCP options on the length of the blob; a cached read on one round more than
-- it has blocks; a bulk read on the bytes of the part that it reads; the loops of the configuration
-- parser on one round more than the text has bytes, and its lookups on the number of entries; the loop
-- of vsnprintf on one round more than the format has characters, which is enough by
-- Format/Print/Fuel, and the digits of a number on the 32 bytes of their buffer. The chain of
-- extended partitions has a fuel that the caller gives, since the source bounds it by nothing. All other
-- loops are structural.
--
-- Not modelled: messages to the log; mme_type_to_str, fst_fini and fst_list; path_open and the
-- filesystems behind it (fat, iso9660, pxe); the printing of errors and entries of the
-- configuration, and the growth of its buffer; paging, ELF, the boot protocol, and the firmware
-- services of BIOS and UEFI.
pub mod Base
pub mod Text
pub mod Net
pub mod Memory
pub mod Cache
pub mod Filesystem
pub mod Config
pub mod Format
