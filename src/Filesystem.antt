-- ===== src/Filesystem.antt =====
-- filesystem/: the selectors by which a configuration names files (path.c), and the table of the
-- filesystems that the loader found (filesystem_table.c).
mod Tests
pub mod Guid
pub mod Path
pub mod Table
pub mod Bulk
pub mod Detect
