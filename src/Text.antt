-- ===== src/Text.antt =====
-- Text handling of the loader: character classes (loader/include/common/ctype.h), string views
-- (loader/common/string_view.c), and number parsing (loader/common/conversions.c).
mod Tests
pub mod Ctype
pub mod View
pub mod Convert
