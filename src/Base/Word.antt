-- ===== src/Base/Word.antt =====
-- Fixed-width unsigned words as native numbers with the wrap written out.
use Prim.Native.Nat.{ℕ, ◌+◌, ◌-◌, ◌%◌}

abbrev pub u8_mod : ℕ
u8_mod = 0x100

abbrev pub u16_mod : ℕ
u16_mod = 0x1_0000

abbrev pub u32_mod : ℕ
u32_mod = 0x1_0000_0000

abbrev pub u64_mod : ℕ
u64_mod = 0x1_0000_0000_0000_0000

-- u64 addition and subtraction
abbrev pub add64 : ℕ → ℕ → ℕ
add64 a b = (a + b) % u64_mod

abbrev pub sub64 : ℕ → ℕ → ℕ
sub64 a b = (a + u64_mod - b) % u64_mod

-- ALIGN_DOWN and ALIGN_UP of loader/include/common/align.h, at the page size of 4096 bytes. The masks
-- clear the low twelve bits, which for a power of two is subtracting the remainder.
abbrev pub page_size : ℕ
page_size = 4096

abbrev pub page_down : ℕ → ℕ
page_down x = x - x % page_size

abbrev pub page_up : ℕ → ℕ
page_up x = page_down (add64 x 4095)
