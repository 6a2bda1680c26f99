-- ===== src/Text/Convert.antt =====
-- loader/common/conversions.c: numbers from text, in a given base or in the one that a prefix names.
-- `none` is the result `false`. An i64 is its bit pattern, a number below 2 ^ 64.
pub mod Exact
pub mod Safe
pub mod Prefix
use hyper.Base.{
  ℕ, ◌+◌, ◌-◌, ◌*◌, ◌/◌, ◌%◌, ◌^◌, Bool, true, false, ◌&&◌, ltb, leb, ◌==◌, if◌then◌else◌, Option,
  none, some, List, [], ◌∷◌, Run, ok, ◌>>=◌, u64_mod, sub64,
}
use hyper.Text.Ctype.{Bytes, isdigit, tolower}
use hyper.Text.View.{sv_offset_by, sv_starts_with}

abbrev pub first_in_one_nine : Bytes → Bool
first_in_one_nine [] = false
first_in_one_nine (c ∷ _) = leb b'1' c && leb c b'9'

-- The base that the prefix names, 0 if none does, and the view behind the prefix.
unfoldable pub consume_base : Bytes → Run (ℕ × Bytes)
consume_base [] = ok (0, [])
consume_base str =
    if sv_starts_with str (b'0' ∷ b'x' ∷ [])
    then (do rest ← sv_offset_by str 2; ok (16, rest))
    else if sv_starts_with str (b'0' ∷ b'b' ∷ [])
    then (do rest ← sv_offset_by str 2; ok (2, rest))
    else if sv_starts_with str (b'0' ∷ [])
    then (do rest ← sv_offset_by str 1; ok (8, rest))
    else if first_in_one_nine str
    then ok (10, str)
    else ok (0, str)

-- The digit that a character stands for, in the body of the loop.
abbrev pub digit_of : ℕ → Option ℕ
digit_of c =
    if isdigit c
    then some (c - b'0')
    else if leb b'a' (tolower c) && leb (tolower c) b'f'
    then some (10 + tolower c - b'a')
    else none

-- The loop from `number` on; the product and the sum are those of u64.
unfoldable pub do_str_to_u64_unchecked : Bytes → ℕ → ℕ → Option ℕ
do_str_to_u64_unchecked [] base number = some number
do_str_to_u64_unchecked (c ∷ str) base number = elim (digit_of c) [
  | none ↦ none
  | some d ↦
      let next = (number * base + d) % u64_mod in
      let rest = do_str_to_u64_unchecked str base next in
      if next / base == number then rest else none
]

unfoldable pub do_str_to_u64 : Bytes → ℕ → Run (Option ℕ)
do_str_to_u64 str base = do
  (cb, rest) ← consume_base str
  ok (
      if base == 0 && cb == 0
      then none
      else do_str_to_u64_unchecked rest (if base == 0 then cb else base) 0)

-- The i64 of a pattern `w` is positive.
abbrev pub positive64 : ℕ → Bool
positive64 w = ltb 0 w && ltb w (2 ^ 63)

abbrev pub accept : (ℕ → Bool) → Option ℕ → Option ℕ
accept refuse none = none
accept refuse (some v) = if refuse v then none else some v

unfoldable pub str_to_i64_with_base : Bytes → ℕ → Run (Option ℕ)
str_to_i64_with_base str base =
    if sv_starts_with str (b'-' ∷ [])
    then (do
      rest ← sv_offset_by str 1
      ures ← do_str_to_u64 rest base
      ok (accept (λ u. positive64 (sub64 0 u)) ures))
    else (do
      rest ← if sv_starts_with str (b'+' ∷ []) then sv_offset_by str 1 else ok str
      ures ← do_str_to_u64 rest base
      ok (accept (λ u. ltb (2 ^ 63 - 1) u) ures))

unfoldable pub str_to_u64_with_base : Bytes → ℕ → Run (Option ℕ)
str_to_u64_with_base str base = do
  rest ← if sv_starts_with str (b'+' ∷ []) then sv_offset_by str 1 else ok str
  if sv_starts_with rest (b'-' ∷ []) then ok none else do_str_to_u64 rest base

-- `(uN)ures != ures`
abbrev pub narrow_u : ℕ → Run (Option ℕ) → Run (Option ℕ)
narrow_u m r = do ures ← r; ok (accept (λ u. if u % m == u then false else true) ures)

unfoldable pub str_to_u32_with_base : Bytes → ℕ → Run (Option ℕ)
str_to_u32_with_base str base = narrow_u (2 ^ 32) (str_to_u64_with_base str base)

unfoldable pub str_to_u16_with_base : Bytes → ℕ → Run (Option ℕ)
str_to_u16_with_base str base = narrow_u (2 ^ 16) (str_to_u64_with_base str base)

unfoldable pub str_to_u8_with_base : Bytes → ℕ → Run (Option ℕ)
str_to_u8_with_base str base = narrow_u (2 ^ 8) (str_to_u64_with_base str base)

-- The pattern of the i64 that the low bits of `w`, an iN with 2 ^ N = m, stand for.
abbrev pub sign_extend : ℕ → ℕ → ℕ
sign_extend m w = if ltb (w % m) (m / 2) then w % m else u64_mod - m + w % m

-- `(iN)ires != ires`
abbrev pub narrow_i : ℕ → Run (Option ℕ) → Run (Option ℕ)
narrow_i m r = do ires ← r; ok (accept (λ w. if sign_extend m w == w then false else true) ires)

unfoldable pub str_to_i32_with_base : Bytes → ℕ → Run (Option ℕ)
str_to_i32_with_base str base = narrow_i (2 ^ 32) (str_to_i64_with_base str base)

unfoldable pub str_to_i16_with_base : Bytes → ℕ → Run (Option ℕ)
str_to_i16_with_base str base = narrow_i (2 ^ 16) (str_to_i64_with_base str base)

unfoldable pub str_to_i8_with_base : Bytes → ℕ → Run (Option ℕ)
str_to_i8_with_base str base = narrow_i (2 ^ 8) (str_to_i64_with_base str base)
