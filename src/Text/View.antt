-- ===== src/Text/View.antt =====
-- loader/common/string_view.c and the inline functions of loader/include/common/string_view.h. A view is the
-- list of the bytes that it shows: `size` is its length, `text[i]` its element `i`.
pub mod Match
pub mod Find
use hyper.Base.{
  ℕ, zero, suc, ◌+◌, ◌-◌, Bool, true, false, ltb, ◌==◌, if◌then◌else◌, Option, none, some, [], ◌∷◌,
  length, drop, Run, ok, panic, bug_on, ◌>>◌,
}
use hyper.Text.Ctype.{Bytes, tolower}

abbrev pub sv_empty : Bytes → Bool
sv_empty [] = true
sv_empty (_ ∷ _) = false

unfoldable pub sv_offset_by : Bytes → ℕ → Run Bytes
sv_offset_by str value = do bug_on (ltb (length str) value); ok (drop value str)

-- sv_pop_one: the byte and the view after it, or nothing on an empty view.
unfoldable pub sv_pop_one : Bytes → Option ℕ × Bytes
sv_pop_one [] = (none, [])
sv_pop_one (c ∷ str) = (some c, str)

-- The loop that the comparisons share: `f(str.text[i]) != f(prefix.text[i])` for i below
-- `prefix.size`, which its callers have compared with `str.size`.
unfoldable pub same_bytes : (ℕ → ℕ) → Bytes → Bytes → Bool
same_bytes f str [] = true
same_bytes f [] (p ∷ prefix) = false
same_bytes f (c ∷ str) (p ∷ prefix) = if f c == f p then same_bytes f str prefix else false

unfoldable pub sv_equals : Bytes → Bytes → Bool
unfolding same_bytes
sv_equals lhs rhs = if length lhs == length rhs then same_bytes (λ c. c) lhs rhs else false

unfoldable pub sv_equals_caseless : Bytes → Bytes → Bool
unfolding same_bytes
sv_equals_caseless lhs rhs = if length lhs == length rhs then same_bytes tolower lhs rhs else false

unfoldable pub sv_starts_with : Bytes → Bytes → Bool
unfolding same_bytes
sv_starts_with str prefix =
    if ltb (length str) (length prefix)
    then false
    else if length prefix == 0
    then true
    else same_bytes (λ c. c) str prefix

unfoldable pub sv_starts_with_caseless : Bytes → Bytes → Bool
unfolding same_bytes
sv_starts_with_caseless str prefix =
    if ltb (length str) (length prefix)
    then false
    else if length prefix == 0
    then true
    else same_bytes tolower str prefix

-- The outer loop of sv_find: `n` rounds are left, `str` is the view from index `i`. Its first test
-- is on needle.text[0], its inner loop compares all of the needle from `i`.
unfoldable pub find_from : ℕ → ℕ → Bytes → Bytes → Option ℕ
unfolding same_bytes
find_from zero i str needle = none
find_from (suc n) i [] needle = none
find_from (suc n) i (c ∷ str) [] = some i
find_from (suc n) i (c ∷ str) (k ∷ needle) =
    let rest = find_from n (i + 1) str (k ∷ needle) in
    if c == k then if same_bytes (λ c. c) (c ∷ str) (k ∷ needle) then some i else rest else rest

-- `none` is the result -1.
unfoldable pub sv_find : Bytes → Bytes → ℕ → Run (Option ℕ)
unfolding find_from
sv_find str needle starting_at = do
  bug_on (ltb (length str) starting_at)
  let rounds = length str - length needle + 1 - starting_at
  ok (
      if ltb (length str - starting_at) (length needle)
      then none
      else if sv_empty needle
      then some 0
      else find_from rounds starting_at (drop starting_at str) needle)
