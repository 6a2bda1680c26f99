-- ===== src/Filesystem/Guid.antt =====
-- loader/include/filesystem/guid.h, and the reading of a GUID's text in loader/filesystem/path.c.
pub mod Equal
use hyper.Base.{
  ℕ, ◌+◌, ◌*◌, Bool, true, false, ◌&&◌, ltb, ◌==◌, if◌then◌else◌, Option, none, some, List, [], ◌∷◌,
  length, take, Run, ok, panic, ◌>>=◌,
}
use hyper.Text.Ctype.{Bytes}
use hyper.Text.View.{sv_offset_by}
use hyper.Text.Convert.{str_to_u32_with_base, str_to_u16_with_base, str_to_u8_with_base}

pub record Guid : Type 0 where
  pub data1 : ℕ
  pub data2 : ℕ
  pub data3 : ℕ
  pub data4 : List ℕ

abbrev pub zero_guid : Guid
zero_guid = record { data1 = 0; data2 = 0; data3 = 0; data4 = 0 ∷ 0 ∷ 0 ∷ 0 ∷ 0 ∷ 0 ∷ 0 ∷ 0 ∷ [] }

unfoldable pub same_list : List ℕ → List ℕ → Bool
same_list [] [] = true
same_list [] (y ∷ ys) = false
same_list (x ∷ xs) [] = false
same_list (x ∷ xs) (y ∷ ys) = if x == y then same_list xs ys else false

-- guid_compare(lhs, rhs) == 0: the structure has no padding.
unfoldable pub guid_equal : Guid → Guid → Bool
guid_equal lhs rhs =
    (lhs.data1 == rhs.data1)
    && (lhs.data2 == rhs.data2)
    && (lhs.data3 == rhs.data3)
    && same_list lhs.data4 rhs.data4

-- CHARS_PER_GUID
abbrev pub chars_per_guid : ℕ
chars_per_guid = 36

-- The switch over the width; its default is BUG().
unfoldable pub part_value : Bytes → ℕ → Run (Option ℕ)
part_value str width =
    if width == 1
    then str_to_u8_with_base str 16
    else if width == 2
    then str_to_u16_with_base str 16
    else if width == 4
    then str_to_u32_with_base str 16
    else panic

-- The value and the view behind the part; `has_dash` is 1 or 0. The check of the length in
-- consume_guid is what keeps the part within the text.
unfoldable pub consume_guid_part : Bytes → ℕ → ℕ → Run (Option ℕ × Bytes)
consume_guid_part str width has_dash = do
  res ← part_value (take (2 * width) str) width
  rest ← sv_offset_by str (2 * width + has_dash)
  ok (res, rest)

-- The loop over data4 from index `i` on: the result, the view and those bytes afterwards.
unfoldable pub consume_bytes : ℕ → Bytes → List ℕ → Run (Bool × (Bytes × List ℕ))
unfolding consume_guid_part
consume_bytes i str [] = ok (true, (str, []))
consume_bytes i str (old ∷ data4) = do
  (value, rest) ← consume_guid_part str 1 (if i == 1 then 1 else 0)
  elim value [
    | none ↦ ok (false, (rest, old ∷ data4))
    | some v ↦ do (res, (end, tail)) ← consume_bytes (i + 1) rest data4; ok (res, (end, v ∷ tail))
  ]

-- The result, the view and the GUID afterwards: a failure leaves the parts read before it.
unfoldable pub consume_guid : Bytes → Guid → Run (Bool × (Bytes × Guid))
unfolding consume_guid_part consume_bytes
consume_guid str guid = if ltb (length str) chars_per_guid then ok (false, (str, guid)) else do
  (value1, str1) ← consume_guid_part str 4 1
  elim value1 [
    | none ↦ ok (false, (str1, guid))
    | some d1 ↦ do
      let guid1 = record guid { data1 = d1 }
      (value2, str2) ← consume_guid_part str1 2 1
      elim value2 [
        | none ↦ ok (false, (str2, guid1))
        | some d2 ↦ do
          let guid2 = record guid1 { data2 = d2 }
          (value3, str3) ← consume_guid_part str2 2 1
          elim value3 [
            | none ↦ ok (false, (str3, guid2))
            | some d3 ↦ do
              let guid3 = record guid2 { data3 = d3 }
              (res, (rest, bytes)) ← consume_bytes 0 str3 guid.data4
              ok (res, (rest, record guid3 { data4 = bytes }))
          ]
      ]
  ]
