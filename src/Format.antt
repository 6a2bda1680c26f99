-- ===== src/Format.antt =====
-- loader/common/format.c: the writer with its capacity, and write_integer. The count of the bytes written is far
-- below 2 ^ 31, so neither its sum nor the `int` that vsnprintf returns is wrapped.
pub mod Conversion
pub mod Print
pub mod Digits
mod Tests
use hyper.Base.{
  ℕ, zero, suc, ◌+◌, ◌-◌, ◌/◌, ◌%◌, ◌^◌, Bool, true, false, ◌&&◌, ◌||◌, ltb, leb, ◌==◌,
  if◌then◌else◌, List, [], ◌∷◌, length, take, min, sub64, Run, ok, panic, ◌>>=◌,
}
use hyper.Text.Ctype.{Bytes}

-- `buffer` is the memory from the caller's pointer on.
pub record FmtBufState : Type 0 where
  pub buffer : Bytes
  pub capacity : ℕ
  pub bytes_written : ℕ

pub record FmtSpec : Type 0 where
  pub is_signed : Bool
  pub prepend : Bool
  pub uppercase : Bool
  pub left_justify : Bool
  pub alternate_form : Bool
  pub pad_char : ℕ
  pub prepend_char : ℕ
  pub min_width : ℕ
  pub base : ℕ

-- memcpy of `s` to the begin of a memory, and to its byte `i`
unfoldable pub put : Bytes → Bytes → Bytes
put [] mem = mem
put (c ∷ s) [] = []
put (c ∷ s) (b ∷ mem) = c ∷ put s mem

unfoldable pub put_at : Bytes → ℕ → Bytes → Bytes
unfolding put
put_at mem zero s = put s mem
put_at [] (suc i) s = []
put_at (b ∷ mem) (suc i) s = b ∷ put_at mem i s

unfoldable pub write_one : FmtBufState → ℕ → FmtBufState
unfolding put_at
write_one st c = record st {
  buffer =
      if ltb st.bytes_written st.capacity
      then put_at st.buffer st.bytes_written (c ∷ [])
      else st.buffer;
  bytes_written = st.bytes_written + 1;
}

unfoldable pub write_many : FmtBufState → Bytes → FmtBufState
unfolding put_at
write_many st string = record st {
  buffer =
      if ltb st.bytes_written st.capacity
      then put_at st.buffer st.bytes_written
          (take (min (length string) (st.capacity - st.bytes_written)) string)
      else st.buffer;
  bytes_written = st.bytes_written + length string;
}

-- set[value] for a value below 16
unfoldable pub hex_char : Bool → ℕ → ℕ
hex_char upper value =
    if ltb value 10 then b'0' + value else if upper then b'A' + value - 10 else b'a' + value - 10

unfoldable pub padding_loop : ℕ → FmtBufState → ℕ → FmtBufState
padding_loop zero st c = st
padding_loop (suc n) st c = padding_loop n (write_one st c) c

unfoldable pub write_padding : FmtBufState → FmtSpec → ℕ → FmtBufState
unfolding padding_loop
write_padding st fm repr_size =
    if leb fm.min_width repr_size
    then st
    else padding_loop (fm.min_width - repr_size) st (if fm.left_justify then b' ' else fm.pad_char)

abbrev pub repr_buffer_size : ℕ
repr_buffer_size = 32

unfoldable pub repr_of : FmtSpec → ℕ → ℕ
unfolding hex_char
repr_of fm remainder =
    if fm.base == 16
    then hex_char fm.uppercase remainder
    else if fm.base == 8 || fm.base == 10
    then remainder + b'0'
    else b'?'

-- The loop over the digits, from the last; `index` bytes of repr_buffer are left in front of `repr`.
unfoldable pub digits_loop : FmtSpec → ℕ → ℕ → Bytes → Run Bytes
unfolding repr_of
digits_loop fm index zero repr = ok repr
digits_loop fm zero (suc v) repr = panic
digits_loop fm (suc index) (suc v) repr =
    digits_loop fm index (suc v / fm.base) (repr_of fm (suc v % fm.base) ∷ repr)

unfoldable pub or_zero : Bytes → Bytes
or_zero [] = b'0' ∷ []
or_zero repr = repr

unfoldable pub with_prefix : FmtSpec → Bytes → Bytes
with_prefix fm repr =
    if fm.alternate_form
    then (if fm.base == 16
        then b'0' ∷ (if fm.uppercase then b'X' else b'x') ∷ repr
        else if fm.base == 8
        then b'0' ∷ repr
        else repr)
    else repr

-- as_ll < 0
abbrev pub is_negative : FmtSpec → ℕ → Bool
is_negative fm value = fm.is_signed && leb (2 ^ 63) value

unfoldable pub write_sign : FmtBufState → FmtSpec → Bool → FmtBufState
unfolding write_one
write_sign st fm negative =
    if fm.prepend || negative then write_one st (if negative then b'-' else fm.prepend_char) else st

unfoldable pub write_repr : FmtBufState → FmtSpec → Bytes → FmtBufState
unfolding write_many write_padding
write_repr st fm repr =
    if fm.left_justify
    then write_padding (write_many st repr) fm (length repr)
    else write_many (write_padding st fm (length repr)) repr

unfoldable pub write_integer : FmtBufState → FmtSpec → ℕ → Run FmtBufState
unfolding digits_loop or_zero with_prefix write_sign write_repr
write_integer st fm value = do
  let negative = is_negative fm value
  let magnitude = if negative then sub64 0 value else value
  repr ← digits_loop fm repr_buffer_size magnitude []
  ok (write_repr (write_sign st fm negative) fm (with_prefix fm (or_zero repr)))
