-- ===== src/Format/Tests.antt =====
-- The formatted output at concrete formats.
use hyper.Base.{◌≡◌, refl, true, [], ◌∷◌, arith, inr, some, List}
use hyper.Base.{ok}
use hyper.Text.Ctype.{Bytes}
use hyper.Text.Convert.{str_to_u64_with_base, do_str_to_u64, do_str_to_u64_unchecked, consume_base}
use hyper.Text.View.{sv_starts_with}
use hyper.Format.{FmtBufState, write_many, write_integer}
use hyper.Format.Conversion.{Arg, arg_int, arg_string}
use hyper.Format.Print.{snprintf}
use hyper.Format.Digits.{plain_spec, write_integer-parse}

abbrev eight : Bytes
eight = 9 ∷ 9 ∷ 9 ∷ 9 ∷ 9 ∷ 9 ∷ 9 ∷ 9 ∷ []

-- abc%u
abbrev abc_format : Bytes
abc_format = b'a' ∷ b'b' ∷ b'c' ∷ b'%' ∷ b'u' ∷ []

abbrev one_number : List Arg
one_number = arg_int 123 ∷ []

abbrev empty_state : FmtBufState
empty_state = record { buffer = eight; capacity = 8; bytes_written = 0 }

write_integer-parse_example :
    (t : Bytes) × (write_integer empty_state (plain_spec 16 true) 48879
      ≡ ok (write_many empty_state t))
    × (str_to_u64_with_base t 16 ≡ ok (some 48879))
write_integer-parse_example =
    write_integer-parse empty_state 16 true 48879 (inr (inr refl)) (omega arith)

-- six bytes, the length of "abc123", of which four fit before the NUL byte
truncated_test :
    snprintf eight 5 abc_format one_number
    ≡ ok (some (6, b'a' ∷ b'b' ∷ b'c' ∷ b'1' ∷ 0 ∷ 9 ∷ 9 ∷ 9 ∷ []))
unfolding snprintf
truncated_test = refl

-- "%5s%d": the width of the string is used for the number
leaked_width_test :
    snprintf eight 8
      (b'%' ∷ b'5' ∷ b's' ∷ b'%' ∷ b'd' ∷ [])
      (arg_string (b'h' ∷ []) ∷ arg_int 1 ∷ [])
    ≡ ok (some (6, b'h' ∷ b' ' ∷ b' ' ∷ b' ' ∷ b' ' ∷ b'1' ∷ 0 ∷ 9 ∷ []))
unfolding snprintf str_to_u64_with_base sv_starts_with do_str_to_u64 consume_base
    do_str_to_u64_unchecked
leaked_width_test = refl

-- "%5d" of -42
negative_width_test :
    snprintf eight 8 (b'%' ∷ b'5' ∷ b'd' ∷ []) (arg_int 18446744073709551574 ∷ [])
    ≡ ok (some (6, b'-' ∷ b' ' ∷ b' ' ∷ b' ' ∷ b'4' ∷ b'2' ∷ 0 ∷ 9 ∷ []))
unfolding snprintf str_to_u64_with_base sv_starts_with do_str_to_u64 consume_base
    do_str_to_u64_unchecked
negative_width_test = refl
