-- ===== src/Text/Tests.antt =====
-- Views and numbers at concrete texts.
use hyper.Base.{ℕ, ◌<◌, ◌≡◌, refl, some, [], ◌∷◌, ok, Returns, arith}
use hyper.Text.Ctype.{Bytes}
use hyper.Text.View.{sv_starts_with, sv_find}
use hyper.Text.View.Find.{IsFirst, sv_find-IsFirst}
use hyper.Text.Convert.{do_str_to_u64_unchecked, do_str_to_u64, consume_base, str_to_i64_with_base}
use hyper.Text.View.{sv_offset_by}
use hyper.Text.Convert.Exact.{number_in, fits64, do_str_to_u64_unchecked_exact}
use hyper.Text.Convert.Prefix.{prefix_forms, hex_0b_lost, minus_dropped}

abbrev forty_two : Bytes
forty_two = b'4' ∷ b'2' ∷ []

sv_find-IsFirst_example :
    Returns
      (IsFirst (b'a' ∷ b'/' ∷ b'b' ∷ b'/' ∷ []) (b'/' ∷ []) 2)
      (sv_find (b'a' ∷ b'/' ∷ b'b' ∷ b'/' ∷ []) (b'/' ∷ []) 2)
sv_find-IsFirst_example = sv_find-IsFirst (b'a' ∷ b'/' ∷ b'b' ∷ b'/' ∷ []) b'/' [] 2 (omega arith)

do_str_to_u64_unchecked_exact_example :
    do_str_to_u64_unchecked forty_two 10 0 ≡ fits64 (number_in 10 0 forty_two)
do_str_to_u64_unchecked_exact_example =
    do_str_to_u64_unchecked_exact forty_two 10 0 (omega arith) (omega arith)

prefix_forms_example :
    (do_str_to_u64 (b'0' ∷ b'x' ∷ forty_two) 0 ≡ ok (fits64 (number_in 16 0 forty_two)))
    × (do_str_to_u64 (b'0' ∷ b'b' ∷ forty_two) 0 ≡ ok (fits64 (number_in 2 0 forty_two)))
prefix_forms_example = prefix_forms forty_two

-- 0b12 in base 16
hex_text : number_in 16 0 (b'0' ∷ b'b' ∷ b'1' ∷ b'2' ∷ []) ≡ some 2834
unfolding number_in
hex_text = refl

hex_0b_lost_example :
    (w : ℕ) × (do_str_to_u64 (b'0' ∷ b'b' ∷ b'1' ∷ b'2' ∷ []) 16 ≡ ok (some w)) × (w < 2834)
hex_0b_lost_example = hex_0b_lost (b'1' ∷ b'2' ∷ []) 2834 hex_text (omega arith)

five_parses : do_str_to_u64 (b'5' ∷ []) 10 ≡ ok (some 5)
unfolding do_str_to_u64 do_str_to_u64_unchecked consume_base sv_starts_with sv_offset_by
five_parses = refl

minus_dropped_example :
    (str_to_i64_with_base (b'-' ∷ b'5' ∷ []) 10 ≡ ok (some 5))
    × (str_to_i64_with_base (b'5' ∷ []) 10 ≡ ok (some 5))
minus_dropped_example =
    minus_dropped b'5' [] 10 5 (λ e. omega arith) (λ e. omega arith) five_parses (omega arith)
      (omega arith)
