-- ===== src/Format/Print/Text.antt =====
-- The text that a format asks for in loader/common/format.c, without a buffer.
use hyper.Base.{
  ℕ, zero, suc, ◌-◌, Bool, ◌||◌, Option, none, some, List, [], ◌∷◌, ◌++◌, leb, if◌then◌else◌,
  length, sub64,
}
use hyper.Base.{Run, ok, stuck, ◌>>=◌}
use hyper.Text.Ctype.{Bytes}
use hyper.Format.{FmtSpec, repr_buffer_size, digits_loop, or_zero, with_prefix, is_negative}
use hyper.Format.Conversion.{Arg, Piece, one, many, Conversion, pieces, integer, Inner, directive}
use hyper.Format.Print.{find_next_conversion, spec_after, on_some, is_end}

unfoldable pub repeat : ℕ → ℕ → Bytes
repeat zero c = []
repeat (suc n) c = c ∷ repeat n c

unfoldable pub padding_text : FmtSpec → ℕ → Bytes
unfolding repeat
padding_text fm size =
    if leb fm.min_width size
    then []
    else repeat (fm.min_width - size) (if fm.left_justify then b' ' else fm.pad_char)

unfoldable pub sign_text : FmtSpec → Bool → Bytes
sign_text fm negative =
    if fm.prepend || negative then (if negative then b'-' else fm.prepend_char) ∷ [] else []

unfoldable pub repr_text : FmtSpec → Bytes → Bytes
unfolding padding_text
repr_text fm repr =
    if fm.left_justify
    then repr ++ padding_text fm (length repr)
    else padding_text fm (length repr) ++ repr

unfoldable pub integer_text : FmtSpec → ℕ → Run Bytes
unfolding digits_loop or_zero with_prefix sign_text repr_text
integer_text fm value = do
  let negative = is_negative fm value
  repr ← digits_loop fm repr_buffer_size (if negative then sub64 0 value else value) []
  ok (sign_text fm negative ++ repr_text fm (with_prefix fm (or_zero repr)))

unfoldable pub pieces_text : List Piece → Bytes
pieces_text [] = []
pieces_text (one c ∷ ps) = c ∷ pieces_text ps
pieces_text (many s ∷ ps) = s ++ pieces_text ps

unfoldable pub conversion_text : Conversion → Run Bytes
unfolding pieces_text integer_text
conversion_text (pieces ps) = ok (pieces_text ps)
conversion_text (integer fm v) = integer_text fm v

abbrev pub behind_text : Bytes → Option Bytes → Option Bytes
behind_text s none = none
behind_text s (some t) = some (s ++ t)

-- The literals and the conversions of the format, one behind the other; `none` is the result -1.
module _ (snprintf : Inner) where
  unfoldable pub format_text : ℕ → FmtSpec → Bytes → List Arg → Run (Option Bytes)
  unfolding find_next_conversion directive conversion_text spec_after
  format_text zero fm fmt args = stuck
  format_text (suc n) fm fmt args =
      let (literal, rest) = find_next_conversion fmt in
      if is_end rest then ok (some literal) else (do
        r ← directive snprintf fm rest args
        on_some r (λ c. do
          t ← conversion_text c.conversion
          more ← format_text n (spec_after c.conversion c.spec) c.fmt c.args
          ok (behind_text (literal ++ t) more)))
