-- ===== src/Format/Print.antt =====
-- vsnprintf of loader/common/format.c. Its result -1 is `none`; an argument of another type than the conversion
-- asks for is `stuck`.
pub mod Text
pub mod Shown
pub mod Truncates
pub mod Within
pub mod Fuel
use hyper.Base.{
  ℕ, zero, suc, ◌+◌, ◌-◌, Bool, true, false, ◌==◌, ltb, if◌then◌else◌, Option, none, some, List, [],
  ◌∷◌, length, min, Run, ok, stuck, ◌>>=◌,
}
use hyper.Text.Ctype.{Bytes}
use hyper.Format.{FmtBufState, FmtSpec, put_at, write_one, write_many, write_integer}
use hyper.Format.Conversion.{
  Arg, Piece, one, many, Conversion, pieces, integer, Converted, Inner, directive,
}

abbrev pub default_spec : FmtSpec
default_spec = record {
  is_signed = false;
  prepend = false;
  uppercase = false;
  left_justify = false;
  alternate_form = false;
  pad_char = b' ';
  prepend_char = 0;
  min_width = 0;
  base = 10;
}

-- what stands in front of the next '%', and the rest from it on
unfoldable pub find_next_conversion : Bytes → Bytes × Bytes
find_next_conversion [] = ([], [])
find_next_conversion (c ∷ fmt) =
    let (literal, rest) = find_next_conversion fmt in
    if c == b'%' then ([], c ∷ fmt) else (c ∷ literal, rest)

unfoldable pub write_pieces : FmtBufState → List Piece → FmtBufState
unfolding write_one write_many
write_pieces st [] = st
write_pieces st (one c ∷ ps) = write_pieces (write_one st c) ps
write_pieces st (many s ∷ ps) = write_pieces (write_many st s) ps

unfoldable pub perform : FmtBufState → Conversion → Run FmtBufState
unfolding write_pieces write_integer
perform st (pieces ps) = ok (write_pieces st ps)
perform st (integer fm v) = write_integer st fm v

-- Only an integer takes the flags back to their defaults.
unfoldable pub spec_after : Conversion → FmtSpec → FmtSpec
spec_after (pieces ps) fm = fm
spec_after (integer fm' v) fm = default_spec

unfoldable pub write_literal : FmtBufState → Bytes → FmtBufState
unfolding write_many
write_literal st [] = st
write_literal st (c ∷ literal) = write_many st (c ∷ literal)

-- -1 goes to the caller.
abbrev pub on_some : {A B : Type 0} → Option A → (A → Run (Option B)) → Run (Option B)
on_some none next = ok none
on_some (some a) next = next a

abbrev pub is_end : Bytes → Bool
is_end [] = true
is_end (c ∷ fmt) = false

module _ (snprintf : Inner) where
  unfoldable pub print_loop :
      ℕ → FmtBufState → FmtSpec → Bytes → List Arg → Run (Option FmtBufState)
  unfolding find_next_conversion write_literal directive perform spec_after
  print_loop zero st fm fmt args = stuck
  print_loop (suc n) st fm fmt args =
      let (literal, rest) = find_next_conversion fmt in
      let written = write_literal st literal in
      if is_end rest then ok (some written) else (do
        r ← directive snprintf fm rest args
        on_some r (λ c. do
          st' ← perform written c.conversion
          print_loop n st' (spec_after c.conversion c.spec) c.fmt c.args))

  -- the NUL byte at the end
  unfoldable pub terminate : FmtBufState → Bytes
  unfolding put_at
  terminate st =
      if st.capacity == 0
      then st.buffer
      else put_at st.buffer (min st.bytes_written (st.capacity - 1)) (0 ∷ [])

  -- the returned length, and the memory behind `buffer`
  unfoldable pub vsnprintf : Bytes → ℕ → Bytes → List Arg → Run (Option (ℕ × Bytes))
  unfolding print_loop terminate
  vsnprintf buffer capacity fmt args = do
    r ←
        print_loop (suc (length fmt))
          (record { buffer = buffer; capacity = capacity; bytes_written = 0 }) default_spec fmt args
    on_some r (λ st. ok (some (st.bytes_written, terminate st)))

  -- vscnprintf: the length without what did not fit
  unfoldable pub vscnprintf : Bytes → ℕ → Bytes → List Arg → Run (Option (ℕ × Bytes))
  unfolding vsnprintf
  vscnprintf buffer capacity fmt args = do
    r ← vsnprintf buffer capacity fmt args
    on_some r (λ out. ok (
        some
          (if ltb out.0 capacity then out.0 else if capacity == 0 then 0 else capacity - 1, out.1)))

-- a local buffer, whose bytes are not yet written
abbrev blank : ℕ → Bytes
blank zero = []
blank (suc n) = 0 ∷ blank n

-- The formats of %pIP4 and %pGUID have no conversion of these kinds in turn.
abbrev no_inner : Inner
no_inner size fmt args = stuck

unfoldable pub inner_snprintf : Inner
unfolding vsnprintf
inner_snprintf size fmt args = vsnprintf no_inner (blank size) size fmt args

unfoldable pub snprintf : Bytes → ℕ → Bytes → List Arg → Run (Option (ℕ × Bytes))
unfolding vsnprintf inner_snprintf
snprintf buffer capacity fmt args = vsnprintf inner_snprintf buffer capacity fmt args

unfoldable pub scnprintf : Bytes → ℕ → Bytes → List Arg → Run (Option (ℕ × Bytes))
unfolding vscnprintf inner_snprintf
scnprintf buffer capacity fmt args = vscnprintf inner_snprintf buffer capacity fmt args
