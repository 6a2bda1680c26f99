-- ===== src/Text/Convert/Prefix.antt =====
-- What prefixes and signs do to a number in loader/common/conversions.c.
use hyper.Base.{
  ℕ, ◌^◌, ◌<◌, ◌≡◌, ◌≢◌, refl, ap, ◌∙◌, true, false, some, [], ◌∷◌, u64_mod, arith, ok, lt→ltb,
}
use hyper.Text.Ctype.{Bytes}
use hyper.Text.View.{sv_starts_with}
use hyper.Text.View.Match.{sv_starts_with_iff}
use hyper.Text.Convert.{do_str_to_u64, consume_base, str_to_i64_with_base}
use hyper.Text.Convert.Exact.{number_in, number_in-less, fits64, do_str_to_u64_unchecked_exact}
use hyper.Text.Convert.Safe.{offset_ok, do_str_to_u64_lem}

consume_0x : (s : Bytes) → consume_base (b'0' ∷ b'x' ∷ s) ≡ ok (16, s)
unfolding consume_base
consume_0x s = rw (
  (sv_starts_with_iff (b'0' ∷ b'x' ∷ s) (b'0' ∷ b'x' ∷ [])).1 refl,
  offset_ok (b'0' ∷ b'x' ∷ s) 2 (omega arith),
)

not_0x : (c : ℕ) (s : Bytes) → c ≢ b'x' → sv_starts_with (b'0' ∷ c ∷ s) (b'0' ∷ b'x' ∷ []) ≡ false
unfolding sv_starts_with
not_0x c s h = ground arith

consume_0b : (s : Bytes) → consume_base (b'0' ∷ b'b' ∷ s) ≡ ok (2, s)
unfolding consume_base
consume_0b s = rw (
  not_0x b'b' s (omega arith),
  (sv_starts_with_iff (b'0' ∷ b'b' ∷ s) (b'0' ∷ b'b' ∷ [])).1 refl,
  offset_ok (b'0' ∷ b'b' ∷ s) 2 (omega arith),
)

-- Without an explicit base, 0x and 0b choose base 16 and 2 for the rest of the text, and the
-- result is the number that the rest writes down in that base, if it fits in a u64.
pub prefix_forms :
    (s : Bytes)
    → (do_str_to_u64 (b'0' ∷ b'x' ∷ s) 0 ≡ ok (fits64 (number_in 16 0 s)))
      × (do_str_to_u64 (b'0' ∷ b'b' ∷ s) 0 ≡ ok (fits64 (number_in 2 0 s)))
prefix_forms s = (
  do_str_to_u64_lem _ 0 16 s (consume_0x s)
      ∙ ap ok (do_str_to_u64_unchecked_exact s 16 0 (omega arith) (omega arith)),
  do_str_to_u64_lem _ 0 2 s (consume_0b s)
      ∙ ap ok (do_str_to_u64_unchecked_exact s 2 0 (omega arith) (omega arith)),
)

-- Where hexadecimal digits begin with 0b and write down a number that fits in a u64, the parse in
-- the explicit base 16 returns a smaller number.
pub hex_0b_lost :
    (s : Bytes) (v : ℕ)
    → number_in 16 0 (b'0' ∷ b'b' ∷ s) ≡ some v
    → v < u64_mod
    → (w : ℕ) × (do_str_to_u64 (b'0' ∷ b'b' ∷ s) 16 ≡ ok (some w)) × (w < v)
hex_0b_lost s v h small =
    let (w, e, less) =
      number_in-less 16 s 0 11 {v = v} (omega arith) (omega arith) (unfold number_in in h) in
    (
      w,
      do_str_to_u64_lem _ 16 2 s (consume_0b s)
          ∙ ap ok (
              do_str_to_u64_unchecked_exact s 16 0 (omega arith) (omega arith)
              ∙ ap fits64 e
              ∙ fits w (omega arith)),
      less,
    )
  where
    fits : (w : ℕ) → w < u64_mod → fits64 (some w) ≡ some w
    fits w p = rw (lt→ltb w u64_mod p)

starts_one : (c : ℕ) (s : Bytes) → sv_starts_with (c ∷ s) (c ∷ []) ≡ true
starts_one c s = (sv_starts_with_iff (c ∷ s) (c ∷ [])).1 refl

starts_other : (k c : ℕ) (s : Bytes) → c ≢ k → sv_starts_with (c ∷ s) (k ∷ []) ≡ false
unfolding sv_starts_with
starts_other k c s h = ground arith

-- A text that does not begin with a sign and parses to a number above 0 and below 2 ^ 63 parses to
-- that same positive i64 with a minus in front of it.
pub minus_dropped :
    (c : ℕ) (s : Bytes) (base v : ℕ)
    → c ≢ b'-'
    → c ≢ b'+'
    → do_str_to_u64 (c ∷ s) base ≡ ok (some v)
    → 0 < v
    → v < 2 ^ 63
    → (str_to_i64_with_base (b'-' ∷ c ∷ s) base ≡ ok (some v))
      × (str_to_i64_with_base (c ∷ s) base ≡ ok (some v))
unfolding str_to_i64_with_base
minus_dropped c s base v no_minus no_plus h pos small = (
  rw (starts_one b'-' (c ∷ s), offset_ok (b'-' ∷ c ∷ s) 1 (omega arith), h) (ground arith),
  rw (starts_other b'-' c s no_minus, starts_other b'+' c s no_plus, h) (ground arith),
)
