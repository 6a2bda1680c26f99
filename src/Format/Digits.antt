-- ===== src/Format/Digits.antt =====
-- What write_integer of loader/common/format.c prints, against the parsers of loader/common/conversions.c.
use hyper.Base.{
  ℕ, zero, suc, ◌+◌, ◌*◌, ◌/◌, ◌%◌, ◌≤◌, ◌<◌, ◌≡◌, refl, sym, ap, ◌∙◌, ◌⊎◌, inl, inr, Bool, false,
  none, some, [], ◌∷◌, arith, ◌==◌, lt→ltb, Bool-cases, le→leb, ne→==, compare_cases, length,
  u64_mod,
}
use hyper.Base.{ok}
use native.Mathlib.Nat.{div-lt_iff_lt-mul, div-add-mod', mod-lt}
use hyper.Text.Ctype.{Bytes}
use hyper.Text.View.{sv_offset_by, sv_starts_with, same_bytes}
use hyper.Text.Convert.{
  digit_of, consume_base, do_str_to_u64, do_str_to_u64_unchecked, str_to_u64_with_base,
  first_in_one_nine,
}
use hyper.Text.Convert.Exact.{number_in, do_str_to_u64_unchecked_exact}
use hyper.Text.Convert.Safe.{do_str_to_u64_lem}
use hyper.Format.{
  FmtBufState, FmtSpec, write_many, hex_char, write_padding, repr_buffer_size, repr_of, digits_loop,
  or_zero, with_prefix, write_sign, write_repr, write_integer,
}

-- what `index` digits can hold
unfoldable room : ℕ → ℕ → ℕ
room base zero = 1
room base (suc index) = room base index * base

hex_digit : (upper : Bool) (d : ℕ) → d < 16 → digit_of (hex_char upper d) ≡ some d
unfolding hex_char
hex_digit upper d h = ground arith

dec_digit : (d : ℕ) → d < 10 → digit_of (d + b'0') ≡ some d
dec_digit d h = ground arith

number_in_step :
    (base acc c d : ℕ) (s : Bytes)
    → digit_of c ≡ some d
    → d < base
    → number_in base acc (c ∷ s) ≡ number_in base (acc * base + d) s
unfolding number_in
number_in_step base acc c d s e h = rw (e, number_in, lt→ltb d base h) refl

zero_digit : (c d : ℕ) → digit_of c ≡ some d → 0 < d → (c == b'0') ≡ false
zero_digit c d e h = ground arith

zero_quotient : (q b r n : ℕ) → q ≡ 0 → q * b + r ≡ n → r ≡ n
zero_quotient zero b r n z e = omega (arith, e)
zero_quotient (suc q) b r n z e = absurd (omega arith)

starts_no :
    (c p : ℕ) (t prefix : Bytes) → (c == p) ≡ false → sv_starts_with (c ∷ t) (p ∷ prefix) ≡ false
unfolding sv_starts_with same_bytes
starts_no c p t prefix h = ground arith

-- The first character is a digit above zero.
abbrev Leads : Bytes → Type 0
Leads s = (c : ℕ) × (t : Bytes) × (d : ℕ) × (s ≡ c ∷ t) × (digit_of c ≡ some d) × (0 < d)

module _ (fm : FmtSpec) (two : 1 < fm.base)
    (digits : (d : ℕ) → d < fm.base → digit_of (repr_of fm d) ≡ some d) where
  digits_loop-number :
      (index v : ℕ) (repr : Bytes)
      → v < room fm.base index
      → (s : Bytes) × (digits_loop fm index v repr ≡ ok s)
        × (number_in fm.base 0 s ≡ number_in fm.base v repr)
  unfolding digits_loop room
  digits_loop-number index zero repr h = (repr, refl, refl)
  digits_loop-number zero (suc v) repr h = absurd (omega arith)
  digits_loop-number (suc index) (suc v) repr h =
      let rest = suc v % fm.base in
      let small : rest < fm.base = mod-lt (suc v) (omega arith) in
      let quotient : suc v / fm.base < room fm.base index =
        (div-lt_iff_lt-mul {k = fm.base} {x = suc v} {y = room fm.base index} (omega arith)).1 h in
      let (s, e, same) =
        digits_loop-number index (suc v / fm.base) (repr_of fm rest ∷ repr) quotient in
      (
        s,
        e,
        same
            ∙ number_in_step fm.base (suc v / fm.base) (repr_of fm rest) rest repr
                (digits rest small) small
            ∙ ap (λ k. number_in fm.base k repr) (div-add-mod' (suc v) fm.base),
      )

  last_digit :
      (index q : ℕ) (repr s : Bytes) → q ≡ 0 → digits_loop fm index q repr ≡ ok s → repr ≡ s
  unfolding digits_loop
  last_digit index zero repr s z e = cc
  last_digit index (suc q) repr s z e = absurd (omega arith)

  digits_loop-Leads :
      (index v : ℕ) (repr s : Bytes) → 0 < v → digits_loop fm index v repr ≡ ok s → Leads s
  unfolding digits_loop
  digits_loop-Leads index zero repr s h e = absurd (omega arith)
  digits_loop-Leads zero (suc v) repr s h e = absurd cc
  digits_loop-Leads (suc index) (suc v) repr s h e =
      let q = suc v / fm.base in
      let rest = suc v % fm.base in
      let sum : q * fm.base + rest ≡ suc v = div-add-mod' (suc v) fm.base in
      elim (compare_cases 0 q) [
        | inl more ↦ digits_loop-Leads index q (repr_of fm rest ∷ repr) s more e
        | inr (inl none_left) ↦
            let same : repr_of fm rest ∷ repr ≡ s =
              last_digit index q (repr_of fm rest ∷ repr) s (sym none_left) e in
            let all : rest ≡ suc v = zero_quotient q fm.base rest (suc v) (sym none_left) sum in
            (
              repr_of fm rest,
              repr,
              rest,
              sym same,
              digits rest (mod-lt (suc v) (omega arith)),
              omega arith,
            )
        | inr (inr less) ↦ absurd (omega arith)
      ]

consume_base-Leads : (s : Bytes) → Leads s → (cb : ℕ) × (consume_base s ≡ ok (cb, s))
unfolding consume_base
consume_base-Leads s (c, t, d, e, digit, above) =
    let no = zero_digit c d digit above in
    let x = starts_no c b'0' t (b'x' ∷ []) no in
    let b = starts_no c b'0' t (b'b' ∷ []) no in
    let z = starts_no c b'0' t [] no in
    elim (Bool-cases (first_in_one_nine (c ∷ t))) [
      | inl h ↦ (10, rw (e, x, b, z, h) refl)
      | inr h ↦ (0, rw (e, x, b, z, h) refl)
    ]

no_sign :
    (c d p : ℕ) (t : Bytes)
    → digit_of c ≡ some d
    → digit_of p ≡ none
    → sv_starts_with (c ∷ t) (p ∷ []) ≡ false
no_sign c d p t digit sign =
    starts_no c p t [] (ne→== c p (λ e. let f : digit_of p ≡ some d = rw (← e) digit in cc))

Leads-parse :
    (base v : ℕ) (s : Bytes)
    → 0 < base
    → Leads s
    → number_in base 0 s ≡ some v
    → v < u64_mod
    → str_to_u64_with_base s base ≡ ok (some v)
unfolding str_to_u64_with_base
Leads-parse base v s pos leads number fits =
    let (cb, whole) = consume_base-Leads s leads in
    let (c, t, d, e, digit, above) = leads in
    let plus : sv_starts_with s (b'+' ∷ []) ≡ false = rw e (no_sign c d b'+' t digit refl) in
    let minus : sv_starts_with s (b'-' ∷ []) ≡ false = rw e (no_sign c d b'-' t digit refl) in
    let nonzero = ne→== base 0 (λ z. omega arith) in
    rw
      (
        plus,
        minus,
        do_str_to_u64_lem s base cb s whole,
        nonzero,
        do_str_to_u64_unchecked_exact s base 0 pos (omega arith),
        number,
        lt→ltb v u64_mod fits,
      )
      refl

zero-parse : (base : ℕ) → (base == 0) ≡ false → str_to_u64_with_base (b'0' ∷ []) base ≡ ok (some 0)
unfolding str_to_u64_with_base do_str_to_u64 consume_base sv_starts_with same_bytes
    do_str_to_u64_unchecked sv_offset_by
zero-parse base h = rw h refl

abbrev pub plain_spec : ℕ → Bool → FmtSpec
plain_spec base upper = record {
  is_signed = false;
  prepend = false;
  uppercase = upper;
  left_justify = false;
  alternate_form = false;
  pad_char = b' ';
  prepend_char = 0;
  min_width = 0;
  base = base;
}

abbrev pub IsBase : ℕ → Type 0
IsBase base = (base ≡ 8) ⊎ ((base ≡ 10) ⊎ (base ≡ 16))

plain_digits :
    (base : ℕ) (upper : Bool)
    → IsBase base
    → (d : ℕ) → d < base
    → digit_of (repr_of (plain_spec base upper) d) ≡ some d
unfolding repr_of
plain_digits base upper (inl e) d h = rw e (dec_digit d (omega arith))
plain_digits base upper (inr (inl e)) d h = rw e (dec_digit d (omega arith))
plain_digits base upper (inr (inr e)) d h = rw e (hex_digit upper d (omega arith))

room_enough : (base : ℕ) → IsBase base → u64_mod ≤ room base repr_buffer_size
unfolding room
room_enough base (inl e) = rw e (omega arith)
room_enough base (inr (inl e)) = rw e (omega arith)
room_enough base (inr (inr e)) = rw e (omega arith)

IsBase-pos : (base : ℕ) → IsBase base → 1 < base
IsBase-pos base b = omega arith

number_in_end : (base v : ℕ) → number_in base v [] ≡ some v
unfolding number_in
number_in_end base v = refl

Leads-or_zero : (s : Bytes) → Leads s → or_zero s ≡ s
unfolding or_zero
Leads-or_zero s (c, t, d, e, digit, above) = rw e refl

no_padding :
    (st : FmtBufState) (base : ℕ) (upper : Bool) (n : ℕ)
    → write_padding st (plain_spec base upper) n ≡ st
unfolding write_padding
no_padding st base upper n = rw (le→leb 0 n (omega arith)) refl

written :
    (st : FmtBufState) (base : ℕ) (upper : Bool) (v : ℕ) (s : Bytes)
    → digits_loop (plain_spec base upper) repr_buffer_size v [] ≡ ok s
    → or_zero s ≡ s
    → write_integer st (plain_spec base upper) v ≡ ok (write_many st s)
unfolding write_integer with_prefix write_sign write_repr
written st base upper v s e same =
    rw (e, same)
      (ap (λ (x : FmtBufState). ok (write_many x s)) (no_padding st base upper (length s)))

-- In base 8, 10 or 16 and without flags, write_integer writes a text for every u64 that
-- str_to_u64_with_base reads back as the same number.
pub write_integer-parse :
    (st : FmtBufState) (base : ℕ) (upper : Bool) (v : ℕ)
    → IsBase base
    → v < u64_mod
    → (t : Bytes) × (write_integer st (plain_spec base upper) v ≡ ok (write_many st t))
      × (str_to_u64_with_base t base ≡ ok (some v))
unfolding write_integer digits_loop or_zero with_prefix write_sign write_repr write_padding
write_integer-parse st base upper zero b fits =
    (b'0' ∷ [], refl, zero-parse base (ne→== base 0 (λ z. omega arith)))
write_integer-parse st base upper (suc v) b fits =
    let fm = plain_spec base upper in
    let two = IsBase-pos base b in
    let digits = plain_digits base upper b in
    let (s, e, same) =
      digits_loop-number fm two digits repr_buffer_size (suc v) []
        (omega (arith, room_enough base b)) in
    let num : number_in base (suc v) [] ≡ some (suc v) = number_in_end base (suc v) in
    let leads = digits_loop-Leads fm two digits repr_buffer_size (suc v) [] s (omega arith) e in
    (
      s,
      written st base upper (suc v) s e (Leads-or_zero s leads),
      Leads-parse base (suc v) s (omega arith) leads (same ∙ num) fits,
    )
