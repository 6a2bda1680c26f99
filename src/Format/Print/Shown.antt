-- ===== src/Format/Print/Shown.antt =====
-- The writer of loader/common/format.c against the text that a format asks for.
use hyper.Base.{
  ℕ, zero, suc, ◌-◌, ◌≤◌, min, ◌≡◌, refl, sym, ap, ◌∙◌, inl, inr, Bool, true, false, ◌||◌, Option,
  none, some, List, [], ◌∷◌, ◌++◌, arith, ltb, leb, if◌then◌else◌, ltb→lt, ltb→le, Bool-cases,
  length, take, length-append, sub64,
}
use hyper.Base.{Run, ok, panic, stuck, ◌>>=◌}
use mathlib.Core.List.{append_assoc, append-nil}
use hyper.Text.Ctype.{Bytes}
use hyper.Format.{
  FmtBufState, FmtSpec, put, put_at, write_one, write_many, padding_loop, write_padding,
  repr_buffer_size, digits_loop, or_zero, with_prefix, is_negative, write_sign, write_repr,
  write_integer,
}
use hyper.Format.Conversion.{
  Arg, Piece, one, many, Conversion, pieces, integer, Converted, Inner, directive,
}
use hyper.Format.Print.{
  find_next_conversion, write_pieces, perform, spec_after, write_literal, on_some, is_end,
  print_loop, snprintf,
}
use hyper.Format.Print.Text.{
  repeat, padding_text, sign_text, repr_text, integer_text, pieces_text, conversion_text,
  behind_text, format_text,
}

take-append : (n : ℕ) (xs ys : Bytes) → take n (xs ++ ys) ≡ take n xs ++ take (n - length xs) ys
take-append zero xs ys = let e : 0 - length xs ≡ 0 = omega arith in rw e refl
take-append (suc n) [] ys = let e : suc n - 0 ≡ suc n = omega arith in rw e refl
take-append (suc n) (x ∷ xs) ys =
    let e : suc n - suc (length xs) ≡ n - length xs = omega arith in
    rw e (ap (λ r. x ∷ r) (take-append n xs ys))

take-min : (k : ℕ) (xs : Bytes) → take (min (length xs) k) xs ≡ take k xs
take-min zero xs = let e : min (length xs) 0 ≡ 0 = omega arith in rw e refl
take-min (suc k) [] = let e : min 0 (suc k) ≡ 0 = omega arith in rw e refl
take-min (suc k) (x ∷ xs) =
    let e : min (suc (length xs)) (suc k) ≡ suc (min (length xs) k) = omega arith in
    rw e (ap (λ r. x ∷ r) (take-min k xs))

pub take_all : (n : ℕ) (xs : Bytes) → length xs ≤ n → take n xs ≡ xs
take_all zero [] h = refl
take_all zero (x ∷ xs) h = absurd (omega arith)
take_all (suc n) [] h = refl
take_all (suc n) (x ∷ xs) h = ap (λ r. x ∷ r) (take_all n xs (omega arith))

pub put-append : (a s mem : Bytes) → put (a ++ s) mem ≡ put_at (put a mem) (length a) s
unfolding put put_at
put-append [] s mem = refl
put-append (c ∷ a) s [] = refl
put-append (c ∷ a) s (b ∷ mem) = ap (λ r. c ∷ r) (put-append a s mem)

-- the writer after `out`
abbrev pub shown : Bytes → ℕ → Bytes → FmtBufState
shown buf size out = record {
  buffer = put (take size out) buf;
  capacity = size;
  bytes_written = length out;
}

one_many : (st : FmtBufState) (c : ℕ) → write_one st c ≡ write_many st (c ∷ [])
unfolding write_one write_many
one_many st c = elim (Bool-cases (ltb st.bytes_written st.capacity)) [
  | inl room ↦
      let lt = ltb→lt st.bytes_written st.capacity room in
      let e : min 1 (st.capacity - st.bytes_written) ≡ 1 = omega arith in rw (room, e) refl
  | inr full ↦ rw full refl
]

-- a run of the writer behind `out`, by the text that is to come
abbrev pub then_shown : Bytes → ℕ → Bytes → Run (Option Bytes) → Run (Option FmtBufState)
then_shown buf size out (ok none) = ok none
then_shown buf size out (ok (some t)) = ok (some (shown buf size (out ++ t)))
then_shown buf size out panic = panic
then_shown buf size out stuck = stuck

module _ (buf : Bytes) (size : ℕ) where
  write_many-shown : (out s : Bytes) → write_many (shown buf size out) s ≡ shown buf size (out ++ s)
  unfolding write_many
  write_many-shown out s = elim (Bool-cases (ltb (length out) size)) [
    | inl room ↦
        let lt = ltb→lt (length out) size room in
        let all = take_all size out (omega arith) in
        rw
          (
            room,
            length-append out s,
            take-append size out s,
            all,
            take-min (size - length out) s,
            put-append out (take (size - length out) s) buf,
          )
          refl
    | inr full ↦
        let le = ltb→le (length out) size full in
        let none_left : size - length out ≡ 0 = omega arith in
        rw
          (full, length-append out s, take-append size out s, none_left, append-nil (take size out))
          refl
  ]

  write_one-shown :
      (out : Bytes) (c : ℕ) → write_one (shown buf size out) c ≡ shown buf size (out ++ c ∷ [])
  unfolding write_one
  write_one-shown out c = one_many (shown buf size out) c ∙ write_many-shown out (c ∷ [])

  padding_loop-shown :
      (n : ℕ) (out : Bytes) (c : ℕ)
      → padding_loop n (shown buf size out) c ≡ shown buf size (out ++ repeat n c)
  unfolding padding_loop repeat
  padding_loop-shown zero out c = ap (shown buf size) (sym (append-nil out))
  padding_loop-shown (suc n) out c =
      ap (λ (st : FmtBufState). padding_loop n st c) (write_one-shown out c)
      ∙ (padding_loop-shown n (out ++ c ∷ []) c
          ∙ ap (shown buf size) (append_assoc out (c ∷ []) (repeat n c)))

  padding-shown :
      (out : Bytes) (fm : FmtSpec) (n : ℕ)
      → write_padding (shown buf size out) fm n ≡ shown buf size (out ++ padding_text fm n)
  unfolding write_padding padding_text
  padding-shown out fm n = elim (Bool-cases (leb fm.min_width n)) [
    | inl wide ↦ rw wide (ap (shown buf size) (sym (append-nil out)))
    | inr short ↦ rw short (padding_loop-shown _ out _)
  ]

  sign-shown :
      (out : Bytes) (fm : FmtSpec) (negative : Bool)
      → write_sign (shown buf size out) fm negative ≡ shown buf size (out ++ sign_text fm negative)
  unfolding write_sign sign_text
  sign-shown out fm negative = elim (Bool-cases (fm.prepend || negative)) [
    | inl sign ↦ rw sign (write_one-shown out _)
    | inr plain ↦ rw plain (ap (shown buf size) (sym (append-nil out)))
  ]

  choose-shown :
      (b : Bool) (out : Bytes) (x y : FmtBufState) (t u : Bytes)
      → x ≡ shown buf size (out ++ t)
      → y ≡ shown buf size (out ++ u)
      → (if b then x else y) ≡ shown buf size (out ++ (if b then t else u))
  choose-shown true out x y t u hx hy = hx
  choose-shown false out x y t u hx hy = hy

  repr-shown :
      (out : Bytes) (fm : FmtSpec) (repr : Bytes)
      → write_repr (shown buf size out) fm repr ≡ shown buf size (out ++ repr_text fm repr)
  unfolding write_repr repr_text
  repr-shown out fm repr =
      choose-shown fm.left_justify out _ _ (repr ++ padding_text fm (length repr))
        (padding_text fm (length repr) ++ repr)
        (ap (λ (st : FmtBufState). write_padding st fm (length repr)) (write_many-shown out repr)
          ∙ padding-shown (out ++ repr) fm (length repr)
          ∙ ap (shown buf size) (append_assoc out repr (padding_text fm (length repr))))
        (ap (λ (st : FmtBufState). write_many st repr) (padding-shown out fm (length repr))
          ∙ write_many-shown (out ++ padding_text fm (length repr)) repr
          ∙ ap (shown buf size) (append_assoc out (padding_text fm (length repr)) repr))

  pieces-shown :
      (out : Bytes) (ps : List Piece)
      → write_pieces (shown buf size out) ps ≡ shown buf size (out ++ pieces_text ps)
  unfolding write_pieces pieces_text
  pieces-shown out [] = ap (shown buf size) (sym (append-nil out))
  pieces-shown out (one c ∷ ps) =
      ap (λ (st : FmtBufState). write_pieces st ps) (write_one-shown out c)
      ∙ pieces-shown (out ++ c ∷ []) ps
      ∙ ap (shown buf size) (append_assoc out (c ∷ []) (pieces_text ps))
  pieces-shown out (many t ∷ ps) =
      ap (λ (st : FmtBufState). write_pieces st ps) (write_many-shown out t)
      ∙ pieces-shown (out ++ t) ps
      ∙ ap (shown buf size) (append_assoc out t (pieces_text ps))

  integer-shown :
      (out : Bytes) (fm : FmtSpec) (v : ℕ)
      → write_integer (shown buf size out) fm v
        ≡ (do t ← integer_text fm v; ok (shown buf size (out ++ t)))
  unfolding write_integer integer_text
  integer-shown out fm v =
      by_repr (digits_loop fm repr_buffer_size (if is_negative fm v then sub64 0 v else v) [])
    where
      by_repr :
          (r : Run Bytes)
          → (do
            repr ← r
            ok (
                write_repr
                  (write_sign (shown buf size out) fm (is_negative fm v))
                  fm
                  (with_prefix fm (or_zero repr))))
            ≡ (do
              t ← (do
                repr ← r
                ok (
                    sign_text fm (is_negative fm v)
                    ++ repr_text fm (with_prefix fm (or_zero repr))))
              ok (shown buf size (out ++ t)))
      by_repr (ok repr) = ap ok (
          ap (λ (st : FmtBufState). write_repr st fm (with_prefix fm (or_zero repr)))
            (sign-shown out fm (is_negative fm v))
          ∙ repr-shown (out ++ sign_text fm (is_negative fm v)) fm (with_prefix fm (or_zero repr))
          ∙ ap (shown buf size) (append_assoc out (sign_text fm (is_negative fm v)) _))
      by_repr panic = refl
      by_repr stuck = refl

  perform-shown :
      (out : Bytes) (c : Conversion)
      → perform (shown buf size out) c ≡ (do t ← conversion_text c; ok (shown buf size (out ++ t)))
  unfolding perform conversion_text
  perform-shown out (pieces ps) = ap ok (pieces-shown out ps)
  perform-shown out (integer fm v) = integer-shown out fm v

  literal-shown :
      (out literal : Bytes)
      → write_literal (shown buf size out) literal ≡ shown buf size (out ++ literal)
  unfolding write_literal
  literal-shown out [] = ap (shown buf size) (sym (append-nil out))
  literal-shown out (c ∷ literal) = write_many-shown out (c ∷ literal)

  bind_shown :
      (out : Bytes) (m : Run Bytes) (loop : FmtBufState → Run (Option FmtBufState))
      → (do st ← (do t ← m; ok (shown buf size (out ++ t))); loop st)
        ≡ (do t ← m; loop (shown buf size (out ++ t)))
  bind_shown out (ok t) loop = refl
  bind_shown out panic loop = refl
  bind_shown out stuck loop = refl

  -- from a conversion to what follows it
  text-shown :
      (out literal : Bytes) (m : Run Bytes) (next : Run (Option Bytes))
      (loop : Bytes → Run (Option FmtBufState))
      → ((o : Bytes) → loop o ≡ then_shown buf size o next)
      → (do t ← m; loop ((out ++ literal) ++ t))
        ≡ then_shown buf size out (do t ← m; more ← next; ok (behind_text (literal ++ t) more))
  text-shown out literal panic next loop h = refl
  text-shown out literal stuck next loop h = refl
  text-shown out literal (ok t) panic loop h = h _
  text-shown out literal (ok t) stuck loop h = h _
  text-shown out literal (ok t) (ok none) loop h = h _
  text-shown out literal (ok t) (ok (some more)) loop h =
      h _
      ∙ ap (λ o. ok (some (shown buf size o)))
          (append_assoc (out ++ literal) t more
            ∙ append_assoc out literal (t ++ more)
            ∙ ap (λ r. out ++ r) (sym (append_assoc literal t more)))

  -- a conversion behind a literal, given what holds of the loop behind it
  converted-shown :
      (out literal : Bytes) (c : Conversion) (next : Run (Option Bytes))
      (loop : FmtBufState → Run (Option FmtBufState))
      → ((o : Bytes) → loop (shown buf size o) ≡ then_shown buf size o next)
      → (do st ← perform (write_literal (shown buf size out) literal) c; loop st)
        ≡ then_shown buf size out
            (do t ← conversion_text c; more ← next; ok (behind_text (literal ++ t) more))
  converted-shown out literal c next loop h =
      ap (λ (st : FmtBufState). perform st c >>= loop) (literal-shown out literal)
      ∙ ap (λ (m : Run FmtBufState). m >>= loop) (perform-shown (out ++ literal) c)
      ∙ bind_shown (out ++ literal) (conversion_text c) loop
      ∙ text-shown out literal (conversion_text c) next (λ o. loop (shown buf size o)) h

  directive-shown :
      (out literal : Bytes) (r : Run (Option Converted)) (next : Converted → Run (Option Bytes))
      (loop : Converted → FmtBufState → Run (Option FmtBufState))
      → ((c : Converted) (o : Bytes) → loop c (shown buf size o) ≡ then_shown buf size o (next c))
      → (do
        x ← r
        on_some x (λ c. do
          st ← perform (write_literal (shown buf size out) literal) c.conversion
          loop c st))
        ≡ then_shown buf size out (do
          x ← r
          on_some x (λ c. do
            t ← conversion_text c.conversion
            more ← next c
            ok (behind_text (literal ++ t) more)))
  directive-shown out literal panic next loop h = refl
  directive-shown out literal stuck next loop h = refl
  directive-shown out literal (ok none) next loop h = refl
  directive-shown out literal (ok (some c)) next loop h =
      converted-shown out literal c.conversion (next c) (loop c) (h c)

  pub loop-shown :
      (snprintf : Inner) (n : ℕ) (out : Bytes) (fm : FmtSpec) (fmt : Bytes) (args : List Arg)
      → print_loop snprintf n (shown buf size out) fm fmt args
        ≡ then_shown buf size out (format_text snprintf n fm fmt args)
  unfolding print_loop format_text
  loop-shown snprintf zero out fm fmt args = refl
  loop-shown snprintf (suc n) out fm fmt args =
      elim (Bool-cases (is_end (find_next_conversion fmt).1)) [
        | inl last ↦ rw last (
            ap (λ (st : FmtBufState). ok (some st))
              (literal-shown out (find_next_conversion fmt).0))
        | inr more ↦ rw more (
            directive-shown out (find_next_conversion fmt).0
              (directive snprintf fm (find_next_conversion fmt).1 args)
              (λ c. format_text snprintf n (spec_after c.conversion c.spec) c.fmt c.args)
              (λ c st. print_loop snprintf n st (spec_after c.conversion c.spec) c.fmt c.args)
              (λ c o. loop-shown snprintf n o (spec_after c.conversion c.spec) c.fmt c.args))
      ]
