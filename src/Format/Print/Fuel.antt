-- ===== src/Format/Print/Fuel.antt =====
-- The fuel of the loop of vsnprintf in loader/common/format.c: a round for each character of the format, and one more.
use hyper.Base.{
  ℕ, zero, suc, ◌-◌, ◌≤◌, ◌<◌, ◌≡◌, refl, ap, inl, inr, false, Option, none, some, List, [], ◌∷◌,
  ◌++◌, arith, ◌==◌, Bool-cases, length,
}
use hyper.Base.{Run, ok, panic, stuck, ◌>>=◌}
use hyper.Text.Ctype.{Bytes}
use hyper.Format.{FmtSpec}
use hyper.Format.Conversion.{Arg, Converted, Inner, directive}
use hyper.Format.Print.{find_next_conversion, spec_after, on_some, is_end, snprintf}
use hyper.Format.Print.Text.{conversion_text, behind_text, format_text}
use hyper.Format.Print.Within.{Within, weaken-Within, directive-Within}

find-le : (fmt : Bytes) → length (find_next_conversion fmt).1 ≤ length fmt
unfolding find_next_conversion
find-le [] = omega arith
find-le (c ∷ fmt) = elim (Bool-cases (c == b'%')) [
  | inl percent ↦ rw percent (omega arith)
  | inr other ↦ rw other (omega (arith, find-le fmt))
]

same_rest :
    (n : ℕ) (r : Run (Option Converted)) (f g : Converted → Run (Option Bytes))
    → Within n r
    → ((c : Converted) → length c.fmt ≤ n → f c ≡ g c)
    → (do x ← r; on_some x f) ≡ (do x ← r; on_some x g)
same_rest n (ok none) f g h same = refl
same_rest n (ok (some c)) f g h same = same c h
same_rest n panic f g h same = refl
same_rest n stuck f g h same = refl

directive-shrinks :
    (snprintf : Inner) (fm : FmtSpec) (rest : Bytes) (args : List Arg)
    → is_end rest ≡ false
    → Within (length rest - 1) (directive snprintf fm rest args)
directive-shrinks snprintf fm [] args h = absurd cc
directive-shrinks snprintf fm (c ∷ rest) args h =
    weaken-Within (length rest) (length (c ∷ rest) - 1) (directive snprintf fm (c ∷ rest) args)
      (omega arith) (directive-Within snprintf fm c rest args)

not_end : (s : Bytes) → is_end s ≡ false → 0 < length s
not_end [] h = absurd cc
not_end (c ∷ s) h = omega arith

below :
    (fmt : Bytes) (n rest : ℕ)
    → is_end (find_next_conversion fmt).1 ≡ false
    → rest ≤ length (find_next_conversion fmt).1 - 1
    → length fmt < suc n
    → rest < n
below fmt n rest more le h =
    let some_left = not_end (find_next_conversion fmt).1 more in
    let found = find-le fmt in omega arith

-- With fuel for more rounds than the format has characters, the text does not depend on the fuel.
pub fuel_enough :
    (snprintf : Inner) (n m : ℕ) (fm : FmtSpec) (fmt : Bytes) (args : List Arg)
    → length fmt < n
    → length fmt < m
    → format_text snprintf n fm fmt args ≡ format_text snprintf m fm fmt args
unfolding format_text
fuel_enough snprintf zero m fm fmt args hn hm = absurd (omega arith)
fuel_enough snprintf (suc n) zero fm fmt args hn hm = absurd (omega arith)
fuel_enough snprintf (suc n) (suc m) fm fmt args hn hm =
    let found = find_next_conversion fmt in
    elim (Bool-cases (is_end found.1)) [
      | inl last ↦ rw last refl
      | inr more ↦
          let shrinks = directive-shrinks snprintf fm found.1 args more in
          rw more (
            same_rest (length found.1 - 1) (directive snprintf fm found.1 args) _ _ shrinks (λ c le.
              ap
                (λ (next : Run (Option Bytes)). do
                  t ← conversion_text c.conversion
                  more ← next
                  ok (behind_text (found.0 ++ t) more))
                (fuel_enough snprintf n m (spec_after c.conversion c.spec) c.fmt c.args
                  (below fmt n (length c.fmt) more le hn) (below fmt m (length c.fmt) more le hm))))
    ]
