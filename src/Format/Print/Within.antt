-- ===== src/Format/Print/Within.antt =====
-- How much of the format a conversion of loader/common/format.c leaves.
use hyper.Base.{
  ℕ, ◌-◌, ◌^◌, ◌≤◌, ◌≡◌, refl, inl, inr, Bool, true, false, ◌||◌, Option, none, some, List, [], ◌∷◌,
  arith, ltb, if◌then◌else◌, Bool-cases, length, drop, length-drop, u64_mod,
}
use hyper.Base.{Run, ok, panic, stuck, ◌>>=◌}
use hyper.Text.Ctype.{Bytes}
use hyper.Format.{FmtSpec}
use hyper.Format.Conversion.{
  of_pieces, Arg, arg_int, arg_string, arg_ip, arg_guid, Piece, consume, is_flag, set_flag,
  flags_loop, consume_digits, with_width, Converted, convert_integer, Inner, ip_pieces, guid_pieces,
  convert_char, convert_string, convert_ip, convert_guid, convert_address, or_else, convert_pointer,
  convert, convert_flagged, directive,
}

-- At most `n` characters are left of the format.
abbrev pub Within : ℕ → Run (Option Converted) → Type 0
Within n (ok none) = Unit
Within n (ok (some c)) = length c.fmt ≤ n
Within n panic = Unit
Within n stuck = Unit

or_else-Within :
    (n : ℕ) (o : Option Bytes) (k : Bytes → Run (Option Converted)) (other : Run (Option Converted))
    → ((rest : Bytes) → o ≡ some rest → Within n (k rest))
    → Within n other
    → Within n (or_else o k other)
or_else-Within n none k other h g = g
or_else-Within n (some rest) k other h g = h rest refl

drop_of :
    (b : Bool) (n : ℕ) (s rest : Bytes)
    → (if b then some (drop n s) else none) ≡ some rest
    → length rest ≤ length s - n
drop_of true n s rest e =
    let same : drop n s ≡ rest = cc in rw (← same) (omega (arith, length-drop n s))
drop_of false n s rest e = absurd cc

consume-le :
    (s token rest : Bytes) → consume s token ≡ some rest → length rest ≤ length s - length token
unfolding consume
consume-le s token rest e = drop_of _ (length token) s rest e

pub weaken-Within : (n m : ℕ) (r : Run (Option Converted)) → n ≤ m → Within n r → Within m r
weaken-Within n m (ok none) le h = tt
weaken-Within n m (ok (some c)) le h = omega (arith, h)
weaken-Within n m panic le h = tt
weaken-Within n m stuck le h = tt

char-Within :
    (fm : FmtSpec) (fmt : Bytes) (args : List Arg) → Within (length fmt) (convert_char fm fmt args)
unfolding convert_char
char-Within fm fmt [] = tt
char-Within fm fmt (arg_int c ∷ args) = omega arith
char-Within fm fmt (arg_string s ∷ args) = tt
char-Within fm fmt (arg_ip o ∷ args) = tt
char-Within fm fmt (arg_guid o ∷ args) = tt

string-Within :
    (fm : FmtSpec) (fmt : Bytes) (args : List Arg)
    → Within (length fmt) (convert_string fm fmt args)
unfolding convert_string
string-Within fm fmt [] = tt
string-Within fm fmt (arg_int c ∷ args) = tt
string-Within fm fmt (arg_string s ∷ args) = omega arith
string-Within fm fmt (arg_ip o ∷ args) = tt
string-Within fm fmt (arg_guid o ∷ args) = tt

address-Within :
    (fm : FmtSpec) (fmt : Bytes) (args : List Arg)
    → Within (length fmt) (convert_address fm fmt args)
unfolding convert_address
address-Within fm fmt [] = tt
address-Within fm fmt (arg_int c ∷ args) = omega arith
address-Within fm fmt (arg_string s ∷ args) = tt
address-Within fm fmt (arg_ip o ∷ args) = tt
address-Within fm fmt (arg_guid o ∷ args) = tt

pieces-Within :
    (fm : FmtSpec) (fmt : Bytes) (args : List Arg) (m : Run (Option (List Piece)))
    → Within (length fmt) (do ps ← m; ok (of_pieces fm fmt args ps))
pieces-Within fm fmt args (ok none) = tt
pieces-Within fm fmt args (ok (some ps)) = omega arith
pieces-Within fm fmt args panic = tt
pieces-Within fm fmt args stuck = tt

integer-Within :
    (m : ℕ) (fm : FmtSpec) (fmt : Bytes) (args : List Arg)
    → Within (length fmt) (convert_integer m fm fmt args)
unfolding convert_integer
integer-Within m fm [] args = tt
integer-Within m fm (c ∷ fmt) [] = ground arith
integer-Within m fm (c ∷ fmt) (arg_int v ∷ args) = ground arith
integer-Within m fm (c ∷ fmt) (arg_string s ∷ args) = ground arith
integer-Within m fm (c ∷ fmt) (arg_ip o ∷ args) = ground arith
integer-Within m fm (c ∷ fmt) (arg_guid o ∷ args) = ground arith

module _ (snprintf : Inner) (fm : FmtSpec) where
  ip-Within :
      (fmt : Bytes) (args : List Arg) → Within (length fmt) (convert_ip snprintf fm fmt args)
  unfolding convert_ip
  ip-Within fmt [] = tt
  ip-Within fmt (arg_int c ∷ args) = tt
  ip-Within fmt (arg_string s ∷ args) = tt
  ip-Within fmt (arg_ip o ∷ args) = pieces-Within fm fmt args (ip_pieces snprintf true o)
  ip-Within fmt (arg_guid o ∷ args) = tt

  guid-Within :
      (fmt : Bytes) (args : List Arg) → Within (length fmt) (convert_guid snprintf fm fmt args)
  unfolding convert_guid
  guid-Within fmt [] = tt
  guid-Within fmt (arg_int c ∷ args) = tt
  guid-Within fmt (arg_string s ∷ args) = tt
  guid-Within fmt (arg_ip o ∷ args) = tt
  guid-Within fmt (arg_guid o ∷ args) = pieces-Within fm fmt args (guid_pieces snprintf o)

  -- a token and the function behind it
  token-Within :
      (fmt token : Bytes) (k : Bytes → Run (Option Converted)) (other : Run (Option Converted))
      → ((rest : Bytes) → Within (length rest) (k rest))
      → Within (length fmt) other
      → Within (length fmt) (or_else (consume fmt token) k other)
  token-Within fmt token k other h g =
      or_else-Within (length fmt) (consume fmt token) k other
        (λ rest e.
          weaken-Within (length rest) (length fmt) (k rest)
            (omega (arith, consume-le fmt token rest e)) (h rest))
        g

  pointer-Within :
      (args : List Arg) (fmt : Bytes) → Within (length fmt) (convert_pointer snprintf fm args fmt)
  unfolding convert_pointer
  pointer-Within args fmt =
      token-Within fmt (b'S' ∷ b'V' ∷ []) _ _ (λ rest. string-Within fm rest args)
        (token-Within fmt (b'I' ∷ b'P' ∷ b'4' ∷ []) _ _ (λ rest. ip-Within rest args)
          (token-Within fmt (b'G' ∷ b'U' ∷ b'I' ∷ b'D' ∷ []) _ _ (λ rest. guid-Within rest args)
            (address-Within fm fmt args)))

  convert-Within :
      (fmt : Bytes) (args : List Arg) → Within (length fmt) (convert snprintf fm fmt args)
  unfolding convert
  convert-Within fmt args =
      token-Within fmt (b'c' ∷ []) _ _ (λ rest. char-Within fm rest args)
        (token-Within fmt (b's' ∷ []) _ _ (λ rest. string-Within fm rest args)
          (token-Within fmt (b'p' ∷ []) _ _ (λ rest. pointer-Within args rest)
            (token-Within fmt (b'h' ∷ b'h' ∷ []) _ _ (λ rest. integer-Within (2 ^ 8) fm rest args)
              (token-Within fmt (b'h' ∷ []) _ _ (λ rest. integer-Within (2 ^ 16) fm rest args)
                (token-Within fmt (b'l' ∷ b'l' ∷ []) _ _
                  (λ rest. integer-Within u64_mod fm rest args)
                  (token-Within fmt (b'z' ∷ []) _ _ (λ rest. integer-Within u64_mod fm rest args)
                    (token-Within fmt (b'l' ∷ []) _ _ (λ rest. integer-Within u64_mod fm rest args)
                      (integer-Within (2 ^ 32) fm fmt args))))))))

flags_loop-le : (fmt : Bytes) (fm : FmtSpec) → length (flags_loop fmt fm).0 ≤ length fmt
unfolding flags_loop
flags_loop-le [] fm = omega arith
flags_loop-le (c ∷ fmt) fm = elim (Bool-cases (is_flag c)) [
  | inl flag ↦ rw flag (omega (arith, flags_loop-le fmt (set_flag c fm)))
  | inr other ↦ rw other (omega arith)
]

digits-le : (s : Bytes) → length (consume_digits s).1 ≤ length s
unfolding consume_digits
digits-le [] = omega arith
digits-le (c ∷ s) = elim (Bool-cases (ltb c b'0' || ltb b'9' c)) [
  | inl stop ↦ rw stop (omega arith)
  | inr digit ↦ rw digit (omega (arith, digits-le s))
]

module _ (snprintf : Inner) where
  sized-Within :
      (n : ℕ) (fmt : Bytes) (args : List Arg) (m : Run (Option FmtSpec))
      → length fmt ≤ n
      → Within n
          (do spec ← m; elim spec [ none ↦ ok none | some sized ↦ convert snprintf sized fmt args ])
  sized-Within n fmt args (ok none) le = tt
  sized-Within n fmt args (ok (some fm)) le =
      weaken-Within (length fmt) n (convert snprintf fm fmt args) le
        (convert-Within snprintf fm fmt args)
  sized-Within n fmt args panic le = tt
  sized-Within n fmt args stuck le = tt

  flagged-Within :
      (fm : FmtSpec) (fmt : Bytes) (args : List Arg)
      → Within (length fmt) (convert_flagged snprintf fm fmt args)
  unfolding convert_flagged
  flagged-Within fm fmt args =
      let flags = flags_loop-le fmt fm in
      let digits = digits-le (flags_loop fmt fm).0 in
      sized-Within (length fmt) (consume_digits (flags_loop fmt fm).0).1 args
        (with_width (flags_loop fmt fm).1 (consume_digits (flags_loop fmt fm).0).0) (omega arith)

  pub directive-Within :
      (fm : FmtSpec) (c : ℕ) (fmt : Bytes) (args : List Arg)
      → Within (length fmt) (directive snprintf fm (c ∷ fmt) args)
  unfolding directive
  directive-Within fm c fmt args =
      or_else-Within (length fmt) (consume (c ∷ fmt) (b'%' ∷ b'%' ∷ [])) _ _
        (λ rest e. omega (arith, consume-le (c ∷ fmt) (b'%' ∷ b'%' ∷ []) rest e))
        (flagged-Within fm fmt args)
