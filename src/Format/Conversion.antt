-- ===== src/Format/Conversion.antt =====
-- The conversions of loader/common/format.c: flags, width and type. The target has 64-bit `long` and `size_t`.
use hyper.Base.{
  ℕ, zero, suc, ◌-◌, ◌%◌, ◌^◌, Bool, true, false, ◌&&◌, ◌||◌, ltb, ◌==◌, if◌then◌else◌, Option,
  none, some, List, [], ◌∷◌, length, take, drop, u64_mod, Run, ok, stuck, ◌>>=◌,
}
use hyper.Text.Ctype.{Bytes}
use hyper.Text.View.{same_bytes}
use hyper.Text.Convert.{str_to_u32_with_base, sign_extend}
use hyper.Format.{FmtSpec}

-- what va_arg finds: a number, a C string or a view, an IPv4 address, the fields of a GUID
pub data Arg : Type 0 where
  arg_int : ℕ → Arg
  arg_string : Bytes → Arg
  arg_ip : List ℕ → Arg
  arg_guid : List ℕ → Arg

-- a call of write_one or of write_many
pub data Piece : Type 0 where
  one : ℕ → Piece
  many : Bytes → Piece

-- what a conversion writes: pieces, after which the loop continues with its flags, or an integer
pub data Conversion : Type 0 where
  pieces : List Piece → Conversion
  integer : FmtSpec → ℕ → Conversion

-- A C string ends where its list does. The decrement of `characters` wraps at 0.
unfoldable pub string_has_at_least : Bytes → ℕ → Bool
string_has_at_least [] characters = false
string_has_at_least (c ∷ string) zero = string_has_at_least string (u64_mod - 1)
string_has_at_least (c ∷ string) (suc zero) = true
string_has_at_least (c ∷ string) (suc (suc n)) = string_has_at_least string (suc n)

-- The rest of the string behind the token.
unfoldable pub consume : Bytes → Bytes → Option Bytes
unfolding string_has_at_least same_bytes
consume string token =
    if string_has_at_least string (length token) && same_bytes (λ c. c) string token
    then some (drop (length token) string)
    else none

abbrev pub is_flag : ℕ → Bool
is_flag c = c == b'+' || c == b'-' || c == b' ' || c == b'0' || c == b'#'

unfoldable pub set_flag : ℕ → FmtSpec → FmtSpec
set_flag c fm =
    if c == b'+' || c == b' '
    then record fm { prepend = true; prepend_char = c }
    else if c == b'-'
    then record fm { left_justify = true }
    else if c == b'0'
    then record fm { pad_char = b'0' }
    else record fm { alternate_form = true }

unfoldable pub flags_loop : Bytes → FmtSpec → Bytes × FmtSpec
unfolding set_flag
flags_loop [] fm = ([], fm)
flags_loop (c ∷ fmt) fm =
    let rest = flags_loop fmt (set_flag c fm) in if is_flag c then rest else (c ∷ fmt, fm)

-- the digits, and what follows
unfoldable pub consume_digits : Bytes → Bytes × Bytes
consume_digits [] = ([], [])
consume_digits (c ∷ string) =
    let (digits, rest) = consume_digits string in
    if ltb c b'0' || ltb b'9' c then ([], c ∷ string) else (c ∷ digits, rest)

unfoldable pub with_width : FmtSpec → Bytes → Run (Option FmtSpec)
unfolding str_to_u32_with_base
with_width fm [] = ok (some fm)
with_width fm digits = do
  width ← str_to_u32_with_base digits 0
  ok (elim width [ none ↦ none | some w ↦ some (record fm { min_width = w }) ])

unfoldable pub base_from_specifier : ℕ → ℕ
base_from_specifier c = if c == b'x' || c == b'X' then 16 else if c == b'o' then 8 else 10

abbrev pub is_unsigned_specifier : ℕ → Bool
is_unsigned_specifier c = c == b'o' || c == b'x' || c == b'X' || c == b'u'

pub record Converted : Type 0 where
  pub conversion : Conversion
  pub spec : FmtSpec
  pub fmt : Bytes
  pub args : List Arg

-- An integer of a type with `m` values; the letter is at the head of `fmt`.
unfoldable pub convert_integer : ℕ → FmtSpec → Bytes → List Arg → Run (Option Converted)
unfolding base_from_specifier
convert_integer m fm [] args = ok none
convert_integer m fm (c ∷ fmt) [] =
    if c == b'd' || c == b'i' || is_unsigned_specifier c then stuck else ok none
convert_integer m fm (c ∷ fmt) (arg_int v ∷ args) =
    if c == b'd' || c == b'i'
    then (let signed = record fm { is_signed = true } in
        ok (
          some (record {
            conversion = integer signed (sign_extend m v);
            spec = signed;
            fmt = fmt;
            args = args;
          })))
    else if is_unsigned_specifier c
    then (let plain = record fm { base = base_from_specifier c; uppercase = c == b'X' } in
        ok (
          some
            (record { conversion = integer plain (v % m); spec = plain; fmt = fmt; args = args })))
    else ok none
convert_integer m fm (c ∷ fmt) (_ ∷ args) =
    if c == b'd' || c == b'i' || is_unsigned_specifier c then stuck else ok none

-- snprintf into a local buffer of a size: the length that it returns, and the buffer
abbrev pub Inner : Type 0
Inner = ℕ → Bytes → List Arg → Run (Option (ℕ × Bytes))

-- write_many of the first `len` bytes of a local buffer
unfoldable pub from_local : ℕ × Bytes → Run Bytes
from_local (len, buffer) = if ltb (length buffer) len then stuck else ok (take len buffer)

-- the loop over the octets, `first` at i = 0
unfoldable pub ip_pieces : Inner → Bool → List ℕ → Run (Option (List Piece))
unfolding from_local
ip_pieces snprintf first [] = ok (some [])
ip_pieces snprintf first (octet ∷ octets) = do
  r ← snprintf 4 (b'%' ∷ b'u' ∷ []) (arg_int octet ∷ [])
  elim r [
    | none ↦ ok none
    | some local ↦ (do
      text ← from_local local
      rest ← ip_pieces snprintf false octets
      ok (elim rest [
        | none ↦ none
        | some more ↦ some (if first then many text ∷ more else one b'.' ∷ many text ∷ more)
      ]))
  ]

-- %08X-%04X-%04X-%02X%02X-%02X%02X%02X%02X%02X%02X
abbrev pub guid_format : Bytes
guid_format =
    b'%' ∷ b'0' ∷ b'8' ∷ b'X' ∷ b'-' ∷ b'%' ∷ b'0' ∷ b'4' ∷ b'X' ∷ b'-' ∷ b'%' ∷ b'0' ∷ b'4' ∷ b'X'
    ∷ b'-' ∷ b'%' ∷ b'0' ∷ b'2' ∷ b'X' ∷ b'%' ∷ b'0' ∷ b'2' ∷ b'X' ∷ b'-' ∷ b'%' ∷ b'0' ∷ b'2'
    ∷ b'X' ∷ b'%' ∷ b'0' ∷ b'2' ∷ b'X' ∷ b'%' ∷ b'0' ∷ b'2' ∷ b'X' ∷ b'%' ∷ b'0' ∷ b'2' ∷ b'X'
    ∷ b'%' ∷ b'0' ∷ b'2' ∷ b'X' ∷ b'%' ∷ b'0' ∷ b'2' ∷ b'X' ∷ []

abbrev pub ints : List ℕ → List Arg
ints [] = []
ints (n ∷ ns) = arg_int n ∷ ints ns

-- CHARS_PER_GUID is 36.
unfoldable pub guid_pieces : Inner → List ℕ → Run (Option (List Piece))
unfolding from_local
guid_pieces snprintf fields = do
  r ← snprintf 37 guid_format (ints fields)
  elim r [ none ↦ ok none | some local ↦ (do text ← from_local local; ok (some (many text ∷ []))) ]

abbrev pub of_pieces : FmtSpec → Bytes → List Arg → Option (List Piece) → Option Converted
of_pieces fm fmt args none = none
of_pieces fm fmt args (some ps) =
    some (record { conversion = pieces ps; spec = fm; fmt = fmt; args = args })

unfoldable pub convert_char : FmtSpec → Bytes → List Arg → Run (Option Converted)
convert_char fm fmt (arg_int c ∷ args) = ok (of_pieces fm fmt args (some (one (c % 256) ∷ [])))
convert_char fm fmt _ = stuck

-- %s and %pSV
unfoldable pub convert_string : FmtSpec → Bytes → List Arg → Run (Option Converted)
convert_string fm fmt (arg_string s ∷ args) = ok (of_pieces fm fmt args (some (many s ∷ [])))
convert_string fm fmt _ = stuck

unfoldable pub convert_ip : Inner → FmtSpec → Bytes → List Arg → Run (Option Converted)
unfolding ip_pieces
convert_ip snprintf fm fmt (arg_ip octets ∷ args) = do
  ps ← ip_pieces snprintf true octets
  ok (of_pieces fm fmt args ps)
convert_ip snprintf fm fmt _ = stuck

unfoldable pub convert_guid : Inner → FmtSpec → Bytes → List Arg → Run (Option Converted)
unfolding guid_pieces
convert_guid snprintf fm fmt (arg_guid fields ∷ args) = do
  ps ← guid_pieces snprintf fields
  ok (of_pieces fm fmt args ps)
convert_guid snprintf fm fmt _ = stuck

unfoldable pub convert_address : FmtSpec → Bytes → List Arg → Run (Option Converted)
convert_address fm fmt (arg_int v ∷ args) =
    let hex = record fm { base = 16 } in
    ok
      (some (record { conversion = integer hex (v % u64_mod); spec = hex; fmt = fmt; args = args }))
convert_address fm fmt _ = stuck

-- The first of the tokens that the string begins with takes it to its function.
abbrev pub or_else :
    Option Bytes
    → (Bytes → Run (Option Converted))
    → Run (Option Converted)
    → Run (Option Converted)
or_else none k other = other
or_else (some rest) k other = k rest

unfoldable pub convert_pointer : Inner → FmtSpec → List Arg → Bytes → Run (Option Converted)
unfolding consume convert_string convert_ip convert_guid convert_address
convert_pointer snprintf fm args fmt =
    or_else (consume fmt (b'S' ∷ b'V' ∷ [])) (λ rest. convert_string fm rest args)
      (or_else (consume fmt (b'I' ∷ b'P' ∷ b'4' ∷ [])) (λ rest. convert_ip snprintf fm rest args)
        (or_else (consume fmt (b'G' ∷ b'U' ∷ b'I' ∷ b'D' ∷ []))
          (λ rest. convert_guid snprintf fm rest args) (convert_address fm fmt args)))

unfoldable pub convert : Inner → FmtSpec → Bytes → List Arg → Run (Option Converted)
unfolding consume convert_char convert_string convert_pointer convert_integer
convert snprintf fm fmt args =
    or_else (consume fmt (b'c' ∷ [])) (λ rest. convert_char fm rest args)
      (or_else (consume fmt (b's' ∷ [])) (λ rest. convert_string fm rest args)
        (or_else (consume fmt (b'p' ∷ [])) (convert_pointer snprintf fm args) (
          or_else (consume fmt (b'h' ∷ b'h' ∷ [])) (λ rest. convert_integer (2 ^ 8) fm rest args)
            (or_else (consume fmt (b'h' ∷ [])) (λ rest. convert_integer (2 ^ 16) fm rest args)
              (or_else (consume fmt (b'l' ∷ b'l' ∷ []))
                (λ rest. convert_integer u64_mod fm rest args)
                (or_else (consume fmt (b'z' ∷ [])) (λ rest. convert_integer u64_mod fm rest args)
                  (or_else (consume fmt (b'l' ∷ [])) (λ rest. convert_integer u64_mod fm rest args)
                    (convert_integer (2 ^ 32) fm fmt args))))))))

-- behind '%': flags, width, type
unfoldable pub convert_flagged : Inner → FmtSpec → Bytes → List Arg → Run (Option Converted)
unfolding flags_loop consume_digits with_width convert
convert_flagged snprintf fm fmt args = do
  let (at_width, flagged) = flags_loop fmt fm
  let (digits, at_type) = consume_digits at_width
  spec ← with_width flagged digits
  elim spec [ none ↦ ok none | some sized ↦ convert snprintf sized at_type args ]

-- from '%' on
unfoldable pub directive : Inner → FmtSpec → Bytes → List Arg → Run (Option Converted)
unfolding consume convert_flagged
directive snprintf fm fmt args =
    or_else (consume fmt (b'%' ∷ b'%' ∷ []))
      (λ rest. ok (of_pieces fm rest args (some (one b'%' ∷ []))))
      (convert_flagged snprintf fm (drop 1 fmt) args)
