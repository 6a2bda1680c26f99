-- ===== src/Config/Token.antt =====
-- The tokens of loader/config.c: cfg_fetch_indentation, cfg_fetch_token and cfg_object_from_string.
pub mod Kind
pub mod Indent
pub mod Ends
use hyper.Base.{
  ℕ, zero, suc, ◌+◌, ◌/◌, ◌%◌, Bool, true, false, not, ◌&&◌, ◌||◌, ◌==◌, if◌then◌else◌, Option,
  none, some, [], ◌∷◌, u32_mod,
}
use hyper.Text.Ctype.{Bytes}
use hyper.Text.View.{sv_equals_caseless}
use hyper.Text.Convert.{str_to_u64_with_base, str_to_i64_with_base}
use hyper.Config.{
  Content, null_value, as_bool, as_unsigned, as_signed, as_string, ambiguous_indent, expected_ident,
}
use hyper.Config.Scan.{
  ConfigPos, Parser, Cmd, pure, spin, ◌>>=◌, ◌>>◌, when◌then◌else◌, returns, bug_on, parser,
  cfg_raise, cfg_getch, cfg_ungetch,
}
use hyper.Config.Skip.{
  is_blank, rounds, cfg_consume_terminated_string, cfg_consume_unterminated_string,
  cfg_skip_empty_lines, cfg_skip_whitespace,
}

-- enum token_type with the member of the union that belongs to it
pub data TokenType : Type 0 where
  token_string : Bytes → TokenType
  token_indent : ℕ → TokenType
  token_lentry : Bytes → TokenType
  token_equ : TokenType
  token_colon : TokenType
  token_eof : TokenType

pub record Token : Type 0 where
  pub type : TokenType
  pub pos : ConfigPos

-- parser_set and parser_clear on PARSER_IN_VALUE
unfoldable pub set_in_value : Bool → Cmd (Unit {0})
set_in_value b p = pure tt (record p { in_value = b })

-- cfg_unfetch_token
unfoldable pub cfg_unfetch_token : Token → Cmd (Unit {0})
cfg_unfetch_token tok p = pure tt (record p { pos = tok.pos })

-- The first indentation of the file sets the unit.
unfoldable pub learn_unit : ℕ → ℕ → Cmd (Unit {0})
learn_unit indent_char characters p =
    pure tt
      (if p.ind_char == 0 then record p { ind_char = indent_char; ind_count = characters } else p)

abbrev pub in_lentry_bit : Parser → ℕ
in_lentry_bit p = if p.in_lentry then 1 else 0

module _ (src : Bytes) where
  unfoldable pub indentation_loop : ℕ → ℕ → ℕ → Cmd ℕ
  indentation_loop zero indent_char characters = spin
  indentation_loop (suc n) indent_char characters = do
    c ← cfg_getch src
    when not (is_blank c)
        then (do cfg_ungetch src; pure characters)
        else when not (c == indent_char)
        then cfg_raise ambiguous_indent
        else indentation_loop n indent_char (characters + 1)

  -- behind the loop: the indentation in units, for tok->as_uint
  unfoldable pub units_of : ℕ → Cmd ℕ
  units_of characters = do
    p ← parser
    when characters % p.ind_count == 0
        then pure ((characters / p.ind_count + in_lentry_bit p) % u32_mod)
        else cfg_raise ambiguous_indent

  unfoldable pub count_units : ℕ → ℕ → Cmd ℕ
  unfolding learn_unit units_of
  count_units indent_char characters = do learn_unit indent_char characters; units_of characters

  unfoldable pub measure_indentation : ℕ → Cmd ℕ
  unfolding indentation_loop count_units
  measure_indentation indent_char = do
    p ← parser
    when not (p.ind_char == 0) && not (p.ind_char == indent_char)
        then cfg_raise ambiguous_indent
        else (do
          characters ← indentation_loop (rounds src) indent_char 1
          count_units indent_char characters)

  unfoldable pub cfg_fetch_indentation : Cmd ℕ
  unfolding measure_indentation
  cfg_fetch_indentation = do
    indent_char ← cfg_getch src
    bug_on (not (is_blank indent_char))
    measure_indentation indent_char

  unfoldable pub fetch_quoted : ℕ → Cmd TokenType
  unfolding set_in_value cfg_consume_terminated_string cfg_skip_empty_lines
  fetch_quoted quote = do
    p ← parser
    when not p.in_value then cfg_raise expected_ident else (do
      s ← cfg_consume_terminated_string src quote
      set_in_value false
      cfg_skip_empty_lines src false
      pure (token_string s))

  -- A value ends its line, an identifier does not.
  unfoldable pub after_unquoted : Cmd (Unit {0})
  unfolding set_in_value cfg_skip_empty_lines cfg_skip_whitespace
  after_unquoted = do
    p ← parser
    when p.in_value
        then (do set_in_value false; cfg_skip_empty_lines src false)
        else (do set_in_value true; cfg_skip_whitespace src)

  unfoldable pub fetch_unquoted : Cmd TokenType
  unfolding cfg_consume_unterminated_string after_unquoted
  fetch_unquoted = do
    cfg_ungetch src
    s ← cfg_consume_unterminated_string src
    after_unquoted
    pure (token_string s)

  -- The switch on the first character.
  unfoldable pub fetch_by : ℕ → Cmd TokenType
  unfolding set_in_value cfg_fetch_indentation fetch_quoted fetch_unquoted
      cfg_consume_terminated_string cfg_skip_empty_lines cfg_skip_whitespace
  fetch_by c =
      when is_blank c
      then (do cfg_ungetch src; n ← cfg_fetch_indentation; pure (token_indent n))
      else when c == b':'
      then (do set_in_value false; cfg_skip_empty_lines src false; pure token_colon)
      else when c == b'='
      then (do cfg_skip_whitespace src; pure token_equ)
      else when c == b'['
      then (do
        s ← cfg_consume_terminated_string src b']'
        cfg_skip_empty_lines src false
        pure (token_lentry s))
      else when c == b'\'' || c == b'"'
      then fetch_quoted c
      else fetch_unquoted

  unfoldable pub cfg_fetch_token : Cmd Token
  unfolding fetch_by
  cfg_fetch_token = do
    start ← parser
    c ← cfg_getch src
    kind ← when c == 0 then pure token_eof else fetch_by c
    pure (record { type = kind; pos = start.pos })

abbrev pub word_true : Bytes
word_true = b't' ∷ b'r' ∷ b'u' ∷ b'e' ∷ []

abbrev pub word_false : Bytes
word_false = b'f' ∷ b'a' ∷ b'l' ∷ b's' ∷ b'e' ∷ []

abbrev pub word_null : Bytes
word_null = b'n' ∷ b'u' ∷ b'l' ∷ b'l' ∷ []

-- the tests behind the two number parsers
unfoldable pub word_or_string : Bytes → Content
word_or_string str =
    if sv_equals_caseless str word_true
    then as_bool true
    else if sv_equals_caseless str word_false
    then as_bool false
    else if sv_equals_caseless str word_null
    then null_value
    else as_string str

unfoldable pub signed_or : Bytes → Option ℕ → Content
unfolding word_or_string
signed_or str (some n) = as_signed n
signed_or str none = word_or_string str

unfoldable pub unsigned_or : Bytes → Option ℕ → Cmd Content
unfolding signed_or
unsigned_or str (some n) = pure (as_unsigned n)
unsigned_or str none = do r ← returns (str_to_i64_with_base str 0); pure (signed_or str r)

unfoldable pub cfg_object_from_string : Bytes → Cmd Content
unfolding unsigned_or
cfg_object_from_string str = do r ← returns (str_to_u64_with_base str 0); unsigned_or str r
