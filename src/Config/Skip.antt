-- ===== src/Config/Skip.antt =====
-- The loops over characters of loader/config.c: strings, blank lines with comments, whitespace. Each has fuel
-- for one round more than `src` has bytes.
pub mod Position
pub mod Ends
use hyper.Base.{
  ℕ, zero, suc, ◌+◌, Bool, true, false, ◌&&◌, ◌||◌, ltb, ◌==◌, if◌then◌else◌, length, take, drop,
  sub64,
}
use hyper.Text.Ctype.{Bytes}
use hyper.Config.{invalid_char, expected_newline, unexpected_newline, expected_char}
use hyper.Config.Scan.{
  Parser, spin, Cmd, pure, ◌>>=◌, ◌>>◌, when◌then◌else◌, parser, cfg_raise, cfg_getch, cfg_ungetch,
}

abbrev pub is_blank : ℕ → Bool
is_blank c = c == b' ' || c == b'\t'

abbrev pub is_printable : ℕ → Bool
is_printable c = ltb 31 c && ltb c 127

unfoldable pub is_reserved_char : ℕ → Bool
is_reserved_char c =
    is_blank c
    || c == b'\r'
    || c == b'\n'
    || c == b':'
    || c == b'='
    || c == b'#'
    || c == b'['
    || c == b']'

module _ (src : Bytes) where
  abbrev pub rounds : ℕ
  rounds = suc (length src)

  unfoldable pub cfg_verify_valid_char : ℕ → Cmd (Unit {0})
  cfg_verify_valid_char c =
      when is_printable c then pure tt else (do cfg_ungetch src; cfg_raise invalid_char)

  -- `size` is out->size.
  unfoldable pub terminated_loop : ℕ → ℕ → ℕ → Cmd ℕ
  terminated_loop zero eos_char size = spin
  terminated_loop (suc n) eos_char size = do
    c ← cfg_getch src
    when c == eos_char
        then pure size
        else when c == 0 || c == b'\r' || c == b'\n'
        then cfg_raise (expected_char eos_char)
        else terminated_loop n eos_char (size + 1)

  unfoldable pub cfg_consume_terminated_string : ℕ → Cmd Bytes
  unfolding terminated_loop
  cfg_consume_terminated_string eos_char = do
    start ← parser
    size ← terminated_loop rounds eos_char 0
    pure (take size (drop start.pos.idx src))

  unfoldable pub unterminated_loop : ℕ → ℕ → Cmd ℕ
  unfolding is_reserved_char cfg_verify_valid_char
  unterminated_loop zero size = spin
  unterminated_loop (suc n) size = do
    c ← cfg_getch src
    when c == 0
        then pure size
        else when is_reserved_char c
        then (do cfg_ungetch src; pure size)
        else (do cfg_verify_valid_char c; unterminated_loop n (size + 1))

  unfoldable pub cfg_consume_unterminated_string : Cmd Bytes
  unfolding unterminated_loop
  cfg_consume_unterminated_string = do
    start ← parser
    size ← unterminated_loop rounds 0
    pure (take size (drop start.pos.idx src))

  -- p->pos.idx -= p->pos.column
  unfoldable pub to_line_start : Cmd (Unit {0})
  to_line_start p =
      pure tt (record p { pos = record p.pos { idx = sub64 p.pos.idx p.pos.column; column = 0 } })

  unfoldable pub empty_lines_loop : ℕ → Bool → Bool → Bool → Cmd (Unit {0})
  unfolding cfg_verify_valid_char to_line_start
  empty_lines_loop zero allow_chars in_comment expect_newline = spin
  empty_lines_loop (suc n) allow_chars in_comment expect_newline = do
    c ← cfg_getch src
    when c == 0
        then pure tt
        else when c == b'\n'
        then empty_lines_loop n true false false
        else when expect_newline
        then cfg_raise expected_newline
        else when in_comment
        then empty_lines_loop n allow_chars in_comment expect_newline
        else when c == b'\r'
        then empty_lines_loop n allow_chars in_comment true
        else when c == b'#'
        then empty_lines_loop n allow_chars true expect_newline
        else when is_blank c
        then empty_lines_loop n allow_chars in_comment expect_newline
        else (do
          cfg_verify_valid_char c
          when allow_chars then to_line_start else (do cfg_ungetch src; cfg_raise expected_newline))

  unfoldable pub cfg_skip_empty_lines : Bool → Cmd (Unit {0})
  unfolding empty_lines_loop
  cfg_skip_empty_lines allow_chars_on_first_line =
      empty_lines_loop rounds allow_chars_on_first_line false false

  unfoldable pub whitespace_loop : ℕ → Cmd (Unit {0})
  unfolding cfg_verify_valid_char
  whitespace_loop zero = spin
  whitespace_loop (suc n) = do
    c ← cfg_getch src
    when c == 0 || c == b'\n' || c == b'\r'
        then cfg_raise unexpected_newline
        else when is_blank c
        then whitespace_loop n
        else (do cfg_verify_valid_char c; cfg_ungetch src)

  unfoldable pub cfg_skip_whitespace : Cmd (Unit {0})
  unfolding whitespace_loop
  cfg_skip_whitespace = whitespace_loop rounds
