-- ===== src/Config/Token/Kind.antt =====
-- What the first character tells of the token that cfg_fetch_token of loader/config.c returns, and how far a token
-- moves the position.
use hyper.Base.{ℕ, suc, ◌+◌, ◌≡◌, refl, [], ◌∷◌, arith, ◌==◌, if◌then◌else◌, length, get_or}
use hyper.Text.Ctype.{Bytes}
use hyper.Config.Scan.{Parser, when◌then◌else◌}
use hyper.Config.Skip.{is_blank}
use hyper.Config.Skip.Position.{Settled, Moves}
use hyper.Config.Token.{
  TokenType, token_string, token_indent, token_lentry, token_equ, token_colon, token_eof,
}

-- A number for each type, and the one that the first character tells.
unfoldable pub code_of : TokenType → ℕ
code_of token_eof = 0
code_of (token_indent n) = 1
code_of token_colon = 2
code_of token_equ = 3
code_of (token_lentry s) = 4
code_of (token_string s) = 5

unfoldable pub code_by : ℕ → ℕ
code_by c =
    if c == 0
    then 0
    else if is_blank c
    then 1
    else if c == b':'
    then 2
    else if c == b'='
    then 3
    else if c == b'['
    then 4
    else 5

-- what a token of a type takes at least
unfoldable pub advance : TokenType → ℕ
advance token_eof = 0
advance (token_string s) = 0
advance _ = 1

pub string_advance : (kind : TokenType) (i : ℕ) → code_of kind ≡ 5 → i + advance kind ≡ i
unfolding code_of advance
string_advance (token_string s) i h = omega arith
string_advance (token_indent n) i h = absurd (omega (arith, h))
string_advance (token_lentry s) i h = absurd (omega (arith, h))
string_advance token_equ i h = absurd (omega (arith, h))
string_advance token_colon i h = absurd (omega (arith, h))
string_advance token_eof i h = absurd (omega (arith, h))

pub get_or_end : (str : Bytes) → get_or str (length str) 0 ≡ 0
get_or_end [] = refl
get_or_end (c ∷ str) = get_or_end str

pub to_suc : (i : ℕ) → i + 1 ≡ suc i
to_suc i = omega arith

module _ (src : Bytes) where
  pub record Reads (s : ℕ) (p q : Parser) : Type 0 where
    pub moves : Moves src s p q
    pub settled : Settled src q.pos.idx

  pub record Fetched (c : ℕ) (p : Parser) (kind : TokenType) (q : Parser) : Type 0 where
    pub fits : code_of kind ≡ code_by c
    pub reads : Reads (p.pos.idx + advance kind) p q
