-- ===== src/Config/Scan.antt =====
-- The character level of loader/config.c: the parser's state, cfg_getch and cfg_ungetch, and the loops that read
-- strings, blank lines and whitespace. A command takes the parser and returns it; `src` is p->src.
pub mod Ensures
use hyper.Base.{
  ℕ, zero, suc, ◌+◌, ◌-◌, Bool, true, false, ◌&&◌, ◌||◌, not, ltb, leb, ◌==◌, if◌then◌else◌, List,
  length, get_or, take, drop, sub64, Run, ok, panic, stuck,
}
use hyper.Text.Ctype.{Bytes}
use hyper.Config.{
  Config, Message, ConfigError, invalid_char, expected_newline, unexpected_newline, expected_char,
}

pub record ConfigPos : Type 0 where
  pub line : ℕ
  pub column : ℕ
  pub idx : ℕ
  pub line_start_idx : ℕ

-- The two bits of `flags` are `in_value` and `in_lentry`.
pub record Parser : Type 0 where
  pub pos : ConfigPos
  pub cfg : Config
  pub ind_count : ℕ
  pub ind_char : ℕ
  pub in_value : Bool
  pub in_lentry : Bool
  pub depth_to_offset : List ℕ

-- What a function of the parser does: it returns true with its out-parameter, it raises an error and
-- returns false, it stops at a BUG_ON, it writes past the end of depth_to_offset, or, in the model,
-- a loop of it has used up its fuel.
pub data Outcome {ℓ} (A : Type ℓ) : Type ℓ where
  took : A → Parser → Outcome A
  refused : Parser → Outcome A
  bug : Outcome A
  overrun : Outcome A
  spun : Outcome A

abbrev pub Cmd {ℓ} : Type ℓ → Type ℓ
Cmd A = Parser → Outcome A

abbrev pub pure {ℓ} : {A : Type ℓ} → A → Cmd A
pure = took

-- no fuel is left
abbrev pub spin {ℓ} : {A : Type ℓ} → Cmd A
spin p = spun

abbrev pub then_do {κ ι} : {A : Type κ} {B : Type ι} → Outcome A → (A → Cmd B) → Outcome B
then_do (took a p) next = next a p
then_do (refused p) next = refused p
then_do bug next = bug
then_do overrun next = overrun
then_do spun next = spun

infixl 5 ◌>>=◌ ◌>>◌
abbrev pub ◌>>=◌ {κ ι} : {A : Type κ} {B : Type ι} → Cmd A → (A → Cmd B) → Cmd B
(m >>= next) p = then_do (m p) next

abbrev pub ◌>>◌ {ι} : {B : Type ι} → Cmd (Unit {0}) → Cmd B → Cmd B
m >> n = m >>= λ _. n

-- the conditional on commands
infix 1 when◌then◌else◌
abbrev pub when◌then◌else◌ {ℓ} : {A : Type ℓ} → Bool → Cmd A → Cmd A → Cmd A
(when b then m else k) p = elim b [ true ↦ m p | false ↦ k p ]

abbrev pub returns : {A : Type 0} → Run A → Cmd A
returns (ok a) p = took a p
returns panic p = bug
returns stuck p = spun

abbrev pub bug_on : Bool → Cmd (Unit {0})
bug_on true p = bug
bug_on false p = took tt p

-- p, and the assignment to it
abbrev pub parser : Cmd Parser
parser p = took p p

abbrev pub become : Parser → Cmd (Unit {0})
become q p = took tt q

-- cfg_raise, which returns false
unfoldable pub cfg_raise {ℓ} : {A : Type ℓ} → Message → Cmd A
cfg_raise err p = refused (record p {
  cfg = record p.cfg {
    last_error = record {
      message = err;
      line = p.pos.line + 1;
      column = p.pos.column;
      line_start_pos = p.pos.line_start_idx;
    };
  };
})

unfoldable pub cfg_ungetch_at : Bytes → ConfigPos → ConfigPos
cfg_ungetch_at src pos =
    if pos.idx == 0
    then pos
    else (let i = pos.idx - 1 in
        if get_or src i 0 == b'\n'
        then record pos { idx = i; line = sub64 pos.line 1 }
        else record pos { idx = i; column = pos.column - 1 })

module _ (src : Bytes) where
  unfoldable pub cfg_eof : ConfigPos → Bool
  cfg_eof pos = leb (length src) pos.idx

  -- the position behind the character `c`
  unfoldable pub step_over : ℕ → ConfigPos → ConfigPos
  step_over c pos =
      if c == b'\n'
      then record {
        line = pos.line + 1;
        column = 0;
        idx = pos.idx + 1;
        line_start_idx = pos.idx + 1;
      }
      else record pos { column = pos.column + 1; idx = pos.idx + 1 }

  -- CFG_EOF_CH is 0.
  unfoldable pub cfg_getch : Cmd ℕ
  unfolding cfg_eof step_over
  cfg_getch p =
      if cfg_eof p.pos
      then took 0 p
      else (let c = get_or src p.pos.idx 0 in took c (record p { pos = step_over c p.pos }))

  unfoldable pub cfg_ungetch : Cmd (Unit {0})
  unfolding cfg_ungetch_at
  cfg_ungetch p = took tt (record p { pos = cfg_ungetch_at src p.pos })
