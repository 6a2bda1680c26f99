-- ===== src/Config/Scan/Ensures.antt =====
-- Total correctness of a command of the parser of loader/config.c: no BUG_ON, enough fuel, a postcondition on the
-- parser that it returns, and a condition under which alone it writes past depth_to_offset.
use hyper.Base.{
  ℕ, suc, ◌≤◌, ◌<◌, ◌≡◌, inl, inr, true, false, ◌==◌, length, get_or, max, compare_cases, le→leb,
  lt→leb, arith,
}
use hyper.Text.Ctype.{Bytes}
use hyper.Config.{Message}
use hyper.Config.Scan.{
  ConfigPos, Parser, Outcome, took, refused, bug, overrun, spun, Cmd, then_do, cfg_raise,
  cfg_ungetch_at, cfg_eof, step_over, cfg_getch,
}

abbrev pub Ensures : {A : Type 0} → Type 0 → (A → Parser → Type 0) → Outcome A → Type 0
Ensures O P (took a p) = P a p
Ensures O P (refused p) = Unit
Ensures O P bug = ⊥
Ensures O P overrun = O
Ensures O P spun = ⊥

module _ {A : Type 0} (O : Type 0) (P : A → Parser → Type 0) where
  pub and_then :
      {B : Type 0} (Q : B → Parser → Type 0) (m : Outcome A) (k : A → Cmd B)
      → Ensures O P m
      → ((a : A) (p : Parser) → P a p → Ensures O Q (k a p))
      → Ensures O Q (then_do m k)
  and_then Q (took a p) k h next = next a p h
  and_then Q (refused p) k h next = tt
  and_then Q bug k h next = elim h [ ]
  and_then Q overrun k h next = h
  and_then Q spun k h next = elim h [ ]

  pub weaken :
      (Q : A → Parser → Type 0) (m : Outcome A)
      → Ensures O P m
      → ((a : A) (p : Parser) → P a p → Q a p)
      → Ensures O Q m
  weaken Q (took a p) h next = next a p h
  weaken Q (refused p) h next = tt
  weaken Q bug h next = elim h [ ]
  weaken Q overrun h next = h
  weaken Q spun h next = elim h [ ]

  pub raises : (err : Message) (p : Parser) → Ensures O P (cfg_raise err p)
  unfolding cfg_raise
  raises err p = tt

-- The entries and the table of levels are those of before.
pub record Keeps (p q : Parser) : Type 0 where
  pub same_cfg : q.cfg ≡ p.cfg
  pub same_slots : q.depth_to_offset ≡ p.depth_to_offset

pub step_over_idx :
    (src : Bytes) (c : ℕ) (pos : ConfigPos) → (step_over src c pos).idx ≡ suc pos.idx
unfolding step_over
step_over_idx src c pos = ground arith

pub step_over_column :
    (src : Bytes) (c : ℕ) (pos : ConfigPos) → (step_over src c pos).column ≤ suc pos.column
unfolding step_over
step_over_column src c pos = ground arith

pub step_over_newline :
    (src : Bytes) (c : ℕ) (pos : ConfigPos) → (c == b'\n') ≡ true → (step_over src c pos).column ≡ 0
unfolding step_over
step_over_newline src c pos h = ground arith

pub step_over_same_line :
    (src : Bytes) (c : ℕ) (pos : ConfigPos)
    → (c == b'\n') ≡ false
    → (step_over src c pos).column ≡ suc pos.column
unfolding step_over
step_over_same_line src c pos h = ground arith

pub ungetch_idx : (src : Bytes) (pos : ConfigPos) → suc (cfg_ungetch_at src pos).idx ≡ max 1 pos.idx
unfolding cfg_ungetch_at
ungetch_idx src pos = ground arith

-- the parser behind the character at its position
abbrev pub behind : Bytes → Parser → Parser
behind src p = record p { pos = step_over src (get_or src p.pos.idx 0) p.pos }

-- A character is read, or the end is reached.
pub getch :
    {A : Type 0} (O : Type 0) (P : A → Parser → Type 0) (src : Bytes) (p : Parser) (k : ℕ → Cmd A)
    → p.pos.idx ≤ length src
    → (p.pos.idx ≡ length src → Ensures O P (k 0 p))
    → (p.pos.idx < length src → Ensures O P (k (get_or src p.pos.idx 0) (behind src p)))
    → Ensures O P (then_do (cfg_getch src p) k)
unfolding cfg_getch cfg_eof
getch O P src p k inside at_end at_char = elim (compare_cases p.pos.idx (length src)) [
  | inl lt ↦ rw (lt→leb (length src) p.pos.idx lt) (at_char lt)
  | inr (inl eq) ↦ rw (le→leb (length src) p.pos.idx (omega arith)) (at_end eq)
  | inr (inr gt) ↦ absurd (omega arith)
]
