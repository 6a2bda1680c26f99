-- ===== src/Config/Skip/Position.antt =====
-- Where a loop over characters of loader/config.c may leave the parser.
use hyper.Base.{
  ℕ, zero, suc, ◌+◌, ◌-◌, ◌≤◌, ◌<◌, ◌≡◌, ◌⊎◌, inl, inr, Bool, true, false, not, ◌&&◌, [], ◌∷◌,
  arith, ◌==◌, compare_cases, length, get_or, u64_mod, sub64,
}
use hyper.Text.Ctype.{Bytes}
use hyper.Config.Scan.{Parser, cfg_ungetch_at}
use hyper.Config.Scan.Ensures.{Keeps, step_over_idx, step_over_same_line, ungetch_idx, behind}
use hyper.Config.Skip.{is_blank}

-- At the end of the text, or before a character that is neither a space nor a tab.
abbrev pub Settled : Bytes → ℕ → Type 0
Settled src i =
    (i ≡ length src) ⊎ ((j : ℕ) × (i ≤ j) × (j < length src) × (is_blank (get_or src j 0) ≡ false))

pub before-Settled :
    (src : Bytes) (i j : ℕ)
    → j < length src
    → i ≤ j
    → is_blank (get_or src j 0) ≡ false
    → Settled src i
before-Settled src i j lt le full = inr (j, le, lt, full)

-- A blank character stands before the one that is not.
pub blank-lt :
    (src : Bytes) (i j : ℕ)
    → is_blank (get_or src i 0) ≡ true
    → is_blank (get_or src j 0) ≡ false
    → i ≤ j
    → i < j
blank-lt src i j blank full le = elim (compare_cases i j) [
  | inl less ↦ less
  | inr (inl same) ↦ absurd (let b : is_blank (get_or src j 0) ≡ true = rw (← same) blank in cc)
  | inr (inr gt) ↦ absurd (omega arith)
]

unfoldable pub no_nul : Bytes → Bool
no_nul [] = true
no_nul (c ∷ str) = not (c == 0) && no_nul str

pub no_nul_at :
    (str : Bytes) (i : ℕ) → no_nul str ≡ true → i < length str → (get_or str i 0 == 0) ≡ false
unfolding no_nul
no_nul_at [] i clean lt = absurd (omega arith)
no_nul_at (c ∷ str) zero clean lt = ground arith
no_nul_at (c ∷ str) (suc i) clean lt = no_nul_at str i (ground arith) (omega arith)

-- the parser of to_line_start
abbrev pub line_start : Parser → Parser
line_start q = record q { pos = record q.pos { idx = sub64 q.pos.idx q.pos.column; column = 0 } }

abbrev pub unread : Bytes → Parser → Parser
unread src q = record q { pos = cfg_ungetch_at src q.pos }

module _ (src : Bytes) where
  -- The position is at least `s` and inside the text; the entries and their table are as before.
  pub record Moves (s : ℕ) (p q : Parser) : Type 0 where
    pub from : s ≤ q.pos.idx
    pub inside : q.pos.idx ≤ length src
    pub keeps : Keeps p q

  pub behind_idx : (q : Parser) → (behind src q).pos.idx ≡ suc q.pos.idx
  behind_idx q = step_over_idx src (get_or src q.pos.idx 0) q.pos

  pub unread_idx : (q : Parser) → (unread src (behind src q)).pos.idx ≡ q.pos.idx
  unread_idx q = omega (arith, ungetch_idx src (behind src q).pos, behind_idx q)

  module _ (s : ℕ) (p q : Parser) (m : Moves s p q) (lt : q.pos.idx < length src) where
    pub Moves-behind : Moves s p (behind src q)
    Moves-behind = record {
      from = omega (arith, m.from, behind_idx q);
      inside = omega (arith, behind_idx q);
      keeps = record { same_cfg = m.keeps.same_cfg; same_slots = m.keeps.same_slots };
    }

    pub Moves-unread : Moves s p (unread src (behind src q))
    Moves-unread = record {
      from = omega (arith, m.from, unread_idx q);
      inside = omega (arith, unread_idx q);
      keeps = record { same_cfg = m.keeps.same_cfg; same_slots = m.keeps.same_slots };
    }

  pub to_start :
      (s : ℕ) (p q : Parser)
      → Moves s p q
      → q.pos.idx < length src
      → length src < u64_mod
      → s + q.pos.column ≤ q.pos.idx
      → (get_or src q.pos.idx 0 == b'\n') ≡ false
      → is_blank (get_or src q.pos.idx 0) ≡ false
      → Moves s p (line_start (behind src q)) × Settled src (line_start (behind src q)).pos.idx
  to_start s p q m lt short room line full =
      let same = step_over_same_line src (get_or src q.pos.idx 0) q.pos line in
      let at_start : (line_start (behind src q)).pos.idx ≡ q.pos.idx - q.pos.column =
        omega (arith, same, behind_idx q) in
      (
        record {
          from = omega arith;
          inside = omega arith;
          keeps = record { same_cfg = m.keeps.same_cfg; same_slots = m.keeps.same_slots };
        },
        before-Settled src _ q.pos.idx lt (omega arith) full,
      )

  -- Only the position matters, and what is kept.
  pub Moves-flag :
      (s : ℕ) (b : Bool) (p q : Parser) → Moves s p q → Moves s p (record q { in_value = b })
  Moves-flag s b p q m = record {
    from = m.from;
    inside = m.inside;
    keeps = record { same_cfg = m.keeps.same_cfg; same_slots = m.keeps.same_slots };
  }

  pub next_fuel :
      (n : ℕ) (q : Parser)
      → length src < suc n + q.pos.idx
      → length src < n + (behind src q).pos.idx
  next_fuel n q fuel = omega (arith, behind_idx q)
