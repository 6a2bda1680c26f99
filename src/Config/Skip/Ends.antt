-- ===== src/Config/Skip/Ends.antt =====
-- The end of the loops over characters of loader/config.c, and where they leave the parser.
use hyper.Base.{
  ℕ, zero, suc, ◌+◌, ◌≤◌, ◌<◌, ◌≡◌, Bool, true, false, arith, ◌==◌, length, get_or, u64_mod,
}
use hyper.Text.Ctype.{Bytes}
use hyper.Config.Scan.{Parser, cfg_raise, cfg_ungetch}
use hyper.Config.Scan.Ensures.{
  Ensures, and_then, step_over_column, step_over_newline, behind, getch,
}
use hyper.Config.Skip.{
  is_blank, rounds, cfg_verify_valid_char, terminated_loop, cfg_consume_terminated_string,
  unterminated_loop, cfg_consume_unterminated_string, to_line_start, empty_lines_loop,
  cfg_skip_empty_lines, whitespace_loop, cfg_skip_whitespace,
}
use hyper.Config.Skip.Position.{
  to_start, Settled, before-Settled, no_nul, no_nul_at, line_start, unread, Moves, behind_idx,
  unread_idx, Moves-behind, Moves-unread, next_fuel,
}

module _ (src : Bytes) (O : Type 0) where
  pub terminated_loop-ends :
      (n eos_char size s : ℕ) (p q : Parser)
      → Moves src s p q
      → length src < n + q.pos.idx
      → Ensures O (λ r t. Moves src s p t) (terminated_loop src n eos_char size q)
  unfolding terminated_loop cfg_raise
  terminated_loop-ends zero eos_char size s p q m fuel = absurd (omega (arith, m.inside))
  terminated_loop-ends (suc n) eos_char size s p q m fuel =
      getch O (λ r t. Moves src s p t) src q _ m.inside (λ e. ground arith)
        (λ lt.
          let m' = Moves-behind src s p q m lt in
          let rest = terminated_loop-ends n eos_char (size + 1) s p _ m' (next_fuel src n q fuel) in
          ground arith)

  pub unterminated_loop-ends :
      (n size s : ℕ) (p q : Parser)
      → Moves src s p q
      → length src < n + q.pos.idx
      → Ensures O (λ r t. Moves src s p t) (unterminated_loop src n size q)
  unfolding unterminated_loop cfg_raise cfg_verify_valid_char cfg_ungetch
  unterminated_loop-ends zero size s p q m fuel = absurd (omega (arith, m.inside))
  unterminated_loop-ends (suc n) size s p q m fuel =
      getch O (λ r t. Moves src s p t) src q _ m.inside (λ e. ground arith)
        (λ lt.
          let m' = Moves-behind src s p q m lt in
          let back = Moves-unread src s p q m lt in
          let rest = unterminated_loop-ends n (size + 1) s p _ m' (next_fuel src n q fuel) in
          ground arith)

  module _ (s : ℕ) (p q : Parser) (m : Moves src s p q) where
    -- rounds, the fuel that the callers give, is enough
    all_rounds : length src < rounds src + q.pos.idx
    all_rounds = omega arith

    pub terminated-Moves :
        (eos_char : ℕ)
        → Ensures O (λ _ t. Moves src s p t) (cfg_consume_terminated_string src eos_char q)
    unfolding cfg_consume_terminated_string
    terminated-Moves eos_char =
        and_then O (λ _ t. Moves src s p t) (λ _ t. Moves src s p t)
          (terminated_loop src (rounds src) eos_char 0 q) _
          (terminated_loop-ends (rounds src) eos_char 0 s p q m all_rounds) (λ a t h. h)

    pub unterminated-Moves :
        Ensures O (λ _ t. Moves src s p t) (cfg_consume_unterminated_string src q)
    unfolding cfg_consume_unterminated_string
    unterminated-Moves =
        and_then O (λ _ t. Moves src s p t) (λ _ t. Moves src s p t)
          (unterminated_loop src (rounds src) 0 q) _
          (unterminated_loop-ends (rounds src) 0 s p q m all_rounds) (λ a t h. h)

  module _ (clean : no_nul src ≡ true) (short : length src < u64_mod) where
    pub whitespace_loop-ends :
        (n s : ℕ) (p q : Parser)
        → Moves src s p q
        → length src < n + q.pos.idx
        → Ensures O (λ _ t. Moves src s p t × Settled src t.pos.idx) (whitespace_loop src n q)
    unfolding whitespace_loop cfg_raise cfg_verify_valid_char cfg_ungetch
    whitespace_loop-ends zero s p q m fuel = absurd (omega (arith, m.inside))
    whitespace_loop-ends (suc n) s p q m fuel =
        getch O (λ _ t. Moves src s p t × Settled src t.pos.idx) src q _ m.inside
          (λ e. ground arith)
          (λ lt.
            let m' = Moves-behind src s p q m lt in
            let back = Moves-unread src s p q m lt in
            let settled =
              before-Settled src (unread src (behind src q)).pos.idx q.pos.idx lt
                (omega (arith, unread_idx src q)) in
            let rest = whitespace_loop-ends n s p _ m' (next_fuel src n q fuel) in ground arith)

    pub empty_lines_loop-ends :
        (n s : ℕ) (allow_chars in_comment expect_newline : Bool) (p q : Parser)
        → Moves src s p q
        → length src < n + q.pos.idx
        → (allow_chars ≡ true → s + q.pos.column ≤ q.pos.idx)
        → Ensures O
            (λ _ t. Moves src s p t × Settled src t.pos.idx)
            (empty_lines_loop src n allow_chars in_comment expect_newline q)
    unfolding empty_lines_loop cfg_raise cfg_verify_valid_char cfg_ungetch to_line_start
    empty_lines_loop-ends zero s allow_chars in_comment expect_newline p q m fuel room =
        absurd (omega (arith, m.inside))
    empty_lines_loop-ends (suc n) s allow_chars in_comment expect_newline p q m fuel room =
        getch O (λ _ t. Moves src s p t × Settled src t.pos.idx) src q _ m.inside
          (λ e. ground arith)
          (λ lt.
            let m' = Moves-behind src s p q m lt in
            let fuel' = next_fuel src n q fuel in
            let not_end = no_nul_at src q.pos.idx clean lt in
            let room' : allow_chars ≡ true
                → s + (behind src q).pos.column ≤ (behind src q).pos.idx =
              λ t. omega (
                arith,
                room t,
                behind_idx src q,
                step_over_column src (get_or src q.pos.idx 0) q.pos,
              ) in
            let fresh : (get_or src q.pos.idx 0 == b'\n') ≡ true
                → Ensures O (λ _ t. Moves src s p t × Settled src t.pos.idx)
                    (empty_lines_loop src n true false false (behind src q)) =
              λ t. empty_lines_loop-ends n s true false false p _ m' fuel' (λ u.
                omega (arith, m'.from, step_over_newline src (get_or src q.pos.idx 0) q.pos t)) in
            let same =
              empty_lines_loop-ends n s allow_chars in_comment expect_newline p _ m' fuel' room' in
            let cr = empty_lines_loop-ends n s allow_chars in_comment true p _ m' fuel' room' in
            let hash =
              empty_lines_loop-ends n s allow_chars true expect_newline p _ m' fuel' room' in
            let start : allow_chars ≡ true
                → (get_or src q.pos.idx 0 == b'\n') ≡ false
                → is_blank (get_or src q.pos.idx 0) ≡ false
                → Moves src s p (line_start (behind src q))
                  × Settled src (line_start (behind src q)).pos.idx =
              λ t line full. to_start src s p q m lt short (omega (arith, room t)) line full in
            ground arith)

    pub whitespace-Moves :
        (s : ℕ) (p q : Parser)
        → Moves src s p q
        → Ensures O (λ _ t. Moves src s p t × Settled src t.pos.idx) (cfg_skip_whitespace src q)
    unfolding cfg_skip_whitespace
    whitespace-Moves s p q m = whitespace_loop-ends (rounds src) s p q m (omega arith)

    -- Within a line, and at the start of a line.
    pub empty_lines-Moves :
        (s : ℕ) (p q : Parser)
        → Moves src s p q
        → Ensures O
            (λ _ t. Moves src s p t × Settled src t.pos.idx)
            (cfg_skip_empty_lines src false q)
    unfolding cfg_skip_empty_lines
    empty_lines-Moves s p q m =
        empty_lines_loop-ends (rounds src) s false false false p q m (omega arith) (λ t. absurd cc)

    pub empty_lines-at_start :
        (p : Parser)
        → Moves src p.pos.idx p p
        → p.pos.column ≡ 0
        → Ensures O
            (λ _ t. Moves src p.pos.idx p t × Settled src t.pos.idx)
            (cfg_skip_empty_lines src true p)
    unfolding cfg_skip_empty_lines
    empty_lines-at_start p m at_zero =
        empty_lines_loop-ends (rounds src) p.pos.idx true false false p p m (omega arith)
          (λ t. omega arith)
