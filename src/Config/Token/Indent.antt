-- ===== src/Config/Token/Indent.antt =====
-- The end of cfg_fetch_indentation of loader/config.c.
use hyper.Base.{
  ℕ, zero, suc, ◌+◌, ◌≤◌, ◌<◌, ◌≡◌, refl, ap, inl, inr, true, false, arith, ◌==◌, Bool-cases,
  length, get_or,
}
use hyper.Text.Ctype.{Bytes}
use hyper.Config.Scan.{ConfigPos, Parser, cfg_raise, cfg_ungetch}
use hyper.Config.Scan.Ensures.{Ensures, and_then, behind, getch}
use hyper.Config.Skip.{is_blank, rounds}
use hyper.Config.Skip.Position.{
  blank-lt, Settled, before-Settled, unread, Moves, behind_idx, unread_idx, Moves-behind,
  Moves-unread, next_fuel,
}
use hyper.Config.Token.{
  units_of, learn_unit, indentation_loop, count_units, measure_indentation, cfg_fetch_indentation,
}
use hyper.Config.Token.Kind.{Reads}

module _ (src : Bytes) (O : Type 0) where
  pub indentation_loop-ends :
      (n indent_char characters s j : ℕ) (p q : Parser)
      → Moves src s p q
      → length src < n + q.pos.idx
      → q.pos.idx ≤ j
      → j < length src
      → is_blank (get_or src j 0) ≡ false
      → Ensures O
          (λ _ t. Moves src s p t × Settled src t.pos.idx)
          (indentation_loop src n indent_char characters q)
  unfolding indentation_loop cfg_raise cfg_ungetch
  indentation_loop-ends zero indent_char characters s j p q m fuel before lt full =
      absurd (omega (arith, m.inside))
  indentation_loop-ends (suc n) indent_char characters s j p q m fuel before lt full =
      getch O (λ _ t. Moves src s p t × Settled src t.pos.idx) src q _ m.inside
        (λ e. absurd (omega arith))
        (λ here.
          let m' = Moves-behind src s p q m here in
          let back = Moves-unread src s p q m here in
          let settled =
            before-Settled src (unread src (behind src q)).pos.idx q.pos.idx here
              (omega (arith, unread_idx src q)) in
          let rest : is_blank (get_or src q.pos.idx 0) ≡ true
              → Ensures O (λ _ t. Moves src s p t × Settled src t.pos.idx)
                  (indentation_loop src n indent_char (characters + 1) (behind src q)) =
            λ blank.
              indentation_loop-ends n indent_char (characters + 1) s j p (behind src q) m'
                (next_fuel src n q fuel)
                (omega (arith, behind_idx src q, blank-lt src q.pos.idx j blank full before)) lt
                full in
          ground arith)

  -- The unit is learnt, and nothing moves.
  Moves-learn :
      (s indent_char characters : ℕ) (p q : Parser)
      → Moves src s p q
      → Ensures O (λ _ t. Moves src s p t × (t.pos ≡ q.pos)) (learn_unit indent_char characters q)
  unfolding learn_unit
  Moves-learn s indent_char characters p q m = elim (Bool-cases (q.ind_char == 0)) [
    | inl h ↦ rw h (
      record {
        from = m.from;
        inside = m.inside;
        keeps = record { same_cfg = m.keeps.same_cfg; same_slots = m.keeps.same_slots };
      },
      refl,
    )
    | inr h ↦ rw h (m, refl)
  ]

  count_units-ends :
      (s indent_char characters : ℕ) (p q : Parser)
      → Reads src s p q
      → Ensures O (λ _ t. Reads src s p t) (count_units src indent_char characters q)
  unfolding count_units units_of cfg_raise
  count_units-ends s indent_char characters p q r =
      and_then O (λ _ t. Moves src s p t × (t.pos ≡ q.pos)) (λ _ t. Reads src s p t)
        (learn_unit indent_char characters q) (λ _. units_of src characters)
        (Moves-learn s indent_char characters p q r.moves)
        (λ u t h.
          let there : Reads src s p t = record {
            moves = h.0;
            settled = rw (ap (λ (pos : ConfigPos). pos.idx) h.1) r.settled;
          } in
          ground arith)

  measure-ends :
      (s indent_char j : ℕ) (p q : Parser)
      → Moves src s p q
      → q.pos.idx ≤ j
      → j < length src
      → is_blank (get_or src j 0) ≡ false
      → Ensures O (λ _ t. Reads src s p t) (measure_indentation src indent_char q)
  unfolding measure_indentation cfg_raise
  measure-ends s indent_char j p q m before lt full =
      let rest =
        and_then O (λ _ t. Moves src s p t × Settled src t.pos.idx) (λ _ t. Reads src s p t)
          (indentation_loop src (rounds src) indent_char 1 q) (count_units src indent_char)
          (indentation_loop-ends (rounds src) indent_char 1 s j p q m (omega arith) before lt full)
          (λ n t h. count_units-ends s indent_char n p t (record { moves = h.0; settled = h.1 })) in
      ground arith

  pub indentation-ends :
      (p q : Parser)
      → Moves src p.pos.idx p q
      → q.pos.idx ≡ p.pos.idx
      → p.pos.idx < length src
      → is_blank (get_or src p.pos.idx 0) ≡ true
      → Settled src p.pos.idx
      → Ensures O (λ _ t. Reads src (suc p.pos.idx) p t) (cfg_fetch_indentation src q)
  unfolding cfg_fetch_indentation
  indentation-ends p q m eq here blank (inl e) = absurd (omega arith)
  indentation-ends p q m eq here blank (inr (j, le, lt, full)) =
      getch O (λ _ t. Reads src (suc p.pos.idx) p t) src q _ m.inside (λ e. absurd (omega arith))
        (λ lt'.
          let m' : Moves src (suc p.pos.idx) p (behind src q) = record {
            from = omega (arith, behind_idx src q);
            inside = omega (arith, behind_idx src q);
            keeps = record { same_cfg = m.keeps.same_cfg; same_slots = m.keeps.same_slots };
          } in
          let blank' : is_blank (get_or src q.pos.idx 0) ≡ true = rw eq blank in
          let rest =
            measure-ends (suc p.pos.idx) (get_or src q.pos.idx 0) j p (behind src q) m'
              (omega (arith, behind_idx src q, blank-lt src p.pos.idx j blank full le)) lt full in
          rw blank' rest)
