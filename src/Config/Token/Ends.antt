-- ===== src/Config/Token/Ends.antt =====
-- The end of cfg_fetch_token of loader/config.c, and what it returns.
use hyper.Base.{
  ℕ, suc, ◌+◌, ◌≤◌, ◌<◌, ◌≡◌, refl, sym, ◌∙◌, inl, inr, true, false, arith, ◌==◌, if◌then◌else◌,
  Bool-cases, length, get_or, u64_mod,
}
use hyper.Text.Ctype.{Bytes}
use hyper.Config.Scan.{Parser, Outcome, pure, ◌>>=◌, ◌>>◌, when◌then◌else◌, cfg_raise, cfg_ungetch}
use hyper.Config.Scan.Ensures.{Ensures, and_then, weaken, behind, getch}
use hyper.Config.Skip.{
  is_blank, cfg_consume_terminated_string, cfg_consume_unterminated_string, cfg_skip_empty_lines,
  cfg_skip_whitespace,
}
use hyper.Config.Skip.Position.{
  Moves-flag, Settled, no_nul, no_nul_at, unread, Moves, behind_idx, unread_idx, Moves-behind,
  Moves-unread,
}
use hyper.Config.Skip.Ends.{
  terminated-Moves, unterminated-Moves, whitespace-Moves, empty_lines-Moves,
}
use hyper.Config.Token.{
  after_unquoted, TokenType, token_string, token_indent, token_lentry, token_equ, token_colon,
  token_eof, set_in_value, cfg_fetch_indentation, fetch_quoted, fetch_unquoted, fetch_by,
  cfg_fetch_token,
}
use hyper.Config.Token.Kind.{
  code_of, code_by, advance, string_advance, get_or_end, to_suc, Reads, Fetched,
}
use hyper.Config.Token.Indent.{indentation-ends}

module _ (src : Bytes) (O : Type 0) where
  module _ (clean : no_nul src ≡ true) (short : length src < u64_mod) where
    quoted-ends :
        (quote s : ℕ) (p q : Parser)
        → Moves src s p q
        → Ensures O (λ kind t. (code_of kind ≡ 5) × Reads src s p t) (fetch_quoted src quote q)
    unfolding fetch_quoted cfg_raise set_in_value code_of
    quoted-ends quote s p q m =
        let rest =
          and_then O (λ _ t. Moves src s p t) (λ kind t. (code_of kind ≡ 5) × Reads src s p t)
            (cfg_consume_terminated_string src quote q)
            (λ text. do
              set_in_value false
              cfg_skip_empty_lines src false
              pure (token_string text))
            (terminated-Moves src O s p q m quote)
            (λ text t h.
              and_then O (λ _ u. Moves src s p u × Settled src u.pos.idx)
                (λ kind t. (code_of kind ≡ 5) × Reads src s p t)
                (cfg_skip_empty_lines src false (record t { in_value = false })) _
                (empty_lines-Moves src O clean short s p (record t { in_value = false })
                  (Moves-flag src s false p t h))
                (λ _ u k. (refl, record { moves = k.0; settled = k.1 }))) in
        ground arith

    after_unquoted-ends :
        (s : ℕ) (p q : Parser)
        → Moves src s p q
        → Ensures O (λ _ t. Moves src s p t × Settled src t.pos.idx) (after_unquoted src q)
    unfolding after_unquoted set_in_value
    after_unquoted-ends s p q m =
        let line = empty_lines-Moves src O clean short s p _ (Moves-flag src s false p q m) in
        let word = whitespace-Moves src O clean short s p _ (Moves-flag src s true p q m) in
        ground arith

    unquoted-ends :
        (s : ℕ) (p q : Parser)
        → Moves src s p (unread src q)
        → Ensures O (λ kind t. (code_of kind ≡ 5) × Reads src s p t) (fetch_unquoted src q)
    unfolding fetch_unquoted cfg_ungetch code_of
    unquoted-ends s p q m =
        and_then O (λ _ t. Moves src s p t) (λ kind t. (code_of kind ≡ 5) × Reads src s p t)
          (cfg_consume_unterminated_string src (unread src q))
          (λ text. do after_unquoted src; pure (token_string text))
          (unterminated-Moves src O s p _ m)
          (λ text t h.
            and_then O (λ _ u. Moves src s p u × Settled src u.pos.idx)
              (λ kind u. (code_of kind ≡ 5) × Reads src s p u) (after_unquoted src t)
              (λ _. pure (token_string text)) (after_unquoted-ends s p t h)
              (λ _ u k. (refl, record { moves = k.0; settled = k.1 })))

    module _ (p : Parser) (here : p.pos.idx < length src) (settled : Settled src p.pos.idx) where
      start_Moves : Moves src p.pos.idx p p
      start_Moves = record {
        from = omega arith;
        inside = omega arith;
        keeps = record { same_cfg = refl; same_slots = refl };
      }

      one_Moves : Moves src (p.pos.idx + 1) p (behind src p)
      one_Moves = record {
        from = omega (arith, behind_idx src p);
        inside = omega (arith, behind_idx src p);
        keeps = record { same_cfg = refl; same_slots = refl };
      }

      indent-Fetched :
          is_blank (get_or src p.pos.idx 0) ≡ true
          → Ensures O
              (λ kind t. (code_of kind ≡ 1) × Reads src (p.pos.idx + advance kind) p t)
              ((do cfg_ungetch src; n ← cfg_fetch_indentation src; pure (token_indent n))
                (behind src p))
      unfolding cfg_ungetch code_of advance
      indent-Fetched blank =
          and_then O (λ _ t. Reads src (suc p.pos.idx) p t)
            (λ kind t. (code_of kind ≡ 1) × Reads src (p.pos.idx + advance kind) p t)
            (cfg_fetch_indentation src (unread src (behind src p))) (λ n. pure (token_indent n))
            (indentation-ends src O p _ (Moves-unread src p.pos.idx p p start_Moves here)
              (unread_idx src p) here blank settled)
            (λ n t h. (refl, rw (to_suc p.pos.idx) h))

      colon-Fetched :
          Ensures O
            (λ kind t. (code_of kind ≡ 2) × Reads src (p.pos.idx + advance kind) p t)
            ((do set_in_value false; cfg_skip_empty_lines src false; pure token_colon)
              (behind src p))
      unfolding set_in_value code_of advance
      colon-Fetched =
          and_then O (λ _ t. Moves src (p.pos.idx + 1) p t × Settled src t.pos.idx)
            (λ kind t. (code_of kind ≡ 2) × Reads src (p.pos.idx + advance kind) p t)
            (cfg_skip_empty_lines src false (record (behind src p) { in_value = false }))
            (λ _. pure token_colon)
            (empty_lines-Moves src O clean short _ p _ (Moves-flag src _ false p _ one_Moves))
            (λ _ t h. (refl, record { moves = h.0; settled = h.1 }))

      equ-Fetched :
          Ensures O
            (λ kind t. (code_of kind ≡ 3) × Reads src (p.pos.idx + advance kind) p t)
            ((do cfg_skip_whitespace src; pure token_equ) (behind src p))
      unfolding code_of advance
      equ-Fetched =
          and_then O (λ _ t. Moves src (p.pos.idx + 1) p t × Settled src t.pos.idx)
            (λ kind t. (code_of kind ≡ 3) × Reads src (p.pos.idx + advance kind) p t)
            (cfg_skip_whitespace src (behind src p)) (λ _. pure token_equ)
            (whitespace-Moves src O clean short _ p _ one_Moves)
            (λ _ t h. (refl, record { moves = h.0; settled = h.1 }))

      lentry-Fetched :
          Ensures O
            (λ kind t. (code_of kind ≡ 4) × Reads src (p.pos.idx + advance kind) p t)
            ((do
              s ← cfg_consume_terminated_string src b']'
              cfg_skip_empty_lines src false
              pure (token_lentry s))
              (behind src p))
      unfolding code_of advance
      lentry-Fetched =
          and_then O (λ _ t. Moves src (p.pos.idx + 1) p t)
            (λ kind t. (code_of kind ≡ 4) × Reads src (p.pos.idx + advance kind) p t)
            (cfg_consume_terminated_string src b']' (behind src p))
            (λ s. do cfg_skip_empty_lines src false; pure (token_lentry s))
            (terminated-Moves src O _ p _ one_Moves b']')
            (λ s t h.
              and_then O (λ _ u. Moves src (p.pos.idx + 1) p u × Settled src u.pos.idx)
                (λ kind u. (code_of kind ≡ 4) × Reads src (p.pos.idx + advance kind) p u)
                (cfg_skip_empty_lines src false t) (λ _. pure (token_lentry s))
                (empty_lines-Moves src O clean short _ p t h)
                (λ _ u k. (refl, record { moves = k.0; settled = k.1 })))

      string-Fetched :
          (m : Outcome TokenType)
          → Ensures O (λ kind t. (code_of kind ≡ 5) × Reads src p.pos.idx p t) m
          → Ensures O (λ kind t. (code_of kind ≡ 5) × Reads src (p.pos.idx + advance kind) p t) m
      string-Fetched m h =
          weaken O (λ kind t. (code_of kind ≡ 5) × Reads src p.pos.idx p t) _ m h
            (λ kind t k. (k.0, rw (string_advance kind p.pos.idx k.0) k.1))

      by_code :
          (n : ℕ) (m : Outcome TokenType)
          → Ensures O (λ kind t. (code_of kind ≡ n) × Reads src (p.pos.idx + advance kind) p t) m
          → code_by (get_or src p.pos.idx 0) ≡ n
          → Ensures O (λ kind t. Fetched src (get_or src p.pos.idx 0) p kind t) m
      by_code n m h code =
          weaken O (λ kind t. (code_of kind ≡ n) × Reads src (p.pos.idx + advance kind) p t) _ m h
            (λ kind t k. record { fits = k.0 ∙ sym code; reads = k.1 })

      fetch_by-Fetched :
          Ensures O
            (λ kind t. Fetched src (get_or src p.pos.idx 0) p kind t)
            (fetch_by src (get_or src p.pos.idx 0) (behind src p))
      unfolding fetch_by code_by
      fetch_by-Fetched =
          let not_end = no_nul_at src p.pos.idx clean here in
          let colon = by_code 2 _ colon-Fetched in
          let equ = by_code 3 _ equ-Fetched in
          let lentry = by_code 4 _ lentry-Fetched in
          let quoted = by_code 5 _ (
            string-Fetched _ (
              quoted-ends (get_or src p.pos.idx 0) p.pos.idx p _
                (Moves-behind src p.pos.idx p p start_Moves here))) in
          let unquoted = by_code 5 _ (
            string-Fetched _
              (unquoted-ends p.pos.idx p _ (Moves-unread src p.pos.idx p p start_Moves here))) in
          elim (Bool-cases (is_blank (get_or src p.pos.idx 0))) [
            | inl blank ↦ let indent = by_code 1 _ (indent-Fetched blank) in ground arith
            | inr full ↦ ground arith
          ]

    eof-Fetched :
        (p : Parser) → p.pos.idx ≡ length src → Fetched src (get_or src p.pos.idx 0) p token_eof p
    unfolding code_of code_by advance
    eof-Fetched p e = record {
      fits = rw (e, get_or_end src) refl;
      reads = record {
        moves = record {
          from = omega arith;
          inside = omega arith;
          keeps = record { same_cfg = refl; same_slots = refl };
        };
        settled = inl e;
      };
    }

    -- At a settled position cfg_fetch_token ends. The token records where it began, its type is the one
    -- that the first character tells, and the parser is left at a settled position behind it.
    pub fetch_token-Fetched :
        (p : Parser)
        → p.pos.idx ≤ length src
        → Settled src p.pos.idx
        → Ensures O
            (λ tok t. (tok.pos ≡ p.pos) × Fetched src (get_or src p.pos.idx 0) p tok.type t)
            (cfg_fetch_token src p)
    unfolding cfg_fetch_token
    fetch_token-Fetched p inside settled =
        getch O (λ tok t. (tok.pos ≡ p.pos) × Fetched src (get_or src p.pos.idx 0) p tok.type t) src
          p
          (λ c. do
            kind ← when c == 0 then pure token_eof else fetch_by src c
            pure (record { type = kind; pos = p.pos }))
          inside (λ e. (refl, eof-Fetched p e))
          (λ lt.
            let rest =
              and_then O (λ kind t. Fetched src (get_or src p.pos.idx 0) p kind t)
                (λ tok t. (tok.pos ≡ p.pos) × Fetched src (get_or src p.pos.idx 0) p tok.type t)
                (fetch_by src (get_or src p.pos.idx 0) (behind src p))
                (λ kind. pure (record { type = kind; pos = p.pos })) (fetch_by-Fetched p lt settled)
                (λ kind t h. (refl, h)) in
            rw (no_nul_at src p.pos.idx clean lt) rest)
