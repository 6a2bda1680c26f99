-- ===== src/Config/Parse/Ends.antt =====
-- The end of cfg_parse of loader/config.c, and the entries that it accepts with.
use hyper.Base.{
  ℕ, zero, suc, ◌+◌, ◌≤◌, ◌<◌, ◌≡◌, refl, sym, ap, ◌∙◌, Bool, true, false, Option, none, some, [],
  arith, length, get_or, u64_mod,
}
use hyper.Text.Ctype.{Bytes}
use hyper.Config.{Config, entry_loadable, ConfigEntry, zero_value}
use hyper.Config.Scan.{
  ConfigPos, Parser, Outcome, took, refused, bug, overrun, spun, pure, ◌>>=◌, ◌>>◌, cfg_raise,
}
use hyper.Config.Scan.Ensures.{Ensures, and_then}
use hyper.Config.Skip.{rounds, cfg_skip_empty_lines}
use hyper.Config.Skip.Position.{Settled, no_nul, Moves}
use hyper.Config.Skip.Ends.{empty_lines-at_start}
use hyper.Config.Token.{
  TokenType, token_string, token_indent, token_lentry, token_equ, token_colon, token_eof, Token,
  set_in_value, cfg_unfetch_token, cfg_fetch_token,
}
use hyper.Config.Token.Kind.{code_of, code_by, advance}
use hyper.Config.Parse.{
  max_depth, cfg_emplace, cfg_emplace_loadable_entry, set_in_lentry, empty_slots, cfg_parse_objects,
  parse_by, parse_loop, parse_from_start, ParseEnd, accepted, rejected, hit_bug, hit_overrun, hung,
  finish, initial_parser, cfg_parse,
}
use hyper.Config.Parse.Links.{WellFormed, ParserInv}
use hyper.Config.Parse.Rounds.{colons, Keeps-Inv, Ready, Took, Deep, fetch-Took, emplace-Ready}
use hyper.Config.Parse.Objects.{unfetch-Ready, objects-Ready}

-- what a round of cfg_parse that began at `s` leaves to do
abbrev NextPost : Bytes → ℕ → Option Bool → Parser → Type 0
NextPost src s none t = Ready src t
NextPost src s (some must_be_ident) t = Ready src t × (s < t.pos.idx)

empty_slots-le : (n d : ℕ) → get_or (empty_slots n) d 0 ≤ 0
empty_slots-le zero d = omega arith
empty_slots-le (suc n) zero = omega arith
empty_slots-le (suc n) (suc d) = empty_slots-le n d

pub initial-Inv : ParserInv initial_parser
initial-Inv = record {
  well_formed = record {
    linked = λ i h. absurd (omega arith);
    typed = tt;
    first_inside = omega arith;
    last_inside = omega arith;
  };
  slots_inside = empty_slots-le max_depth;
}

module _ (src : Bytes) (clean : no_nul src ≡ true) (short : length src < u64_mod) where
  Ready-flags :
      (p q : Parser)
      → Ready src p
      → q.pos ≡ p.pos
      → q.cfg ≡ p.cfg
      → q.depth_to_offset ≡ p.depth_to_offset
      → Ready src q
  Ready-flags p q r at cfg slots = record {
    inside = rw at r.inside;
    settled = rw at r.settled;
    inv = Keeps-Inv p q (record { same_cfg = cfg; same_slots = slots }) r.inv;
  }

  -- a string: the token is read again by cfg_parse_objects
  string-Next :
      (must_be_ident : Bool) (s : Bytes) (p : Parser) (tok : Token) (t : Parser)
      → Ready src p
      → Took src p tok t
      → tok.type ≡ token_string s
      → Ensures
          (Deep src)
          (NextPost src p.pos.idx)
          (parse_by src must_be_ident (token_string s) tok t)
  unfolding parse_by cfg_unfetch_token set_in_value code_of
  string-Next must_be_ident s p tok t r h e =
      let back = record t { pos = tok.pos; in_value = false } in
      let ready : Ready src back =
        Ready-flags _ back (unfetch-Ready src clean short p tok t r h) refl refl refl in
      let at : back.pos.idx ≡ p.pos.idx = ap (λ (x : ConfigPos). x.idx) h.began in
      let string : code_by (get_or src back.pos.idx 0) ≡ 5 = rw at (sym h.fits ∙ ap code_of e) in
      and_then (Deep src) (λ _ u. Ready src u × (back.pos.idx < u.pos.idx)) (NextPost src p.pos.idx)
        (cfg_parse_objects src back) (λ _. pure (some false))
        (objects-Ready src clean short back ready string) (λ _ u k. (k.0, rw (← at) k.1))

  lentry-Next :
      (must_be_ident : Bool) (name : Bytes) (p : Parser) (tok : Token) (t : Parser)
      → Took src p tok t
      → tok.type ≡ token_lentry name
      → Ensures
          (Deep src)
          (NextPost src p.pos.idx)
          (parse_by src must_be_ident (token_lentry name) tok t)
  unfolding parse_by cfg_raise cfg_emplace_loadable_entry set_in_lentry advance
  lentry-Next true name p tok t h e = tt
  lentry-Next false name p tok t h e =
      let le : advance tok.type ≡ 1 = ap advance e in
      let ce : ConfigEntry = record {
        key = name;
        t = entry_loadable;
        as_value = zero_value;
        next = 0;
      } in
      and_then (Deep src) (λ _ u. Ready src u × (u.pos ≡ t.pos)) (NextPost src p.pos.idx)
        (cfg_emplace ce 0 t) (λ _. do set_in_lentry; pure (some true))
        (emplace-Ready src clean short ce 0 t h.ready tt refl refl (λ deep. absurd (omega arith)))
        (λ _ u k. (Ready-flags u _ k.0 refl refl refl, rw k.1 (omega (arith, h.took_some, le))))

  by-Next :
      (must_be_ident : Bool) (kind : TokenType) (p : Parser) (tok : Token) (t : Parser)
      → Ready src p
      → Took src p tok t
      → tok.type ≡ kind
      → Ensures (Deep src) (NextPost src p.pos.idx) (parse_by src must_be_ident kind tok t)
  unfolding parse_by cfg_raise
  by-Next m (token_string s) p tok t r h e = string-Next m s p tok t r h e
  by-Next m (token_lentry name) p tok t r h e = lentry-Next m name p tok t h e
  by-Next m (token_indent n) p tok t r h e = tt
  by-Next m token_equ p tok t r h e = tt
  by-Next m token_colon p tok t r h e = tt
  by-Next true token_eof p tok t r h e = tt
  by-Next false token_eof p tok t r h e = h.ready

  after_round :
      (n s : ℕ) (next : Option Bool) (u : Parser)
      → NextPost src s next u
      → ((b : Bool)
          → Ready src u
          → s < u.pos.idx
          → Ensures (Deep src) (λ _ t. Ready src t) (parse_loop src n (some b) u))
      → Ensures (Deep src) (λ _ t. Ready src t) (parse_loop src n next u)
  unfolding parse_loop
  after_round n s none u k rest = k
  after_round n s (some b) u k rest = rest b k.0 k.1

  parse_loop-ends :
      (n : ℕ) (must_be_ident : Bool) (p : Parser)
      → Ready src p
      → length src < n + p.pos.idx
      → Ensures (Deep src) (λ _ t. Ready src t) (parse_loop src n (some must_be_ident) p)
  unfolding parse_loop
  parse_loop-ends zero m p r fuel = absurd (omega (arith, r.inside))
  parse_loop-ends (suc n) m p r fuel =
      and_then (Deep src) (λ tok t. Took src p tok t) (λ _ t. Ready src t) (cfg_fetch_token src p)
        (λ tok. do next ← parse_by src m tok.type tok; parse_loop src n next)
        (fetch-Took src clean short p r)
        (λ tok t h.
          and_then (Deep src) (NextPost src p.pos.idx) (λ _ u. Ready src u)
            (parse_by src m tok.type tok t) (parse_loop src n) (by-Next m tok.type p tok t r h refl)
            (λ next u k.
              after_round n p.pos.idx next u k
                (λ b ready more. parse_loop-ends n b u ready (omega arith))))

  start-ends : Ensures (Deep src) (λ _ t. Ready src t) (parse_from_start src initial_parser)
  unfolding parse_from_start
  start-ends =
      let here : Moves src 0 initial_parser initial_parser = record {
        from = omega arith;
        inside = omega arith;
        keeps = record { same_cfg = refl; same_slots = refl };
      } in
      and_then (Deep src) (λ _ t. Moves src 0 initial_parser t × Settled src t.pos.idx)
        (λ _ t. Ready src t) (cfg_skip_empty_lines src true initial_parser)
        (λ _. parse_loop src (rounds src) (some false))
        (empty_lines-at_start src (Deep src) clean short initial_parser here refl)
        (λ _ t h.
          parse_loop-ends (rounds src) false t
            (record {
              inside = h.0.inside;
              settled = h.1;
              inv = Keeps-Inv initial_parser t h.0.keeps initial-Inv;
            })
            (omega arith))

-- What cfg_parse may leave of a text.
abbrev pub ParseResult : Bytes → ParseEnd → Type 0
ParseResult src (accepted cfg) = WellFormed cfg
ParseResult src (rejected cfg) = cfg.entries ≡ []
ParseResult src hit_bug = ⊥
ParseResult src hit_overrun = 15 ≤ colons src
ParseResult src hung = ⊥

finish-ParseResult :
    (src : Bytes) (m : Outcome (Unit {0}))
    → Ensures (Deep src) (λ _ t. Ready src t) m
    → ParseResult src (finish m)
unfolding finish
finish-ParseResult src (took a p) h = h.inv.well_formed
finish-ParseResult src (refused p) h = refl
finish-ParseResult src bug h = h
finish-ParseResult src overrun h = h
finish-ParseResult src spun h = h

-- On a text of less than 2 ^ 64 bytes without a NUL byte, cfg_parse returns unless it writes past
-- depth_to_offset, and that takes at least 15 colons: no loop runs out of fuel and no BUG_ON fires. An
-- accepted configuration has every link, and the offsets of the loadable entries, inside its
-- buffer, and a type in every value; a rejected one has no entries left.
pub cfg_parse-ends :
    (src : Bytes) → no_nul src ≡ true → length src < u64_mod → ParseResult src (cfg_parse src)
unfolding cfg_parse
cfg_parse-ends src clean short =
    finish-ParseResult src (parse_from_start src initial_parser) (start-ends src clean short)

result-WellFormed :
    (src : Bytes) (cfg : Config) (r : ParseEnd)
    → ParseResult src r
    → r ≡ accepted cfg
    → WellFormed cfg
result-WellFormed src cfg (accepted c) h e = let same : c ≡ cfg = cc in rw (← same) h
result-WellFormed src cfg (rejected c) h e = absurd cc
result-WellFormed src cfg hit_bug h e = absurd cc
result-WellFormed src cfg hit_overrun h e = absurd cc
result-WellFormed src cfg hung h e = absurd cc

-- what the lookups need
pub accepted-WellFormed :
    (src : Bytes) (cfg : Config)
    → no_nul src ≡ true
    → length src < u64_mod
    → cfg_parse src ≡ accepted cfg
    → WellFormed cfg
accepted-WellFormed src cfg clean short e =
    result-WellFormed src cfg (cfg_parse src) (cfg_parse-ends src clean short) e
