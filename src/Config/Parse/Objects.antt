-- ===== src/Config/Parse/Objects.antt =====
-- The end of the loop of cfg_parse_objects in loader/config.c.
use hyper.Base.{
  ℕ, zero, suc, ◌+◌, ◌≤◌, ◌<◌, ◌≡◌, refl, ap, ◌∙◌, inl, inr, Bool, true, arith, ltb, if◌then◌else◌,
  ltb→le, Bool-cases, length, get_or, u64_mod,
}
use hyper.Text.Ctype.{Bytes}
use hyper.Config.Scan.{Parser, pure, ◌>>=◌, when◌then◌else◌, cfg_raise}
use hyper.Config.Scan.Ensures.{Ensures, and_then, weaken}
use hyper.Config.Skip.{rounds}
use hyper.Config.Skip.Position.{no_nul}
use hyper.Config.Token.{
  TokenType, token_string, token_indent, token_lentry, token_equ, token_colon, token_eof, Token,
  cfg_unfetch_token, cfg_fetch_token,
}
use hyper.Config.Token.Kind.{code_of, code_by, advance}
use hyper.Config.Parse.{
  is_indent, Round, objects_end, next_round, parse_entry, objects_by, objects_round, objects_loop,
  cfg_parse_objects,
}
use hyper.Config.Parse.Rounds.{
  colons_before, colons_mono, Ready, Took, Deep, RoundPost, fetch-Took, EntryPost, entry-Ready,
}

pick_le : (b : Bool) (x y n : ℕ) → x ≤ n → y ≤ n → (if b then x else y) ≤ n
pick_le b x y n hx hy = ground arith

base_le : (b : Bool) → (if b then 1 else 0) ≤ 1
base_le b = ground arith

RoundPost-Ready :
    {src : Bytes} (r : Round) (s : ℕ) (kind : TokenType) (u : Parser)
    → RoundPost src s kind r u
    → Ready src u
RoundPost-Ready objects_end s kind u w = w.0
RoundPost-Ready (next_round d prev_tok) s kind u w = w.0

indent_moves :
    (s : ℕ) (kind : TokenType) (n i : ℕ) → kind ≡ token_indent n → s + advance kind ≤ i → s < i
unfolding advance
indent_moves s kind n i e h = let one : advance kind ≡ 1 = ap advance e in omega (arith, one)

module _ (src : Bytes) (clean : no_nul src ≡ true) (short : length src < u64_mod) where
  -- cfg_unfetch_token, back to where the token was read
  pub unfetch-Ready :
      (p : Parser) (tok : Token) (t : Parser)
      → Ready src p
      → Took src p tok t
      → Ready src (record t { pos = tok.pos })
  unfetch-Ready p tok t r h = record {
    inside = rw h.began r.inside;
    settled = rw h.began r.settled;
    inv = record { well_formed = h.ready.inv.well_formed; slots_inside = h.ready.inv.slots_inside };
  }

  by-Ready :
      (base_depth current_depth : ℕ) (prev_tok kind : TokenType) (p : Parser) (tok : Token)
      (t : Parser)
      → Ready src p
      → Took src p tok t
      → tok.type ≡ kind
      → base_depth ≤ 1
      → current_depth ≤ suc (colons_before src p.pos.idx)
      → Ensures
          (Deep src)
          (RoundPost src p.pos.idx kind)
          (objects_by src base_depth current_depth prev_tok kind tok t)
  unfolding objects_by cfg_raise cfg_unfetch_token code_of
  by-Ready base_depth current_depth prev_tok (token_string key) p tok t r h e base bound =
      let depth = if is_indent prev_tok then current_depth else base_depth in
      let le : depth ≤ suc (colons_before src t.pos.idx) = omega (
        arith,
        pick_le (is_indent prev_tok) current_depth base_depth _ bound (omega arith),
        colons_mono src p.pos.idx t.pos.idx (omega (arith, h.took_some)),
      ) in
      and_then (Deep src) (λ tok' u. Took src t tok' u) (RoundPost src p.pos.idx (token_string key))
        (cfg_fetch_token src t)
        (λ tok'. do d ← parse_entry src key depth tok'.type; pure (next_round d tok'.type))
        (fetch-Took src clean short t h.ready)
        (λ tok' u k.
          and_then (Deep src) (EntryPost src clean short (suc t.pos.idx))
            (RoundPost src p.pos.idx (token_string key)) (parse_entry src key depth tok'.type u)
            (λ d. pure (next_round d tok'.type))
            (entry-Ready src clean short key depth tok'.type t u k.ready k.fits k.took_some le)
            (λ d v w. (w.0, omega (arith, h.took_some, w.1), w.2)))
  by-Ready base_depth current_depth prev_tok (token_indent n) p tok t r h e base bound =
      elim (Bool-cases (ltb current_depth n)) [
        | inl over ↦ rw over tt
        | inr under ↦ rw under (
          h.ready,
          indent_moves p.pos.idx tok.type n _ e h.took_some,
          omega (
            arith,
            ltb→le current_depth n under,
            bound,
            colons_mono src p.pos.idx t.pos.idx (omega (arith, h.took_some)),
          ),
        )
      ]
  by-Ready base_depth current_depth prev_tok (token_lentry s) p tok t r h e base bound =
      (unfetch-Ready p tok t r h, rw h.began (omega arith), λ five. absurd (omega (arith, five)))
  by-Ready base_depth current_depth prev_tok token_eof p tok t r h e base bound =
      (unfetch-Ready p tok t r h, rw h.began (omega arith), λ five. absurd (omega (arith, five)))
  by-Ready base_depth current_depth prev_tok token_equ p tok t r h e base bound = tt
  by-Ready base_depth current_depth prev_tok token_colon p tok t r h e base bound = tt

  pub round-Ready :
      (base_depth current_depth : ℕ) (prev_tok : TokenType) (p : Parser) (tok : Token) (t : Parser)
      → Ready src p
      → Took src p tok t
      → base_depth ≤ 1
      → current_depth ≤ suc (colons_before src p.pos.idx)
      → Ensures
          (Deep src)
          (RoundPost src p.pos.idx tok.type)
          (objects_round src base_depth current_depth prev_tok tok t)
  unfolding objects_round cfg_raise cfg_unfetch_token
  round-Ready base_depth current_depth prev_tok p tok t r h base bound =
      let rest = by-Ready base_depth current_depth prev_tok tok.type p tok t r h refl base bound in
      ground arith

  -- what the loop leaves when it was entered at `s`, with or without a string there
  abbrev LoopPost : ℕ → ℕ → Parser → Type 0
  LoopPost s code t = Ready src t × (s ≤ t.pos.idx) × (code ≡ 5 → s < t.pos.idx)

  -- from a round to the loop, by its result
  after-round :
      (n base_depth s code : ℕ) (kind : TokenType) (r : Round) (u : Parser)
      → RoundPost src s kind r u
      → code_of kind ≡ code
      → ((d : ℕ) (prev_tok : TokenType)
          → s < u.pos.idx
          → d ≤ suc (colons_before src u.pos.idx)
          → Ensures
              (Deep src)
              (λ _ t. Ready src t × (u.pos.idx ≤ t.pos.idx))
              (objects_loop src n base_depth (next_round d prev_tok) u))
      → Ensures (Deep src) (λ _ t. LoopPost s code t) (objects_loop src n base_depth r u)
  unfolding objects_loop
  after-round n base_depth s code kind objects_end u w same next =
      (w.0, w.1, λ five. absurd (w.2 (same ∙ five)))
  after-round n base_depth s code kind (next_round d prev_tok) u w same next =
      weaken (Deep src) (λ _ t. Ready src t × (u.pos.idx ≤ t.pos.idx)) (λ _ t. LoopPost s code t)
        (objects_loop src n base_depth (next_round d prev_tok) u) (next d prev_tok w.1 w.2)
        (λ _ t h. (h.0, omega (arith, h.1, w.1), λ five. omega (arith, h.1, w.1)))

  loop-Ready :
      (n base_depth d : ℕ) (prev_tok : TokenType) (p : Parser)
      → Ready src p
      → base_depth ≤ 1
      → d ≤ suc (colons_before src p.pos.idx)
      → length src < n + p.pos.idx
      → Ensures
          (Deep src)
          (λ _ t. LoopPost p.pos.idx (code_by (get_or src p.pos.idx 0)) t)
          (objects_loop src n base_depth (next_round d prev_tok) p)
  unfolding objects_loop
  loop-Ready zero base_depth d prev_tok p ready base bound fuel =
      absurd (omega (arith, ready.inside))
  loop-Ready (suc n) base_depth d prev_tok p ready base bound fuel =
      let code = code_by (get_or src p.pos.idx 0) in
      and_then (Deep src) (λ tok t. Took src p tok t) (λ _ t. LoopPost p.pos.idx code t)
        (cfg_fetch_token src p)
        (λ tok. do r ← objects_round src base_depth d prev_tok tok; objects_loop src n base_depth r)
        (fetch-Took src clean short p ready)
        (λ tok t k.
          and_then (Deep src) (RoundPost src p.pos.idx tok.type) (λ _ u. LoopPost p.pos.idx code u)
            (objects_round src base_depth d prev_tok tok t) (objects_loop src n base_depth)
            (round-Ready base_depth d prev_tok p tok t ready k base bound)
            (λ r u w.
              after-round n base_depth p.pos.idx code tok.type r u w k.fits (λ d' prev' more bound'.
                weaken (Deep src) (λ _ v. LoopPost u.pos.idx (code_by (get_or src u.pos.idx 0)) v)
                  (λ _ v. Ready src v × (u.pos.idx ≤ v.pos.idx))
                  (objects_loop src n base_depth (next_round d' prev') u)
                  (loop-Ready n base_depth d' prev' u (RoundPost-Ready r p.pos.idx tok.type u w)
                    base bound' (omega arith))
                  (λ _ v x. (x.0, x.1)))))

  pub objects-Ready :
      (p : Parser)
      → Ready src p
      → code_by (get_or src p.pos.idx 0) ≡ 5
      → Ensures (Deep src) (λ _ t. Ready src t × (p.pos.idx < t.pos.idx)) (cfg_parse_objects src p)
  unfolding cfg_parse_objects
  objects-Ready p ready string =
      let base_depth : ℕ = if p.in_lentry then 1 else 0 in
      let base = base_le p.in_lentry in
      weaken (Deep src) (λ _ t. LoopPost p.pos.idx (code_by (get_or src p.pos.idx 0)) t)
        (λ _ t. Ready src t × (p.pos.idx < t.pos.idx))
        (objects_loop src (rounds src) base_depth (next_round base_depth token_eof) p)
        (loop-Ready (rounds src) base_depth base_depth token_eof p ready base (omega (arith, base))
          (omega arith))
        (λ _ t h. (h.0, h.2 string))
