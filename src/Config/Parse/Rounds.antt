-- ===== src/Config/Parse/Rounds.antt =====
-- A round of cfg_parse_objects in loader/config.c: what it takes of the text, and the depth against the colons read.
use hyper.Base.{
  ℕ, zero, suc, ◌+◌, ◌≤◌, ◌<◌, ◌≡◌, refl, sym, ap, ◌∙◌, inl, inr, true, false, Option, none, some,
  [], ◌∷◌, arith, leb, ◌==◌, if◌then◌else◌, Bool-cases, leb→lt, length, get_or, u64_mod,
}
use hyper.Text.Ctype.{Bytes}
use hyper.Text.Convert.Safe.{u64_parser_value, i64_parser_value}
use hyper.Config.{object, type_of, ConfigEntry}
use hyper.Config.Scan.{ConfigPos, Parser, pure, ◌>>=◌, ◌>>◌, when◌then◌else◌, cfg_raise}
use hyper.Config.Scan.Ensures.{Ensures, and_then, weaken, Keeps}
use hyper.Config.Skip.Position.{Settled, no_nul}
use hyper.Config.Token.{
  TokenType, token_string, token_indent, token_lentry, token_equ, token_colon, token_eof, Token,
  cfg_fetch_token, word_or_string, signed_or, unsigned_or, cfg_object_from_string,
}
use hyper.Config.Token.Kind.{code_of, code_by, advance, Fetched}
use hyper.Config.Token.Ends.{fetch_token-Fetched}
use hyper.Config.Parse.{
  max_depth, is_entry, cfg_emplace, value_entry, Round, objects_end, next_round, parse_assignment,
  parse_entry,
}
use hyper.Config.Parse.Links.{TypedContent, ParserInv, emplace-Inv}

-- the number of colons among the first `i` characters
unfoldable pub colons_before : Bytes → ℕ → ℕ
colons_before [] i = 0
colons_before (c ∷ str) zero = 0
colons_before (c ∷ str) (suc i) = (if c == b':' then 1 else 0) + colons_before str i

unfoldable pub colons : Bytes → ℕ
unfolding colons_before
colons src = colons_before src (length src)

pub colons_mono : (src : Bytes) (i j : ℕ) → i ≤ j → colons_before src i ≤ colons_before src j
unfolding colons_before
colons_mono [] i j h = omega arith
colons_mono (c ∷ str) zero j h = omega arith
colons_mono (c ∷ str) (suc i) zero h = absurd (omega arith)
colons_mono (c ∷ str) (suc i) (suc j) h = ground (arith, colons_mono str i j (omega arith))

colons_zero : (src : Bytes) → colons_before src 0 ≡ 0
unfolding colons_before
colons_zero [] = refl
colons_zero (c ∷ str) = refl

pub colons_step :
    (src : Bytes) (i : ℕ)
    → (get_or src i 0 == b':') ≡ true
    → colons_before src (suc i) ≡ suc (colons_before src i)
unfolding colons_before
colons_step [] i h = absurd cc
colons_step (c ∷ str) zero h = ground (arith, colons_zero str)
colons_step (c ∷ str) (suc i) h = ground (arith, colons_step str i h)

code_by_colon : (c : ℕ) → code_by c ≡ 2 → (c == b':') ≡ true
unfolding code_by
code_by_colon c h = ground arith

signed_or-typed : (str : Bytes) (r : Option ℕ) → (type_of (signed_or str r) == 0) ≡ false
unfolding signed_or word_or_string type_of
signed_or-typed str (some n) = refl
signed_or-typed str none = ground arith

unsigned_or-returns :
    (O : Type 0) (str : Bytes) (r : Option ℕ) (p : Parser)
    → Ensures O (λ v t. (t ≡ p) × ((type_of v == 0) ≡ false)) (unsigned_or str r p)
unfolding unsigned_or type_of
unsigned_or-returns O str (some n) p = (refl, refl)
unsigned_or-returns O str none p =
    let (r, e) = i64_parser_value str 0 in rw e (refl, signed_or-typed str r)

pub string_returns :
    (O : Type 0) (str : Bytes) (p : Parser)
    → Ensures O (λ v t. (t ≡ p) × ((type_of v == 0) ≡ false)) (cfg_object_from_string str p)
unfolding cfg_object_from_string
string_returns O str p = let (r, e) = u64_parser_value str 0 in rw e (unsigned_or-returns O str r p)

pub Keeps-Inv : (p t : Parser) → Keeps p t → ParserInv p → ParserInv t
Keeps-Inv p t k inv = record {
  well_formed = rw k.same_cfg inv.well_formed;
  slots_inside = rw (k.same_slots, k.same_cfg) inv.slots_inside;
}

-- At a settled position inside the text, with links that lie in the buffer.
pub record Ready (src : Bytes) (p : Parser) : Type 0 where
  pub inside : p.pos.idx ≤ length src
  pub settled : Settled src p.pos.idx
  pub inv : ParserInv p

-- the token `tok`, read at `p`
pub record Took (src : Bytes) (p : Parser) (tok : Token) (t : Parser) : Type 0 where
  pub began : tok.pos ≡ p.pos
  pub fits : code_of tok.type ≡ code_by (get_or src p.pos.idx 0)
  pub took_some : p.pos.idx + advance tok.type ≤ t.pos.idx
  pub ready : Ready src t

-- the condition under which alone depth_to_offset is overrun
abbrev pub Deep : Bytes → Type 0
Deep src = 15 ≤ colons src

-- what is left when a round of the loop began at `s` with a token of a kind, by its result
abbrev pub RoundPost : Bytes → ℕ → TokenType → Round → Parser → Type 0
RoundPost src s kind objects_end t = Ready src t × (s ≤ t.pos.idx) × (code_of kind ≡ 5 → ⊥)
RoundPost src s kind (next_round depth prev_tok) t =
    Ready src t × (s < t.pos.idx) × (depth ≤ suc (colons_before src t.pos.idx))

module _ (src : Bytes) (clean : no_nul src ≡ true) (short : length src < u64_mod) where
  pub fetch-Took :
      (p : Parser)
      → Ready src p
      → Ensures (Deep src) (λ tok t. Took src p tok t) (cfg_fetch_token src p)
  fetch-Took p r =
      weaken (Deep src)
        (λ tok t. (tok.pos ≡ p.pos) × Fetched src (get_or src p.pos.idx 0) p tok.type t)
        (λ tok t. Took src p tok t) (cfg_fetch_token src p)
        (fetch_token-Fetched src (Deep src) clean short p r.inside r.settled)
        (λ tok t h. record {
          began = h.0;
          fits = h.1.fits;
          took_some = h.1.reads.moves.from;
          ready = record {
            inside = h.1.reads.moves.inside;
            settled = h.1.reads.settled;
            inv = Keeps-Inv p t h.1.reads.moves.keeps r.inv;
          };
        })

  pub depth-Deep :
      (depth i : ℕ)
      → depth ≤ suc (colons_before src i)
      → i ≤ length src
      → max_depth ≤ depth
      → Deep src
  unfolding colons
  depth-Deep depth i bound le deep = omega (arith, colons_mono src i (length src) le)

  -- cfg_emplace of a value with what the rounds keep
  pub emplace-Ready :
      (e : ConfigEntry) (depth : ℕ) (p : Parser)
      → Ready src p
      → TypedContent e.t e.as_value.content
      → e.next ≡ 0
      → is_entry e.t ≡ true
      → (max_depth ≤ depth → Deep src)
      → Ensures (Deep src) (λ _ t. Ready src t × (t.pos ≡ p.pos)) (cfg_emplace e depth p)
  emplace-Ready e depth p r typed last kind deep =
      weaken (Deep src) (λ _ t. ParserInv t × (t.pos ≡ p.pos))
        (λ _ t. Ready src t × (t.pos ≡ p.pos)) (cfg_emplace e depth p)
        (emplace-Inv (Deep src) e depth p r.inv typed last kind deep)
        (λ _ t h. (record { inside = rw h.1 r.inside; settled = rw h.1 r.settled; inv = h.0 }, h.1))

  abbrev pub EntryPost : ℕ → ℕ → Parser → Type 0
  EntryPost s depth t = Ready src t × (s ≤ t.pos.idx) × (depth ≤ suc (colons_before src t.pos.idx))

  assignment-Ready :
      (key : Bytes) (kind : TokenType) (p : Parser)
      → Ready src p
      → Ensures
          (Deep src)
          (λ v t. (t ≡ p) × ((type_of v == 0) ≡ false))
          (parse_assignment src key kind p)
  unfolding parse_assignment cfg_raise
  assignment-Ready key (token_string s) p r = string_returns (Deep src) s p
  assignment-Ready key (token_indent n) p r = tt
  assignment-Ready key (token_lentry s) p r = tt
  assignment-Ready key token_equ p r = tt
  assignment-Ready key token_colon p r = tt
  assignment-Ready key token_eof p r = tt

  colon-Ready :
      (key : Bytes) (depth : ℕ) (p : Parser)
      → Ready src p
      → depth + 1 ≤ suc (colons_before src p.pos.idx)
      → Ensures (Deep src) (EntryPost p.pos.idx) (parse_entry src key depth token_colon p)
  unfolding parse_entry cfg_raise type_of
  colon-Ready key depth p r bound = elim (Bool-cases (leb max_depth depth)) [
    | inl over ↦ rw over tt
    | inr under ↦ rw under (
        and_then (Deep src) (λ _ t. Ready src t × (t.pos ≡ p.pos)) (EntryPost p.pos.idx)
          (cfg_emplace (value_entry key object) depth p) (λ _. pure (depth + 1))
          (emplace-Ready (value_entry key object) depth p r refl refl refl
            (λ over. absurd (omega (arith, leb→lt max_depth depth under))))
          (λ _ t h. (h.0, rw h.1 (omega arith), rw h.1 bound)))
  ]

  equ-Ready :
      (key : Bytes) (depth : ℕ) (p : Parser)
      → Ready src p
      → depth ≤ suc (colons_before src p.pos.idx)
      → Ensures (Deep src) (EntryPost p.pos.idx) (parse_entry src key depth token_equ p)
  unfolding parse_entry
  equ-Ready key depth p r bound =
      and_then (Deep src) (λ tok t. Took src p tok t) (EntryPost p.pos.idx) (cfg_fetch_token src p)
        (λ tok. do
          v ← parse_assignment src key tok.type
          cfg_emplace (value_entry key v) depth
          pure depth)
        (fetch-Took p r)
        (λ tok t h.
          and_then (Deep src) (λ v u. (u ≡ t) × ((type_of v == 0) ≡ false)) (EntryPost p.pos.idx)
            (parse_assignment src key tok.type t)
            (λ v. do cfg_emplace (value_entry key v) depth; pure depth)
            (assignment-Ready key tok.type t h.ready)
            (λ v u same.
              and_then (Deep src) (λ _ w. Ready src w × (w.pos ≡ u.pos)) (EntryPost p.pos.idx)
                (cfg_emplace (value_entry key v) depth u) (λ _. pure depth)
                (emplace-Ready (value_entry key v) depth u (rw same.0 h.ready) same.1 refl refl
                  (depth-Deep depth p.pos.idx bound r.inside))
                (λ _ w k.
                  let at_t : w.pos.idx ≡ t.pos.idx =
                    ap (λ (x : ConfigPos). x.idx) k.1 ∙ ap (λ (x : Parser). x.pos.idx) same.0 in
                  (
                    k.0,
                    omega (arith, h.took_some),
                    omega (
                      arith,
                      h.took_some,
                      bound,
                      colons_mono src p.pos.idx w.pos.idx (omega (arith, h.took_some)),
                    ),
                  ))))

  -- the part of a round behind the key, from a token that was read at `p`
  pub entry-Ready :
      (key : Bytes) (depth : ℕ) (kind : TokenType) (p t : Parser)
      → Ready src t
      → code_of kind ≡ code_by (get_or src p.pos.idx 0)
      → p.pos.idx + advance kind ≤ t.pos.idx
      → depth ≤ suc (colons_before src p.pos.idx)
      → Ensures (Deep src) (EntryPost (suc p.pos.idx)) (parse_entry src key depth kind t)
  unfolding parse_entry cfg_raise code_of advance
  entry-Ready key depth (token_string s) p t r fits more bound = tt
  entry-Ready key depth (token_indent n) p t r fits more bound = tt
  entry-Ready key depth (token_lentry s) p t r fits more bound = tt
  entry-Ready key depth token_eof p t r fits more bound = tt
  entry-Ready key depth token_equ p t r fits more bound =
      weaken (Deep src) (EntryPost t.pos.idx) (EntryPost (suc p.pos.idx))
        (parse_entry src key depth token_equ t)
        (equ-Ready key depth t r
          (omega (arith, bound, colons_mono src p.pos.idx t.pos.idx (omega arith))))
        (λ d u h. (h.0, omega (arith, h.1), h.2))
  entry-Ready key depth token_colon p t r fits more bound =
      let step = colons_step src p.pos.idx (code_by_colon (get_or src p.pos.idx 0) (sym fits)) in
      weaken (Deep src) (EntryPost t.pos.idx) (EntryPost (suc p.pos.idx))
        (parse_entry src key depth token_colon t)
        (colon-Ready key depth t r
          (omega (arith, bound, step, colons_mono src (suc p.pos.idx) t.pos.idx (omega arith))))
        (λ d u h. (h.0, omega (arith, h.1), h.2))
