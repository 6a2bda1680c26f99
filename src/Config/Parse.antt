-- ===== src/Config/Parse.antt =====
-- The entries of loader/config.c: cfg_emplace with its links, cfg_parse_objects and cfg_parse.
pub mod Links
pub mod Rounds
pub mod Objects
pub mod Ends
use hyper.Base.{
  ℕ, zero, suc, ◌+◌, ◌-◌, ◌%◌, Bool, true, false, not, ◌&&◌, ltb, leb, ◌==◌, if◌then◌else◌, Option,
  none, some, List, [], ◌∷◌, ◌++◌, length, get_or, u16_mod, u32_mod, sub64,
}
use hyper.Text.Ctype.{Bytes}
use hyper.Config.{
  Config, ConfigEntry, Content, EntryType, entry_none, entry_value, entry_loadable, object,
  zero_value, zero_config, ambiguous_indent, expected_ident, expected_str, expected_colon_or_equ,
  exceeded_depth, empty_obj, empty_le,
}
use hyper.Config.Scan.{
  Parser, Outcome, took, refused, bug, overrun, spun, Cmd, pure, spin, ◌>>=◌, ◌>>◌, when◌then◌else◌,
  parser, cfg_raise,
}
use hyper.Config.Skip.{rounds, cfg_skip_empty_lines}
use hyper.Config.Token.{
  TokenType, token_string, token_indent, token_lentry, token_equ, token_colon, token_eof, Token,
  set_in_value, cfg_unfetch_token, cfg_fetch_token, cfg_object_from_string,
}

abbrev pub max_depth : ℕ
max_depth = 16

-- old_entry->next = next
unfoldable pub set_next : List ConfigEntry → ℕ → ℕ → List ConfigEntry
set_next [] i next = []
set_next (e ∷ es) zero next = record e { next = next } ∷ es
set_next (e ∷ es) (suc i) next = e ∷ set_next es i next

-- the loop that clears the slots of deeper levels up to the first that is 0 already
unfoldable pub clear_run : List ℕ → List ℕ
clear_run [] = []
clear_run (zero ∷ slots) = 0 ∷ slots
clear_run (suc v ∷ slots) = 0 ∷ clear_run slots

-- depth_to_offset[depth] = size, and the loop behind it
unfoldable pub fill_slot : List ℕ → ℕ → ℕ → List ℕ
unfolding clear_run
fill_slot [] depth size = []
fill_slot (s ∷ slots) zero size = size ∷ clear_run slots
fill_slot (s ∷ slots) (suc depth) size = s ∷ fill_slot slots depth size

-- The offsets of loadable entries, at `size` entries with the new one.
unfoldable pub note_loadable : EntryType → ℕ → Config → Config
note_loadable entry_loadable size cfg = record cfg {
  first_loadable_entry_offset =
      if cfg.first_loadable_entry_offset == 0 then size else cfg.first_loadable_entry_offset;
  last_loadable_entry_offset = size;
}
note_loadable _ size cfg = cfg

unfoldable pub place_value : EntryType → ℕ → ConfigEntry → ConfigEntry
place_value entry_value i e = record e { as_value = record e.as_value { cfg_off = i % u16_mod } }
place_value _ i e = e

-- old_entry is the last entry of the level, `slot` 1 more than its index.
unfoldable pub link_previous : ℕ → List ConfigEntry → List ConfigEntry
unfolding set_next
link_previous zero es = es
link_previous (suc old_idx) es = set_next es old_idx (sub64 (length es - 1) old_idx)

-- A depth past the end of depth_to_offset, and dynamic_buffer_get_slot past the end of the buffer.
unfoldable pub emplace_at : ℕ → ConfigEntry → ℕ → Cmd (Unit {0})
unfolding note_loadable place_value link_previous fill_slot
emplace_at slot e depth p =
    let es = p.cfg.entries ++ place_value e.t (length p.cfg.entries) e ∷ [] in
    if ltb (length es) slot
    then bug
    else pure tt (record p {
      cfg = record (note_loadable e.t (length es) p.cfg) { entries = link_previous slot es };
      depth_to_offset = fill_slot p.depth_to_offset depth (length es % u32_mod);
    })

abbrev pub is_entry : EntryType → Bool
is_entry entry_none = false
is_entry _ = true

unfoldable pub cfg_emplace : ConfigEntry → ℕ → Cmd (Unit {0})
unfolding emplace_at
cfg_emplace e depth p =
    if not (is_entry e.t)
    then bug
    else if leb max_depth depth
    then overrun
    else emplace_at (get_or p.depth_to_offset depth 0) e depth p

unfoldable pub cfg_emplace_loadable_entry : Bytes → Cmd (Unit {0})
unfolding cfg_emplace
cfg_emplace_loadable_entry name =
    cfg_emplace (record { key = name; t = entry_loadable; as_value = zero_value; next = 0 }) 0

abbrev pub value_entry : Bytes → Content → ConfigEntry
value_entry name v = record {
  key = name;
  t = entry_value;
  as_value = record { content = v; cfg_off = 0 };
  next = 0;
}

abbrev pub is_colon : TokenType → Bool
is_colon token_colon = true
is_colon _ = false

abbrev pub is_indent : TokenType → Bool
is_indent (token_indent n) = true
is_indent _ = false

-- tok.type == TOKEN_INDENT && tok.as_uint == depth
abbrev pub is_indent_of : ℕ → TokenType → Bool
is_indent_of depth (token_indent n) = n == depth
is_indent_of depth _ = false

-- what a round of cfg_parse_objects leaves to do: nothing, or another round at a depth, behind a token
pub data Round : Type 0 where
  objects_end : Round
  next_round : ℕ → TokenType → Round

unfoldable pub set_in_lentry : Cmd (Unit {0})
set_in_lentry p = pure tt (record p { in_lentry = true })

abbrev pub empty_slots : ℕ → List ℕ
empty_slots zero = []
empty_slots (suc n) = 0 ∷ empty_slots n

module _ (src : Bytes) where
  -- behind '=': the value of the key
  unfoldable pub parse_assignment : Bytes → TokenType → Cmd Content
  unfolding cfg_object_from_string
  parse_assignment key (token_string s) = cfg_object_from_string s
  parse_assignment key _ = cfg_raise expected_str

  -- The entry that begins with `key`, by the token behind the key; the result is current_depth.
  unfoldable pub parse_entry : Bytes → ℕ → TokenType → Cmd ℕ
  unfolding cfg_emplace cfg_fetch_token parse_assignment
  parse_entry key depth token_colon =
      when leb max_depth depth
      then cfg_raise exceeded_depth
      else (do cfg_emplace (value_entry key object) depth; pure (depth + 1))
  parse_entry key depth token_equ = do
    tok ← cfg_fetch_token src
    v ← parse_assignment key tok.type
    cfg_emplace (value_entry key v) depth
    pure depth
  parse_entry key depth _ = cfg_raise expected_colon_or_equ

  unfoldable pub objects_by : ℕ → ℕ → TokenType → TokenType → Token → Cmd Round
  unfolding cfg_fetch_token cfg_unfetch_token parse_entry
  objects_by base_depth current_depth prev_tok (token_string key) _ = do
    tok ← cfg_fetch_token src
    depth ← parse_entry key (if is_indent prev_tok then current_depth else base_depth) tok.type
    pure (next_round depth tok.type)
  objects_by base_depth current_depth prev_tok (token_indent n) tok =
      when ltb current_depth n
      then cfg_raise ambiguous_indent
      else pure (next_round n (token_indent n))
  objects_by base_depth current_depth prev_tok (token_lentry s) tok = do
    cfg_unfetch_token tok
    pure objects_end
  objects_by base_depth current_depth prev_tok token_eof tok = do
    cfg_unfetch_token tok
    pure objects_end
  objects_by base_depth current_depth prev_tok _ tok = cfg_raise expected_ident

  -- A round of the loop, from the token that it begins with.
  unfoldable pub objects_round : ℕ → ℕ → TokenType → Token → Cmd Round
  unfolding cfg_unfetch_token objects_by
  objects_round base_depth current_depth prev_tok tok =
      when is_colon prev_tok && not (is_indent_of current_depth tok.type)
      then (do cfg_unfetch_token tok; cfg_raise empty_obj)
      else objects_by base_depth current_depth prev_tok tok.type tok

  unfoldable pub objects_loop : ℕ → ℕ → Round → Cmd (Unit {0})
  unfolding cfg_fetch_token objects_round
  objects_loop n base_depth objects_end = pure tt
  objects_loop zero base_depth (next_round current_depth prev_tok) = spin
  objects_loop (suc n) base_depth (next_round current_depth prev_tok) = do
    tok ← cfg_fetch_token src
    r ← objects_round base_depth current_depth prev_tok tok
    objects_loop n base_depth r

  -- prev_tok begins as TOKEN_EOF.
  unfoldable pub cfg_parse_objects : Cmd (Unit {0})
  unfolding objects_loop
  cfg_parse_objects = do
    p ← parser
    let base_depth = if p.in_lentry then 1 else 0
    objects_loop (rounds src) base_depth (next_round base_depth token_eof)

  -- The switch of cfg_parse: the value that must_be_ident has in the next round, `none` at `out`.
  unfoldable pub parse_by : Bool → TokenType → Token → Cmd (Option Bool)
  unfolding cfg_fetch_token cfg_unfetch_token set_in_value set_in_lentry cfg_parse_objects
      cfg_emplace_loadable_entry
  parse_by must_be_ident (token_string s) tok = do
    cfg_unfetch_token tok
    set_in_value false
    cfg_parse_objects
    pure (some false)
  parse_by must_be_ident (token_lentry name) tok =
      when must_be_ident
      then cfg_raise empty_le
      else (do cfg_emplace_loadable_entry name; set_in_lentry; pure (some true))
  parse_by must_be_ident (token_indent n) tok = cfg_raise ambiguous_indent
  parse_by must_be_ident token_eof tok = when must_be_ident then cfg_raise empty_le else pure none
  parse_by must_be_ident _ tok = cfg_raise expected_ident

  unfoldable pub parse_loop : ℕ → Option Bool → Cmd (Unit {0})
  unfolding cfg_fetch_token parse_by
  parse_loop n none = pure tt
  parse_loop zero (some must_be_ident) = spin
  parse_loop (suc n) (some must_be_ident) = do
    tok ← cfg_fetch_token src
    r ← parse_by must_be_ident tok.type tok
    parse_loop n r

  unfoldable pub parse_from_start : Cmd (Unit {0})
  unfolding cfg_skip_empty_lines parse_loop
  parse_from_start = do cfg_skip_empty_lines src true; parse_loop (rounds src) (some false)

-- what cfg_parse leaves: true with the configuration, or false with its error
pub data ParseEnd : Type 0 where
  accepted : Config → ParseEnd
  rejected : Config → ParseEnd
  hit_bug : ParseEnd
  hit_overrun : ParseEnd
  hung : ParseEnd

-- err_out releases the entries.
unfoldable pub finish : Outcome (Unit {0}) → ParseEnd
finish (took u p) = accepted p.cfg
finish (refused p) = rejected (record p.cfg { entries = [] })
finish bug = hit_bug
finish overrun = hit_overrun
finish spun = hung

-- `struct config_parser p = { .cfg = cfg, .src = src }` behind the memzero of the configuration
abbrev pub initial_parser : Parser
initial_parser = record {
  pos = record { line = 0; column = 0; idx = 0; line_start_idx = 0 };
  cfg = zero_config;
  ind_count = 0;
  ind_char = 0;
  in_value = false;
  in_lentry = false;
  depth_to_offset = empty_slots max_depth;
}

unfoldable pub cfg_parse : Bytes → ParseEnd
unfolding parse_from_start finish
cfg_parse src = finish (parse_from_start src initial_parser)

-- The text goes back to the allocator, and memzero clears the configuration.
unfoldable pub cfg_release : Config → Config
cfg_release cfg = zero_config
