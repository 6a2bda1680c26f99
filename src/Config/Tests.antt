-- ===== src/Config/Tests.antt =====
-- The configuration file at concrete texts.
use hyper.Base.{zero, suc, ℕ, ◌≡◌, refl, true, [], ◌∷◌, arith}
use hyper.Base.{zero, suc, ℕ, ok, panic}
use hyper.Text.Ctype.{Bytes}
use hyper.Text.View.{sv_starts_with, sv_offset_by, sv_equals_caseless, sv_equals}
use hyper.Text.Convert.{
  str_to_u64_with_base, str_to_i64_with_base, do_str_to_u64, do_str_to_u64_unchecked, consume_base,
}
use hyper.Config.{
  unset, as_bool, as_unsigned, as_signed, object, type_of, entry_value, entry_loadable, Config,
  zero_config,
}
use hyper.Config.Scan.{cfg_getch, cfg_ungetch}
use hyper.Config.Scan.Ensures.{Ensures}
use hyper.Config.Skip.Position.{no_nul}
use hyper.Config.Parse.{
  hit_overrun, cfg_emplace, value_entry, accepted, hung, initial_parser, cfg_parse,
}
use hyper.Config.Parse.Links.{WellFormed, ParserInv, emplace-Inv}
use hyper.Config.Parse.Ends.{initial-Inv, ParseResult, cfg_parse-ends, accepted-WellFormed}
use hyper.Config.Query.{
  cfg_get_loadable_entry, cfg_first_loadable_entry, global_offset, cfg_get_bool, cfg_get_unsigned,
  cfg_get_signed, cfg_get_string, cfg_get_global_signed,
}
use hyper.Config.Query.Level.{matches}
use hyper.Config.Query.Typed.{
  typed_pick, the_bool, the_unsigned, the_signed, the_string, typed_lookups, global_signed_stops,
}
use hyper.Config.Query.Loadable.{first_named, first_of, loadables, loadable_lookups}

-- two values of the global section and a loadable entry with one value
abbrev sample : Bytes
sample =
    b'a' ∷ b' ' ∷ b'=' ∷ b' ' ∷ b'1' ∷ b'\n' ∷ b'n' ∷ b' ' ∷ b'=' ∷ b' ' ∷ b'-' ∷ b'2' ∷ b'\n'
    ∷ b'[' ∷ b'e' ∷ b']' ∷ b'\n' ∷ b'x' ∷ b' ' ∷ b'=' ∷ b' ' ∷ b't' ∷ b'r' ∷ b'u' ∷ b'e' ∷ b'\n'
    ∷ []

abbrev sample_config : Config
sample_config = record zero_config {
  first_loadable_entry_offset = 3;
  last_loadable_entry_offset = 3;
  entries =
      record {
        key = b'a' ∷ [];
        t = entry_value;
        as_value = record { content = as_unsigned 1; cfg_off = 0 };
        next = 1;
      }
      ∷ record {
        key = b'n' ∷ [];
        t = entry_value;
        as_value = record { content = as_signed 2; cfg_off = 1 };
        next = 1;
      }
      ∷ record {
        key = b'e' ∷ [];
        t = entry_loadable;
        as_value = record { content = unset; cfg_off = 0 };
        next = 0;
      }
      ∷ record {
        key = b'x' ∷ [];
        t = entry_value;
        as_value = record { content = as_bool true; cfg_off = 3 };
        next = 0;
      }
      ∷ [];
}

parse_sample : cfg_parse sample ≡ accepted sample_config
unfolding cfg_parse cfg_getch cfg_ungetch str_to_u64_with_base sv_starts_with do_str_to_u64
    consume_base do_str_to_u64_unchecked str_to_i64_with_base sv_offset_by sv_equals_caseless
parse_sample = refl

sample_is_clean : no_nul sample ≡ true
unfolding no_nul
sample_is_clean = refl

sample-WellFormed : WellFormed sample_config
sample-WellFormed =
    accepted-WellFormed sample sample_config sample_is_clean (omega arith) parse_sample

cfg_parse-ends_example : ParseResult sample (cfg_parse sample)
cfg_parse-ends_example = cfg_parse-ends sample sample_is_clean (omega arith)

emplace-Inv_example :
    Ensures Unit
      (λ _ t. ParserInv t × (t.pos ≡ initial_parser.pos))
      (cfg_emplace (value_entry (b'a' ∷ []) object) 3 initial_parser)
unfolding type_of
emplace-Inv_example =
    emplace-Inv Unit (value_entry (b'a' ∷ []) object) 3 initial_parser initial-Inv refl refl refl
      (λ deep. tt)

typed_lookups_example :
    (cfg_get_bool sample_config 2 true (b'x' ∷ [])
      ≡ typed_pick the_bool true (matches sample_config 2 (b'x' ∷ [])))
    × (cfg_get_unsigned sample_config 2 true (b'x' ∷ [])
        ≡ typed_pick the_unsigned true (matches sample_config 2 (b'x' ∷ [])))
    × (cfg_get_signed sample_config 2 true (b'x' ∷ [])
        ≡ typed_pick the_signed true (matches sample_config 2 (b'x' ∷ [])))
    × (cfg_get_string sample_config 2 true (b'x' ∷ [])
        ≡ typed_pick the_string true (matches sample_config 2 (b'x' ∷ [])))
typed_lookups_example = typed_lookups sample_config 2 true (b'x' ∷ []) sample-WellFormed refl

loadable_lookups_example :
    (cfg_get_loadable_entry sample_config (b'e' ∷ [])
      ≡ ok (first_named (b'e' ∷ []) (loadables sample_config)))
    × (cfg_first_loadable_entry sample_config ≡ ok (first_of (loadables sample_config)))
loadable_lookups_example = loadable_lookups sample_config (b'e' ∷ []) sample-WellFormed

n_entry :
    matches sample_config global_offset (b'n' ∷ [])
    ≡ (
      1,
      record {
        key = b'n' ∷ [];
        t = entry_value;
        as_value = record { content = as_signed 2; cfg_off = 1 };
        next = 1;
      },
    )
      ∷ []
unfolding matches sv_equals
n_entry = refl

global_signed_stops_example : cfg_get_global_signed sample_config (b'n' ∷ []) ≡ panic
global_signed_stops_example =
    global_signed_stops sample_config (b'n' ∷ []) 1 _ [] 2 sample-WellFormed n_entry refl

-- a NUL byte and a blank at the end of an object
abbrev nul_text : Bytes
nul_text = b'a' ∷ b':' ∷ b'\n' ∷ b' ' ∷ b'b' ∷ b'=' ∷ b'1' ∷ b'\n' ∷ 0 ∷ b' ' ∷ []

nul_hangs : cfg_parse nul_text ≡ hung
unfolding cfg_parse cfg_getch cfg_ungetch str_to_u64_with_base sv_starts_with do_str_to_u64
    consume_base do_str_to_u64_unchecked
nul_hangs = refl

abbrev indented : ℕ → Bytes → Bytes
indented zero str = str
indented (suc n) str = b' ' ∷ indented n str

-- sixteen objects in one another, and a value in the last
abbrev nested : ℕ → ℕ → Bytes
nested zero depth = indented depth (b'a' ∷ b'=' ∷ b'1' ∷ b'\n' ∷ [])
nested (suc n) depth = indented depth (b'a' ∷ b':' ∷ b'\n' ∷ nested n (suc depth))

deep_overruns : cfg_parse (nested 16 0) ≡ hit_overrun
unfolding cfg_parse cfg_getch cfg_ungetch str_to_u64_with_base sv_starts_with do_str_to_u64
    consume_base do_str_to_u64_unchecked
deep_overruns = refl
