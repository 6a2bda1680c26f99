-- ===== src/Config.antt =====
-- loader/include/config.h: values, entries and the parsed configuration. The entries lie in one buffer, here a list;
-- a view into the text of the file is the list of its bytes.
pub mod Scan
pub mod Skip
pub mod Token
pub mod Parse
pub mod Query
mod Tests
use hyper.Base.{ℕ, zero, suc, ◌+◌, ◌*◌, ◌/◌, ◌%◌, Bool, ◌==◌, List, [], length}
use hyper.Text.Ctype.{Bytes}

-- The union of struct value with its tag: `as_signed` is a bit pattern below 2 ^ 64. An entry that
-- is no value has the tag 0.
pub data Content : Type 0 where
  unset : Content
  null_value : Content
  as_bool : Bool → Content
  as_unsigned : ℕ → Content
  as_signed : ℕ → Content
  as_string : Bytes → Content
  object : Content

abbrev pub value_none : ℕ
value_none = 1

abbrev pub value_boolean : ℕ
value_boolean = 2

abbrev pub value_unsigned : ℕ
value_unsigned = 4

abbrev pub value_signed : ℕ
value_signed = 8

abbrev pub value_string : ℕ
value_string = 16

abbrev pub value_object : ℕ
value_object = 32

abbrev pub value_any : ℕ
value_any = 0xFF

-- enum value_type
unfoldable pub type_of : Content → ℕ
type_of unset = 0
type_of null_value = value_none
type_of (as_bool b) = value_boolean
type_of (as_unsigned n) = value_unsigned
type_of (as_signed n) = value_signed
type_of (as_string s) = value_string
type_of object = value_object

pub record Value : Type 0 where
  pub content : Content
  pub cfg_off : ℕ

pub data EntryType : Type 0 where
  entry_none : EntryType
  entry_value : EntryType
  entry_loadable : EntryType

-- `next` is the distance to the next entry of the same level, 0 at the last one.
pub record ConfigEntry : Type 0 where
  pub key : Bytes
  pub t : EntryType
  pub as_value : Value
  pub next : ℕ

-- the ERR_ messages, "expected a X" and "expected one of ':' or '='"
pub data Message : Type 0 where
  no_message : Message
  invalid_char : Message
  ambiguous_indent : Message
  expected_newline : Message
  unexpected_newline : Message
  expected_ident : Message
  expected_str : Message
  expected_char : ℕ → Message
  expected_colon_or_equ : Message
  exceeded_depth : Message
  empty_obj : Message
  empty_le : Message

pub record ConfigError : Type 0 where
  pub message : Message
  pub line : ℕ
  pub column : ℕ
  pub line_start_pos : ℕ

-- The offsets are 1 more than the index of the entry, 0 if there is none.
pub record Config : Type 0 where
  pub last_error : ConfigError
  pub first_loadable_entry_offset : ℕ
  pub last_loadable_entry_offset : ℕ
  pub entries : List ConfigEntry

abbrev pub zero_value : Value
zero_value = record { content = unset; cfg_off = 0 }

-- The configuration after memzero.
abbrev pub zero_config : Config
zero_config = record {
  last_error = record { message = no_message; line = 0; column = 0; line_start_pos = 0 };
  first_loadable_entry_offset = 0;
  last_loadable_entry_offset = 0;
  entries = [];
}

abbrev pub cfg_empty : Config → Bool
cfg_empty cfg = length cfg.entries == 0
