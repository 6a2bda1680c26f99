-- ===== src/Config/Query.antt =====
-- The lookups of loader/config.c. A pointer to an entry is its index in the buffer; an entry past the end is
-- dynamic_buffer_get_slot's BUG_ON. The walks have fuel for one round for each entry.
pub mod Level
pub mod Typed
pub mod Loadable
use hyper.Base.{
  ℕ, zero, suc, ◌+◌, ◌-◌, Bool, true, false, not, ◌&&◌, leb, ltb, ◌==◌, if◌then◌else◌, Option, none,
  some, List, length, get_elem?, Run, ok, panic, stuck, bug_on, ◌>>=◌, ◌>>◌, u64_mod, add64,
}
use Prim.Native.Nat.{bit_and}
use hyper.Text.Ctype.{Bytes}
use hyper.Text.View.{sv_equals}
use hyper.Config.{
  Content, as_bool, as_unsigned, as_signed, as_string, object, value_boolean, value_unsigned,
  value_signed, value_string, value_object, value_any, type_of, Value, EntryType, entry_value,
  ConfigEntry, Config, cfg_empty,
}

-- dynamic_buffer_get_slot
abbrev entry_or_bug : Option ConfigEntry → Run ConfigEntry
entry_or_bug none = panic
entry_or_bug (some e) = ok e

unfoldable pub get_slot : List ConfigEntry → ℕ → Run ConfigEntry
get_slot es i = entry_or_bug (get_elem? es i)

-- cfg_next_entry: `none` is NULL
unfoldable pub cfg_next_entry : List ConfigEntry → ℕ → Run (Option ℕ)
unfolding get_slot
cfg_next_entry es i = do
  e ← get_slot es i
  if e.next == 0 then ok none else (do next ← get_slot es (i + e.next); ok (some (i + e.next)))

pub record LoadableEntry : Type 0 where
  pub name : Bytes
  pub cfg_off : ℕ

-- the loop of cfg_get_loadable_entry from an entry, `none` at NULL
unfoldable pub loadable_loop : ℕ → List ConfigEntry → Bytes → Option ℕ → Run (Option LoadableEntry)
unfolding get_slot cfg_next_entry
loadable_loop n es key none = ok none
loadable_loop zero es key (some i) = stuck
loadable_loop (suc n) es key (some i) = do
  ent ← get_slot es i
  if sv_equals ent.key key
      then ok (some (record { name = key; cfg_off = i }))
      else (do next ← cfg_next_entry es i; loadable_loop n es key next)

unfoldable pub cfg_get_loadable_entry : Config → Bytes → Run (Option LoadableEntry)
unfolding get_slot loadable_loop
cfg_get_loadable_entry cfg key = if cfg.first_loadable_entry_offset == 0 then ok none else (do
  ent ← get_slot cfg.entries (cfg.first_loadable_entry_offset - 1)
  loadable_loop (length cfg.entries) cfg.entries key (some (cfg.first_loadable_entry_offset - 1)))

unfoldable pub cfg_first_loadable_entry : Config → Run (Option LoadableEntry)
unfolding get_slot
cfg_first_loadable_entry cfg = if cfg.first_loadable_entry_offset == 0 then ok none else (do
  ent ← get_slot cfg.entries (cfg.first_loadable_entry_offset - 1)
  ok (some (record { name = ent.key; cfg_off = cfg.first_loadable_entry_offset - 1 })))

pub record FindResult : Type 0 where
  pub first : ℕ
  pub last : ℕ
  pub count : ℕ

abbrev pub no_result : FindResult
no_result = record { first = 0; last = 0; count = 0 }

abbrev pub is_value : EntryType → Bool
is_value entry_value = true
is_value _ = false

-- a match at `offset`
unfoldable pub count_match : ℕ → FindResult → FindResult
count_match offset res = record {
  first = if res.count == 0 then offset else res.first;
  last = offset;
  count = res.count + 1;
}

unfoldable pub cfg_find_loop : ℕ → List ConfigEntry → Bytes → ℕ → ℕ → FindResult → Run FindResult
unfolding get_slot count_match
cfg_find_loop zero es key most offset res = stuck
cfg_find_loop (suc n) es key most offset res = do
  ent ← get_slot es offset
  let hit = sv_equals ent.key key
  let res' = if hit then count_match offset res else res
  let rest = cfg_find_loop n es key most (offset + ent.next) res'
  if not (is_value ent.t)
      then ok res
      else if hit && leb most res'.count
      then ok res'
      else if ent.next == 0
      then ok res'
      else rest

unfoldable pub cfg_find : Config → ℕ → Bytes → ℕ → Run FindResult
unfolding cfg_find_loop
cfg_find cfg offset key most = do
  bug_on (leb (length cfg.entries) offset)
  cfg_find_loop (length cfg.entries) cfg.entries key most offset no_result

unfoldable pub is_of_type : ℕ → ℕ → Bool
is_of_type type mask = bit_and type mask == type

-- oops_on_unexpected_type does not return.
unfoldable pub of_type : ℕ → Value → Run (Option Value)
unfolding is_of_type type_of
of_type mask v = if is_of_type (type_of v.content) mask then ok (some v) else panic

-- the offset -1 of a lookup in the global section
abbrev pub global_offset : ℕ
global_offset = u64_mod - 1

-- BUG_ON of cfg_find_ext on the offset
abbrev pub bad_offset : Config → ℕ → Bool
bad_offset cfg offset = not (offset == global_offset) && leb (length cfg.entries - 1) offset

unfoldable pub cfg_find_ext : Config → ℕ → Bool → Bytes → ℕ → Run (Option Value)
unfolding get_slot cfg_find of_type
cfg_find_ext cfg offset unique key mask = do
  bug_on (mask == 0)
  bug_on (bad_offset cfg offset)
  if cfg_empty cfg then ok none else (do
    res ← cfg_find cfg (add64 offset 1) key 2
    bug_on (ltb 1 res.count && unique)
    if res.count == 0
        then ok none
        else (do ent ← get_slot cfg.entries res.first; of_type mask ent.as_value))

-- the loop of cfg_get_next_one_of, from the entry behind the current one
unfoldable pub next_loop : ℕ → List ConfigEntry → ℕ → Bytes → Bool → Option ℕ → Run (Option Value)
unfolding get_slot cfg_next_entry is_of_type type_of
next_loop n es mask key oops none = ok none
next_loop zero es mask key oops (some i) = stuck
next_loop (suc n) es mask key oops (some i) = do
  entry ← get_slot es i
  let matches = is_of_type (type_of entry.as_value.content) mask
  let onward = (do next ← cfg_next_entry es i; next_loop n es mask key oops next)
  if not (sv_equals entry.key key)
      then onward
      else if matches
      then ok (some entry.as_value)
      else if oops
      then panic
      else onward

unfoldable pub cfg_get_next_one_of : Config → ℕ → Value → Bool → Run (Option Value)
unfolding get_slot cfg_next_entry next_loop
cfg_get_next_one_of cfg mask val oops = do
  entry ← get_slot cfg.entries val.cfg_off
  next ← cfg_next_entry cfg.entries val.cfg_off
  next_loop (length cfg.entries) cfg.entries mask entry.key oops next

unfoldable pub cfg_get_next : Config → Value → Bool → Run (Option Value)
unfolding cfg_get_next_one_of type_of
cfg_get_next cfg val oops = cfg_get_next_one_of cfg (type_of val.content) val oops

-- The members of the union. To read one that was not written has no meaning.
abbrev pub read_bool : Option Value → Run (Option Bool)
read_bool none = ok none
read_bool (some v) = elim v.content [ as_bool b ↦ ok (some b) | _ ↦ stuck ]

abbrev pub read_unsigned : Option Value → Run (Option ℕ)
read_unsigned none = ok none
read_unsigned (some v) = elim v.content [ as_unsigned x ↦ ok (some x) | _ ↦ stuck ]

abbrev pub read_signed : Option Value → Run (Option ℕ)
read_signed none = ok none
read_signed (some v) = elim v.content [ as_signed x ↦ ok (some x) | _ ↦ stuck ]

abbrev pub read_string : Option Value → Run (Option Bytes)
read_string none = ok none
read_string (some v) = elim v.content [ as_string s ↦ ok (some s) | _ ↦ stuck ]

module _ (cfg : Config) (offset : ℕ) (unique : Bool) (key : Bytes) where
  unfoldable pub cfg_get_bool : Run (Option Bool)
  unfolding cfg_find_ext
  cfg_get_bool = do v ← cfg_find_ext cfg offset unique key value_boolean; read_bool v

  unfoldable pub cfg_get_unsigned : Run (Option ℕ)
  unfolding cfg_find_ext
  cfg_get_unsigned = do v ← cfg_find_ext cfg offset unique key value_unsigned; read_unsigned v

  unfoldable pub cfg_get_signed : Run (Option ℕ)
  unfolding cfg_find_ext
  cfg_get_signed = do v ← cfg_find_ext cfg offset unique key value_signed; read_signed v

  unfoldable pub cfg_get_string : Run (Option Bytes)
  unfolding cfg_find_ext
  cfg_get_string = do v ← cfg_find_ext cfg offset unique key value_string; read_string v

  unfoldable pub cfg_get_object : Run (Option Value)
  unfolding cfg_find_ext
  cfg_get_object = cfg_find_ext cfg offset unique key value_object

  unfoldable pub cfg_get_value : Run (Option Value)
  unfolding cfg_find_ext
  cfg_get_value = cfg_find_ext cfg offset unique key value_any

  unfoldable pub cfg_get_one_of : ℕ → Run (Option Value)
  unfolding cfg_find_ext
  cfg_get_one_of mask = cfg_find_ext cfg offset unique key mask

-- The macros on the global section. The names of the two number lookups are swapped there.
module _ (cfg : Config) (key : Bytes) where
  unfoldable pub cfg_get_global_bool : Run (Option Bool)
  unfolding cfg_get_bool
  cfg_get_global_bool = cfg_get_bool cfg global_offset true key

  unfoldable pub cfg_get_global_signed : Run (Option ℕ)
  unfolding cfg_get_unsigned
  cfg_get_global_signed = cfg_get_unsigned cfg global_offset true key

  unfoldable pub cfg_get_global_unsigned : Run (Option ℕ)
  unfolding cfg_get_signed
  cfg_get_global_unsigned = cfg_get_signed cfg global_offset true key

  unfoldable pub cfg_get_global_string : Run (Option Bytes)
  unfolding cfg_get_string
  cfg_get_global_string = cfg_get_string cfg global_offset true key

  unfoldable pub cfg_get_global_object : Run (Option Value)
  unfolding cfg_get_object
  cfg_get_global_object = cfg_get_object cfg global_offset true key
