-- ===== src/Config/Query/Typed.antt =====
-- The typed lookups of loader/config.c, and the member of the union that they read.
use hyper.Base.{
  ℕ, zero, suc, ◌+◌, ◌≡◌, refl, ap, inl, inr, Bool, true, false, Option, none, some, List, [], ◌∷◌,
  ◌==◌, if◌then◌else◌, Bool-cases, Option-cases, length, get_elem?, All, add64,
}
use hyper.Base.{Run, ok, panic, ◌>>=◌}
use hyper.Text.Ctype.{Bytes}
use hyper.Config.{
  Content, unset, null_value, as_bool, as_unsigned, as_signed, as_string, object, value_boolean,
  value_unsigned, value_signed, value_string, type_of, Value, EntryType, entry_none, entry_value,
  entry_loadable, ConfigEntry, Config,
}
use hyper.Config.Parse.Links.{TypedContent, Typed, WellFormed}
use hyper.Config.Query.{
  is_value, is_of_type, of_type, global_offset, bad_offset, read_bool, read_unsigned, read_signed,
  read_string, cfg_get_bool, cfg_get_unsigned, cfg_get_signed, cfg_get_string,
  cfg_get_global_signed,
}
use hyper.Config.Query.Level.{level, with_key-All, pick, matches, find_ext-pick}

-- A value of the wrong type is fatal.
abbrev expect : {A : Type 0} → Option A → Run (Option A)
expect none = panic
expect (some a) = ok (some a)

-- what a lookup for a type makes of the matches, by the way to read a value of the type
unfoldable pub typed_pick :
    {A : Type 0} → (Content → Option A) → Bool → List (ℕ × ConfigEntry) → Run (Option A)
typed_pick view unique [] = ok none
typed_pick view unique ((i, e) ∷ []) = expect (view e.as_value.content)
typed_pick view unique ((i, e) ∷ (j, f) ∷ more) =
    if unique then panic else expect (view e.as_value.content)

abbrev pub the_bool : Content → Option Bool
the_bool (as_bool b) = some b
the_bool _ = none

abbrev pub the_unsigned : Content → Option ℕ
the_unsigned (as_unsigned n) = some n
the_unsigned _ = none

abbrev pub the_signed : Content → Option ℕ
the_signed (as_signed n) = some n
the_signed _ = none

abbrev pub the_string : Content → Option Bytes
the_string (as_string s) = some s
the_string _ = none

HasType : ℕ × ConfigEntry → Type 0
HasType (i, e) = (type_of e.as_value.content == 0) ≡ false

All-get_elem? :
    (P : ConfigEntry → Type 0) (es : List ConfigEntry) (i : ℕ) (e : ConfigEntry)
    → All P es
    → get_elem? es i ≡ some e
    → P e
All-get_elem? P [] i e all h = absurd cc
All-get_elem? P (x ∷ es) zero e all h = let eq : x ≡ e = cc in rw (← eq) all.0
All-get_elem? P (x ∷ es) (suc i) e all h = All-get_elem? P es i e all.1 h

value_type :
    (t : EntryType) (c : Content) → TypedContent t c → is_value t ≡ true → (type_of c == 0) ≡ false
value_type entry_none c h v = absurd cc
value_type entry_value c h v = h
value_type entry_loadable c h v = absurd cc

level-HasType : (n : ℕ) (es : List ConfigEntry) (i : ℕ) → Typed es → All HasType (level n es i)
unfolding level HasType
level-HasType zero es i typed = tt
level-HasType (suc n) es i typed = elim (Option-cases (get_elem? es i)) [
  | inl out ↦ rw out tt
  | inr (e, at) ↦ rw at (elim (Bool-cases (is_value e.t)) [
    | inr other ↦ rw other tt
    | inl value ↦
        let has =
          value_type e.t e.as_value.content
            (All-get_elem? (λ x. TypedContent x.t x.as_value.content) es i e typed at) value in
        elim (Bool-cases (e.next == 0)) [
          | inl z ↦ rw (value, z) (has, tt)
          | inr more ↦ rw (value, more) (has, level-HasType n es (i + e.next) typed)
        ]
  ])
]

read_pick :
    {A : Type 0} (mask : ℕ) (read : Option Value → Run (Option A)) (view : Content → Option A)
    (unique : Bool) (hits : List (ℕ × ConfigEntry))
    → read none ≡ ok none
    → ((c : Content) (o : ℕ)
        → (type_of c == 0) ≡ false
        → (do w ← of_type mask (record { content = c; cfg_off = o }); read w) ≡ expect (view c))
    → All HasType hits
    → (do w ← pick unique mask hits; read w) ≡ typed_pick view unique hits
unfolding pick typed_pick HasType
read_pick mask read view unique [] empty one all = empty
read_pick mask read view unique ((i, e) ∷ []) empty one all =
    one e.as_value.content e.as_value.cfg_off all.0
read_pick mask read view true ((i, e) ∷ (j, f) ∷ more) empty one all = refl
read_pick mask read view false ((i, e) ∷ (j, f) ∷ more) empty one all =
    one e.as_value.content e.as_value.cfg_off all.0

one_bool :
    (c : Content) (o : ℕ)
    → (type_of c == 0) ≡ false
    → (do w ← of_type value_boolean (record { content = c; cfg_off = o }); read_bool w)
      ≡ expect (the_bool c)
unfolding of_type is_of_type type_of
one_bool unset o h = absurd cc
one_bool null_value o h = refl
one_bool (as_bool b) o h = refl
one_bool (as_unsigned n) o h = refl
one_bool (as_signed n) o h = refl
one_bool (as_string s) o h = refl
one_bool object o h = refl

one_unsigned :
    (c : Content) (o : ℕ)
    → (type_of c == 0) ≡ false
    → (do w ← of_type value_unsigned (record { content = c; cfg_off = o }); read_unsigned w)
      ≡ expect (the_unsigned c)
unfolding of_type is_of_type type_of
one_unsigned unset o h = absurd cc
one_unsigned null_value o h = refl
one_unsigned (as_bool b) o h = refl
one_unsigned (as_unsigned n) o h = refl
one_unsigned (as_signed n) o h = refl
one_unsigned (as_string s) o h = refl
one_unsigned object o h = refl

one_signed :
    (c : Content) (o : ℕ)
    → (type_of c == 0) ≡ false
    → (do w ← of_type value_signed (record { content = c; cfg_off = o }); read_signed w)
      ≡ expect (the_signed c)
unfolding of_type is_of_type type_of
one_signed unset o h = absurd cc
one_signed null_value o h = refl
one_signed (as_bool b) o h = refl
one_signed (as_unsigned n) o h = refl
one_signed (as_signed n) o h = refl
one_signed (as_string s) o h = refl
one_signed object o h = refl

one_string :
    (c : Content) (o : ℕ)
    → (type_of c == 0) ≡ false
    → (do w ← of_type value_string (record { content = c; cfg_off = o }); read_string w)
      ≡ expect (the_string c)
unfolding of_type is_of_type type_of
one_string unset o h = absurd cc
one_string null_value o h = refl
one_string (as_bool b) o h = refl
one_string (as_unsigned n) o h = refl
one_string (as_signed n) o h = refl
one_string (as_string s) o h = refl
one_string object o h = refl

matches-HasType :
    (cfg : Config) (offset : ℕ) (key : Bytes)
    → WellFormed cfg
    → All HasType (matches cfg offset key)
unfolding matches
matches-HasType cfg offset key wf =
    with_key-All HasType key _
      (level-HasType (length cfg.entries) cfg.entries (add64 offset 1) wf.typed)

-- On well-formed entries, at an offset that the BUG_ON lets pass, each of the four lookups of a type
-- returns what the matches call for: nothing if there is none, the member of the first one if it
-- has the type. It stops the loader if the first has another type, or if a key that must be unique
-- has several.
pub typed_lookups :
    (cfg : Config) (offset : ℕ) (unique : Bool) (key : Bytes)
    → WellFormed cfg
    → bad_offset cfg offset ≡ false
    → (cfg_get_bool cfg offset unique key ≡ typed_pick the_bool unique (matches cfg offset key))
      × (cfg_get_unsigned cfg offset unique key
          ≡ typed_pick the_unsigned unique (matches cfg offset key))
      × (cfg_get_signed cfg offset unique key
          ≡ typed_pick the_signed unique (matches cfg offset key))
      × (cfg_get_string cfg offset unique key
          ≡ typed_pick the_string unique (matches cfg offset key))
unfolding cfg_get_bool cfg_get_unsigned cfg_get_signed cfg_get_string
typed_lookups cfg offset unique key wf valid =
    let has = matches-HasType cfg offset key wf in
    let hits = matches cfg offset key in
    (
      rw (find_ext-pick cfg offset unique key value_boolean wf refl valid)
          (read_pick value_boolean read_bool the_bool unique hits refl one_bool has),
      rw (find_ext-pick cfg offset unique key value_unsigned wf refl valid)
          (read_pick value_unsigned read_unsigned the_unsigned unique hits refl one_unsigned has),
      rw (find_ext-pick cfg offset unique key value_signed wf refl valid)
          (read_pick value_signed read_signed the_signed unique hits refl one_signed has),
      rw (find_ext-pick cfg offset unique key value_string wf refl valid)
          (read_pick value_string read_string the_string unique hits refl one_string has),
    )

wrong_type :
    (view : Content → Option ℕ) (i : ℕ) (e : ConfigEntry) (more : List (ℕ × ConfigEntry))
    → view e.as_value.content ≡ none
    → typed_pick view true ((i, e) ∷ more) ≡ panic
unfolding typed_pick
wrong_type view i e [] h = rw h refl
wrong_type view i e ((j, f) ∷ more) h = refl

-- On well-formed entries cfg_get_global_signed stops the loader where the first match of the key
-- in the global section is a signed number.
pub global_signed_stops :
    (cfg : Config) (key : Bytes) (i : ℕ) (e : ConfigEntry) (more : List (ℕ × ConfigEntry)) (n : ℕ)
    → WellFormed cfg
    → matches cfg global_offset key ≡ (i, e) ∷ more
    → e.as_value.content ≡ as_signed n
    → cfg_get_global_signed cfg key ≡ panic
unfolding cfg_get_global_signed
global_signed_stops cfg key i e more n wf found signed =
    let lookups = typed_lookups cfg global_offset true key wf refl in
    rw (lookups.1, found) (wrong_type the_unsigned i e more (ap the_unsigned signed))
