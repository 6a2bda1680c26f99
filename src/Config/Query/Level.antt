-- ===== src/Config/Query/Level.antt =====
-- What the lookups of loader/config.c are to find: the values of a level, in the order of their links, and among them
-- the ones with the key.
use hyper.Base.{
  bug_on, ◌>>=◌, ◌>>◌, Run, ok, panic, ℕ, zero, suc, ◌+◌, ◌-◌, ◌≤◌, ◌<◌, ◌≡◌, refl, inl, inr, Bool,
  true, false, ◌&&◌, Option, none, some, List, [], ◌∷◌, arith, ltb, leb, ◌==◌, if◌then◌else◌,
  Bool-cases, Option-cases, leb→lt, lt→leb, ne→==, compare_cases, length, get_elem?, All, add64,
}
use hyper.Text.Ctype.{Bytes}
use hyper.Text.View.{sv_equals}
use hyper.Config.{Value, ConfigEntry, Config}
use hyper.Config.Parse.Links.{next_at, Linked, WellFormed}
use hyper.Config.Query.{
  get_slot, FindResult, no_result, is_value, count_match, cfg_find_loop, cfg_find, of_type,
  global_offset, bad_offset, cfg_find_ext,
}

-- the values from entry `i` along the links, up to the last one or one that is no value
abbrev level_from : ℕ → Option ConfigEntry → (ℕ → List (ℕ × ConfigEntry)) → List (ℕ × ConfigEntry)
level_from i none onward = []
level_from i (some e) onward =
    if is_value e.t then (i, e) ∷ (if e.next == 0 then [] else onward (i + e.next)) else []

unfoldable pub level : ℕ → List ConfigEntry → ℕ → List (ℕ × ConfigEntry)
level zero es i = []
level (suc n) es i = level_from i (get_elem? es i) (level n es)

unfoldable pub with_key : Bytes → List (ℕ × ConfigEntry) → List (ℕ × ConfigEntry)
with_key key [] = []
with_key key ((i, e) ∷ rest) =
    let more = with_key key rest in if sv_equals e.key key then (i, e) ∷ more else more

-- the result for a list of matches, the count stopping at `most`
unfoldable pub tally : ℕ → FindResult → List (ℕ × ConfigEntry) → FindResult
unfolding count_match
tally most res [] = res
tally most res ((i, e) ∷ rest) =
    let res' = count_match i res in
    let more = tally most res' rest in if leb most res'.count then res' else more

pub entry_at_index :
    (es : List ConfigEntry) (i : ℕ)
    → i < length es
    → (e : ConfigEntry) × (get_elem? es i ≡ some e) × (next_at es i ≡ e.next)
entry_at_index [] i h = absurd (omega arith)
entry_at_index (e ∷ es) zero h = (e, refl, refl)
entry_at_index (e ∷ es) (suc i) h = entry_at_index es i (omega arith)

if_ok : (b : Bool) (x y : FindResult) → (if b then ok x else ok y) ≡ ok (if b then x else y)
if_ok true x y = refl
if_ok false x y = refl

cfg_find_loop-tally :
    (n : ℕ) (es : List ConfigEntry) (key : Bytes) (most i : ℕ) (res : FindResult)
    → Linked es
    → i < length es
    → length es ≤ n + i
    → cfg_find_loop n es key most i res ≡ ok (tally most res (with_key key (level n es i)))
unfolding cfg_find_loop get_slot level with_key tally
cfg_find_loop-tally zero es key most i res linked lt fuel = absurd (omega arith)
cfg_find_loop-tally (suc n) es key most i res linked lt fuel =
    let (e, at, next) = entry_at_index es i lt in
    let rest : (r : FindResult)
        → (e.next == 0) ≡ false
        → cfg_find_loop n es key most (i + e.next) r
          ≡ ok (tally most r (with_key key (level n es (i + e.next)))) =
      λ r more.
        cfg_find_loop-tally n es key most (i + e.next) r linked (omega (arith, linked i lt, next))
          (ground arith) in
    rw at (elim (Bool-cases (is_value e.t)) [
      | inr other ↦ rw other refl
      | inl value ↦ elim (Bool-cases (sv_equals e.key key)) [
        | inl hit ↦ elim (Bool-cases (e.next == 0)) [
          | inl z ↦ rw (value, hit, z) (if_ok _ _ _)
          | inr more ↦ rw (value, hit, more, rest (count_match i res) more) (if_ok _ _ _)
        ]
        | inr miss ↦ elim (Bool-cases (e.next == 0)) [
          | inl z ↦ rw (value, miss, z) refl
          | inr more ↦ rw (value, miss, more, rest res more) refl
        ]
      ]
    ])

-- Each match stands in the buffer at its index.
InBuffer : List ConfigEntry → ℕ × ConfigEntry → Type 0
InBuffer es (i, e) = get_elem? es i ≡ some e

level-InBuffer : (n : ℕ) (es : List ConfigEntry) (i : ℕ) → All (InBuffer es) (level n es i)
unfolding level InBuffer
level-InBuffer zero es i = tt
level-InBuffer (suc n) es i = elim (Option-cases (get_elem? es i)) [
  | inl out ↦ rw out tt
  | inr (e, at) ↦ rw at (elim (Bool-cases (is_value e.t)) [
    | inr other ↦ rw other tt
    | inl value ↦ elim (Bool-cases (e.next == 0)) [
      | inl z ↦ rw (value, z) (at, tt)
      | inr more ↦ rw (value, more) (at, level-InBuffer n es (i + e.next))
    ]
  ])
]

pub with_key-All :
    (P : ℕ × ConfigEntry → Type 0) (key : Bytes) (xs : List (ℕ × ConfigEntry))
    → All P xs
    → All P (with_key key xs)
unfolding with_key
with_key-All P key [] all = tt
with_key-All P key ((i, e) ∷ xs) all = elim (Bool-cases (sv_equals e.key key)) [
  | inl hit ↦ rw hit (all.0, with_key-All P key xs all.1)
  | inr miss ↦ rw miss (with_key-All P key xs all.1)
]

-- What a lookup makes of the matches: the first counts, and a second is fatal where the key must be
-- unique.
unfoldable pub pick : Bool → ℕ → List (ℕ × ConfigEntry) → Run (Option Value)
unfolding of_type
pick unique mask [] = ok none
pick unique mask ((i, e) ∷ []) = of_type mask e.as_value
pick unique mask ((i, e) ∷ (j, f) ∷ more) = if unique then panic else of_type mask e.as_value

-- the entries with the key in the level that begins behind `offset`
unfoldable pub matches : Config → ℕ → Bytes → List (ℕ × ConfigEntry)
unfolding with_key level
matches cfg offset key = with_key key (level (length cfg.entries) cfg.entries (add64 offset 1))

of_InBuffer :
    (es : List ConfigEntry) (i : ℕ) (e : ConfigEntry) → InBuffer es (i, e) → get_elem? es i ≡ some e
unfolding InBuffer
of_InBuffer es i e h = h

pick-tally :
    (es : List ConfigEntry) (unique : Bool) (mask : ℕ) (hits : List (ℕ × ConfigEntry))
    → All (InBuffer es) hits
    → (do
      let res = tally 2 no_result hits
      bug_on (ltb 1 res.count && unique)
      if res.count == 0
          then ok none
          else (do ent ← get_slot es res.first; of_type mask ent.as_value))
      ≡ pick unique mask hits
unfolding tally pick get_slot count_match
pick-tally es unique mask [] all = refl
pick-tally es unique mask ((i, e) ∷ []) all = rw (of_InBuffer es i e all.0) refl
pick-tally es true mask ((i, e) ∷ (j, f) ∷ more) all = refl
pick-tally es false mask ((i, e) ∷ (j, f) ∷ more) all = rw (of_InBuffer es i e all.0) refl

start_inside :
    (cfg : Config) (offset : ℕ)
    → bad_offset cfg offset ≡ false
    → 0 < length cfg.entries
    → add64 offset 1 < length cfg.entries
start_inside cfg offset valid some_entry = elim (Bool-cases (offset == global_offset)) [
  | inl global ↦ let e : offset ≡ global_offset = ground arith in rw e some_entry
  | inr other ↦ let le = leb→lt (length cfg.entries - 1) offset (ground arith) in omega arith
]

-- On well-formed entries, for a mask that is not empty and an offset that the BUG_ON lets pass,
-- cfg_find_ext returns what the matches behind the offset call for.
pub find_ext-pick :
    (cfg : Config) (offset : ℕ) (unique : Bool) (key : Bytes) (mask : ℕ)
    → WellFormed cfg
    → (mask == 0) ≡ false
    → bad_offset cfg offset ≡ false
    → cfg_find_ext cfg offset unique key mask ≡ pick unique mask (matches cfg offset key)
unfolding cfg_find_ext cfg_find matches pick with_key level
find_ext-pick cfg offset unique key mask wf typed valid =
    elim (compare_cases 0 (length cfg.entries)) [
      | inl some_entry ↦
          let inside = start_inside cfg offset valid some_entry in
          let hits = with_key key (level (length cfg.entries) cfg.entries (add64 offset 1)) in
          rw
            (
              typed,
              valid,
              ne→== (length cfg.entries) 0 (λ e. omega arith),
              lt→leb (length cfg.entries) (add64 offset 1) inside,
              cfg_find_loop-tally (length cfg.entries) cfg.entries key 2 (add64 offset 1) no_result
                  wf.linked inside (omega arith),
            )
            (pick-tally cfg.entries unique mask hits (
              with_key-All (InBuffer cfg.entries) key _
                (level-InBuffer (length cfg.entries) cfg.entries (add64 offset 1))))
      | inr (inl zero_entries) ↦ rw (typed, valid, ← zero_entries) refl
      | inr (inr less) ↦ absurd (omega arith)
    ]
