-- ===== src/Config/Parse/Links.antt =====
-- The links between entries that cfg_emplace of loader/config.c writes.
use hyper.Base.{
  ℕ, zero, suc, ◌+◌, ◌-◌, ◌%◌, ◌≤◌, ◌<◌, ◌≡◌, refl, ap, ◌∙◌, ◌⊎◌, inl, inr, true, false, List, [],
  ◌∷◌, ◌++◌, arith, leb, ◌==◌, le→ltb, Bool-cases, leb→le, compare_cases, length, get_or, All,
  length-append, u32_mod, sub64,
}
use hyper.Config.{
  Content, type_of, EntryType, entry_none, entry_value, entry_loadable, ConfigEntry, Config,
}
use hyper.Config.Scan.{Parser}
use hyper.Config.Scan.Ensures.{Ensures}
use hyper.Config.Parse.{
  max_depth, set_next, clear_run, fill_slot, note_loadable, place_value, link_previous, emplace_at,
  is_entry, cfg_emplace,
}

-- the field `next` of entry `i`, 0 past the end
abbrev pub next_at : List ConfigEntry → ℕ → ℕ
next_at [] i = 0
next_at (e ∷ es) zero = e.next
next_at (e ∷ es) (suc i) = next_at es i

-- Every link leads to an entry of the buffer.
abbrev pub Linked : List ConfigEntry → Type 0
Linked es = (i : ℕ) → i < length es → i + next_at es i < length es

-- A value has a type.
abbrev pub TypedContent : EntryType → Content → Type 0
TypedContent entry_value v = (type_of v == 0) ≡ false
TypedContent _ v = Unit

abbrev pub Typed : List ConfigEntry → Type 0
Typed es = All (λ e. TypedContent e.t e.as_value.content) es

pub record WellFormed (cfg : Config) : Type 0 where
  pub linked : Linked cfg.entries
  pub typed : Typed cfg.entries
  pub first_inside : cfg.first_loadable_entry_offset ≤ length cfg.entries
  pub last_inside : cfg.last_loadable_entry_offset ≤ length cfg.entries

pub record ParserInv (p : Parser) : Type 0 where
  pub well_formed : WellFormed p.cfg
  pub slots_inside : (d : ℕ) → get_or p.depth_to_offset d 0 ≤ length p.cfg.entries

next_at_out : (es : List ConfigEntry) (i : ℕ) → length es ≤ i → next_at es i ≡ 0
next_at_out [] i h = refl
next_at_out (e ∷ es) zero h = absurd (omega arith)
next_at_out (e ∷ es) (suc i) h = next_at_out es i (omega arith)

next_at-append :
    (es : List ConfigEntry) (e : ConfigEntry) (i : ℕ)
    → e.next ≡ 0
    → next_at (es ++ e ∷ []) i ≡ next_at es i
next_at-append [] e zero h = h
next_at-append [] e (suc i) h = refl
next_at-append (x ∷ es) e zero h = refl
next_at-append (x ∷ es) e (suc i) h = next_at-append es e i h

length-set_next : (es : List ConfigEntry) (i next : ℕ) → length (set_next es i next) ≡ length es
unfolding set_next
length-set_next [] i next = refl
length-set_next (e ∷ es) zero next = refl
length-set_next (e ∷ es) (suc i) next = ap suc (length-set_next es i next)

-- Only the entry of `i` changes.
next_at-set_next :
    (es : List ConfigEntry) (i next j : ℕ)
    → ((j ≡ i) × (next_at (set_next es i next) j ≡ next))
      ⊎ (next_at (set_next es i next) j ≡ next_at es j)
unfolding set_next
next_at-set_next [] i next j = inr refl
next_at-set_next (e ∷ es) zero next zero = inl (refl, refl)
next_at-set_next (e ∷ es) zero next (suc j) = inr refl
next_at-set_next (e ∷ es) (suc i) next zero = inr refl
next_at-set_next (e ∷ es) (suc i) next (suc j) = elim (next_at-set_next es i next j) [
  | inl (same, here) ↦ inl (ap suc same, here)
  | inr other ↦ inr other
]

Linked-append :
    (es : List ConfigEntry) (e : ConfigEntry) → e.next ≡ 0 → Linked es → Linked (es ++ e ∷ [])
Linked-append es e last linked i lt =
    let size = length-append es (e ∷ []) in
    elim (compare_cases i (length es)) [
      | inl less ↦ omega (arith, size, linked i less, next_at-append es e i last)
      | inr (inl eq) ↦
          omega (arith, size, next_at-append es e i last, next_at_out es i (omega arith))
      | inr (inr gt) ↦ absurd (omega arith)
    ]

Typed-append :
    (es : List ConfigEntry) (e : ConfigEntry)
    → Typed es
    → TypedContent e.t e.as_value.content
    → Typed (es ++ e ∷ [])
Typed-append [] e all h = (h, tt)
Typed-append (x ∷ es) e all h = (all.0, Typed-append es e all.1 h)

Typed-set_next : (es : List ConfigEntry) (i next : ℕ) → Typed es → Typed (set_next es i next)
unfolding set_next
Typed-set_next [] i next all = tt
Typed-set_next (e ∷ es) zero next all = all
Typed-set_next (e ∷ es) (suc i) next all = (all.0, Typed-set_next es i next all.1)

Typed-previous : (slot : ℕ) (es : List ConfigEntry) → Typed es → Typed (link_previous slot es)
unfolding link_previous
Typed-previous zero es all = all
Typed-previous (suc old_idx) es all = Typed-set_next es old_idx _ all

place_value-Typed :
    (t : EntryType) (i : ℕ) (e : ConfigEntry)
    → TypedContent e.t e.as_value.content
    → TypedContent (place_value t i e).t (place_value t i e).as_value.content
unfolding place_value
place_value-Typed entry_none i e h = h
place_value-Typed entry_value i e h = h
place_value-Typed entry_loadable i e h = h

distance : (a b : ℕ) → b ≤ a → b + sub64 a b ≤ a
distance a b h = omega arith

Linked-set_next :
    (es : List ConfigEntry) (i next : ℕ)
    → i + next < length es
    → Linked es
    → Linked (set_next es i next)
Linked-set_next es i next h linked j lt =
    let size = length-set_next es i next in
    elim (next_at-set_next es i next j) [
      | inl (same, here) ↦ omega (arith, size, here)
      | inr other ↦ omega (arith, size, other, linked j (omega arith))
    ]

Linked-previous :
    (slot : ℕ) (es : List ConfigEntry)
    → slot ≤ length es
    → Linked es
    → Linked (link_previous slot es)
unfolding link_previous
Linked-previous zero es h linked = linked
Linked-previous (suc old_idx) es h linked =
    Linked-set_next es old_idx _ (omega (arith, distance (length es - 1) old_idx (omega arith)))
      linked

length-previous : (slot : ℕ) (es : List ConfigEntry) → length (link_previous slot es) ≡ length es
unfolding link_previous
length-previous zero es = refl
length-previous (suc old_idx) es = length-set_next es old_idx _

clear_run-le : (slots : List ℕ) (d : ℕ) → get_or (clear_run slots) d 0 ≤ get_or slots d 0
unfolding clear_run
clear_run-le [] d = omega arith
clear_run-le (zero ∷ slots) d = omega arith
clear_run-le (suc v ∷ slots) zero = omega arith
clear_run-le (suc v ∷ slots) (suc d) = clear_run-le slots d

fill_slot-le :
    (slots : List ℕ) (depth size d n : ℕ)
    → size ≤ n
    → ((k : ℕ) → get_or slots k 0 ≤ n)
    → get_or (fill_slot slots depth size) d 0 ≤ n
unfolding fill_slot
fill_slot-le [] depth size d n le all = omega arith
fill_slot-le (s ∷ slots) zero size zero n le all = le
fill_slot-le (s ∷ slots) zero size (suc d) n le all =
    omega (arith, clear_run-le slots d, all (suc d))
fill_slot-le (s ∷ slots) (suc depth) size zero n le all = all 0
fill_slot-le (s ∷ slots) (suc depth) size (suc d) n le all =
    fill_slot-le slots depth size d n le (λ k. all (suc k))

place_value-next : (t : EntryType) (i : ℕ) (e : ConfigEntry) → (place_value t i e).next ≡ e.next
unfolding place_value
place_value-next entry_none i e = refl
place_value-next entry_value i e = refl
place_value-next entry_loadable i e = refl

first-le :
    (t : EntryType) (size n : ℕ) (cfg : Config)
    → size ≤ n
    → cfg.first_loadable_entry_offset ≤ n
    → (note_loadable t size cfg).first_loadable_entry_offset ≤ n
unfolding note_loadable
first-le entry_none size n cfg le h = h
first-le entry_value size n cfg le h = h
first-le entry_loadable size n cfg le h = ground arith

last-le :
    (t : EntryType) (size n : ℕ) (cfg : Config)
    → size ≤ n
    → cfg.last_loadable_entry_offset ≤ n
    → (note_loadable t size cfg).last_loadable_entry_offset ≤ n
unfolding note_loadable
last-le entry_none size n cfg le h = h
last-le entry_value size n cfg le h = h
last-le entry_loadable size n cfg le h = le

emplaced-Inv :
    (slot : ℕ) (e : ConfigEntry) (depth : ℕ) (p : Parser)
    → ParserInv p
    → TypedContent e.t e.as_value.content
    → e.next ≡ 0
    → slot ≤ length p.cfg.entries
    → let es = p.cfg.entries ++ place_value e.t (length p.cfg.entries) e ∷ [] in
      ParserInv (record p {
        cfg = record (note_loadable e.t (length es) p.cfg) { entries = link_previous slot es };
        depth_to_offset = fill_slot p.depth_to_offset depth (length es % u32_mod);
      })
emplaced-Inv slot e depth p inv typed last le =
    let new = place_value e.t (length p.cfg.entries) e in
    let es = p.cfg.entries ++ new ∷ [] in
    let size = length-append p.cfg.entries (new ∷ []) in
    let same = length-previous slot es in
    let next = place_value-next e.t (length p.cfg.entries) e in
    record {
      well_formed = record {
        linked =
            Linked-previous slot es (omega arith)
              (Linked-append p.cfg.entries new (next ∙ last) inv.well_formed.linked);
        typed = Typed-previous slot es (
            Typed-append p.cfg.entries new inv.well_formed.typed
              (place_value-Typed e.t (length p.cfg.entries) e typed));
        first_inside =
            first-le e.t (length es) _ p.cfg (omega arith)
              (omega (arith, inv.well_formed.first_inside));
        last_inside =
            last-le e.t (length es) _ p.cfg (omega arith)
              (omega (arith, inv.well_formed.last_inside));
      };
      slots_inside = λ d.
          fill_slot-le p.depth_to_offset depth (length es % u32_mod) d _ (omega arith)
            (λ k. omega (arith, inv.slots_inside k));
    }

-- On a parser whose links, slots and offsets lie in the buffer and whose values have a type,
-- cfg_emplace of an entry without a link, which has a type if it is a value, returns such a parser, at the same position. It writes past depth_to_offset only at a
-- depth of 16 or more.
pub emplace-Inv :
    (O : Type 0) (e : ConfigEntry) (depth : ℕ) (p : Parser)
    → ParserInv p
    → TypedContent e.t e.as_value.content
    → e.next ≡ 0
    → is_entry e.t ≡ true
    → (max_depth ≤ depth → O)
    → Ensures O (λ _ t. ParserInv t × (t.pos ≡ p.pos)) (cfg_emplace e depth p)
unfolding cfg_emplace emplace_at
emplace-Inv O e depth p inv typed last kind deep = elim (Bool-cases (leb max_depth depth)) [
  | inl over ↦ rw (kind, over) (deep (leb→le max_depth depth over))
  | inr under ↦
      let le = inv.slots_inside depth in
      let inside =
        le→ltb (length (p.cfg.entries ++ place_value e.t (length p.cfg.entries) e ∷ []))
          (get_or p.depth_to_offset depth 0)
          (omega (
            arith,
            le,
            length-append p.cfg.entries (place_value e.t (length p.cfg.entries) e ∷ []),
          )) in
      rw (kind, under, inside)
        (emplaced-Inv (get_or p.depth_to_offset depth 0) e depth p inv typed last le, refl)
]
