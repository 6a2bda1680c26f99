-- ===== src/Config/Query/Loadable.antt =====
-- What cfg_get_loadable_entry and cfg_first_loadable_entry of loader/config.c are to find: the entries along the links from
-- the first loadable one.
use hyper.Base.{
  ℕ, zero, suc, ◌+◌, ◌-◌, ◌≤◌, ◌<◌, ◌≡◌, refl, sym, ap, inl, inr, Option, none, some, List, [], ◌∷◌,
  arith, ◌==◌, if◌then◌else◌, Bool-cases, length, get_elem?,
}
use hyper.Base.{ok}
use hyper.Text.Ctype.{Bytes}
use hyper.Text.View.{sv_equals}
use hyper.Config.{ConfigEntry, Config}
use hyper.Config.Parse.Links.{Linked, WellFormed}
use hyper.Config.Query.{
  get_slot, cfg_next_entry, LoadableEntry, loadable_loop, cfg_get_loadable_entry,
  cfg_first_loadable_entry,
}
use hyper.Config.Query.Level.{entry_at_index}

abbrev siblings_from :
    ℕ → Option ConfigEntry → (ℕ → List (ℕ × ConfigEntry)) → List (ℕ × ConfigEntry)
siblings_from i none onward = []
siblings_from i (some e) onward = (i, e) ∷ (if e.next == 0 then [] else onward (i + e.next))

-- the entries from `i` along the links
unfoldable pub siblings : ℕ → List ConfigEntry → ℕ → List (ℕ × ConfigEntry)
siblings zero es i = []
siblings (suc n) es i = siblings_from i (get_elem? es i) (siblings n es)

unfoldable pub first_named : Bytes → List (ℕ × ConfigEntry) → Option LoadableEntry
first_named key [] = none
first_named key ((i, e) ∷ more) =
    let rest = first_named key more in
    if sv_equals e.key key then some (record { name = key; cfg_off = i }) else rest

unfoldable pub first_of : List (ℕ × ConfigEntry) → Option LoadableEntry
first_of [] = none
first_of ((i, e) ∷ more) = some (record { name = e.key; cfg_off = i })

unfoldable pub loadables : Config → List (ℕ × ConfigEntry)
unfolding siblings
loadables cfg =
    if cfg.first_loadable_entry_offset == 0
    then []
    else siblings (length cfg.entries) cfg.entries (cfg.first_loadable_entry_offset - 1)

loadable_loop-first :
    (n : ℕ) (es : List ConfigEntry) (key : Bytes) (i : ℕ)
    → Linked es
    → i < length es
    → length es ≤ n + i
    → loadable_loop n es key (some i) ≡ ok (first_named key (siblings n es i))
unfolding loadable_loop get_slot cfg_next_entry siblings first_named
loadable_loop-first zero es key i linked lt fuel = absurd (omega arith)
loadable_loop-first (suc n) es key i linked lt fuel =
    let (e, at, next) = entry_at_index es i lt in
    rw at (elim (Bool-cases (sv_equals e.key key)) [
      | inl hit ↦ rw hit refl
      | inr miss ↦ elim (Bool-cases (e.next == 0)) [
        | inl z ↦ rw (miss, z) refl
        | inr more ↦
            let inside : i + e.next < length es = omega (arith, linked i lt, next) in
            let (f, there, _) = entry_at_index es (i + e.next) inside in
            rw
              (
                miss,
                more,
                there,
                loadable_loop-first n es key (i + e.next) linked inside (ground arith),
              )
              refl
      ]
    ])

first_of-siblings :
    (n : ℕ) (es : List ConfigEntry) (i : ℕ) (e : ConfigEntry)
    → 0 < n
    → get_elem? es i ≡ some e
    → first_of (siblings n es i) ≡ some (record { name = e.key; cfg_off = i })
unfolding first_of siblings
first_of-siblings zero es i e h at = absurd (omega arith)
first_of-siblings (suc n) es i e h at = rw at refl

-- On well-formed entries cfg_get_loadable_entry returns the first entry with the name along the links
-- from the first loadable one, and cfg_first_loadable_entry that first one, each nothing if there is none.
pub loadable_lookups :
    (cfg : Config) (key : Bytes)
    → WellFormed cfg
    → (cfg_get_loadable_entry cfg key ≡ ok (first_named key (loadables cfg)))
      × (cfg_first_loadable_entry cfg ≡ ok (first_of (loadables cfg)))
unfolding cfg_get_loadable_entry cfg_first_loadable_entry loadables get_slot first_named first_of
loadable_lookups cfg key wf = elim (Bool-cases (cfg.first_loadable_entry_offset == 0)) [
  | inl z ↦ rw z (refl, refl)
  | inr more ↦
      let first = cfg.first_loadable_entry_offset - 1 in
      let inside : first < length cfg.entries = ground (arith, wf.first_inside) in
      let (e, at, _) = entry_at_index cfg.entries first inside in
      (
        rw
            (
              more,
              at,
              loadable_loop-first (length cfg.entries) cfg.entries key first wf.linked inside
                  (omega arith),
            )
            refl,
        rw (more, at)
            (ap ok
              (sym (first_of-siblings (length cfg.entries) cfg.entries first e (omega arith) at))),
      )
]
