-- ===== src/Memory/Tests.antt =====
-- The memory map at concrete entries.
use mathlib.Core.List.{List, [], ◌∷◌}
use hyper.Base.{ℕ, zero, suc, ◌≤◌, ◌<◌, ◌≡◌, refl, true, false, ok, Returns, arith, length, inl}
use hyper.Memory.Entry.{MemoryMapEntry, mme_end, mme_is_valid, mme_align_if_needed}
use hyper.Memory.Types.{mask_is_set, KnowsBasics}
use hyper.Memory.Sort.{mm_sort, IsAscending, starting_at, mm_sort_stable}
use hyper.Memory.Search.{◌!◌, IsDisjoint, Answers, mm_find_first_that_contains, mm_find-Answers}
use hyper.Memory.Overlap.{behind, do_resolve_overlap}
use hyper.Memory.Overlap.Covering.{
  IsPaged, type_at, higher, do_resolve_overlap-covering, free_tail_overlaps,
}
use hyper.Memory.Fixup.{mm_do_fixup}
use hyper.Memory.Fixup.Merge.{IsSettled, IsMerged, resolve_option, mm_do_fixup_settled}
use hyper.Memory.Fixup.Collapse.{intentional, last_entry_lost}

abbrev entry : ℕ → ℕ → ℕ → MemoryMapEntry
entry physical_address size_in_bytes type = record {
  physical_address = physical_address;
  size_in_bytes = size_in_bytes;
  type = type;
}

-- the types 1, 2 and 3
abbrev known_types : ℕ
known_types = 14

basics : KnowsBasics known_types
unfolding mask_is_set
basics = record { free = refl; reserved = refl }

abbrev low : MemoryMapEntry
low = entry 0 4096 1

abbrev middle : MemoryMapEntry
middle = entry 4096 8192 1

abbrev top : MemoryMapEntry
top = entry 16384 4096 3

abbrev settled_map : List MemoryMapEntry
settled_map = low ∷ middle ∷ top ∷ []

three-IsSettled : IsSettled low (middle ∷ top ∷ [])
three-IsSettled = (
  record { room = omega arith; known = inl (omega arith) },
  omega arith,
  (
    record { room = omega arith; known = inl (omega arith) },
    omega arith,
    record { room = omega arith; known = inl (omega arith) },
  ),
)

mm_do_fixup_settled_example :
    Returns
      (λ out.
        IsMerged out
        × ((a : ℕ) → type_at out a ≡ resolve_option known_types (type_at settled_map a)))
      (mm_do_fixup intentional known_types 8 (λ _. false) 2 settled_map)
mm_do_fixup_settled_example =
    mm_do_fixup_settled known_types basics intentional 8 (λ _. false) low middle (top ∷ []) 2
      three-IsSettled (omega arith)

last_entry_lost_example :
    mm_do_fixup intentional known_types 8
      (λ _. false)
      5
      (entry 0 8192 3 ∷ entry 4096 4096 1 ∷ entry 16384 4096 2 ∷ [])
    ≡ ok (entry 0 8192 3 ∷ [])
last_entry_lost_example =
    last_entry_lost known_types 8 (λ _. false) 4 (entry 0 8192 3) (entry 4096 4096 1)
      (entry 16384 4096 2) (omega arith) (omega arith) (omega arith)

abbrev usable : MemoryMapEntry
usable = entry 0 16384 1

abbrev firmware : MemoryMapEntry
firmware = entry 4096 4096 2

usable-IsPaged : IsPaged usable
usable-IsPaged = record { begin = refl; size = refl; nonempty = omega arith; fits = omega arith }

firmware-IsPaged : IsPaged firmware
firmware-IsPaged = record { begin = refl; size = refl; nonempty = omega arith; fits = omega arith }

do_resolve_overlap-covering_example :
    type_at (do_resolve_overlap usable firmware) 5000
    ≡ higher (type_at (usable ∷ []) 5000) (type_at (firmware ∷ []) 5000)
do_resolve_overlap-covering_example =
    do_resolve_overlap-covering usable firmware usable-IsPaged firmware-IsPaged (omega arith)
      (omega arith) 5000

free_tail_overlaps_example :
    (mme_is_valid (mme_align_if_needed (behind (entry 0 16384 1) (entry 0 100 2))) ≡ true)
    × ((mme_align_if_needed (behind (entry 0 16384 1) (entry 0 100 2))).physical_address
        < mme_end (entry 0 100 2))
free_tail_overlaps_example =
    free_tail_overlaps (entry 0 16384 1) (entry 0 100 2) refl (λ e. omega arith) (omega arith)

settled_nonempty :
    (i : ℕ)
    → i < length settled_map
    → (settled_map ! i).physical_address < mme_end (settled_map ! i)
settled_nonempty zero h = omega arith
settled_nonempty (suc zero) h = omega arith
settled_nonempty (suc (suc zero)) h = omega arith
settled_nonempty (suc (suc (suc i))) h = absurd (omega arith)

settled_apart :
    (i j : ℕ)
    → i < j
    → j < length settled_map
    → mme_end (settled_map ! i) ≤ (settled_map ! j).physical_address
settled_apart zero (suc zero) less h = omega arith
settled_apart zero (suc (suc zero)) less h = omega arith
settled_apart (suc zero) (suc (suc zero)) less h = omega arith
settled_apart i zero less h = absurd (omega arith)
settled_apart (suc i) (suc zero) less h = absurd (omega arith)
settled_apart (suc (suc i)) (suc (suc zero)) less h = absurd (omega arith)
settled_apart i (suc (suc (suc j))) less h = absurd (omega arith)

settled-IsDisjoint : IsDisjoint settled_map
settled-IsDisjoint = record { nonempty = settled_nonempty; apart = settled_apart }

mm_find-Answers_example :
    Returns (Answers settled_map 5000 true) (mm_find_first_that_contains settled_map 5000 true)
mm_find-Answers_example = mm_find-Answers settled_map 5000 settled-IsDisjoint true

mm_sort_stable_example :
    IsAscending (mm_sort (top ∷ low ∷ middle ∷ []))
    × ((k : ℕ)
        → starting_at k (mm_sort (top ∷ low ∷ middle ∷ []))
          ≡ starting_at k (top ∷ low ∷ middle ∷ []))
mm_sort_stable_example = mm_sort_stable (top ∷ low ∷ middle ∷ [])
