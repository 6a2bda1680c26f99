-- ===== src/Memory/Fixup/Collapse.antt =====
-- mm_do_fixup where an overlap collapses two entries into one: the walk's end moves with it.
use hyper.Base.{
  ℕ, suc, ◌≤◌, ◌<◌, ◌≡◌, refl, Bool, true, false, ◌==◌, if◌then◌else◌, List, [], ◌∷◌, ok, arith,
  lt→ltb, le→ltb,
}
use hyper.Memory.Entry.{MemoryMapEntry, mme_end, mme_is_valid, mme_align_if_needed}
use hyper.Memory.Overlap.{behind, do_resolve_overlap}
use hyper.Memory.Fixup.{Flags, step_back, mm_do_fixup}

-- An entry inside one of a higher type vanishes.
behind_nothing :
    (a b : MemoryMapEntry)
    → mme_end b ≤ mme_end a
    → mme_is_valid (mme_align_if_needed (behind b a)) ≡ false
unfolding mme_is_valid mme_align_if_needed
behind_nothing a b le = rw (le→ltb (mme_end a) (mme_end b) le) (ground arith)

inside_resolves :
    (a b : MemoryMapEntry)
    → b.type < a.type
    → mme_end b ≤ mme_end a
    → do_resolve_overlap a b ≡ a ∷ []
unfolding do_resolve_overlap
inside_resolves a b less le = rw (lt→ltb b.type a.type less, behind_nothing a b le)

step_back_first :
    (changed : Bool) (this : MemoryMapEntry) (rest : List MemoryMapEntry) (i : ℕ)
    → step_back changed [] this rest i ≡ record { done = []; this = this; rest = rest; i = i }
unfolding step_back
step_back_first true this rest i = refl
step_back_first false this rest i = refl

abbrev pub intentional : Flags
intentional = record {
  unsorted = false;
  if_dirty = false;
  overlap_resolve = true;
  overlap_intentional = true;
  no_preserve_loader_reclaim = false;
}

-- Where of three entries the second starts and ends inside the first and has a lower type, the
-- walk with overlaps resolved returns the first entry alone, whatever the third covers.
pub last_entry_lost :
    (known capacity : ℕ) (uninit : ℕ → Bool) (fuel : ℕ) (a b c : MemoryMapEntry)
    → b.type < a.type
    → b.physical_address < mme_end a
    → mme_end b ≤ mme_end a
    → mm_do_fixup intentional known capacity uninit (suc fuel) (a ∷ b ∷ c ∷ []) ≡ ok (a ∷ [])
unfolding mm_do_fixup
last_entry_lost known capacity uninit fuel a b c less overlap inside = rw (
  lt→ltb b.physical_address (mme_end a) overlap,
  inside_resolves a b less inside,
  step_back_first (if a.type == a.type then uninit fuel else true) a [] 2,
)
