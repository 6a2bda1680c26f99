-- ===== src/Memory/Overlap.antt =====
-- Overlap resolution of loader/memory_services.c: two overlapping entries become one, two or three.
pub mod Covering
use hyper.Base.{ℕ, ◌-◌, Bool, true, false, ltb, if◌then◌else◌, List, [], ◌∷◌, sub64}
use hyper.Memory.Entry.{MemoryMapEntry, mme_end, mme_is_valid, mme_align_if_needed}

-- struct overlap_resolution: the list holds the first `entry_count` entries.
abbrev pub OverlapResolution : Type 0
OverlapResolution = List MemoryMapEntry

-- entries[0] of do_resolve_rhs_win: the part of lhs before rhs
abbrev pub before_rhs : MemoryMapEntry → MemoryMapEntry → MemoryMapEntry
before_rhs lhs rhs = record {
  physical_address = lhs.physical_address;
  size_in_bytes = sub64 rhs.physical_address lhs.physical_address;
  type = lhs.type;
}

-- entries[2] there: the part of lhs behind rhs. In do_resolve_lhs_win, with the two exchanged,
-- entries[1] is the part of rhs behind lhs.
abbrev pub behind : MemoryMapEntry → MemoryMapEntry → MemoryMapEntry
behind lhs rhs = record {
  physical_address = mme_end rhs;
  size_in_bytes = if ltb (mme_end rhs) (mme_end lhs) then mme_end lhs - mme_end rhs else 0;
  type = lhs.type;
}

-- The tests at the end of do_resolve_rhs_win, on whether the first and the last part are valid.
abbrev pub pack_three :
    Bool → Bool → MemoryMapEntry → MemoryMapEntry → MemoryMapEntry → OverlapResolution
pack_three false false first rhs last = rhs ∷ []
pack_three false true first rhs last = rhs ∷ last ∷ []
pack_three true false first rhs last = first ∷ rhs ∷ []
pack_three true true first rhs last = first ∷ rhs ∷ last ∷ []

unfoldable pub do_resolve_rhs_win : MemoryMapEntry → MemoryMapEntry → OverlapResolution
do_resolve_rhs_win lhs rhs =
    let first = mme_align_if_needed (before_rhs lhs rhs) in
    let last = mme_align_if_needed (behind lhs rhs) in
    pack_three (mme_is_valid first) (mme_is_valid last) first rhs last

unfoldable pub do_resolve_lhs_win : MemoryMapEntry → MemoryMapEntry → OverlapResolution
do_resolve_lhs_win lhs rhs =
    let last = mme_align_if_needed (behind rhs lhs) in
    if mme_is_valid last then lhs ∷ last ∷ [] else lhs ∷ []

unfoldable pub do_resolve_overlap : MemoryMapEntry → MemoryMapEntry → OverlapResolution
unfolding do_resolve_lhs_win do_resolve_rhs_win
do_resolve_overlap lhs rhs =
    if ltb rhs.type lhs.type then do_resolve_lhs_win lhs rhs else do_resolve_rhs_win lhs rhs
