-- ===== src/Memory/Overlap/Covering.antt =====
-- What overlap resolution does to the addresses: of two types the higher one wins.
use hyper.Base.{
  ℕ, ◌+◌, ◌-◌, ◌*◌, ◌%◌, ◌≤◌, ◌<◌, ◌≡◌, ◌≢◌, Bool, true, ltb, leb, if◌then◌else◌, ◌&&◌, max, Option,
  none, some, List, [], ◌∷◌, arith, Bool-cases, inl, inr, page_size, u64_mod, ltb→lt, ltb→le,
}
use hyper.Memory.Entry.{
  MemoryMapEntry, mme_end, mme_is_valid, mme_align_if_needed, memory_type_free,
}
use hyper.Memory.Overlap.{
  before_rhs, behind, pack_three, do_resolve_rhs_win, do_resolve_lhs_win, do_resolve_overlap,
}

-- An entry of whole pages that is not empty and does not wrap.
pub record IsPaged (me : MemoryMapEntry) : Type 0 where
  pub begin : me.physical_address % page_size ≡ 0
  pub size : me.size_in_bytes % page_size ≡ 0
  pub nonempty : 0 < me.size_in_bytes
  pub fits : me.physical_address + me.size_in_bytes < u64_mod

abbrev pub covers : MemoryMapEntry → ℕ → Bool
covers me a = leb me.physical_address a && ltb a (mme_end me)

-- The type that a map gives an address.
unfoldable pub type_at : List MemoryMapEntry → ℕ → Option ℕ
type_at [] a = none
type_at (me ∷ buf) a = if covers me a then some me.type else type_at buf a

-- The winner of two types at an address.
abbrev pub higher : Option ℕ → Option ℕ → Option ℕ
higher none r = r
higher (some l) none = some l
higher (some l) (some r) = some (max l r)

-- Whole pages are not moved.
align_paged :
    (p s t : ℕ)
    → p % page_size ≡ 0
    → s % page_size ≡ 0
    → mme_align_if_needed (record { physical_address = p; size_in_bytes = s; type = t })
      ≡ record { physical_address = p; size_in_bytes = s; type = t }
unfolding mme_align_if_needed
align_paged p s t hp hs = ground arith

-- Whole pages are valid unless there are none.
valid_paged :
    (p s t : ℕ)
    → s % page_size ≡ 0
    → mme_is_valid (record { physical_address = p; size_in_bytes = s; type = t }) ≡ ltb 0 s
unfolding mme_is_valid
valid_paged p s t hs = ground arith

end_paged : (me : MemoryMapEntry) → IsPaged me → mme_end me ≡ me.physical_address + me.size_in_bytes
end_paged me h = omega (arith, h.fits)

module _ (lhs rhs : MemoryMapEntry) (hl : IsPaged lhs) (hr : IsPaged rhs)
    (sorted : lhs.physical_address ≤ rhs.physical_address)
    (overlap : rhs.physical_address < mme_end lhs) where
  before_size : (before_rhs lhs rhs).size_in_bytes ≡ rhs.physical_address - lhs.physical_address
  before_size = omega (arith, hr.fits)

  before_paged : (before_rhs lhs rhs).size_in_bytes % page_size ≡ 0
  before_paged = omega (arith, hl.begin, hr.begin, hr.fits)

  behind_paged :
      (x y : MemoryMapEntry) → IsPaged x → IsPaged y → (behind x y).size_in_bytes % page_size ≡ 0
  behind_paged x y hx hy =
      ground (arith, end_paged x hx, end_paged y hy, hx.begin, hx.size, hy.begin, hy.size)

  behind_begin : (x y : MemoryMapEntry) → IsPaged y → mme_end y % page_size ≡ 0
  behind_begin x y hy = omega (arith, end_paged y hy, hy.begin, hy.size)

  rhs_win_paged :
      do_resolve_rhs_win lhs rhs
      ≡ pack_three
          (ltb 0 (before_rhs lhs rhs).size_in_bytes)
          (ltb 0 (behind lhs rhs).size_in_bytes)
          (before_rhs lhs rhs)
          rhs
          (behind lhs rhs)
  unfolding do_resolve_rhs_win
  rhs_win_paged = rw (
    align_paged lhs.physical_address (before_rhs lhs rhs).size_in_bytes lhs.type hl.begin
        before_paged,
    align_paged (mme_end rhs) (behind lhs rhs).size_in_bytes lhs.type (behind_begin lhs rhs hr)
        (behind_paged lhs rhs hl hr),
    valid_paged lhs.physical_address (before_rhs lhs rhs).size_in_bytes lhs.type before_paged,
    valid_paged (mme_end rhs) (behind lhs rhs).size_in_bytes lhs.type (behind_paged lhs rhs hl hr),
  )

  lhs_win_paged :
      do_resolve_lhs_win lhs rhs
      ≡ (if ltb 0 (behind rhs lhs).size_in_bytes then lhs ∷ behind rhs lhs ∷ [] else lhs ∷ [])
  unfolding do_resolve_lhs_win
  lhs_win_paged = rw (
    align_paged (mme_end lhs) (behind rhs lhs).size_in_bytes rhs.type (behind_begin rhs lhs hl)
        (behind_paged rhs lhs hr hl),
    valid_paged (mme_end lhs) (behind rhs lhs).size_in_bytes rhs.type (behind_paged rhs lhs hr hl),
  )

  lhs_win-covering :
      (a : ℕ)
      → rhs.type < lhs.type
      → type_at (do_resolve_lhs_win lhs rhs) a
        ≡ higher (type_at (lhs ∷ []) a) (type_at (rhs ∷ []) a)
  unfolding type_at
  lhs_win-covering a wins = rw lhs_win_paged (ground (arith, end_paged lhs hl, end_paged rhs hr))

  rhs_win-covering :
      (a : ℕ)
      → lhs.type ≤ rhs.type
      → type_at (do_resolve_rhs_win lhs rhs) a
        ≡ higher (type_at (lhs ∷ []) a) (type_at (rhs ∷ []) a)
  unfolding type_at
  rhs_win-covering a wins =
      rw rhs_win_paged (ground (arith, before_size, end_paged lhs hl, end_paged rhs hr))

  -- Of two overlapping entries in order, of whole pages, not empty and without wrap-around, each
  -- address gets from the resolution the higher of the types that the two give it, and no type
  -- where neither covers it.
  pub do_resolve_overlap-covering :
      (a : ℕ)
      → type_at (do_resolve_overlap lhs rhs) a
        ≡ higher (type_at (lhs ∷ []) a) (type_at (rhs ∷ []) a)
  unfolding do_resolve_overlap
  do_resolve_overlap-covering a = elim (Bool-cases (ltb rhs.type lhs.type)) [
    | inl wins ↦ rw wins (lhs_win-covering a (ltb→lt rhs.type lhs.type wins))
    | inr loses ↦ rw loses (rhs_win-covering a (ltb→le rhs.type lhs.type loses))
  ]

-- Where a range ends inside a page and a free range goes on for two pages or more behind that end,
-- the free part that is left is valid and, once aligned, begins below that end: the two overlap.
pub free_tail_overlaps :
    (lhs rhs : MemoryMapEntry)
    → lhs.type ≡ memory_type_free
    → mme_end rhs % page_size ≢ 0
    → mme_end rhs + 2 * page_size ≤ mme_end lhs
    → (mme_is_valid (mme_align_if_needed (behind lhs rhs)) ≡ true)
      × ((mme_align_if_needed (behind lhs rhs)).physical_address < mme_end rhs)
unfolding mme_align_if_needed mme_is_valid
free_tail_overlaps lhs rhs free unaligned long = (ground arith, ground arith)
