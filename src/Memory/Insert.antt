-- ===== src/Memory/Insert.antt =====
-- mme_insert and mme_insert_try_merge of loader/memory_services.c. A list holds the `count` entries of
-- the buffer, from the index that the caller's pointer names.
use hyper.Base.{
  ℕ, zero, suc, ◌+◌, ◌-◌, true, ltb, leb, ◌==◌, if◌then◌else◌, ◌&&◌, max, none, some, List, [], ◌∷◌,
  ◌++◌, length, take, drop, Run, ok, bug_on, ◌>>=◌, ◌>>◌, sub64,
}
use hyper.Memory.Entry.{MemoryMapEntry, mme_end}
use hyper.Memory.Search.{◌!◌, mm_find_first_that_contains}

-- The memmove and the store; the list grows by one entry.
unfoldable pub mme_insert : List MemoryMapEntry → MemoryMapEntry → ℕ → Run (List MemoryMapEntry)
mme_insert buf me idx = do bug_on (ltb (length buf) idx); ok (take idx buf ++ me ∷ drop idx buf)

-- buf[idx] = me
abbrev pub set : List MemoryMapEntry → ℕ → MemoryMapEntry → List MemoryMapEntry
set [] i me = []
set (x ∷ buf) zero me = me ∷ buf
set (x ∷ buf) (suc i) me = x ∷ set buf i me

-- `target_me->size_in_bytes = MAX(this_end, target_end) - target_me->physical_address`
abbrev pub stretch : MemoryMapEntry → MemoryMapEntry → MemoryMapEntry
stretch target me = record target {
  size_in_bytes = sub64 (max (mme_end me) (mme_end target)) target.physical_address;
}

-- The same with the begin moved to that of `me` first; `target_end` is the old end.
abbrev pub stretch_down : MemoryMapEntry → MemoryMapEntry → MemoryMapEntry
stretch_down target me = record target {
  physical_address = me.physical_address;
  size_in_bytes = sub64 (max (mme_end me) (mme_end target)) me.physical_address;
}

-- The label out_no_merge: OOPS_ON(count >= cap), then the insertion.
unfoldable pub insert_no_merge :
    List MemoryMapEntry → MemoryMapEntry → ℕ → ℕ → Run (List MemoryMapEntry)
unfolding mme_insert
insert_no_merge buf me idx capacity = do bug_on (leb capacity (length buf)); mme_insert buf me idx

-- The previous entry, at `prev`, may overlap the range; else it goes to the lower bound, prev + 1.
unfoldable pub merge_previous :
    List MemoryMapEntry → MemoryMapEntry → ℕ → ℕ → Run (List MemoryMapEntry)
unfolding insert_no_merge
merge_previous buf me prev capacity =
    if leb me.physical_address (mme_end (buf ! prev)) && (me.type == (buf ! prev).type)
    then ok (set buf prev (stretch (buf ! prev) me))
    else insert_no_merge buf me (prev + 1) capacity

unfoldable pub merge_at : List MemoryMapEntry → MemoryMapEntry → ℕ → ℕ → Run (List MemoryMapEntry)
unfolding merge_previous
merge_at buf me res capacity =
    let target = buf ! res in
    if ltb me.physical_address target.physical_address
    then (if leb target.physical_address (mme_end me) && (target.type == me.type)
        then ok (set buf res (stretch_down target me))
        else if res == 0
        then insert_no_merge buf me res capacity
        else merge_previous buf me (res - 1) capacity)
    else if target.type == me.type
    then ok (set buf res (stretch target me))
    else insert_no_merge buf me res capacity

-- The returned number of new ranges is the growth of the list.
unfoldable pub mme_insert_try_merge :
    List MemoryMapEntry → MemoryMapEntry → ℕ → Run (List MemoryMapEntry)
unfolding merge_at
mme_insert_try_merge buf me capacity = do
  res ← mm_find_first_that_contains buf me.physical_address true
  elim res [
    | none ↦ insert_no_merge buf me (length buf) capacity
    | some i ↦ merge_at buf me i capacity
  ]
