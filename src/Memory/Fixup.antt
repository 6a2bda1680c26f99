-- ===== src/Memory/Fixup.antt =====
-- mm_fixup of loader/memory_services.c: one walk over the sorted map that resolves overlaps, reports each
-- entry under a type that the protocol knows, and merges touching entries of one type.
--
-- The walk's state is the buffer and its indices j < i. Here `done` is buf[0..j) from the back,
-- `this` is buf[j], `rest` is buf[i..count); the slots between j and i are spent. So `i < count`
-- is a rest that is not empty, and `capacity - i` (the source calls it cap - i) is the room that the rest may grow into.
pub mod Merge
pub mod Collapse
use Prim.Native.Nat.{bit_or}
use mathlib.Core.List.{reverse}
use hyper.Base.{
  ℕ, zero, suc, ◌+◌, ◌-◌, Bool, true, false, not, ltb, ◌==◌, if◌then◌else◌, ◌&&◌, ◌||◌, List, [],
  ◌∷◌, ◌++◌, length, Run, ok, panic, stuck, bug_on, ◌>>=◌, ◌>>◌, add64,
}
use hyper.Memory.Entry.{MemoryMapEntry, mme_end, memory_type_max}
use hyper.Memory.Types.{MapState, mask_is_set, knows_loader_reclaim, mme_resolve_type}
use hyper.Memory.Sort.{mm_sort}
use hyper.Memory.Overlap.{OverlapResolution, do_resolve_overlap}
use hyper.Memory.Insert.{mme_insert_try_merge}

-- The FIXUP_* flags.
pub record Flags : Type 0 where
  pub unsorted : Bool
  pub if_dirty : Bool
  pub overlap_resolve : Bool
  pub overlap_intentional : Bool
  pub no_preserve_loader_reclaim : Bool

pub record Walk : Type 0 where
  pub done : List MemoryMapEntry
  pub this : MemoryMapEntry
  pub rest : List MemoryMapEntry
  pub i : ℕ

abbrev pub drop_last : List MemoryMapEntry → List MemoryMapEntry
drop_last [] = []
drop_last (x ∷ []) = []
drop_last (x ∷ y ∷ l) = x ∷ drop_last (y ∷ l)

-- What mm_overlap_fixup and the lines behind its call leave of buf[i..count), `others` being what
-- stands behind rhs. One entry: rhs is skipped, and `count` falls, which takes the last entry off
-- too. Three entries: the third is merged or inserted into the rest. The new index comes along.
unfoldable pub place :
    OverlapResolution
    → MemoryMapEntry
    → List MemoryMapEntry
    → ℕ
    → ℕ
    → Run (MemoryMapEntry × List MemoryMapEntry × ℕ)
place [] lhs others i capacity = panic
place (e0 ∷ []) lhs others i capacity = ok (e0, drop_last others, i + 1)
place (e0 ∷ e1 ∷ []) lhs others i capacity = ok (e0, e1 ∷ others, i)
place (e0 ∷ e1 ∷ e2 ∷ _) lhs others i capacity = do
  rest ← mme_insert_try_merge (e1 ∷ others) e2 (capacity - i)
  ok (e0, rest, i)

-- `if (fr.lhs_type_changed && j != 0)`: the walk goes one entry back.
unfoldable pub step_back :
    Bool → List MemoryMapEntry → MemoryMapEntry → List MemoryMapEntry → ℕ → Walk
step_back true (prev ∷ done) this rest i = record {
  done = done;
  this = prev;
  rest = this ∷ rest;
  i = i - 1;
}
step_back _ done this rest i = record { done = done; this = this; rest = rest; i = i }

-- The branch of an overlap. fr.lhs_type_changed is never cleared: where the first entry keeps its
-- type it has the value `uninit` that the stack held.
unfoldable pub overlap_step :
    Flags → ℕ → Bool → Walk → MemoryMapEntry → List MemoryMapEntry → Run Walk
unfolding place step_back
overlap_step flags capacity uninit w next others = do
  bug_on (not flags.overlap_resolve)
  bug_on (
      not flags.overlap_intentional
      && (ltb memory_type_max w.this.type || ltb memory_type_max next.type))
  (lhs, rest, i) ← place (do_resolve_overlap w.this next) w.this others w.i capacity
  let changed = if lhs.type == w.this.type then uninit else true
  ok (step_back changed w.done lhs rest i)

-- The branch of two entries that do not overlap.
unfoldable pub advance_step : ℕ → Walk → MemoryMapEntry → List MemoryMapEntry → Run Walk
advance_step known w next others = do
  this_type ← mme_resolve_type known w.this.type
  next_type ← mme_resolve_type known next.type
  let this = record w.this { type = this_type }
  let next' = record next { type = next_type }
  let merged = record this { size_in_bytes = add64 this.size_in_bytes next.size_in_bytes }
  let apart = not (this_type == next_type) || not (mme_end w.this == next.physical_address)
  ok (
      if apart
      then record { done = this ∷ w.done; this = next'; rest = others; i = w.i + 1 }
      else record { done = w.done; this = merged; rest = others; i = w.i + 1 })

-- One round on the entries `this` and `next`.
unfoldable pub walk_step :
    Flags → ℕ → ℕ → Bool → Walk → MemoryMapEntry → List MemoryMapEntry → Run Walk
unfolding overlap_step advance_step
walk_step flags known capacity uninit w next others =
    if ltb next.physical_address (mme_end w.this)
    then overlap_step flags capacity uninit w next others
    else advance_step known w next others

-- The `while` loop on fuel; `uninit` gives the stack's value for each round.
unfoldable pub walk :
    Flags → ℕ → ℕ → (ℕ → Bool) → ℕ → Walk → List MemoryMapEntry → Run (List MemoryMapEntry)
unfolding walk_step
walk flags known capacity uninit fuel w [] = ok (reverse (w.this ∷ w.done))
walk flags known capacity uninit zero w (next ∷ others) = stuck
walk flags known capacity uninit (suc fuel) w (next ∷ others) = do
  w' ← walk_step flags known capacity (uninit fuel) w next others
  walk flags known capacity uninit fuel w' w'.rest

-- mm_do_fixup on the entries; the returned count is the length of the result.
unfoldable pub mm_do_fixup :
    Flags → ℕ → ℕ → (ℕ → Bool) → ℕ → List MemoryMapEntry → Run (List MemoryMapEntry)
unfolding walk
mm_do_fixup flags known capacity uninit fuel [] = panic
mm_do_fixup flags known capacity uninit fuel (first ∷ others) =
    walk flags known capacity uninit fuel (record { done = []; this = first; rest = others; i = 1 })
      others

-- mm_fixup. The mask is put back behind the walk, so only map_is_dirty changes.
unfoldable pub mm_fixup :
    Flags
    → MapState
    → ℕ
    → (ℕ → Bool)
    → ℕ
    → List MemoryMapEntry
    → Run (MapState × List MemoryMapEntry)
unfolding mm_do_fixup mask_is_set
mm_fixup flags s capacity uninit fuel buf = do
  bug_on (length buf == 0)
  let buf' = if flags.unsorted then mm_sort buf else buf
  let known =
      if flags.no_preserve_loader_reclaim
      then s.known_standard_mask
      else bit_or s.known_standard_mask knows_loader_reclaim
  let clean = not s.map_is_dirty
  let no_op =
      flags.no_preserve_loader_reclaim && mask_is_set s.known_standard_mask knows_loader_reclaim
  if flags.if_dirty && clean || no_op && clean then ok (s, buf') else do
    fixed ← mm_do_fixup flags known capacity uninit fuel buf'
    ok (record s { map_is_dirty = false }, fixed)
