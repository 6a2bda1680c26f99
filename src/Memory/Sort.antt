-- ===== src/Memory/Sort.antt =====
-- mm_sort of loader/memory_services.c: an insertion sort by physical address.
use mathlib.Core.List.{reverse, reverse_aux}
use hyper.Base.{
  Bool-cases, inl, inr, leb→le, leb→lt, ℕ, ◌≤◌, ◌≡◌, refl, ap, sym, ◌∙◌, Bool, true, false, leb,
  ◌==◌, if◌then◌else◌, List, [], ◌∷◌, arith, Bool-cases, inl, inr,
}
use hyper.Memory.Entry.{MemoryMapEntry}

-- The inner loop. The array up to index `j` is given from the back, `me` being buf[j]: while the
-- entry before it starts later the two are swapped and `j` falls.
unfoldable pub sift : MemoryMapEntry → List MemoryMapEntry → List MemoryMapEntry
sift me [] = me ∷ []
sift me (lhs ∷ before) =
    if leb lhs.physical_address me.physical_address then me ∷ lhs ∷ before else lhs ∷ sift me before

-- The outer loop: `before` is the array below index `i`, from the back; `buf` is the rest.
unfoldable pub sort_from : List MemoryMapEntry → List MemoryMapEntry → List MemoryMapEntry
sort_from before [] = reverse before
sort_from before (me ∷ buf) = sort_from (sift me before) buf

-- mm_sort on the entries of the list.
unfoldable pub mm_sort : List MemoryMapEntry → List MemoryMapEntry
unfolding sort_from sift
mm_sort buf = sort_from [] buf

-- The first entry starts at `n` or after it.
abbrev pub From : ℕ → List MemoryMapEntry → Type 0
From n [] = Unit {0}
From n (me ∷ buf) = n ≤ me.physical_address

-- Physical addresses do not fall along the list.
abbrev pub IsAscending : List MemoryMapEntry → Type 0
IsAscending [] = Unit {0}
IsAscending (me ∷ buf) = From me.physical_address buf × IsAscending buf

abbrev UpTo : ℕ → List MemoryMapEntry → Type 0
UpTo n [] = Unit {0}
UpTo n (me ∷ buf) = me.physical_address ≤ n

abbrev IsDescending : List MemoryMapEntry → Type 0
IsDescending [] = Unit {0}
IsDescending (me ∷ buf) = UpTo me.physical_address buf × IsDescending buf

sift-UpTo :
    (n : ℕ) (me : MemoryMapEntry) (before : List MemoryMapEntry)
    → UpTo n before
    → me.physical_address ≤ n
    → UpTo n (sift me before)
unfolding sift
sift-UpTo n me [] h le = le
sift-UpTo n me (lhs ∷ before) h le = ground arith

sift-IsDescending :
    (me : MemoryMapEntry) (before : List MemoryMapEntry)
    → IsDescending before
    → IsDescending (sift me before)
unfolding sift
sift-IsDescending me [] h = (tt, tt)
sift-IsDescending me (lhs ∷ before) h =
    elim (Bool-cases (leb lhs.physical_address me.physical_address)) [
      | inl stop ↦ rw stop (leb→le _ _ stop, h)
      | inr swap ↦
          let lt = leb→lt lhs.physical_address me.physical_address swap in
          rw swap (
            sift-UpTo lhs.physical_address me before h.0 (omega arith),
            sift-IsDescending me before h.1,
          )
    ]

reverse_aux-IsAscending :
    (before buf : List MemoryMapEntry)
    → IsDescending before
    → IsAscending buf
    → (n : ℕ) → UpTo n before
    → From n buf
    → IsAscending (reverse_aux before buf)
reverse_aux-IsAscending [] buf d a n u f = a
reverse_aux-IsAscending (me ∷ before) [] d a n u f =
    reverse_aux-IsAscending before (me ∷ []) d.1 (tt, tt) me.physical_address d.0 (omega arith)
reverse_aux-IsAscending (me ∷ before) (next ∷ buf) d a n u f =
    reverse_aux-IsAscending before (me ∷ next ∷ buf) d.1 (omega arith, a) me.physical_address d.0
      (omega arith)

sort_from-IsAscending :
    (before buf : List MemoryMapEntry) → IsDescending before → IsAscending (sort_from before buf)
unfolding sort_from
sort_from-IsAscending [] [] d = tt
sort_from-IsAscending (me ∷ before) [] d =
    reverse_aux-IsAscending (me ∷ before) [] d tt me.physical_address (omega arith) tt
sort_from-IsAscending before (me ∷ buf) d =
    sort_from-IsAscending (sift me before) buf (sift-IsDescending me before d)

-- The entries that start at `k`, in their order.
pub starting_at : ℕ → List MemoryMapEntry → List MemoryMapEntry
starting_at k [] = []
starting_at k (me ∷ buf) =
    if me.physical_address == k then me ∷ starting_at k buf else starting_at k buf

starting_at-sift :
    (k : ℕ) (me : MemoryMapEntry) (before : List MemoryMapEntry)
    → starting_at k (sift me before) ≡ starting_at k (me ∷ before)
unfolding starting_at sift
starting_at-sift k me [] = refl
starting_at-sift k me (lhs ∷ before) = ground (arith, starting_at-sift k me before)

starting_at-reverse_aux :
    (k : ℕ) (before buf : List MemoryMapEntry)
    → starting_at k (reverse_aux before buf)
      ≡ reverse_aux (starting_at k before) (starting_at k buf)
unfolding starting_at
starting_at-reverse_aux k [] buf = refl
starting_at-reverse_aux k (me ∷ before) buf =
    starting_at-reverse_aux k before (me ∷ buf) ∙ split (me.physical_address == k)
  where
    split :
        (b : Bool)
        → reverse_aux
            (starting_at k before)
            (if b then me ∷ starting_at k buf else starting_at k buf)
          ≡ reverse_aux
              (if b then me ∷ starting_at k before else starting_at k before)
              (starting_at k buf)
    split true = refl
    split false = refl

starting_at-sort_from :
    (k : ℕ) (before buf : List MemoryMapEntry)
    → starting_at k (sort_from before buf) ≡ reverse_aux (starting_at k before) (starting_at k buf)
unfolding sort_from
starting_at-sort_from k before [] = starting_at-reverse_aux k before []
starting_at-sort_from k before (me ∷ buf) =
    starting_at-sort_from k (sift me before) buf
    ∙ (ap (λ l. reverse_aux l (starting_at k buf)) (starting_at-sift k me before)
        ∙ (sym (starting_at-reverse_aux k (me ∷ before) buf)
            ∙ starting_at-reverse_aux k before (me ∷ buf)))

-- Sorting puts the entries in ascending order of their address, and keeps, for every address, the
-- entries that start there and their order: it is a stable sort that loses nothing.
pub mm_sort_stable :
    (buf : List MemoryMapEntry)
    → IsAscending (mm_sort buf) × ((k : ℕ) → starting_at k (mm_sort buf) ≡ starting_at k buf)
unfolding mm_sort
mm_sort_stable buf = (
  sort_from-IsAscending [] buf tt,
  λ k. starting_at-sort_from k [] buf ∙ unfold starting_at in refl,
)
