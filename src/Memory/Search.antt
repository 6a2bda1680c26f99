-- ===== src/Memory/Search.antt =====
-- mm_find_first_that_contains of loader/memory_services.c: a binary search of the memory map.
use hyper.Base.{
  ℕ, zero, suc, ◌+◌, ◌-◌, ◌/◌, ◌≤◌, ◌<◌, ◌≡◌, ◌⊎◌, inl, inr, refl, Bool, true, false, ltb, ◌==◌,
  ==_iff, if◌then◌else◌, ◌&&◌, Option, none, some, List, length, get_or, Run, ok, panic, stuck,
  ◌>>=◌, Returns, arith, Bool-cases, ltb→lt, ltb→le, lt→ltb, compare_cases,
}
use hyper.Memory.Entry.{MemoryMapEntry, mme_end}

abbrev pub no_entry : MemoryMapEntry
no_entry = record { physical_address = 0; size_in_bytes = 0; type = 0 }

-- buf[i]; every read below stands under a bound on its index.
infixl 90 ◌!◌
abbrev pub ◌!◌ : List MemoryMapEntry → ℕ → MemoryMapEntry
buf ! i = get_or buf i no_entry

-- How the `while` loop ends: at an entry that starts at the value, or with the lower bound `left`.
pub data Found : Type 0 where
  at : ℕ → Found
  lower_bound : ℕ → Found

-- The loop. `left` and `right` are signed there, and `right` may be -1: here `above` is right + 1,
-- so that `left <= right` is `left < above` and the middle is left + (above - 1 - left) / 2.
unfoldable pub find_loop : ℕ → List MemoryMapEntry → ℕ → ℕ → ℕ → Run Found
find_loop zero buf value left above = stuck
find_loop (suc fuel) buf value left above =
    let middle = left + (above - 1 - left) / 2 in
    let right_half = find_loop fuel buf value (middle + 1) above in
    let left_half = find_loop fuel buf value left middle in
    if ltb left above
    then (if ltb (buf ! middle).physical_address value
        then right_half
        else if ltb value (buf ! middle).physical_address
        then left_half
        else ok (at middle))
    else ok (lower_bound left)

-- What follows the loop: right is left - 1 there. `none` is the result -1.
unfoldable pub conclude : List MemoryMapEntry → ℕ → Bool → Found → Option ℕ
conclude buf value allow_one_above (at middle) = some middle
conclude buf value allow_one_above (lower_bound zero) =
    if 0 == length buf then none else if allow_one_above then some 0 else none
conclude buf value allow_one_above (lower_bound (suc right)) =
    if ltb (buf ! right).physical_address value && ltb value (mme_end (buf ! right))
    then some right
    else if suc right == length buf
    then none
    else if allow_one_above
    then some (suc right)
    else none

-- `count` is the length of the list; each round shortens the range, so count + 1 rounds do.
unfoldable pub mm_find_first_that_contains : List MemoryMapEntry → ℕ → Bool → Run (Option ℕ)
unfolding find_loop conclude
mm_find_first_that_contains buf value allow_one_above = do
  found ← find_loop (length buf + 1) buf value 0 (length buf)
  ok (conclude buf value allow_one_above found)

-- Addresses rise strictly along the map.
abbrev pub IsOrdered : List MemoryMapEntry → Type 0
IsOrdered buf =
    (i j : ℕ) → i < j → j < length buf → (buf ! i).physical_address < (buf ! j).physical_address

-- Entries below `n` start before the value; those from `n` on start after it.
abbrev pub Splits : List MemoryMapEntry → ℕ → ℕ → Type 0
Splits buf value n =
    (n ≤ length buf)
    × ((i : ℕ) → i < n → (buf ! i).physical_address < value)
    × ((i : ℕ) → n ≤ i → i < length buf → value < (buf ! i).physical_address)

abbrev FoundRight : List MemoryMapEntry → ℕ → Found → Type 0
FoundRight buf value (at i) = (i < length buf) × ((buf ! i).physical_address ≡ value)
FoundRight buf value (lower_bound n) = Splits buf value n

find_loop-FoundRight :
    (fuel : ℕ) (buf : List MemoryMapEntry) (value left above : ℕ)
    → IsOrdered buf
    → above - left < fuel
    → left ≤ above
    → above ≤ length buf
    → ((i : ℕ) → i < left → (buf ! i).physical_address < value)
    → ((i : ℕ) → above ≤ i → i < length buf → value < (buf ! i).physical_address)
    → Returns (FoundRight buf value) (find_loop fuel buf value left above)
unfolding find_loop
find_loop-FoundRight zero buf value left above o f le in_buf lo hi = absurd (omega arith)
find_loop-FoundRight (suc fuel) buf value left above o f le in_buf lo hi =
    elim (Bool-cases (ltb left above)) [
      | inr done ↦
          let e = ltb→le left above done in rw done (omega arith, lo, λ i p. hi i (omega arith))
      | inl more ↦
          let lt = ltb→lt left above more in
          let middle : ℕ = left + (above - 1 - left) / 2 in
          rw more (elim (Bool-cases (ltb (buf ! middle).physical_address value)) [
            | inl low ↦ rw low (
                find_loop-FoundRight fuel buf value (middle + 1) above o (omega arith) (omega arith)
                  in_buf
                  (λ i p.
                    grind (arith, o i middle, ltb→lt (buf ! middle).physical_address value low))
                  hi)
            | inr not_low ↦ elim (Bool-cases (ltb value (buf ! middle).physical_address)) [
              | inl high ↦
                  rw (not_low, high)
                    (find_loop-FoundRight fuel buf value left middle o (omega arith) (omega arith)
                      (omega arith) lo
                      (λ i p q.
                        grind
                          (arith, o middle i, ltb→lt value (buf ! middle).physical_address high)))
              | inr here ↦
                  let a = ltb→le (buf ! middle).physical_address value not_low in
                  let b = ltb→le value (buf ! middle).physical_address here in
                  rw (not_low, here) (omega arith, omega arith)
            ]
          ])
    ]

-- A settled map: no entry is empty or wraps, and each ends where the next begins, or before.
pub record IsDisjoint (buf : List MemoryMapEntry) : Type 0 where
  pub nonempty : (i : ℕ) → i < length buf → (buf ! i).physical_address < mme_end (buf ! i)
  pub apart : (i j : ℕ) → i < j → j < length buf → mme_end (buf ! i) ≤ (buf ! j).physical_address

-- Entry `i` covers the address.
abbrev pub Covers : List MemoryMapEntry → ℕ → ℕ → Type 0
Covers buf value i =
    (i < length buf) × ((buf ! i).physical_address ≤ value) × (value < mme_end (buf ! i))

-- The entry that covers the value; else, where the caller allows it, the first entry after it.
abbrev pub Answers : List MemoryMapEntry → ℕ → Bool → Option ℕ → Type 0
Answers buf value allow_one_above (some i) =
    Covers buf value i
    ⊎ ((allow_one_above ≡ true)
        × (i < length buf)
        × Splits buf value i
        × ((j : ℕ) → ¬ (Covers buf value j)))
Answers buf value allow_one_above none =
    ((j : ℕ) → ¬ (Covers buf value j))
    × (allow_one_above ≡ true → (j : ℕ) → j < length buf → (buf ! j).physical_address < value)

module _ (buf : List MemoryMapEntry) (value : ℕ) (d : IsDisjoint buf) where
  IsDisjoint-IsOrdered : IsOrdered buf
  IsDisjoint-IsOrdered i j less inside =
      omega (arith, d.nonempty i (omega arith), d.apart i j less inside)

  -- With nothing below the split, no entry covers the value.
  none_below : Splits buf value 0 → (j : ℕ) → ¬ (Covers buf value j)
  none_below s j c = omega (arith, s.2 j (omega arith) c.0)

  none-Covers :
      (right : ℕ)
      → Splits buf value (suc right)
      → mme_end (buf ! right) ≤ value
      → (j : ℕ) → ¬ (Covers buf value j)
  none-Covers right s past j c = elim (compare_cases j right) [
    | inl before ↦ omega (arith, d.apart j right before (omega arith), s.1 right (omega arith))
    | inr (inl same) ↦
        let h = c.2 in let e : value < mme_end (buf ! right) = rw (← same) h in omega arith
    | inr (inr after) ↦ omega (arith, s.2 j (omega arith) c.0)
  ]

  conclude-Answers :
      (allow : Bool) (found : Found)
      → FoundRight buf value found
      → Answers buf value allow (conclude buf value allow found)
  unfolding conclude
  conclude-Answers allow (at i) h = inl (h.0, omega arith, omega (arith, d.nonempty i h.0))
  conclude-Answers true (lower_bound zero) s = elim (Bool-cases (0 == length buf)) [
    | inl empty ↦ rw empty (none_below s, λ _ j p. ground arith)
    | inr some_left ↦ rw some_left (inr (refl, ground arith, s, none_below s))
  ]
  conclude-Answers false (lower_bound zero) s = elim (Bool-cases (0 == length buf)) [
    | inl empty ↦ rw empty (none_below s, λ e. cc)
    | inr some_left ↦ rw some_left (none_below s, λ e. cc)
  ]
  conclude-Answers allow (lower_bound (suc right)) s =
      let starts = s.1 right (omega arith) in
      elim (Bool-cases (ltb value (mme_end (buf ! right)))) [
        | inl covered ↦
            let lt = ltb→lt value (mme_end (buf ! right)) covered in
            rw (lt→ltb _ _ starts, covered) (inl (omega arith, omega arith, lt))
        | inr past ↦
            let nowhere = none-Covers right s (ltb→le value (mme_end (buf ! right)) past) in
            rw (lt→ltb _ _ starts, past) (after allow nowhere)
      ]
    where
      after :
          (allow : Bool)
          → ((j : ℕ) → ¬ (Covers buf value j))
          → Answers buf value allow
              (if suc right == length buf then none else if allow then some (suc right) else none)
      after true nowhere = elim (Bool-cases (suc right == length buf)) [
        | inl last ↦
            let e = (==_iff (suc right) (length buf)).0 last in
            rw last (nowhere, λ _ j p. s.1 j (omega arith))
        | inr inner ↦ rw inner (inr (refl, ground arith, s, nowhere))
      ]
      after false nowhere = elim (Bool-cases (suc right == length buf)) [
        | inl last ↦ rw last (nowhere, λ e. cc)
        | inr inner ↦ rw inner (nowhere, λ e. cc)
      ]

  -- On a map whose entries are not empty and each end where the next begins, or before, the search
  -- returns: the entry that covers the value; if none does, and the caller allows it, the first
  -- entry behind the value; -1 in the cases that are left.
  pub mm_find-Answers :
      (allow_one_above : Bool)
      → Returns
          (Answers buf value allow_one_above)
          (mm_find_first_that_contains buf value allow_one_above)
  unfolding mm_find_first_that_contains
  mm_find-Answers allow = finish (find_loop (length buf + 1) buf value 0 (length buf)) (
      find_loop-FoundRight (length buf + 1) buf value 0 (length buf) IsDisjoint-IsOrdered
        (omega arith) (omega arith) (omega arith) (λ i p. elim p [ ])
        (λ i p q. absurd (omega arith)))
    where
      finish :
          (r : Run Found)
          → Returns (FoundRight buf value) r
          → Returns (Answers buf value allow) (r >>= λ found. ok (conclude buf value allow found))
      finish (ok found) h = conclude-Answers allow found h
      finish panic h = h
      finish stuck h = h
