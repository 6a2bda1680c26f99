-- ===== src/Memory/Fixup/Merge.antt =====
-- The walk of mm_do_fixup over a map with no overlaps: what it returns, and what it says of each
-- address.
use mathlib.Core.List.{reverse_aux}
use hyper.Base.{
  ℕ, zero, suc, ◌+◌, ◌≤◌, ◌<◌, ◌≡◌, ◌≢◌, ◌⊎◌, refl, ap, ◌∙◌, Bool, true, false, not, ◌==◌,
  if◌then◌else◌, ◌||◌, Option, none, some, List, [], ◌∷◌, length, Run, ok, panic, stuck, Returns,
  add64, u64_mod, arith, Bool-cases, inl, inr, le→ltb,
}
use hyper.Memory.Entry.{MemoryMapEntry, mme_end}
use hyper.Memory.Types.{mme_resolve_type, KnowsBasics, IsKnown, mme_resolve_type_idempotent}
use hyper.Memory.Overlap.Covering.{type_at}
use hyper.Memory.Fixup.{Flags, walk_step, walk, mm_do_fixup}

-- An entry that does not wrap, of a type that can occur.
pub record Fits (me : MemoryMapEntry) : Type 0 where
  pub room : me.physical_address + me.size_in_bytes < u64_mod
  pub known : IsKnown me.type

-- Each entry ends where the next begins, or before.
abbrev pub IsSettled : MemoryMapEntry → List MemoryMapEntry → Type 0
IsSettled this [] = Fits this
IsSettled this (next ∷ rest) =
    Fits this × (mme_end this ≤ next.physical_address) × IsSettled next rest

-- In order, apart, and no two neighbours that touch have one type.
abbrev pub IsMerged : List MemoryMapEntry → Type 0
IsMerged [] = Unit {0}
IsMerged (x ∷ []) = Unit {0}
IsMerged (x ∷ y ∷ l) =
    (mme_end x ≤ y.physical_address)
    × ¬ ((mme_end x ≡ y.physical_address) × (x.type ≡ y.type))
    × IsMerged (y ∷ l)

-- The reported type, where the resolution returns one.
pub resolved : ℕ → ℕ → ℕ
resolved known type = elim (mme_resolve_type known type) [ ok t ↦ t | panic ↦ type | stuck ↦ type ]

abbrev pub resolve_option : ℕ → Option ℕ → Option ℕ
resolve_option known none = none
resolve_option known (some t) = some (resolved known t)

value_of : (known type t : ℕ) → mme_resolve_type known type ≡ ok t → resolved known type ≡ t
unfolding resolved
value_of known type t e = rw (e, resolved)

module _ (known : ℕ) (basics : KnowsBasics known) where
  resolve_ok :
      (type : ℕ)
      → IsKnown type
      → (mme_resolve_type known type ≡ ok (resolved known type))
        × (resolved known (resolved known type) ≡ resolved known type)
        × IsKnown (resolved known type)
  unfolding resolved
  resolve_ok type h =
      go (mme_resolve_type known type) refl (mme_resolve_type_idempotent known type basics h)
    where
      go :
          (r : Run ℕ)
          → mme_resolve_type known type ≡ r
          → Returns (λ t. IsKnown t × (mme_resolve_type known t ≡ ok t)) r
          → (mme_resolve_type known type ≡ ok (resolved known type))
            × (resolved known (resolved known type) ≡ resolved known type)
            × IsKnown (resolved known type)
      go (ok t) e k = rw (value_of known type t e) (e, value_of known t t k.1, k.0)
      go panic e k = absurd k
      go stuck e k = absurd k

  abbrev report : MemoryMapEntry → MemoryMapEntry
  report me = record me { type = resolved known me.type }

  abbrev join : MemoryMapEntry → MemoryMapEntry → MemoryMapEntry
  join this next = record {
    physical_address = this.physical_address;
    size_in_bytes = add64 this.size_in_bytes next.size_in_bytes;
    type = resolved known this.type;
  }

  abbrev apart : MemoryMapEntry → MemoryMapEntry → Bool
  apart this next =
      not (resolved known this.type == resolved known next.type)
      || not (mme_end this == next.physical_address)

  -- The result of the walk as a function of the entries alone.
  fuse : MemoryMapEntry → List MemoryMapEntry → List MemoryMapEntry
  fuse this [] = this ∷ []
  fuse this (next ∷ rest) =
      let separate = report this ∷ fuse (report next) rest in
      let together = fuse (join this next) rest in if apart this next then separate else together

  touching :
      (this next : MemoryMapEntry)
      → apart this next ≡ false
      → (resolved known this.type ≡ resolved known next.type)
        × (mme_end this ≡ next.physical_address)
  touching this next e = ground arith

  separated :
      (this next : MemoryMapEntry)
      → apart this next ≡ true
      → ¬ (
          (mme_end this ≡ next.physical_address)
          × (resolved known this.type ≡ resolved known next.type))
  separated this next e h = ground arith

  join-Fits :
      (this next : MemoryMapEntry)
      → Fits this
      → Fits next
      → mme_end this ≡ next.physical_address
      → Fits (join this next)
  join-Fits this next f g e = record {
    room = omega (arith, f.room, g.room);
    known = (resolve_ok this.type f.known).2;
  }

  end-join :
      (this next : MemoryMapEntry)
      → Fits this
      → Fits next
      → mme_end this ≡ next.physical_address
      → mme_end (join this next) ≡ mme_end next
  end-join this next f g e = omega (arith, f.room, g.room)

  join-IsSettled :
      (this next : MemoryMapEntry) (rest : List MemoryMapEntry)
      → IsSettled this (next ∷ rest)
      → apart this next ≡ false
      → IsSettled (join this next) rest
  join-IsSettled this next [] s e = join-Fits this next s.0 s.2 (touching this next e).1
  join-IsSettled this next (x ∷ rest) s e =
      let t = touching this next e in
      let joined_end = end-join this next s.0 s.2.0 t.1 in
      let order = s.2.1 in (join-Fits this next s.0 s.2.0 t.1, omega arith, s.2.2)

  report-IsSettled :
      (this : MemoryMapEntry) (rest : List MemoryMapEntry)
      → IsSettled this rest
      → IsSettled (report this) rest
  report-IsSettled this [] s = record { room = s.room; known = (resolve_ok this.type s.known).2 }
  report-IsSettled this (x ∷ rest) s =
      (record { room = s.0.room; known = (resolve_ok this.type s.0.known).2 }, s.1, s.2)

  Settled-Fits :
      (this : MemoryMapEntry) (rest : List MemoryMapEntry) → IsSettled this rest → Fits this
  Settled-Fits this [] s = s
  Settled-Fits this (x ∷ rest) s = s.0

  -- The first entry of the result begins where the walk began, under the reported type.
  fuse-head :
      (this : MemoryMapEntry) (rest : List MemoryMapEntry)
      → IsKnown this.type
      → resolved known this.type ≡ this.type
      → (size : ℕ) × (l : List MemoryMapEntry) × (fuse this rest
          ≡ record {
            physical_address = this.physical_address;
            size_in_bytes = size;
            type = this.type;
          }
            ∷ l)
  unfolding fuse
  fuse-head this [] k e = (this.size_in_bytes, [], refl)
  fuse-head this (next ∷ rest) k e = elim (Bool-cases (apart this next)) [
    | inl sep ↦ (
      this.size_in_bytes,
      fuse (report next) rest,
      rw (sep) (ap (λ (t : ℕ). record this { type = t } ∷ fuse (report next) rest) e),
    )
    | inr tog ↦
        let r = resolve_ok this.type k in
        let (size, l, eq) = fuse-head (join this next) rest r.2 r.1 in
        (
          size,
          l,
          rw tog (
              eq
              ∙ ap
                  (λ (t : ℕ).
                    record {
                      physical_address = this.physical_address;
                      size_in_bytes = size;
                      type = t;
                    }
                    ∷ l)
                  e),
        )
  ]

  fuse-IsMerged :
      (this : MemoryMapEntry) (rest : List MemoryMapEntry)
      → IsSettled this rest
      → IsMerged (fuse this rest)
  unfolding fuse
  fuse-IsMerged this [] s = tt
  fuse-IsMerged this (next ∷ rest) s = elim (Bool-cases (apart this next)) [
    | inr tog ↦ rw tog (fuse-IsMerged (join this next) rest (join-IsSettled this next rest s tog))
    | inl sep ↦
        let f = Settled-Fits next rest s.2 in
        let r = resolve_ok next.type f.known in
        let (size, l, eq) = fuse-head (report next) rest r.2 r.1 in
        let tail = fuse-IsMerged (report next) rest (report-IsSettled next rest s.2) in
        rw (sep, eq) (s.1, separated this next sep, rw eq at tail)
  ]

  type_at-join :
      (this next : MemoryMapEntry) (rest : List MemoryMapEntry) (a : ℕ)
      → Fits this
      → Fits next
      → apart this next ≡ false
      → resolve_option known (type_at (join this next ∷ rest) a)
        ≡ resolve_option known (type_at (this ∷ next ∷ rest) a)
  unfolding type_at
  type_at-join this next rest a f g tog =
      let t = touching this next tog in
      let again = (resolve_ok this.type f.known).1 in
      let joined_end = end-join this next f g t.1 in
      let this_room = f.room in let next_room = g.room in ground arith

  fuse_cons :
      (this next : MemoryMapEntry) (rest : List MemoryMapEntry)
      → fuse this (next ∷ rest) ≡ (
          if apart this next
          then report this ∷ fuse (report next) rest
          else fuse (join this next) rest)
  unfolding fuse
  fuse_cons this next rest = refl

  type_at-report :
      (this : MemoryMapEntry) (x y : List MemoryMapEntry) (a : ℕ)
      → type_at x a ≡ resolve_option known (type_at y a)
      → type_at (report this ∷ x) a ≡ resolve_option known (type_at (this ∷ y) a)
  unfolding type_at
  type_at-report this x y a e = ground arith

  type_at-report_twice :
      (next : MemoryMapEntry) (rest : List MemoryMapEntry) (a : ℕ)
      → IsKnown next.type
      → resolve_option known (type_at (report next ∷ rest) a)
        ≡ resolve_option known (type_at (next ∷ rest) a)
  unfolding type_at
  type_at-report_twice next rest a k = let again = (resolve_ok next.type k).1 in ground arith

  -- Each address has the reported type of the entry that covers it.
  fuse-type_at :
      (this : MemoryMapEntry) (rest : List MemoryMapEntry) (a : ℕ)
      → IsSettled this rest
      → (resolved known this.type ≡ this.type) ⊎ (rest ≢ [])
      → type_at (fuse this rest) a ≡ resolve_option known (type_at (this ∷ rest) a)
  fuse-type_at this [] a s (inr n) = absurd (n refl)
  fuse-type_at this [] a s (inl e) = unfold type_at fuse in ground arith
  fuse-type_at this (next ∷ rest) a s h =
      let f = Settled-Fits this (next ∷ rest) s in
      let g = Settled-Fits next rest s.2 in
      elim (Bool-cases (apart this next)) [
        | inr tog ↦
            rw (fuse_cons this next rest, tog)
              (fuse-type_at (join this next) rest a (join-IsSettled this next rest s tog)
                  (inl (resolve_ok this.type f.known).1)
                ∙ type_at-join this next rest a f g tog)
        | inl sep ↦
            let ih =
              fuse-type_at (report next) rest a (report-IsSettled next rest s.2)
                (inl (resolve_ok next.type g.known).1) in
            rw (fuse_cons this next rest, sep)
              (type_at-report this _ (next ∷ rest) a
                (ih ∙ type_at-report_twice next rest a g.known))
      ]

  module _ (flags : Flags) (capacity : ℕ) (uninit : ℕ → Bool) where
    step_settled :
        (fuel i : ℕ) (done rest : List MemoryMapEntry) (this next : MemoryMapEntry)
        → IsSettled this (next ∷ rest)
        → walk_step flags known capacity
            (uninit fuel)
            (record { done = done; this = this; rest = next ∷ rest; i = i })
            next
            rest
          ≡ ok (
              if apart this next
              then record { done = report this ∷ done; this = report next; rest = rest; i = i + 1 }
              else record { done = done; this = join this next; rest = rest; i = i + 1 })
    unfolding walk_step
    step_settled fuel i done rest this next s = rw (
      le→ltb next.physical_address (mme_end this) s.1,
      (resolve_ok this.type s.0.known).0,
      (resolve_ok next.type (Settled-Fits next rest s.2).known).0,
    )

    -- A walk over a settled map takes one round for each entry, and returns the fused entries.
    walk-fuse :
        (fuel i : ℕ) (done rest : List MemoryMapEntry) (this : MemoryMapEntry)
        → IsSettled this rest
        → length rest ≤ fuel
        → walk flags known capacity uninit fuel
            (record { done = done; this = this; rest = rest; i = i })
            rest
          ≡ ok (reverse_aux done (fuse this rest))
    unfolding walk
    walk-fuse fuel i done [] this s le = unfold fuse in refl
    walk-fuse zero i done (next ∷ rest) this s le = absurd (omega arith)
    walk-fuse (suc fuel) i done (next ∷ rest) this s le = elim (Bool-cases (apart this next)) [
      | inl sep ↦
          rw (step_settled fuel i done rest this next s, fuse_cons this next rest, sep)
            (walk-fuse fuel (i + 1) (report this ∷ done) rest (report next)
              (report-IsSettled next rest s.2) (omega arith))
      | inr tog ↦
          rw (step_settled fuel i done rest this next s, fuse_cons this next rest, tog)
            (walk-fuse fuel (i + 1) done rest (join this next) (join-IsSettled this next rest s tog)
              (omega arith))
    ]

    -- Under a mask that knows the types free and reserved, on a map of at least two entries of
    -- types that can occur, in order and without overlaps, with one round for each entry behind
    -- the first, mm_do_fixup returns. The new map is in order and apart, no two neighbours that
    -- touch have one type, and it gives each address the reported type of the entry that covered
    -- it.
    pub mm_do_fixup_settled :
        (first next : MemoryMapEntry) (rest : List MemoryMapEntry) (fuel : ℕ)
        → IsSettled first (next ∷ rest)
        → length (next ∷ rest) ≤ fuel
        → Returns
            (λ out.
              IsMerged out
              × ((a : ℕ) → type_at out a ≡ resolve_option known (type_at (first ∷ next ∷ rest) a)))
            (mm_do_fixup flags known capacity uninit fuel (first ∷ next ∷ rest))
    unfolding mm_do_fixup
    mm_do_fixup_settled first next rest fuel s le =
        rw (walk-fuse fuel 1 [] (next ∷ rest) first s le) (
          fuse-IsMerged first (next ∷ rest) s,
          λ a. fuse-type_at first (next ∷ rest) a s (inr (λ e. cc)),
        )
