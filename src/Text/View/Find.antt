-- ===== src/Text/View/Find.antt =====
-- What sv_find of loader/common/string_view.c finds.
use hyper.Base.{
  ℕ, zero, suc, ◌+◌, ◌-◌, ◌≤◌, ◌<◌, ◌≡◌, ◌≢◌, refl, ap, ltb, if◌then◌else◌, Option, none, some, [],
  ◌∷◌, length, take, drop, length-take, length-drop, drop-drop, ltb→le, le→ltb, ltb→lt, arith,
  Bool-cases, inl, inr, Returns,
}
use hyper.Text.Ctype.{Bytes}
use hyper.Text.View.{same_bytes, find_from, sv_find}
use hyper.Text.View.Match.{same_bytes_plain}

-- The bytes of `str` from index `j` on begin with `needle`.
abbrev pub Occurs : Bytes → Bytes → ℕ → Type 0
Occurs str needle j = take (length needle) (drop j str) ≡ needle

-- `r` is the first occurrence from `start` on, or there is none.
abbrev pub IsFirst : Bytes → Bytes → ℕ → Option ℕ → Type 0
IsFirst str needle start (some i) =
    (start ≤ i) × Occurs str needle i × ((j : ℕ) → start ≤ j → j < i → ¬ (Occurs str needle j))
IsFirst str needle start none = (j : ℕ) → start ≤ j → ¬ (Occurs str needle j)

pub Occurs-le :
    (str needle : Bytes) (j : ℕ)
    → Occurs str needle j
    → needle ≢ []
    → j + length needle ≤ length str
Occurs-le str [] j h ne = absurd (ne refl)
Occurs-le str (k ∷ needle) j h ne = omega (
  arith,
  ap (λ (s : Bytes). length s) h,
  length-take (length (k ∷ needle)) (drop j str),
  length-drop j str,
)

-- The outcome of the loop after `n` rounds over the view from index `i`.
abbrev FirstIn : ℕ → ℕ → Bytes → Bytes → Option ℕ → Type 0
FirstIn n i str needle (some r) =
    (k : ℕ) × (r ≡ i + k) × Occurs str needle k × ((j : ℕ) → j < k → ¬ (Occurs str needle j))
FirstIn n i str needle none = (j : ℕ) → j < n → ¬ (Occurs str needle j)

FirstIn-step :
    (n i c : ℕ) (str needle : Bytes) (r : Option ℕ)
    → ¬ (Occurs (c ∷ str) needle 0)
    → FirstIn n (i + 1) str needle r
    → FirstIn (suc n) i (c ∷ str) needle r
FirstIn-step n i c str needle none no0 h = below
  where
    below : (j : ℕ) → j < suc n → ¬ (Occurs (c ∷ str) needle j)
    below zero p = no0
    below (suc j) p = h j (omega arith)
FirstIn-step n i c str needle (some r) no0 (k, e, occ, least) = (suc k, omega arith, occ, below)
  where
    below : (j : ℕ) → j < suc k → ¬ (Occurs (c ∷ str) needle j)
    below zero p = no0
    below (suc j) p = least j (omega arith)

find_from_cons :
    (n i c k : ℕ) (str needle : Bytes)
    → find_from (suc n) i (c ∷ str) (k ∷ needle) ≡ (
        if same_bytes (λ x. x) (c ∷ str) (k ∷ needle)
        then some i
        else find_from n (i + 1) str (k ∷ needle))
unfolding find_from
find_from_cons n i c k str needle = ground arith

find_from-FirstIn :
    (n i : ℕ) (str : Bytes) (k : ℕ) (needle : Bytes)
    → FirstIn n i str (k ∷ needle) (find_from n i str (k ∷ needle))
find_from-FirstIn zero i str k needle = unfold find_from in λ j h. elim h [ ]
find_from-FirstIn (suc n) i [] k needle = unfold find_from in λ j h e. nothing j e
  where
    nothing : (j : ℕ) → ¬ (Occurs [] (k ∷ needle) j)
    nothing zero e = cc
    nothing (suc j) e = cc
find_from-FirstIn (suc n) i (c ∷ str) k needle =
    elim (Bool-cases (same_bytes (λ x. x) (c ∷ str) (k ∷ needle))) [
      | inl hit ↦
          rw (find_from_cons n i c k str needle, hit)
            (0, omega arith, (same_bytes_plain (c ∷ str) (k ∷ needle)).0 hit, λ j h. elim h [ ])
      | inr miss ↦
          rw (find_from_cons n i c k str needle, miss)
            (FirstIn-step n i c str (k ∷ needle) _
              (λ e. ground (arith, (same_bytes_plain (c ∷ str) (k ∷ needle)).1 e))
              (find_from-FirstIn n (i + 1) str k needle))
    ]

Occurs-drop :
    (start j : ℕ) (str needle : Bytes)
    → Occurs (drop start str) needle j ≡ Occurs str needle (start + j)
Occurs-drop start j str needle =
    ap (λ (s : Bytes). take (length needle) s ≡ needle) (drop-drop start j str)

FirstIn-IsFirst :
    (n start k : ℕ) (str needle : Bytes) (r : Option ℕ)
    → length str < n + start + length (k ∷ needle)
    → FirstIn n start (drop start str) (k ∷ needle) r
    → IsFirst str (k ∷ needle) start r
FirstIn-IsFirst n start k str needle none wide h = λ j p occ.
    let inside = Occurs-le str (k ∷ needle) j occ (λ e. cc) in
    h (j - start) (omega arith) (shift j p occ)
  where
    shift :
        (j : ℕ)
        → start ≤ j
        → Occurs str (k ∷ needle) j
        → Occurs (drop start str) (k ∷ needle) (j - start)
    shift j p occ =
        let e : start + (j - start) ≡ j = omega arith in
        rw (Occurs-drop start (j - start) str (k ∷ needle), e) occ
FirstIn-IsFirst n start k str needle (some r) wide (m, e, occ, least) =
    rw e (omega arith, found, below)
  where
    found : Occurs str (k ∷ needle) (start + m)
    found = rw (Occurs-drop start m str (k ∷ needle)) at occ

    below : (j : ℕ) → start ≤ j → j < start + m → ¬ (Occurs str (k ∷ needle) j)
    below j p q occ' =
        let e' : start + (j - start) ≡ j = omega arith in
        least (j - start) (omega arith)
          (rw (Occurs-drop start (j - start) str (k ∷ needle), e') occ')

-- For a non-empty needle and a start inside the view, sv_find returns: the first index from the
-- start on at which the needle occurs, or -1 if it occurs nowhere from there on.
pub sv_find-IsFirst :
    (str : Bytes) (k : ℕ) (needle : Bytes) (start : ℕ)
    → start ≤ length str
    → Returns (IsFirst str (k ∷ needle) start) (sv_find str (k ∷ needle) start)
unfolding sv_find
sv_find-IsFirst str k needle start h =
    rw (le→ltb (length str) start h)
      (elim (Bool-cases (ltb (length str - start) (length (k ∷ needle)))) [
        | inl short ↦ rw short (λ j p occ.
            let inside = Occurs-le str (k ∷ needle) j occ (λ e. cc) in
            let lt = ltb→lt (length str - start) (suc (length needle)) short in
            absurd (omega arith))
        | inr long ↦
            let le = ltb→le (length str - start) (suc (length needle)) long in
            rw long (
              FirstIn-IsFirst _ start k str needle _ (omega arith)
                (find_from-FirstIn _ start (drop start str) k needle))
      ])
