-- ===== src/Text/Convert/Exact.antt =====
-- The overflow test in the digit loop of loader/common/conversions.c.
use hyper.Base.{
  ℕ, ◌+◌, ◌*◌, ◌/◌, ◌%◌, ◌≤◌, ◌<◌, ◌≡◌, refl, ltb, if◌then◌else◌, Option, none, some, [], ◌∷◌,
  u64_mod, arith, Bool-cases, inl, inr, Option-cases, ltb→lt, lt→ltb, ap,
}
use native.Mathlib.Nat.{le-div_iff_mul-le, div-lt_iff_lt-mul}
use hyper.Text.Ctype.{Bytes}
use hyper.Text.Convert.{digit_of, do_str_to_u64_unchecked}

-- The number that digits write down behind `acc`, in unbounded arithmetic; each must be a digit of
-- the base.
unfoldable pub number_in : ℕ → ℕ → Bytes → Option ℕ
number_in base acc [] = some acc
number_in base acc (c ∷ str) = elim (digit_of c) [
  | none ↦ none
  | some d ↦ let rest = number_in base (acc * base + d) str in if ltb d base then rest else none
]

abbrev pub fits64 : Option ℕ → Option ℕ
fits64 none = none
fits64 (some v) = if ltb v u64_mod then some v else none

div_range : (q b n : ℕ) → 0 < b → q / b ≡ n → (n * b ≤ q) × (q < n * b + b)
div_range q b n h e = (
  (le-div_iff_mul-le {k = b} {x = n} {y = q} h).0 (omega arith),
  omega (arith, (div-lt_iff_lt-mul {k = b} {x = q} {y = n + 1} h).0 (omega arith)),
)

div_of_range : (q b n : ℕ) → 0 < b → n * b ≤ q → q < n * b + b → q / b ≡ n
div_of_range q b n h lo hi = omega (
  arith,
  (le-div_iff_mul-le {k = b} {x = n} {y = q} h).1 lo,
  (div-lt_iff_lt-mul {k = b} {x = q} {y = n + 1} h).1 (omega arith),
)

-- `next / base == number` passes exactly if `d` is a digit of the base and nothing was lost.
module _ (n base d : ℕ) (hb : 0 < base) (hn : n < u64_mod) (hd : d < 16) where
  step_passes : d < base → n * base + d < u64_mod → (n * base + d) % u64_mod / base ≡ n
  step_passes small fits = div_of_range _ base n hb (omega arith) (omega arith)

  step_refuses : (n * base + d) % u64_mod / base ≡ n → (d < base) × (n * base + d < u64_mod)
  step_refuses e =
      let r = div_range ((n * base + d) % u64_mod) base n hb e in (omega arith, omega arith)

digit_of-lt : (c : ℕ) {d : ℕ} → digit_of c ≡ some d → d < 16
digit_of-lt c h = ground arith

number_in-le :
    (base acc : ℕ) (str : Bytes) {v : ℕ} → 0 < base → number_in base acc str ≡ some v → acc ≤ v
unfolding number_in
number_in-le base acc [] hb h = ground arith
number_in-le base acc (c ∷ str) {v} hb h = elim (Option-cases (digit_of c)) [
  | inl bad ↦ let e : none ≡ some v = rw (bad, number_in) at h in cc
  | inr (d, good) ↦
      let grow : acc ≤ acc * base = grind arith in
      ground (arith, good, number_in-le base (acc * base + d) str {v = v} hb)
]

fits64-number_in :
    (base acc : ℕ) (str : Bytes) → 0 < base → u64_mod ≤ acc → fits64 (number_in base acc str) ≡ none
fits64-number_in base acc str hb big = elim (Option-cases (number_in base acc str)) [
  | inl e ↦ rw e
  | inr (v, e) ↦ let le = number_in-le base acc str hb e in rw e (ground arith)
]

-- In any base above 0, the loop returns the number that its text writes down when that fits in a
-- u64, and refuses every other text: a character that is no digit of the base, or an overflow at
-- any point.
pub do_str_to_u64_unchecked_exact :
    (str : Bytes) (base acc : ℕ)
    → 0 < base
    → acc < u64_mod
    → do_str_to_u64_unchecked str base acc ≡ fits64 (number_in base acc str)
unfolding do_str_to_u64_unchecked number_in
do_str_to_u64_unchecked_exact [] base acc hb ha = rw (lt→ltb acc u64_mod ha)
do_str_to_u64_unchecked_exact (c ∷ str) base acc hb ha = elim (Option-cases (digit_of c)) [
  | inl bad ↦ rw (bad, do_str_to_u64_unchecked, number_in)
  | inr (d, good) ↦
      let hd = digit_of-lt c good in
      let sum : ℕ = acc * base + d in
      rw (good, do_str_to_u64_unchecked, number_in)
        (elim (Bool-cases (ltb d base)) [
          | inr no_digit ↦ ground (arith, step_refuses acc base d hb ha hd)
          | inl digit ↦ elim (Bool-cases (ltb sum u64_mod)) [
            | inr over ↦
                ground (arith, step_refuses acc base d hb ha hd, fits64-number_in base sum str hb)
            | inl fits ↦
                let lt = ltb→lt sum u64_mod fits in
                let same : sum % u64_mod ≡ sum = omega arith in
                ground (
                  arith,
                  step_passes acc base d hb ha hd,
                  do_str_to_u64_unchecked_exact str base sum hb lt,
                  ap (λ k. do_str_to_u64_unchecked str base k) same,
                )
          ]
        ])
]

-- A larger start gives a larger number.
pub number_in-less :
    (base : ℕ) (str : Bytes) (a b : ℕ) {v : ℕ}
    → a < b
    → 0 < base
    → number_in base b str ≡ some v
    → (w : ℕ) × (number_in base a str ≡ some w) × (w < v)
unfolding number_in
number_in-less base [] a b less hb h = (a, refl, ground arith)
number_in-less base (c ∷ str) a b {v} less hb h = elim (Option-cases (digit_of c)) [
  | inl bad ↦ let e : none ≡ some v = rw (bad, number_in) at h in cc
  | inr (d, good) ↦ elim (Bool-cases (ltb d base)) [
    | inr large ↦ let e : none ≡ some v = rw (good, number_in, large) at h in cc
    | inl digit ↦
        rw (good, number_in, digit)
          (number_in-less base str (a * base + d) (b * base + d) (grind arith) hb
            (rw (good, number_in, digit) at h))
  ]
]
