-- ===== src/Net/Octets.antt =====
-- Decimal octets: the text of a byte, and that the parser reads it back.
use hyper.Base.{
  ℕ, zero, suc, ◌+◌, ◌-◌, ◌/◌, ◌%◌, ◌<◌, ◌≡◌, ◌≢◌, refl, ap, ◌∙◌, Bool, true, false, ltb, ◌==◌,
  ==_iff, if◌then◌else◌, Option, none, some, [], ◌∷◌, ◌++◌, Run, ok, panic, stuck, arith, All,
  length, take, drop, le→ltb, length-append,
}
use hyper.Text.Ctype.{Bytes}
use hyper.Text.View.{sv_starts_with, sv_offset_by, sv_find, find_from}
use hyper.Text.Convert.{
  consume_base, do_str_to_u64_unchecked, do_str_to_u64, str_to_u64_with_base, str_to_u8_with_base,
}
use hyper.Text.Convert.Safe.{offset_ok}
use hyper.Net.{next_octet}

-- The decimal text of a byte, with no leading zeros.
pub octet_text : ℕ → Bytes
octet_text n =
    if ltb n 10
    then (n + 48) ∷ []
    else if ltb n 100
    then (n / 10 + 48) ∷ (n % 10 + 48) ∷ []
    else (n / 100 + 48) ∷ (n / 10 % 10 + 48) ∷ (n % 10 + 48) ∷ []

reads_back : ℕ → Bool
unfolding octet_text
reads_back n = elim (str_to_u8_with_base (octet_text n) 10) [
  | ok (some v) ↦ v == n
  | ok none ↦ false
  | panic ↦ false
  | stuck ↦ false
]

-- The test holds of each octet below the bound.
each_octet : (ℕ → Bool) → ℕ → Bool
each_octet test zero = true
each_octet test (suc bound) =
    let smaller = each_octet test bound in if test bound then smaller else false

each_octet_lem :
    (test : ℕ → Bool) (bound octet : ℕ)
    → octet < bound
    → each_octet test bound ≡ true
    → test octet ≡ true
unfolding each_octet
each_octet_lem test zero octet less passed = absurd (omega arith)
each_octet_lem test (suc bound) octet less passed = ground (arith, each_octet_lem test bound octet)

octet_table : each_octet reads_back 256 ≡ true
unfolding each_octet reads_back str_to_u8_with_base str_to_u64_with_base do_str_to_u64 consume_base
    do_str_to_u64_unchecked sv_starts_with sv_offset_by
octet_table = refl

pub octet_reads_back : (n : ℕ) → n < 256 → str_to_u8_with_base (octet_text n) 10 ≡ ok (some n)
unfolding reads_back
octet_reads_back n h = sound (str_to_u8_with_base (octet_text n) 10) refl
  where
    passed : reads_back n ≡ true
    passed = each_octet_lem reads_back 256 n h octet_table

    sound :
        (r : Run (Option ℕ))
        → str_to_u8_with_base (octet_text n) 10 ≡ r
        → str_to_u8_with_base (octet_text n) 10 ≡ ok (some n)
    sound (ok (some v)) e =
        let p : (v == n) ≡ true = rw (e, reads_back) at passed in
        e ∙ ap (λ k. ok (some k)) ((==_iff v n).0 p)
    sound (ok none) e = let p : false ≡ true = rw (e, reads_back) at passed in cc
    sound panic e = let p : false ≡ true = rw (e, reads_back) at passed in cc
    sound stuck e = let p : false ≡ true = rw (e, reads_back) at passed in cc

abbrev NoDot : Bytes → Type 0
NoDot s = All (λ c. c ≢ b'.') s

octet_text-NoDot : (n : ℕ) → NoDot (octet_text n)
unfolding octet_text
octet_text-NoDot n = ground arith

find_dot :
    (n i : ℕ) (text rest : Bytes)
    → NoDot text
    → length text < n
    → find_from n i (text ++ b'.' ∷ rest) (b'.' ∷ []) ≡ some (i + length text)
unfolding find_from
find_dot zero i text rest h le = absurd (omega arith)
find_dot (suc n) i [] rest h le = ground arith
find_dot (suc n) i (c ∷ text) rest h le = ground (arith, find_dot n (i + 1) text rest h.1)

find-NoDot : (n i : ℕ) (text : Bytes) → NoDot text → find_from n i text (b'.' ∷ []) ≡ none
unfolding find_from
find-NoDot zero i text h = refl
find-NoDot (suc n) i [] h = refl
find-NoDot (suc n) i (c ∷ text) h = ground (arith, find-NoDot n (i + 1) text h.1)

take_front : (xs ys : Bytes) → take (length xs) (xs ++ ys) ≡ xs
take_front [] ys = refl
take_front (x ∷ xs) ys = ap (λ r. x ∷ r) (take_front xs ys)

drop_front : (xs : Bytes) (y : ℕ) (ys : Bytes) → drop (length xs + 1) (xs ++ y ∷ ys) ≡ ys
drop_front [] y ys = refl
drop_front (x ∷ xs) y ys =
    let e : suc (length xs) + 1 ≡ suc (length xs + 1) = omega arith in
    ap (λ k. drop k (x ∷ (xs ++ y ∷ ys))) e ∙ drop_front xs y ys

pub next_octet_dot :
    (n : ℕ) (rest : Bytes) → next_octet (octet_text n ++ b'.' ∷ rest) ≡ ok (octet_text n, rest)
unfolding next_octet sv_find
next_octet_dot n rest = go (octet_text n) (octet_text-NoDot n)
  where
    start : (text : Bytes) → 0 + length text ≡ length text
    start text = omega arith

    go : (text : Bytes) → NoDot text → next_octet (text ++ b'.' ∷ rest) ≡ ok (text, rest)
    go text h =
        let len = length-append text (b'.' ∷ rest) in
        rw
          (
            le→ltb (length (text ++ b'.' ∷ rest)) 0 (omega arith),
            le→ltb (length (text ++ b'.' ∷ rest) - 0) 1 (omega arith),
            find_dot (length (text ++ b'.' ∷ rest) - 1 + 1 - 0) 0 text rest h (omega arith),
          )
          (rw
            (
              start text,
              offset_ok (text ++ b'.' ∷ rest) (length text + 1) (omega arith),
              take_front text (b'.' ∷ rest),
              drop_front text b'.' rest,
            )
            refl)

pub next_octet_last : (n : ℕ) → next_octet (octet_text n) ≡ ok (octet_text n, [])
unfolding next_octet sv_find
next_octet_last n = go (octet_text n) (octet_text-NoDot n)
  where
    go : (text : Bytes) → NoDot text → next_octet text ≡ ok (text, [])
    go text h =
        rw (le→ltb (length text) 0 (omega arith))
          (ground (arith, find-NoDot (length text - 1 + 1 - 0) 0 text h))
