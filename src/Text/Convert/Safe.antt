-- ===== src/Text/Convert/Safe.antt =====
-- The range of what the number parsers of loader/common/conversions.c return.
use hyper.Base.{
  ℕ, zero, suc, ◌^◌, ◌≤◌, ◌<◌, ◌≡◌, refl, true, ◌==◌, if◌then◌else◌, Option, none, some, [], ◌∷◌,
  length, u64_mod, arith, Bool-cases, suc-eq-zero, inl, inr, Run, ok, panic, stuck, Returns,
  returned, le→ltb, drop,
}
use hyper.Text.Ctype.{Bytes}
use hyper.Text.View.{sv_starts_with, sv_offset_by}
use hyper.Text.Convert.{
  do_str_to_u64_unchecked, do_str_to_u64, consume_base, str_to_i64_with_base, str_to_u64_with_base,
  str_to_u32_with_base, str_to_u16_with_base, str_to_u8_with_base, first_in_one_nine, narrow_u,
}
use hyper.Text.Convert.Exact.{number_in, fits64, do_str_to_u64_unchecked_exact}

-- Taking off as many bytes as a prefix has is safe where the prefix was seen.
starts-length :
    (str : Bytes) (prefix : Bytes) → sv_starts_with str prefix ≡ true → length prefix ≤ length str
unfolding sv_starts_with
starts-length str prefix h = ground arith

pub offset_ok : (str : Bytes) (n : ℕ) → n ≤ length str → sv_offset_by str n ≡ ok (drop n str)
unfolding sv_offset_by
offset_ok str n h = rw (le→ltb (length str) n h)

after_prefix :
    (str prefix : Bytes)
    → sv_starts_with str prefix ≡ true
    → sv_offset_by str (length prefix) ≡ ok (drop (length prefix) str)
after_prefix str prefix h = offset_ok str (length prefix) (starts-length str prefix h)

pub consume_base_returns :
    (str : Bytes) → (cb : ℕ) × (rest : Bytes) × (consume_base str ≡ ok (cb, rest))
unfolding consume_base
consume_base_returns [] = (0, [], refl)
consume_base_returns (c ∷ str) = elim (Bool-cases (sv_starts_with (c ∷ str) (b'0' ∷ b'x' ∷ []))) [
  | inl h ↦ (16, drop 2 (c ∷ str), rw (h, after_prefix (c ∷ str) _ h))
  | inr h0 ↦ elim (Bool-cases (sv_starts_with (c ∷ str) (b'0' ∷ b'b' ∷ []))) [
    | inl h ↦ (2, drop 2 (c ∷ str), rw (h0, h, after_prefix (c ∷ str) _ h))
    | inr h1 ↦ elim (Bool-cases (sv_starts_with (c ∷ str) (b'0' ∷ []))) [
      | inl h ↦ (8, drop 1 (c ∷ str), rw (h0, h1, h, after_prefix (c ∷ str) _ h))
      | inr h2 ↦ elim (Bool-cases (first_in_one_nine (c ∷ str))) [
        | inl h ↦ (10, c ∷ str, rw (h0, h1, h2) (ground arith))
        | inr h ↦ (0, c ∷ str, rw (h0, h1, h2) (ground arith))
      ]
    ]
  ]
]

fits64-lt : (o : Option ℕ) {v : ℕ} → fits64 o ≡ some v → v < u64_mod
fits64-lt none h = cc
fits64-lt (some w) h = ground arith

-- The value, if there is one, is below the bound.
abbrev pub Below : ℕ → Option ℕ → Type 0
Below m none = Unit {0}
Below m (some v) = v < m

fits64-Below : (o : Option ℕ) → Below u64_mod (fits64 o)
fits64-Below none = tt
fits64-Below (some v) = ground arith

loop-Below :
    (str : Bytes) (base : ℕ) → 0 < base → Below u64_mod (do_str_to_u64_unchecked str base 0)
loop-Below str base h =
    rw (do_str_to_u64_unchecked_exact str base 0 h (omega arith))
      (fits64-Below (number_in base 0 str))

-- An explicit base is used; else that of the prefix, and without one the text is refused.
pub do_str_to_u64_lem :
    (str : Bytes) (base cb : ℕ) (rest : Bytes)
    → consume_base str ≡ ok (cb, rest)
    → do_str_to_u64 str base
      ≡ ok (
          if base == 0
          then (if cb == 0 then none else do_str_to_u64_unchecked rest cb 0)
          else do_str_to_u64_unchecked rest base 0)
unfolding do_str_to_u64
do_str_to_u64_lem str base cb rest h = rw h (ground arith)

do_str_to_u64-Below : (str : Bytes) (base : ℕ) → Returns (Below u64_mod) (do_str_to_u64 str base)
do_str_to_u64-Below str zero =
    let (cb, rest, e) = consume_base_returns str in
    rw (do_str_to_u64_lem str zero cb rest e) (pick cb rest)
  where
    pick :
        (cb : ℕ) (rest : Bytes)
        → Below u64_mod (if cb == 0 then none else do_str_to_u64_unchecked rest cb 0)
    pick zero rest = tt
    pick (suc cb) rest = rw (suc-eq-zero cb) (loop-Below rest (suc cb) (omega arith))
do_str_to_u64-Below str (suc base) =
    let (cb, rest, e) = consume_base_returns str in
    rw (do_str_to_u64_lem str (suc base) cb rest e, suc-eq-zero base)
      (loop-Below rest (suc base) (omega arith))

sign_ok :
    (str : Bytes) (c : ℕ)
    → (rest : Bytes) × ((if sv_starts_with str (c ∷ []) then sv_offset_by str 1 else ok str)
        ≡ ok rest)
sign_ok str c = elim (Bool-cases (sv_starts_with str (c ∷ []))) [
  | inl h ↦ (drop 1 str, rw (h, after_prefix str (c ∷ []) h))
  | inr h ↦ (str, rw h)
]

str_to_u64-Below :
    (str : Bytes) (base : ℕ) → Returns (Below u64_mod) (str_to_u64_with_base str base)
unfolding str_to_u64_with_base
str_to_u64-Below str base =
    let (rest, e) = sign_ok str b'+' in
    rw e (elim (Bool-cases (sv_starts_with rest (b'-' ∷ []))) [
      | inl h ↦ rw h tt
      | inr h ↦ rw h (do_str_to_u64-Below rest base)
    ])

narrow-Below :
    (m : ℕ) (r : Run (Option ℕ))
    → 0 < m
    → Returns (Below u64_mod) r
    → Returns (Below m) (narrow_u m r)
narrow-Below m (ok none) hm h = tt
narrow-Below m (ok (some v)) hm h = ground arith
narrow-Below m panic hm h = h
narrow-Below m stuck hm h = h

pub unsigned_parsers_return :
    (str : Bytes) (base : ℕ)
    → Returns (Below (2 ^ 64)) (str_to_u64_with_base str base)
      × Returns (Below (2 ^ 32)) (str_to_u32_with_base str base)
      × Returns (Below (2 ^ 16)) (str_to_u16_with_base str base)
      × Returns (Below (2 ^ 8)) (str_to_u8_with_base str base)
unfolding str_to_u32_with_base str_to_u16_with_base str_to_u8_with_base
unsigned_parsers_return str base =
    let wide = str_to_u64-Below str base in
    (
      wide,
      narrow-Below _ _ (omega arith) wide,
      narrow-Below _ _ (omega arith) wide,
      narrow-Below _ _ (omega arith) wide,
    )

-- The values of the two widest parsers, to rewrite by.
pub u64_parser_value :
    (str : Bytes) (base : ℕ) → (r : Option ℕ) × (str_to_u64_with_base str base ≡ ok r)
u64_parser_value str base =
    let (r, e, b) = returned (Below u64_mod) _ (str_to_u64-Below str base) in (r, e)

str_to_i64-Returns : (str : Bytes) (base : ℕ) → Returns (λ _. Unit) (str_to_i64_with_base str base)
unfolding str_to_i64_with_base
str_to_i64-Returns str base = elim (Bool-cases (sv_starts_with str (b'-' ∷ []))) [
  | inl h ↦
      let (r, e, b) = returned (Below u64_mod) _ (do_str_to_u64-Below (drop 1 str) base) in
      rw (h, after_prefix str (b'-' ∷ []) h, e) tt
  | inr h ↦
      let (rest, plus) = sign_ok str b'+' in
      let (r, e, b) = returned (Below u64_mod) _ (do_str_to_u64-Below rest base) in
      rw (h, plus, e) tt
]

pub i64_parser_value :
    (str : Bytes) (base : ℕ) → (r : Option ℕ) × (str_to_i64_with_base str base ≡ ok r)
i64_parser_value str base =
    let (r, e, b) = returned (λ _. Unit) _ (str_to_i64-Returns str base) in (r, e)
