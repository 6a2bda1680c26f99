-- ===== src/Filesystem/Path/Tail.antt =====
-- What the readers of loader/filesystem/path.c leave of a text.
use hyper.Base.{
  ℕ, zero, suc, ◌+◌, ◌*◌, ◌^◌, ◌≤◌, ◌≡◌, refl, ap, ◌∙◌, ◌⊎◌, Bool, true, false, ltb, ◌==◌,
  if◌then◌else◌, Option, none, List, [], ◌∷◌, length, take, drop, length-drop, drop-drop, Run, ok,
  returned, arith, Option-cases, Bool-cases, inl, inr, ltb→le,
}
use hyper.Text.Ctype.{Bytes}
use hyper.Text.View.{sv_empty, sv_starts_with, sv_starts_with_caseless}
use hyper.Text.Convert.{str_to_u32_with_base, str_to_u16_with_base, str_to_u8_with_base}
use hyper.Text.Convert.Safe.{Below, offset_ok, unsigned_parsers_return}
use hyper.Filesystem.Guid.{Guid, part_value, consume_guid_part, consume_bytes, consume_guid}
use hyper.Filesystem.Path.{
  numeric_prefix, path_consume_numeric_sequence, path_skip_dash, is_numeric,
}

-- `t` is what is left of `s` once some bytes are taken off its front.
abbrev pub IsTail : Bytes → Bytes → Type 0
IsTail s t = (n : ℕ) × (t ≡ drop n s)

pub IsTail-trans : {s t u : Bytes} → IsTail s t → IsTail t u → IsTail s u
IsTail-trans {s} (n, e) (m, f) = (n + m, f ∙ ap (drop m) e ∙ drop-drop n m s)

pub IsTail-refl : (s : Bytes) → IsTail s s
IsTail-refl s = (0, refl)

pub IsTail-le : {s t : Bytes} → IsTail s t → length t ≤ length s
IsTail-le {s} (n, e) =
    let l = length-drop n s in let f = ap (λ (x : Bytes). length x) e in omega (arith, l, f)

pub caseless_length :
    (str prefix : Bytes) → sv_starts_with_caseless str prefix ≡ true → length prefix ≤ length str
unfolding sv_starts_with_caseless
caseless_length str prefix h = ground arith

pub starts_length :
    (str prefix : Bytes) → sv_starts_with str prefix ≡ true → length prefix ≤ length str
unfolding sv_starts_with
starts_length str prefix h = ground arith

numeric-IsTail : (str : Bytes) → IsTail str ((numeric_prefix str).1)
unfolding numeric_prefix
numeric-IsTail [] = (0, refl)
numeric-IsTail (c ∷ str) = elim (Bool-cases (is_numeric c)) [
  | inl h ↦ let (n, e) = numeric-IsTail str in (suc n, rw h e)
  | inr h ↦ (0, rw h refl)
]

-- The run returns, and what it returns leaves a tail of the text.
abbrev pub Leaves : {A : Type 0} → (A → Bytes) → Bytes → Run A → Type 0
Leaves {A} left str m = (x : A) × (m ≡ ok x) × IsTail str (left x)

value32 : (str : Bytes) (base : ℕ) → (v : Option ℕ) × (str_to_u32_with_base str base ≡ ok v)
value32 str base =
    let (v, e, _) =
      returned (Below (2 ^ 32)) (str_to_u32_with_base str base)
        ((unsigned_parsers_return str base).1) in
    (v, e)

pub sequence-IsTail :
    (str : Bytes) → Leaves (λ (r : Option ℕ × Bytes). r.1) str (path_consume_numeric_sequence str)
unfolding path_consume_numeric_sequence
sequence-IsTail str =
    let (prefix, rest) = numeric_prefix str in
    elim (Bool-cases (sv_empty ((numeric_prefix str).0))) [
      | inl h ↦ ((none, (numeric_prefix str).1), rw h refl, numeric-IsTail str)
      | inr h ↦
          let (v, e) = value32 ((numeric_prefix str).0) 16 in
          ((v, (numeric_prefix str).1), rw (h, e) refl, numeric-IsTail str)
    ]

pub skip_dash-IsTail : (str : Bytes) → Leaves (λ (r : Bytes). r) str (path_skip_dash str)
unfolding path_skip_dash
skip_dash-IsTail str = elim (Bool-cases (sv_starts_with str (b'-' ∷ []))) [
  | inl h ↦ (drop 1 str, rw h (offset_ok str 1 (starts_length str (b'-' ∷ []) h)), (1, refl))
  | inr h ↦ (str, rw h refl, IsTail-refl str)
]

abbrev IsWidth : ℕ → Type 0
IsWidth width = (width ≡ 1) ⊎ (width ≡ 2) ⊎ (width ≡ 4)

value_returns :
    (str : Bytes) (width : ℕ) → IsWidth width → (v : Option ℕ) × (part_value str width ≡ ok v)
unfolding part_value
value_returns str width (inl e) =
    let (v, f, _) =
      returned (Below (2 ^ 8)) (str_to_u8_with_base str 16) ((unsigned_parsers_return str 16).3) in
    (v, rw e f)
value_returns str width (inr (inl e)) =
    let (v, f, _) =
      returned (Below (2 ^ 16)) (str_to_u16_with_base str 16)
        ((unsigned_parsers_return str 16).2) in
    (v, rw e f)
value_returns str width (inr (inr e)) = let (v, f) = value32 str 16 in (v, rw e f)

part-drop :
    (str : Bytes) (width dash : ℕ)
    → IsWidth width
    → 2 * width + dash ≤ length str
    → (v : Option ℕ) × (consume_guid_part str width dash ≡ ok (v, drop (2 * width + dash) str))
unfolding consume_guid_part
part-drop str width dash w h =
    let (v, e) = value_returns (take (2 * width) str) width w in
    (v, rw (e, offset_ok str (2 * width + dash) h) refl)

-- How many dashes the rest of the loop over data4 skips.
abbrev dashes : ℕ → ℕ
dashes zero = 1
dashes (suc zero) = 1
dashes (suc (suc _)) = 0

dash_at : (i : ℕ) → (if i == 1 then 1 else 0) + dashes (i + 1) ≡ dashes i
dash_at zero = refl
dash_at (suc zero) = refl
dash_at (suc (suc i)) = ground arith

abbrev ByteResult : Type 0
ByteResult = Bool × (Bytes × List ℕ)

bytes-IsTail :
    (i : ℕ) (str : Bytes) (data4 : List ℕ)
    → 2 * length data4 + dashes i ≤ length str
    → Leaves (λ (r : ByteResult). r.1.0) str (consume_bytes i str data4)
unfolding consume_bytes
bytes-IsTail i str [] h = ((true, (str, [])), refl, IsTail-refl str)
bytes-IsTail i str (old ∷ data4) h =
    let dash : ℕ = if i == 1 then 1 else 0 in
    let d = dash_at i in
    let (value, e) = part-drop str 1 dash (inl refl) (omega (arith, h, d)) in
    elim (Option-cases value) [
      | inl missing ↦ (
        (false, (drop (2 * 1 + dash) str, old ∷ data4)),
        rw (e, missing) refl,
        (2 * 1 + dash, refl),
      )
      | inr (v, some_v) ↦
          let left = length-drop (2 * 1 + dash) str in
          let ((res, (end, tail)), f, t) =
            bytes-IsTail (i + 1) (drop (2 * 1 + dash) str) data4 (omega (arith, h, d, left)) in
          ((res, (end, v ∷ tail)), rw (e, some_v, f) refl, IsTail-trans (2 * 1 + dash, refl) t)
    ]

abbrev pub GuidResult : Type 0
GuidResult = Bool × (Bytes × Guid)

pub guid-IsTail :
    (str : Bytes) (guid : Guid)
    → length guid.data4 ≡ 8
    → Leaves (λ (r : GuidResult). r.1.0) str (consume_guid str guid)
unfolding consume_guid
guid-IsTail str guid eight = elim (Bool-cases (ltb (length str) 36)) [
  | inl short ↦ ((false, (str, guid)), rw short refl, IsTail-refl str)
  | inr long ↦
      let enough = ltb→le (length str) 36 long in
      let (value1, e1) = part-drop str 4 1 (inr (inr refl)) (omega (arith, enough)) in
      let l1 = length-drop 9 str in
      let t1 : IsTail str (drop 9 str) = (9, refl) in
      elim (Option-cases value1) [
        | inl missing ↦ ((false, (drop 9 str, guid)), rw (long, e1, missing) refl, t1)
        | inr (d1, some_d1) ↦
            let str1 = drop 9 str in
            let (value2, e2) = part-drop str1 2 1 (inr (inl refl)) (omega (arith, enough, l1)) in
            let l2 = length-drop 5 str1 in
            let t2 = IsTail-trans t1 (5, refl) in
            elim (Option-cases value2) [
              | inl missing ↦ (
                (false, (drop 5 str1, record guid { data1 = d1 })),
                rw (long, e1, some_d1, e2, missing) refl,
                t2,
              )
              | inr (d2, some_d2) ↦
                  let str2 = drop 5 str1 in
                  let (value3, e3) =
                    part-drop str2 2 1 (inr (inl refl)) (omega (arith, enough, l1, l2)) in
                  let l3 = length-drop 5 str2 in
                  let t3 = IsTail-trans t2 (5, refl) in
                  elim (Option-cases value3) [
                    | inl missing ↦ (
                      (false, (drop 5 str2, record guid { data1 = d1; data2 = d2 })),
                      rw (long, e1, some_d1, e2, some_d2, e3, missing) refl,
                      t3,
                    )
                    | inr (d3, some_d3) ↦
                        let ((res, (rest, bytes)), e4, t4) =
                          bytes-IsTail 0 (drop 5 str2) guid.data4
                            (omega (arith, enough, l1, l2, l3, eight)) in
                        (
                          (
                            res,
                            (
                              rest,
                              record guid { data1 = d1; data2 = d2; data3 = d3; data4 = bytes },
                            ),
                          ),
                          rw (long, e1, some_d1, e2, some_d2, e3, some_d3, e4) refl,
                          IsTail-trans t3 t4,
                        )
                  ]
            ]
      ]
]
