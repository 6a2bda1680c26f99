-- ===== src/Text/View/Match.antt =====
-- What the comparisons of loader/common/string_view.c decide.
use mathlib.Core.List.{List}
use hyper.Base.{
  ℕ, suc, ◌<◌, ◌≡◌, refl, ap, sym, ◌∙◌, ◌↔◌, true, false, ltb, ◌==◌, ==_iff, [], ◌∷◌, length, take,
  map, length-take, arith, Bool-cases, inl, inr,
}
use hyper.Text.Ctype.{Bytes}
use hyper.Text.View.{same_bytes, sv_equals, sv_starts_with}

-- The loop answers whether the first bytes agree, up to `f`.
pub same_bytes-take :
    (f : ℕ → ℕ) (str prefix : Bytes)
    → (same_bytes f str prefix ≡ true) ↔ (map f (take (length prefix) str) ≡ map f prefix)
unfolding same_bytes
same_bytes-take f str [] = (λ _. refl, λ _. refl)
same_bytes-take f [] (p ∷ prefix) = (λ h. cc, λ h. cc)
same_bytes-take f (c ∷ str) (p ∷ prefix) =
    let ih = same_bytes-take f str prefix in (λ h. ground (arith, ih.0), λ h. ground (arith, ih.1))

map_id : (s : Bytes) → map (λ c. c) s ≡ s
map_id [] = refl
map_id (c ∷ s) = ap (λ r. c ∷ r) (map_id s)

take-length : (s : Bytes) → take (length s) s ≡ s
take-length [] = refl
take-length (c ∷ s) = ap (λ r. c ∷ r) (take-length s)

-- For the plain loop the agreement is equality of bytes.
pub same_bytes_plain :
    (str prefix : Bytes)
    → (same_bytes (λ c. c) str prefix ≡ true) ↔ (take (length prefix) str ≡ prefix)
same_bytes_plain str prefix =
    let h = same_bytes-take (λ c. c) str prefix in
    (λ e. sym (map_id _) ∙ h.0 e ∙ map_id _, λ e. h.1 (map_id _ ∙ e ∙ sym (map_id _)))

length_of_map {ℓ} : {A : Type ℓ} (f : A → ℕ) (s : List A) → length (map f s) ≡ length s
length_of_map f [] = refl
length_of_map f (c ∷ s) = ap suc (length_of_map f s)

-- sv_equals answers whether the two views show the same bytes.
pub sv_equals_iff : (lhs rhs : Bytes) → (sv_equals lhs rhs ≡ true) ↔ (lhs ≡ rhs)
unfolding sv_equals
sv_equals_iff lhs rhs = (forth, back)
  where
    forth : sv_equals lhs rhs ≡ true → lhs ≡ rhs
    forth h = elim (Bool-cases (length lhs == length rhs)) [
      | inl e ↦
          let len : length rhs ≡ length lhs =
            ground (arith, (==_iff (length lhs) (length rhs)).0 e) in
          let same : same_bytes (λ c. c) lhs rhs ≡ true = rw e at h in
          sym (take-length lhs) ∙ ap (λ n. take n lhs) (sym len) ∙ (same_bytes_plain lhs rhs).0 same
      | inr e ↦ let no_match : false ≡ true = rw e at h in cc
    ]

    back : lhs ≡ rhs → sv_equals lhs rhs ≡ true
    back e =
        rw ((==_iff (length lhs) (length rhs)).1 (ap (λ (s : Bytes). length s) e)) (
          (same_bytes_plain lhs rhs).1
            (ap (λ (s : Bytes). take (length rhs) s) e ∙ take-length rhs))

-- sv_starts_with answers whether the view begins with the bytes of the prefix.
pub sv_starts_with_iff :
    (str prefix : Bytes) → (sv_starts_with str prefix ≡ true) ↔ (take (length prefix) str ≡ prefix)
unfolding sv_starts_with
sv_starts_with_iff str [] = (λ _. refl, λ _. ground arith)
sv_starts_with_iff str (p ∷ prefix) =
    let plain = same_bytes_plain str (p ∷ prefix) in
    (
      λ h. ground (arith, plain.0),
      λ e.
          let enough = length-take (suc (length prefix)) str in
          let same = ap (λ (s : Bytes). length s) e in
          ground (
            arith,
            plain.1 e,
            le_of_take (length str) (length prefix) (omega (arith, enough, same)),
          ),
    )
  where
    le_of_take : (n m : ℕ) → m < n → ltb n (suc m) ≡ false
    le_of_take n m h = ground arith
