-- ===== src/Base/Slice.antt =====
-- Slices of a byte string: `n` bytes from offset `off` on.
use Prim.Native.Nat.{ℕ, zero, suc, ◌+◌, ◌-◌, ◌≤◌}
use mathlib.Core.Path.{◌≡◌, refl, ap, sym, ◌∙◌}
use mathlib.Core.List.{List, [], ◌∷◌, ◌++◌}
use native.Mathlib.Omega.{arith}
use hyper.Base.Seq.{length, take, drop, length-take, length-drop, drop-drop}

module _ {ℓ} {A : Type ℓ} where
  abbrev pub slice : ℕ → ℕ → List A → List A
  slice off n xs = take n (drop off xs)

  pub length-slice : (off n : ℕ) (xs : List A) → off + n ≤ length xs → length (slice off n xs) ≡ n
  length-slice off n xs h = omega (arith, length-take n (drop off xs), length-drop off xs)

  take-append : (n : ℕ) (xs ys : List A) → n ≤ length xs → take n (xs ++ ys) ≡ take n xs
  take-append zero xs ys h = refl
  take-append (suc n) [] ys h = elim h [ ]
  take-append (suc n) (x ∷ xs) ys h = ap (λ r. x ∷ r) (take-append n xs ys (omega arith))

  drop-append : (n : ℕ) (xs ys : List A) → n ≤ length xs → drop n (xs ++ ys) ≡ drop n xs ++ ys
  drop-append zero xs ys h = refl
  drop-append (suc n) [] ys h = elim h [ ]
  drop-append (suc n) (x ∷ xs) ys h = drop-append n xs ys (omega arith)

  pub slice-append :
      (off n : ℕ) (xs ys : List A) → off + n ≤ length xs → slice off n (xs ++ ys) ≡ slice off n xs
  slice-append off n xs ys h =
      ap (take n) (drop-append off xs ys (omega arith))
      ∙ take-append n (drop off xs) ys (omega (arith, length-drop off xs))

  take-take : (n m : ℕ) (xs : List A) → n ≤ m → take n (take m xs) ≡ take n xs
  take-take zero m xs h = refl
  take-take (suc n) zero xs h = elim h [ ]
  take-take (suc n) (suc m) [] h = refl
  take-take (suc n) (suc m) (x ∷ xs) h = ap (λ r. x ∷ r) (take-take n m xs (omega arith))

  drop-take : (off m : ℕ) (xs : List A) → drop off (take m xs) ≡ take (m - off) (drop off xs)
  drop-take zero m xs = let e : m ≡ m - 0 = omega arith in ap (λ k. take k xs) e
  drop-take (suc off) zero [] = let e : zero ≡ zero - suc off = omega arith in ap (λ k. take k []) e
  drop-take (suc off) zero (x ∷ xs) =
      let e : zero ≡ zero - suc off = omega arith in ap (λ k. take k (drop off xs)) e
  drop-take (suc off) (suc m) [] = sym (take_nil (suc m - suc off))
    where
      take_nil : (k : ℕ) → take {A = A} k [] ≡ []
      take_nil zero = refl
      take_nil (suc k) = refl
  drop-take (suc off) (suc m) (x ∷ xs) =
      let e : m - off ≡ suc m - suc off = omega arith in
      drop-take off m xs ∙ ap (λ k. take k (drop off xs)) e

  -- A slice of a slice.
  pub slice-slice :
      (from n off m : ℕ) (xs : List A)
      → from + n ≤ m
      → slice from n (slice off m xs) ≡ slice (off + from) n xs
  slice-slice from n off m xs h =
      ap (take n) (drop-take from m (drop off xs))
      ∙ (take-take n (m - from) (drop from (drop off xs)) (omega arith)
          ∙ ap (take n) (drop-drop off from xs))

  take-plus : (n m : ℕ) (xs : List A) → take n xs ++ take m (drop n xs) ≡ take (n + m) xs
  take-plus zero m xs = let e : m ≡ 0 + m = omega arith in ap (λ k. take k xs) e
  take-plus (suc n) zero [] = let e : suc n ≡ suc n + 0 = omega arith in ap (λ k. take k []) e
  take-plus (suc n) (suc m) [] =
      let e : suc (n + suc m) ≡ suc n + suc m = omega arith in ap (λ k. take k []) e
  take-plus (suc n) m (x ∷ xs) =
      let e : suc (n + m) ≡ suc n + m = omega arith in
      ap (λ r. x ∷ r) (take-plus n m xs) ∙ ap (λ k. take k (x ∷ xs)) e

  -- Two slices one behind the other.
  pub slice-plus :
      (off n m : ℕ) (xs : List A) → slice off n xs ++ slice (off + n) m xs ≡ slice off (n + m) xs
  slice-plus off n m xs =
      ap (λ s. take n (drop off xs) ++ take m s) (sym (drop-drop off n xs))
      ∙ take-plus n m (drop off xs)
