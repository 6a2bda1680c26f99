-- ===== src/Filesystem/Guid/Equal.antt =====
-- What guid_compare of loader/include/filesystem/guid.h decides.
use hyper.Base.{ℕ, ◌≡◌, refl, ◌↔◌, true, ==_iff, List, [], ◌∷◌, arith}
use hyper.Filesystem.Guid.{Guid, same_list, guid_equal}

same_list_iff : (xs ys : List ℕ) → (same_list xs ys ≡ true) ↔ (xs ≡ ys)
unfolding same_list
same_list_iff [] [] = (λ _. refl, λ _. refl)
same_list_iff [] (y ∷ ys) = (λ h. cc, λ h. cc)
same_list_iff (x ∷ xs) [] = (λ h. cc, λ h. cc)
same_list_iff (x ∷ xs) (y ∷ ys) =
    let ih = same_list_iff xs ys in
    let heads = ==_iff x y in
    (λ h. ground (arith, ih.0, heads.0), λ h. ground (arith, ih.1, heads.1))

pub guid_equal_iff : (lhs rhs : Guid) → (guid_equal lhs rhs ≡ true) ↔ (lhs ≡ rhs)
unfolding guid_equal
guid_equal_iff lhs rhs =
    let e1 = ==_iff lhs.data1 rhs.data1 in
    let e2 = ==_iff lhs.data2 rhs.data2 in
    let e3 = ==_iff lhs.data3 rhs.data3 in
    let e4 = same_list_iff lhs.data4 rhs.data4 in
    (λ h. ground (arith, e1.0, e2.0, e3.0, e4.0), λ h. ground (arith, e1.1, e2.1, e3.1, e4.1))
