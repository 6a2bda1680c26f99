-- ===== src/Net/Options.antt =====
-- The walk over DHCP options in loader/ip.c.
use hyper.Base.{
  ℕ, zero, suc, ◌+◌, ◌≤◌, ◌≡◌, ◌≢◌, refl, ap, ◌∙◌, ◌==◌, if◌then◌else◌, Option, none, some, List,
  [], ◌∷◌, ◌++◌, length, length-append, take, drop, ok, arith, All,
}
use mathlib.Core.List.{append_assoc}
use hyper.Text.Ctype.{Bytes}
use hyper.Net.{find_option, dhcp_find_option, dhcp_opt_pad, dhcp_opt_end}

-- An option as a server writes it: padding, or a tag with its value.
pub data Item : Type 0 where
  pad : Item
  opt : ℕ → Bytes → Item

pub encode : List Item → Bytes
encode [] = []
encode (pad ∷ items) = dhcp_opt_pad ∷ encode items
encode (opt tag value ∷ items) = tag ∷ length value ∷ (value ++ encode items)

-- The tag is neither of the two one-byte codes.
abbrev pub IsItem : Item → Type 0
IsItem pad = Unit {0}
IsItem (opt tag value) = (tag ≢ dhcp_opt_pad) × (tag ≢ dhcp_opt_end)

pub first_value : ℕ → List Item → Option Bytes
first_value tag [] = none
first_value tag (pad ∷ items) = first_value tag items
first_value tag (opt t value ∷ items) = if t == tag then some value else first_value tag items

take_front : (xs ys : Bytes) → take (length xs) (xs ++ ys) ≡ xs
take_front [] ys = refl
take_front (x ∷ xs) ys = ap (λ r. x ∷ r) (take_front xs ys)

drop_front : (xs ys : Bytes) → drop (length xs) (xs ++ ys) ≡ ys
drop_front [] ys = refl
drop_front (x ∷ xs) ys = drop_front xs ys

find_option_pad :
    (fuel tag : ℕ) (opts : Bytes)
    → find_option (suc fuel) (dhcp_opt_pad ∷ opts) tag ≡ find_option fuel opts tag
unfolding find_option
find_option_pad fuel tag [] = refl
find_option_pad fuel tag (x ∷ opts) = refl

find_option_opt :
    (fuel tag t : ℕ) (value more : Bytes)
    → t ≢ dhcp_opt_pad
    → t ≢ dhcp_opt_end
    → find_option (suc fuel) (t ∷ length value ∷ (value ++ more)) tag
      ≡ (if t == tag then ok (some value) else find_option fuel more tag)
unfolding find_option
find_option_opt fuel tag t value more no_pad no_end = ground (
  arith,
  length-append value more,
  take_front value more,
  ap (λ (s : Bytes). find_option fuel s tag) (drop_front value more),
)

find_option-encode :
    (fuel tag : ℕ) (items : List Item) (rest : Bytes)
    → All IsItem items
    → length (encode items ++ dhcp_opt_end ∷ rest) ≤ fuel
    → find_option fuel (encode items ++ dhcp_opt_end ∷ rest) tag ≡ ok (first_value tag items)
unfolding encode first_value
find_option-encode zero tag items rest h enough =
    absurd (omega (arith, length-append (encode items) (dhcp_opt_end ∷ rest)))
find_option-encode (suc fuel) tag [] [] h enough = unfold find_option in refl
find_option-encode (suc fuel) tag [] (r ∷ rest) h enough = unfold find_option in refl
find_option-encode (suc fuel) tag (pad ∷ items) rest h enough =
    find_option_pad fuel tag _ ∙ find_option-encode fuel tag items rest h.1 (omega arith)
find_option-encode (suc fuel) tag (opt t value ∷ items) rest h enough =
    let more = encode items ++ dhcp_opt_end ∷ rest in
    let regroup : (value ++ encode items) ++ dhcp_opt_end ∷ rest ≡ value ++ more =
      append_assoc value (encode items) (dhcp_opt_end ∷ rest) in
    let size = ap (λ (s : Bytes). length s) regroup in
    let ih =
      find_option-encode fuel tag items rest h.1 (omega (arith, size, length-append value more)) in
    rw (regroup, find_option_opt fuel tag t value more h.0.0 h.0.1) (ground (arith, ih))

-- A blob that encodes a list of options with tags other than the two one-byte codes, ended by the
-- end code and with anything behind it, gives for each tag the value of the first option of that
-- tag, or none if there is none.
pub dhcp_find_option-encode :
    (tag : ℕ) (items : List Item) (rest : Bytes)
    → All IsItem items
    → dhcp_find_option (some (encode items ++ dhcp_opt_end ∷ rest)) tag ≡ ok (first_value tag items)
unfolding dhcp_find_option
dhcp_find_option-encode tag items rest h = find_option-encode _ tag items rest h (omega arith)

-- The found value, if any, lies inside the blob, header included.
abbrev pub Inside : ℕ → Option Bytes → Type 0
Inside size none = Unit {0}
Inside size (some value) = length value + 2 ≤ size
