-- ===== src/Net.antt =====
-- loader/ip.c: IPv4 addresses and the options of a DHCP reply. An address is the list of its four bytes.
mod Tests
pub mod Octets
pub mod Quad
pub mod Options
use Prim.Native.Nat.{bit_and}
use hyper.Base.{
  ℕ, zero, suc, ◌+◌, ◌≤◌, Bool, true, false, not, ltb, ◌==◌, if◌then◌else◌, Option, none, some, [],
  ◌∷◌, length, take, drop, Run, ok, stuck, ◌>>=◌,
}
use hyper.Text.Ctype.{Bytes}
use hyper.Text.View.{sv_empty, sv_find, sv_offset_by}
use hyper.Text.Convert.{str_to_u8_with_base}

unfoldable pub ipv4_is_unset : Bytes → Bool
ipv4_is_unset [] = true
ipv4_is_unset (x ∷ ip) = if x == 0 then ipv4_is_unset ip else false

unfoldable pub ipv4_same_subnet : Bytes → Bytes → Bytes → Bool
ipv4_same_subnet (x ∷ a) (y ∷ b) (m ∷ mask) =
    if bit_and x m == bit_and y m then ipv4_same_subnet a b mask else false
ipv4_same_subnet _ _ _ = true

-- The octet in front of the first dot and the tail behind that; without a dot, all of it.
unfoldable pub next_octet : Bytes → Run (Bytes × Bytes)
next_octet tail = do
  dot ← sv_find tail (b'.' ∷ []) 0
  elim dot [
    | none ↦ ok (tail, [])
    | some k ↦ do rest ← sv_offset_by tail (k + 1); ok (take k tail, rest)
  ]

abbrev pub push_octet : ℕ → Option (Bytes × Bytes) → Option (Bytes × Bytes)
push_octet v none = none
push_octet v (some (out, tail)) = some (v ∷ out, tail)

-- The loop with `n` octets to go: the octets and what is left of the text.
unfoldable pub parse_octets : ℕ → Bytes → Run (Option (Bytes × Bytes))
parse_octets zero tail = ok (some ([], tail))
parse_octets (suc n) tail = do
  (octet, rest) ← next_octet tail
  value ← str_to_u8_with_base octet 10
  elim value [ none ↦ ok none | some v ↦ do more ← parse_octets n rest; ok (push_octet v more) ]

abbrev pub complete : Option (Bytes × Bytes) → Option Bytes
complete none = none
complete (some (out, tail)) = if sv_empty tail then some out else none

unfoldable pub ipv4_parse : Bytes → Run (Option Bytes)
unfolding parse_octets
ipv4_parse str = do parsed ← parse_octets 4 str; ok (complete parsed)

abbrev pub dhcp_opt_pad : ℕ
dhcp_opt_pad = 0

abbrev pub dhcp_opt_server_id : ℕ
dhcp_opt_server_id = 54

abbrev pub dhcp_opt_tftp_server : ℕ
dhcp_opt_tftp_server = 66

abbrev pub dhcp_opt_end : ℕ
dhcp_opt_end = 255

-- The walk over the options from index `i` on, `opts` being the bytes from there. The result is
-- the value that the returned pointer and `out_len` delimit. The clauses for a short blob are the
-- test of `i + DHCP_OPT_HEADER_SIZE > size`.
unfoldable pub find_option : ℕ → Bytes → ℕ → Run (Option Bytes)
find_option fuel [] tag = ok none
find_option zero (type ∷ opts) tag = stuck
find_option (suc fuel) (type ∷ []) tag =
    let padded = find_option fuel [] tag in
    if type == dhcp_opt_end then ok none else if type == dhcp_opt_pad then padded else ok none
find_option (suc fuel) (type ∷ len ∷ opts) tag =
    let padded = find_option fuel (len ∷ opts) tag in
    let further = find_option fuel (drop len opts) tag in
    if type == dhcp_opt_end
    then ok none
    else if type == dhcp_opt_pad
    then padded
    else if ltb (length opts) len
    then ok none
    else if type == tag
    then ok (some (take len opts))
    else further

-- `none` is a NULL blob. Each round takes at least one byte off.
unfoldable pub dhcp_find_option : Option Bytes → ℕ → Run (Option Bytes)
unfolding find_option
dhcp_find_option none tag = ok none
dhcp_find_option (some opts) tag = find_option (length opts) opts tag

abbrev pub address_of : Option Bytes → Option Bytes
address_of none = none
address_of (some value) = if ltb (length value) 4 then none else some (take 4 value)

unfoldable pub dhcp_find_ipv4_option : Option Bytes → ℕ → Run (Option Bytes)
unfolding dhcp_find_option
dhcp_find_ipv4_option opts tag = do value ← dhcp_find_option opts tag; ok (address_of value)

abbrev pub parse_value : Option Bytes → Run (Option Bytes)
parse_value none = ok none
parse_value (some value) = ipv4_parse value

unfoldable pub dhcp_resolve_server_ip : Option Bytes → Bytes → Run (Option Bytes)
dhcp_resolve_server_ip opts siaddr = do
  value ← dhcp_find_option opts dhcp_opt_tftp_server
  named ← parse_value value
  elim named [
    | some ip ↦ ok (some ip)
    | none ↦
        if not (ipv4_is_unset siaddr)
        then ok (some siaddr)
        else dhcp_find_ipv4_option opts dhcp_opt_server_id
  ]
