-- ===== src/Net/Tests.antt =====
-- Addresses and DHCP options at concrete replies.
use hyper.Base.{◌≡◌, some, List, [], ◌∷◌, ◌++◌, All, ok, Returns, arith}
use hyper.Net.{ipv4_parse, dhcp_find_option, dhcp_opt_end}
use hyper.Net.Octets.{octet_text}
use hyper.Net.Quad.{
  quad_text, IsAddress, ipv4_parse-quad_text, ipv4_parse_incomplete, ipv4_parse-IsAddress,
}
use hyper.Net.Options.{Item, pad, opt, encode, IsItem, first_value, dhcp_find_option-encode}

ipv4_parse-quad_text_example :
    ipv4_parse (quad_text 192 168 0 1) ≡ ok (some (192 ∷ 168 ∷ 0 ∷ 1 ∷ []))
ipv4_parse-quad_text_example =
    ipv4_parse-quad_text 192 168 0 1 (omega arith) (omega arith) (omega arith) (omega arith)

ipv4_parse_incomplete_example :
    (ipv4_parse (octet_text 10 ++ b'.' ∷ (octet_text 0 ++ b'.' ∷ octet_text 7))
      ≡ ok (some (10 ∷ 0 ∷ 7 ∷ 0 ∷ [])))
    × (ipv4_parse (
          octet_text 10
          ++ b'.' ∷ (octet_text 0 ++ b'.' ∷ (octet_text 7 ++ b'.' ∷ (octet_text 9 ++ b'.' ∷ []))))
        ≡ ok (some (10 ∷ 0 ∷ 7 ∷ 9 ∷ [])))
ipv4_parse_incomplete_example =
    ipv4_parse_incomplete 10 0 7 9 (omega arith) (omega arith) (omega arith) (omega arith)

ipv4_parse-IsAddress_example : Returns IsAddress (ipv4_parse (b'1' ∷ b'.' ∷ b'2' ∷ []))
ipv4_parse-IsAddress_example = ipv4_parse-IsAddress (b'1' ∷ b'.' ∷ b'2' ∷ [])

abbrev reply : List Item
reply = pad ∷ opt 53 (2 ∷ []) ∷ opt 54 (10 ∷ 0 ∷ 0 ∷ 1 ∷ []) ∷ []

reply_items : All IsItem reply
reply_items =
    (tt, ((λ e. omega arith, λ e. omega arith), ((λ e. omega arith, λ e. omega arith), tt)))

dhcp_find_option-encode_example :
    dhcp_find_option (some (encode reply ++ dhcp_opt_end ∷ 7 ∷ [])) 54 ≡ ok (first_value 54 reply)
dhcp_find_option-encode_example = dhcp_find_option-encode 54 reply (7 ∷ []) reply_items
