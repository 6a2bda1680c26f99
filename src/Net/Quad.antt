-- ===== src/Net/Quad.antt =====
-- Dotted quads: what ipv4_parse accepts.
use hyper.Base.{
  ℕ, zero, suc, ◌+◌, ◌^◌, ◌<◌, ◌≡◌, refl, ap, Option, none, some, [], ◌∷◌, ◌++◌, Run, ok, panic,
  stuck, arith, All, length, Returns, ◌>>=◌, take, drop,
}
use hyper.Text.Ctype.{Bytes}
use hyper.Text.View.{sv_find, sv_offset_by, sv_starts_with}
use hyper.Text.View.Find.{IsFirst, sv_find-IsFirst, Occurs-le}
use hyper.Text.Convert.{
  consume_base, do_str_to_u64_unchecked, do_str_to_u64, str_to_u64_with_base, str_to_u8_with_base,
}
use hyper.Text.Convert.Safe.{unsigned_parsers_return, Below, offset_ok}
use hyper.Net.{next_octet, parse_octets, ipv4_parse, push_octet, complete}
use hyper.Net.Octets.{octet_text, octet_reads_back, next_octet_dot, next_octet_last}

-- The dotted text of four octets.
pub quad_text : ℕ → ℕ → ℕ → ℕ → Bytes
quad_text a b c d =
    octet_text a ++ b'.' ∷ (octet_text b ++ b'.' ∷ (octet_text c ++ b'.' ∷ octet_text d))

-- One octet and its dot.
parse_octets_dot :
    (n a : ℕ) (rest : Bytes)
    → a < 256
    → parse_octets (suc n) (octet_text a ++ b'.' ∷ rest)
      ≡ (parse_octets n rest >>= λ more. ok (push_octet a more))
unfolding parse_octets
parse_octets_dot n a rest h = rw (next_octet_dot a rest, octet_reads_back a h)

parse_octets_last :
    (n a : ℕ)
    → a < 256
    → parse_octets (suc n) (octet_text a) ≡ (parse_octets n [] >>= λ more. ok (push_octet a more))
unfolding parse_octets
parse_octets_last n a h = rw (next_octet_last a, octet_reads_back a h)

-- The dotted decimal text of four bytes is read back as these four bytes.
pub ipv4_parse-quad_text :
    (a b c d : ℕ)
    → a < 256
    → b < 256
    → c < 256
    → d < 256
    → ipv4_parse (quad_text a b c d) ≡ ok (some (a ∷ b ∷ c ∷ d ∷ []))
unfolding ipv4_parse quad_text
ipv4_parse-quad_text a b c d ha hb hc hd =
    rw
      (
        parse_octets_dot 3 a (octet_text b ++ b'.' ∷ (octet_text c ++ b'.' ∷ octet_text d)) ha,
        parse_octets_dot 2 b (octet_text c ++ b'.' ∷ octet_text d) hb,
        parse_octets_dot 1 c (octet_text d) hc,
        parse_octets_last 0 d hd,
      )
      (unfold parse_octets in refl)

empty_octet : parse_octets 1 [] ≡ ok (some (0 ∷ [], []))
unfolding parse_octets next_octet sv_find str_to_u8_with_base str_to_u64_with_base do_str_to_u64
    consume_base do_str_to_u64_unchecked sv_starts_with sv_offset_by
empty_octet = refl

-- The parser is more liberal than "a complete dotted quad": of four bytes in decimal a missing
-- fourth one reads as 0, and a dot may follow the fourth.
pub ipv4_parse_incomplete :
    (a b c d : ℕ)
    → a < 256
    → b < 256
    → c < 256
    → d < 256
    → (ipv4_parse (octet_text a ++ b'.' ∷ (octet_text b ++ b'.' ∷ octet_text c))
        ≡ ok (some (a ∷ b ∷ c ∷ 0 ∷ [])))
      × (ipv4_parse (
            octet_text a
            ++ b'.' ∷ (octet_text b ++ b'.' ∷ (octet_text c ++ b'.' ∷ (octet_text d ++ b'.' ∷ []))))
          ≡ ok (some (a ∷ b ∷ c ∷ d ∷ [])))
unfolding ipv4_parse
ipv4_parse_incomplete a b c d ha hb hc hd = (
  rw
      (
        parse_octets_dot 3 a (octet_text b ++ b'.' ∷ octet_text c) ha,
        parse_octets_dot 2 b (octet_text c) hb,
        parse_octets_last 1 c hc,
        empty_octet,
      )
      (unfold parse_octets in refl),
  rw
      (
        parse_octets_dot 3 a
            (octet_text b ++ b'.' ∷ (octet_text c ++ b'.' ∷ (octet_text d ++ b'.' ∷ []))) ha,
        parse_octets_dot 2 b (octet_text c ++ b'.' ∷ (octet_text d ++ b'.' ∷ [])) hb,
        parse_octets_dot 1 c (octet_text d ++ b'.' ∷ []) hc,
        parse_octets_dot 0 d [] hd,
      )
      (unfold parse_octets in refl),
)

next_octet_returns :
    (tail : Bytes) → (octet : Bytes) × (rest : Bytes) × (next_octet tail ≡ ok (octet, rest))
unfolding next_octet
next_octet_returns tail =
    go (sv_find tail (b'.' ∷ []) 0) refl (sv_find-IsFirst tail b'.' [] 0 (omega arith))
  where
    go :
        (r : Run (Option ℕ))
        → sv_find tail (b'.' ∷ []) 0 ≡ r
        → Returns (IsFirst tail (b'.' ∷ []) 0) (sv_find tail (b'.' ∷ []) 0)
        → (octet : Bytes) × (rest : Bytes) × (next_octet tail ≡ ok (octet, rest))
    go panic e h = absurd (rw e at h)
    go stuck e h = absurd (rw e at h)
    go (ok none) e h = (tail, [], rw e)
    go (ok (some k)) e h =
        let first : IsFirst tail (b'.' ∷ []) 0 (some k) = rw e at h in
        let fits = Occurs-le tail (b'.' ∷ []) k first.1 (λ p. cc) in
        (take k tail, drop (k + 1) tail, rw (e, offset_ok tail (k + 1) (omega arith)))

-- `n` octets, each a byte.
abbrev IsOctets : ℕ → Option (Bytes × Bytes) → Type 0
IsOctets n none = Unit {0}
IsOctets n (some (out, tail)) = (length out ≡ n) × All (λ v. v < 256) out

parse_octets-IsOctets : (n : ℕ) (tail : Bytes) → Returns (IsOctets n) (parse_octets n tail)
unfolding parse_octets
parse_octets-IsOctets zero tail = (refl, tt)
parse_octets-IsOctets (suc n) tail =
    let (octet, rest, e) = next_octet_returns tail in
    rw e (
      go (str_to_u8_with_base octet 10) (parse_octets n rest) ((unsigned_parsers_return octet 10).3)
        (parse_octets-IsOctets n rest))
  where
    go :
        (value : Run (Option ℕ)) (more : Run (Option (Bytes × Bytes)))
        → Returns (Below (2 ^ 8)) value
        → Returns (IsOctets n) more
        → Returns (IsOctets (suc n)) (
            value >>= λ v. elim v [ none ↦ ok none | some x ↦ (more >>= λ m. ok (push_octet x m)) ])
    go panic more h k = h
    go stuck more h k = h
    go (ok none) more h k = tt
    go (ok (some v)) panic h k = k
    go (ok (some v)) stuck h k = k
    go (ok (some v)) (ok none) h k = tt
    go (ok (some v)) (ok (some (out, tail'))) h k = (ap suc k.0, (h, k.1))

abbrev pub IsAddress : Option Bytes → Type 0
IsAddress none = Unit {0}
IsAddress (some ip) = (length ip ≡ 4) × All (λ v. v < 256) ip

-- On every text ipv4_parse returns, and an accepted address has four bytes.
pub ipv4_parse-IsAddress : (str : Bytes) → Returns IsAddress (ipv4_parse str)
unfolding ipv4_parse
ipv4_parse-IsAddress str = go (parse_octets 4 str) (parse_octets-IsOctets 4 str)
  where
    go :
        (r : Run (Option (Bytes × Bytes)))
        → Returns (IsOctets 4) r
        → Returns IsAddress (r >>= λ p. ok (complete p))
    go panic h = h
    go stuck h = h
    go (ok none) h = tt
    go (ok (some (out, []))) h = h
    go (ok (some (out, c ∷ tail))) h = tt
