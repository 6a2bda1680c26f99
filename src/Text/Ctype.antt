-- ===== src/Text/Ctype.antt =====
-- loader/include/common/ctype.h over bytes. A `char` above 127 is no letter and no digit, whether the
-- target's `char` is signed or not.
use hyper.Base.{ℕ, ◌+◌, ◌-◌, Bool, ◌&&◌, ◌||◌, leb, if◌then◌else◌, List, map}

-- the bytes that a string view shows
abbrev pub Bytes : Type 0
Bytes = List ℕ

abbrev pub isupper : ℕ → Bool
isupper c = leb b'A' c && leb c b'Z'

abbrev pub islower : ℕ → Bool
islower c = leb b'a' c && leb c b'z'

abbrev pub isdigit : ℕ → Bool
isdigit c = leb b'0' c && leb c b'9'

abbrev pub isalnum : ℕ → Bool
isalnum c = isupper c || islower c || isdigit c

-- LOWER_TO_UPPER_OFFSET is 'a' - 'A' = 32.
abbrev pub tolower : ℕ → ℕ
tolower c = if isupper c then c + 32 else c

abbrev pub toupper : ℕ → ℕ
toupper c = if islower c then c - 32 else c

unfoldable pub str_tolower : Bytes → Bytes
str_tolower s = map tolower s

unfoldable pub str_toupper : Bytes → Bytes
str_toupper s = map toupper s
