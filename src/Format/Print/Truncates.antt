-- ===== src/Format/Print/Truncates.antt =====
-- What vsnprintf and vscnprintf of loader/common/format.c leave in a buffer of any size.
use hyper.Base.{ℕ, zero, suc, ◌-◌, min, Option, none, some, [], ◌∷◌, ◌++◌, length, take}
use hyper.Base.{Run, ok, panic, stuck, ◌>>=◌}
use hyper.Text.Ctype.{Bytes}
use hyper.Format.{put}

-- the memory behind the buffer after a text, `size` bytes of it the buffer
abbrev pub holds_text : Bytes → ℕ → Bytes → Bytes
holds_text buf zero t = buf
holds_text buf (suc n) t = put (take n t ++ 0 ∷ []) buf

-- what vsnprintf returns for a text
abbrev pub sized : Bytes → ℕ → Run (Option Bytes) → Run (Option (ℕ × Bytes))
sized buf size (ok none) = ok none
sized buf size (ok (some t)) = ok (some (length t, holds_text buf size t))
sized buf size panic = panic
sized buf size stuck = stuck

-- what vscnprintf returns for a text
abbrev pub clipped : Bytes → ℕ → Run (Option Bytes) → Run (Option (ℕ × Bytes))
clipped buf size (ok none) = ok none
clipped buf size (ok (some t)) = ok (some (min (length t) (size - 1), holds_text buf size t))
clipped buf size panic = panic
clipped buf size stuck = stuck
