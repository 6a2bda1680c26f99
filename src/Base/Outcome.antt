-- ===== src/Base/Outcome.antt =====
-- Runs that may not return: `panic` is BUG(), DIE() and oops(), all of which stop the loader
-- (loader/include/common/bug.h, loader/common/panic.c). `stuck` belongs to the model: a loop ran out
-- of fuel, or a read went past the end of its memory.
use mathlib.Core.Bool.{Bool, true, false}
use mathlib.Core.Path.{◌≡◌, refl}

pub data Run {ℓ} (A : Type ℓ) : Type ℓ where
  ok : A → Run A
  panic : Run A
  stuck : Run A

infixl 5 ◌>>=◌ ◌>>◌
abbrev pub ◌>>=◌ {κ ι} : {V : Type κ} {W : Type ι} → Run V → (V → Run W) → Run W
panic >>= next = panic
stuck >>= next = stuck
ok v >>= next = next v

abbrev pub ◌>>◌ {ι} : {W : Type ι} → Run (Unit {0}) → Run W → Run W
m >> k = m >>= λ _. k

-- BUG_ON(b), DIE_ON(b), OOPS_ON(b)
abbrev pub bug_on : Bool → Run (Unit {0})
bug_on true = panic
bug_on false = ok tt

-- The run returns, with a value of which `P` holds.
abbrev pub Returns {ℓ} : {A : Type ℓ} → (A → Type 0) → Run A → Type 0
Returns P (ok a) = P a
Returns P panic = ⊥
Returns P stuck = ⊥

-- The same with the value at hand, to rewrite by.
pub returned {ℓ} :
    {A : Type ℓ} (P : A → Type 0) (m : Run A) → Returns P m → (x : A) × (m ≡ ok x) × P x
returned P (ok x) h = (x, refl, h)
returned P panic h = elim h [ ]
returned P stuck h = elim h [ ]
