-- ===== src/Common/Faults.antt =====
-- The result of a piece of kernel code: a value, or the way in which it goes wrong.
use mathlib.Core.Path.{◌≡◌}
use mathlib.Core.Bool.{Bool, true, false}

pub data Fault : Type 0 where
  -- A spin lock that is never released is waited for.
  spins : Fault
  -- A shift by the width of the type or more, which C leaves undefined.
  bad_shift : Fault
  -- An access outside the array.
  out_of_bounds : Fault
  -- A null pointer is followed.
  null_pointer : Fault
  -- Freed or uninitialised memory is read as a pointer.
  dangling : Fault
  -- A remainder by zero.
  division_by_zero : Fault

-- A fault ends the run; what follows it is not reached.
pub data Run {ℓ} (V : Type ℓ) : Type ℓ where
  fault : Fault → Run V
  ok : V → Run V

infixl 5 ◌>>=◌ ◌>>◌
abbrev pub ◌>>=◌ {ℓ κ} : {V : Type ℓ} {W : Type κ} → Run V → (V → Run W) → Run W
◌>>=◌ (fault e) rest = fault e
◌>>=◌ (ok v) rest = rest v

abbrev pub ◌>>◌ {ℓ} : {B : Type ℓ} → Run (Unit {0}) → Run B → Run B
m >> k = m >>= λ _. k

-- The access is inside the array.
abbrev pub check : Bool → Fault → Run (Unit {0})
check true e = ok tt
check false e = fault e

-- The run ends normally, in a value that satisfies `Post`.
abbrev pub Returns {ℓ κ} : {V : Type ℓ} → Run V → (V → Type κ) → Type (ℓ ⊔ κ)
Returns {V} run Post = (v : V) × (run ≡ ok v) × Post v
