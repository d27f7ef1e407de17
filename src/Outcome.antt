-- ===== src/Outcome.antt =====
-- How a call of a C function ends when it may call `exit`: in a value, or in the end of the process
-- with an exit code.
use cpe_networking_rejective.Prelude.Int.{ℤ, negsuc}

pub data Outcome {ℓ} (A : Type ℓ) : Type ℓ where
  returns : A → Outcome A
  exits : ℤ → Outcome A

-- `exit(-1)`.
abbrev pub minus_one : ℤ
minus_one = negsuc 0

infixl 5 ◌>>=◌
abbrev pub ◌>>=◌ {ℓ κ} : {A : Type ℓ} {B : Type κ} → Outcome A → (A → Outcome B) → Outcome B
returns a >>= f = f a
exits code >>= f = exits code
