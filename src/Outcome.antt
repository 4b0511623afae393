-- ===== src/Outcome.antt =====
-- How a call of the C++ code ends: it returns, it calls `exit`, or its behaviour is undefined
-- (a null pointer is followed, an array index is out of range, an unset buffer is read).
use naive_file_system.Prelude.{◌≡◌}

pub data Outcome {ℓ} (A : Type ℓ) : Type ℓ where
  ret : A → Outcome A
  exits : Outcome A
  undefined : Outcome A

infixl 5 ◌>>=◌
abbrev pub ◌>>=◌ {ℓ κ} : {A : Type ℓ} {B : Type κ} → Outcome A → (A → Outcome B) → Outcome B
ret a >>= f = f a
exits >>= f = exits
undefined >>= f = undefined

-- The call returns, with a value that satisfies `P`.
abbrev pub Returns {ℓ κ} : {A : Type ℓ} → Outcome A → (A → Type κ) → Type (ℓ ⊔ κ)
Returns {A} r P = (a : A) × (r ≡ ret a) × P a
