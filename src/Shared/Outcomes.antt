-- ===== src/Shared/Outcomes.antt =====
-- Code that can panic: the result of a run, or `panic`. A panic ends the kernel (`panic.rs` halts
-- the CPU), so nothing catches it.
use mathlib.Core.Bool.{Bool, true, false}
use mathlib.Core.Option.{Option, none, some}

pub data Outcome {ℓ} (A : Type ℓ) : Type ℓ where
  panic : Outcome A
  ok : A → Outcome A

-- What follows a run that returned.
infixl 5 ◌>>=◌
abbrev pub ◌>>=◌ {ℓ κ} : {A : Type ℓ} {B : Type κ} → Outcome A → (A → Outcome B) → Outcome B
panic >>= next = panic
ok value >>= next = next value

-- `Option::unwrap` and `Option::expect`
abbrev pub unwrap {ℓ} : {A : Type ℓ} → Option A → Outcome A
unwrap none = panic
unwrap (some value) = ok value

infixl 5 ◌>>◌
abbrev pub ◌>>◌ {ℓ} : {B : Type ℓ} → Outcome (Unit {0}) → Outcome B → Outcome B
panic >> rest = panic
ok done >> rest = rest

-- `assert!`
abbrev pub assert : Bool → Outcome (Unit {0})
assert false = panic
assert true = ok tt
