-- ===== src/Shared/Tables.antt =====
-- Facts about bytes, checked at every value.
use Prim.Native.Nat.{ℕ, zero, suc, ◌<◌}
use mathlib.Core.Path.{◌≡◌}
use mathlib.Core.Bool.{Bool, true, ◌&&◌}
use native.Mathlib.Omega.{arith}

-- The test passes at every number below the bound.
unfoldable pub holds_below : ℕ → (ℕ → Bool) → Bool
holds_below zero test = true
holds_below (suc bound) test = holds_below bound test && test bound

pub holds_at :
    (bound : ℕ) (test : ℕ → Bool) (value : ℕ)
    → holds_below bound test ≡ true
    → value < bound
    → test value ≡ true
unfolding holds_below
holds_at zero test value passed below = absurd (omega arith)
holds_at (suc bound) test value passed below = ground (arith, holds_at bound test value)
