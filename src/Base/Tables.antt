-- ===== src/Base/Tables.antt =====
-- Facts about the numbers under a bound, by checking each.
use Prim.Native.Nat.{ℕ, zero, suc, ◌<◌}
use mathlib.Core.Path.{◌≡◌}
use mathlib.Core.Bool.{Bool, true, false}
use native.Mathlib.Omega.{arith}
use native.Mathlib.Decide.{ℕ_discrete}
use givemail.Base.Tests.{◌==◌, if◌then◌else◌}

-- Whether `f` leaves each number under `bound` alone.
unfoldable pub fixes : (ℕ → ℕ) → ℕ → Bool
fixes f zero = true
fixes f (suc bound) = if f bound == bound then fixes f bound else false

pub eq_of_fixes : (f : ℕ → ℕ) (bound k : ℕ) → k < bound → fixes f bound ≡ true → f k ≡ k
unfolding fixes
eq_of_fixes f zero k lt h = absurd (omega arith)
eq_of_fixes f (suc bound) k lt h = elim (ℕ_discrete k bound) [
  | yes e ↦ rw e (ground arith)
  | no ne ↦ eq_of_fixes f bound k (omega arith) (ground arith)
]
