-- ===== src/Base/Tables.antt =====
-- A property of every number below a bound, checked by evaluation.
use Prim.Native.Nat.{ℕ, zero, suc, ◌<◌}
use mathlib.Core.Path.{◌≡◌}
use mathlib.Core.Bool.{Bool, true, false}
use native.Mathlib.Omega.{arith}
use ton_labs_types.Base.Tests.{if◌then◌else◌}

unfoldable pub all_below : (bound : ℕ) (test : ℕ → Bool) → Bool
all_below zero test = true
all_below (suc bound) test = if test bound then all_below bound test else false

module _ (test : ℕ → Bool) where
  entry : (bound i : ℕ) → i < bound → all_below bound test ≡ true → test i ≡ true
  unfolding all_below
  entry zero i within table = absurd (omega arith)
  entry (suc bound) i within table = ground (arith, entry bound i)

pub all_below_sound :
    (bound : ℕ) (test : ℕ → Bool) (i : ℕ) → all_below bound test ≡ true → i < bound → test i ≡ true
all_below_sound bound test i table within = entry test bound i within table
